-- ===== src/Strings.antt =====
-- kernel/string.c. The comparing functions read two sequences of bytes; a sequence that ends stands
-- for one with a terminator behind it. The copying functions work on a memory, the function from an
-- address to its byte; a 32-bit store writes four bytes, the lowest first.
pub mod Compare
pub mod Copy
mod Tests
use red_panda_os.Prelude.{
  ℕ, zero, suc, ◌+◌, ◌-◌, ◌*◌, ◌/◌, ◌%◌, ◌^◌, ◌≤◌, ◌<◌, min, max, bit_and, bit_or, bit_xor, ◌≡◌,
  refl, sym, ap, ap₂, ◌∙◌, fun_ext, subst, ◌≢◌, ◌↔◌, ◌⊎◌, inl, inr, Bool, true, false, not, ◌&&◌,
  ◌||◌, Option, none, some, List, [], ◌∷◌, ◌++◌, map, arith, ltb, leb, ◌==◌, if◌then◌else◌, ltb→lt,
  lt→ltb, leb→le, ==_iff, tests, Bool-cases, Option-cases, length, get_elem?, get_or, set, take,
  drop, replicate, length-append, length-set, length-take, length-drop, length-replicate,
  take-append-drop, get_elem?-set_self, get_elem?-set_ne, length-map, u8, u16, u32, u64, sub32, shr,
  shl,
}
use red_panda_os.Prelude.Int.{ℤ, pos, sub_ℕ}

-- The character that a pointer is at.
unfoldable pub head_or_nul : List ℕ → ℕ
head_or_nul [] = 0
head_or_nul (x ∷ _) = x

unfoldable pub strlen : List ℕ → ℕ
strlen [] = 0
strlen (x ∷ xs) = if x == 0 then 0 else strlen xs + 1

unfoldable pub strcmp : List ℕ → List ℕ → ℤ
unfolding head_or_nul
strcmp [] bs = sub_ℕ 0 (head_or_nul bs)
strcmp (x ∷ xs) [] = sub_ℕ x 0
strcmp (x ∷ xs) (y ∷ ys) = if not (x == 0) && (x == y) then strcmp xs ys else sub_ℕ x y

unfoldable pub strncmp : List ℕ → List ℕ → ℕ → ℤ
unfolding head_or_nul
strncmp xs ys zero = pos 0
strncmp [] bs (suc n) = sub_ℕ 0 (head_or_nul bs)
strncmp (x ∷ xs) [] (suc n) = sub_ℕ x 0
strncmp (x ∷ xs) (y ∷ ys) (suc n) = if not (x == 0) && (x == y) then strncmp xs ys n else sub_ℕ x y

-- The two regions hold at least `count` bytes; one that ends reads as zeros.
unfoldable pub memcmp : List ℕ → List ℕ → ℕ → ℤ
unfolding head_or_nul
memcmp xs ys zero = pos 0
memcmp xs ys (suc n) =
    if not (head_or_nul xs == head_or_nul ys)
    then sub_ℕ (head_or_nul xs) (head_or_nul ys)
    else memcmp (drop 1 xs) (drop 1 ys) n

abbrev pub Memory : Type 0
Memory = ℕ → ℕ

unfoldable pub poke : Memory → ℕ → ℕ → Memory
poke m a v b = if a == b then v else m b

-- `*d32 = v` at an aligned address
unfoldable pub poke32 : Memory → ℕ → ℕ → Memory
unfolding poke
poke32 m a v =
    poke (poke (poke (poke m a (u8 v)) (a + 1) (u8 (shr v 8))) (a + 2) (u8 (shr v 16))) (a + 3)
      (u8 (shr v 24))

-- `*s32`
unfoldable pub peek32 : Memory → ℕ → ℕ
peek32 m a = m a + shl (m (a + 1)) 8 + shl (m (a + 2)) 16 + shl (m (a + 3)) 24

-- `while (count--) *d++ = v`
unfoldable pub fill_bytes : ℕ → Memory → ℕ → ℕ → Memory
unfolding poke
fill_bytes zero m d v = m
fill_bytes (suc count) m d v = fill_bytes count (poke m d v) (d + 1) v

-- `while (count >= 4)`, as many rounds as there are whole words
unfoldable pub fill_words : ℕ → Memory → ℕ → ℕ → Memory
unfolding poke32
fill_words zero m d v32 = m
fill_words (suc words) m d v32 = fill_words words (poke32 m d v32) (d + 4) v32

-- `while (count && (d & 3))`: the memory, the pointer and the count after it.
unfoldable pub fill_head : ℕ → Memory → ℕ → ℕ → Memory × ℕ × ℕ
unfolding poke
fill_head zero m d v = (m, d, 0)
fill_head (suc count) m d v =
    if bit_and d 3 == 0 then (m, d, suc count) else fill_head count (poke m d v) (d + 1) v

unfoldable pub memset : Memory → ℕ → ℕ → ℕ → Memory
memset m dest value count =
    let v = u8 value in
    let (m1, d, left) = fill_head count m dest v in
    let m2 = fill_words (left / 4) m1 d (u32 (v * 0x01010101)) in
    fill_bytes (left % 4) m2 (d + 4 * (left / 4)) v

unfoldable pub copy_bytes : ℕ → Memory → ℕ → ℕ → Memory
unfolding poke
copy_bytes zero m d s = m
copy_bytes (suc count) m d s = copy_bytes count (poke m d (m s)) (d + 1) (s + 1)

unfoldable pub copy_words : ℕ → Memory → ℕ → ℕ → Memory
unfolding poke32 peek32
copy_words zero m d s = m
copy_words (suc words) m d s = copy_words words (poke32 m d (peek32 m s)) (d + 4) (s + 4)

-- The same loop for a copy, with the source pointer too.
unfoldable pub copy_head : ℕ → Memory → ℕ → ℕ → Memory × ℕ × ℕ × ℕ
unfolding poke
copy_head zero m d s = (m, d, s, 0)
copy_head (suc count) m d s =
    if bit_and d 3 == 0
    then (m, d, s, suc count)
    else copy_head count (poke m d (m s)) (d + 1) (s + 1)

unfoldable pub memcpy : Memory → ℕ → ℕ → ℕ → Memory
memcpy m dest src count =
    let (m1, d, s, left) = copy_head count m dest src in
    let m2 = copy_words (left / 4) m1 d s in
    if bit_and dest 3 == bit_and src 3
    then copy_bytes (left % 4) m2 (d + 4 * (left / 4)) (s + 4 * (left / 4))
    else copy_bytes count m dest src

-- `while (count--) *--d = *--s`, from the ends
unfoldable pub copy_down : ℕ → Memory → ℕ → ℕ → Memory
unfolding poke
copy_down zero m d s = m
copy_down (suc count) m d s = copy_down count (poke m (d + count) (m (s + count))) d s

unfoldable pub memmove : Memory → ℕ → ℕ → ℕ → Memory
memmove m dest src count =
    if ltb dest src
    then copy_bytes count m dest src
    else if ltb src dest
    then copy_down count m dest src
    else m
