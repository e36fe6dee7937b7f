-- ===== src/Strings/Copy.antt =====
-- `memset`, `memcpy` and `memmove` do what one assignment of all bytes at once would do.
use red_panda_os.Prelude.{
  ℕ, zero, suc, ◌+◌, ◌-◌, ◌*◌, ◌/◌, ◌%◌, ◌≤◌, ◌<◌, bit_and, ◌≡◌, refl, fun_ext, subst, ◌⊎◌, inl,
  inr, Bool, ◌&&◌, arith, ltb, leb, ◌==◌, if◌then◌else◌, Bool-cases, u8, u32, shr,
}
use red_panda_os.Strings.{
  Memory, poke, poke32, fill_bytes, fill_words, fill_head, copy_head, memcpy, peek32, memset,
  copy_bytes, copy_words, copy_down, memmove,
}

-- Whether the address lies among the `n` from `d` on.
abbrev pub within : ℕ → ℕ → ℕ → Bool
within d n a = leb d a && ltb a (d + n)

fill_bytes_lem :
    (n : ℕ) (m : Memory) (d v a : ℕ) → fill_bytes n m d v a ≡ (if within d n a then v else m a)
unfolding fill_bytes
fill_bytes_lem zero m d v a = ground arith
fill_bytes_lem (suc n) m d v a = ground (arith, fill_bytes_lem n (poke m d v) (d + 1) v a)

fill_words_lem :
    (n : ℕ) (m : Memory) (d v a : ℕ)
    → v < 256
    → fill_words n m d (u32 (v * 0x01010101)) a ≡ (if within d (4 * n) a then v else m a)
unfolding fill_words
fill_words_lem zero m d v a h = ground arith
fill_words_lem (suc n) m d v a h =
    ground (arith, fill_words_lem n (poke32 m d (u32 (v * 0x01010101))) (d + 4) v a)

record Headed (count : ℕ) (m : Memory) (d v : ℕ) (r : Memory × ℕ × ℕ) : Type 0 where
  split : r.1 + r.2 ≡ d + count
  after : d ≤ r.1
  bytes : (a : ℕ) → r.0 a ≡ (if within d (r.1 - d) a then v else m a)

fill_head-Headed : (count : ℕ) (m : Memory) (d v : ℕ) → Headed count m d v (fill_head count m d v)
unfolding fill_head
fill_head-Headed zero m d v = record {
  split = refl;
  after = omega arith;
  bytes = λ a. ground arith;
}
fill_head-Headed (suc count) m d v = elim (Bool-cases (bit_and d 3 == 0)) [
  | inl aligned ↦
      rw (aligned, fill_head)
        (record { split = refl; after = omega arith; bytes = λ a. ground arith })
  | inr odd ↦
      let h = fill_head-Headed count (poke m d v) (d + 1) v in
      rw (odd, fill_head)
        (record {
          split = omega (arith, h.split);
          after = omega (arith, h.after);
          bytes = λ a. ground (arith, h.bytes a, h.after, poke);
        })
]

memset_lem :
    (m : Memory) (dest value count a : ℕ)
    → memset m dest value count a ≡ (if within dest count a then u8 value else m a)
unfolding memset
memset_lem m dest value count a =
    let v = u8 value in
    let h = fill_head-Headed count m dest v in
    let (m1, d, left) = fill_head count m dest v in
    let m2 = fill_words (left / 4) m1 d (u32 (v * 0x01010101)) in
    ground (
      arith,
      h.bytes a,
      h.split,
      h.after,
      fill_words_lem (left / 4) m1 d v a (omega arith),
      fill_bytes_lem (left % 4) m2 (d + 4 * (left / 4)) v a,
    )

-- A copy that runs upwards is right when it does not write into source bytes still to be read.
copy_bytes_lem :
    (n : ℕ) (m : Memory) (d s a : ℕ)
    → (d ≤ s) ⊎ (s + n ≤ d)
    → copy_bytes n m d s a ≡ (if within d n a then m (s + (a - d)) else m a)
unfolding copy_bytes
copy_bytes_lem zero m d s a h = ground arith
copy_bytes_lem (suc n) m d s a h =
    ground (arith, copy_bytes_lem n (poke m d (m s)) (d + 1) (s + 1) a)

copy_down_lem :
    (n : ℕ) (m : Memory) (d s a : ℕ)
    → s < d
    → copy_down n m d s a ≡ (if within d n a then m (s + (a - d)) else m a)
unfolding copy_down
copy_down_lem zero m d s a h = ground arith
copy_down_lem (suc n) m d s a h =
    ground (arith, copy_down_lem n (poke m (d + n) (m (s + n))) d s a h)

memmove_lem :
    (m : Memory) (dest src count a : ℕ)
    → memmove m dest src count a ≡ (if within dest count a then m (src + (a - dest)) else m a)
unfolding memmove
memmove_lem m dest src count a =
    ground (arith, copy_bytes_lem count m dest src a, copy_down_lem count m dest src a)

-- Every address holds a byte.
abbrev pub AllBytes : Memory → Type 0
AllBytes m = (a : ℕ) → m a < 256

word_bytes :
    (m : Memory) (s : ℕ)
    → AllBytes m
    → (u8 (peek32 m s) ≡ m s)
      × (u8 (shr (peek32 m s) 8) ≡ m (s + 1))
      × (u8 (shr (peek32 m s) 16) ≡ m (s + 2))
      × (u8 (shr (peek32 m s) 24) ≡ m (s + 3))
unfolding peek32
word_bytes m s h = omega (arith, h s, h (s + 1), h (s + 2), h (s + 3))

-- One word is four bytes.
copy_word :
    (m : Memory) (d s : ℕ)
    → AllBytes m
    → (d + 4 ≤ s) ⊎ (s + 4 ≤ d)
    → poke32 m d (peek32 m s) ≡ copy_bytes 4 m d s
unfolding poke32 copy_bytes
copy_word m d s h apart = fun_ext λ a. ground (arith, word_bytes m s h)

poke-AllBytes : (m : Memory) (d v : ℕ) → v < 256 → AllBytes m → AllBytes (poke m d v)
unfolding poke
poke-AllBytes m d v small h a = ground (arith, h a)

copy_bytes-AllBytes : (n : ℕ) (m : Memory) (d s : ℕ) → AllBytes m → AllBytes (copy_bytes n m d s)
unfolding copy_bytes
copy_bytes-AllBytes zero m d s h = h
copy_bytes-AllBytes (suc n) m d s h =
    copy_bytes-AllBytes n (poke m d (m s)) (d + 1) (s + 1) (poke-AllBytes m d (m s) (h s) h)

copy_words_lem :
    (n : ℕ) (m : Memory) (d s : ℕ)
    → AllBytes m
    → (d + 4 * n ≤ s) ⊎ (s + 4 * n ≤ d)
    → (a : ℕ) → copy_words n m d s a ≡ (if within d (4 * n) a then m (s + (a - d)) else m a)
unfolding copy_words
copy_words_lem zero m d s h apart a = ground arith
copy_words_lem (suc n) m d s h apart a =
    let one = copy_word m d s h (omega arith) in
    let m' = copy_bytes 4 m d s in
    let ih = copy_words_lem n m' (d + 4) (s + 4) (copy_bytes-AllBytes 4 m d s h) (omega arith) a in
    rw one
      (ground (arith, ih, copy_bytes_lem 4 m d s a, copy_bytes_lem 4 m d s (s + 4 + (a - (d + 4)))))

record HeadCopied (count : ℕ) (m : Memory) (d s : ℕ) (r : Memory × ℕ × ℕ × ℕ) : Type 0 where
  split : r.1 + r.3 ≡ d + count
  after : d ≤ r.1
  together : r.2 + d ≡ s + r.1
  copied : r.0 ≡ copy_bytes (r.1 - d) m d s

none_copied : (count : ℕ) (m : Memory) (d s : ℕ) → HeadCopied count m d s (m, d, s, count)
unfolding copy_bytes
none_copied count m d s =
    let z : d - d ≡ 0 = omega arith in
    record { split = refl; after = omega arith; together = refl; copied = rw z refl }

copy_head-HeadCopied :
    (count : ℕ) (m : Memory) (d s : ℕ) → HeadCopied count m d s (copy_head count m d s)
unfolding copy_head copy_bytes
copy_head-HeadCopied zero m d s = none_copied zero m d s
copy_head-HeadCopied (suc count) m d s = elim (Bool-cases (bit_and d 3 == 0)) [
  | inl aligned ↦ rw (aligned, copy_head) (none_copied (suc count) m d s)
  | inr odd ↦
      let h = copy_head-HeadCopied count (poke m d (m s)) (d + 1) (s + 1) in
      let r = copy_head count (poke m d (m s)) (d + 1) (s + 1) in
      let more : r.1 - d ≡ suc (r.1 - (d + 1)) = omega (arith, h.after) in
      rw (odd, copy_head)
        (record {
          split = omega (arith, h.split);
          after = omega (arith, h.after);
          together = omega (arith, h.together);
          copied = rw more h.copied;
        })
]

-- `m1` is `m` with the first `n` bytes copied.
abbrev Copied : Memory → ℕ → ℕ → ℕ → Memory → Type 0
Copied m d s n m1 = (a : ℕ) → m1 a ≡ (if within d n a then m (s + (a - d)) else m a)

Copied-extend :
    (m : Memory) (d s n k d' s' : ℕ) (m1 m2 : Memory)
    → d' ≡ d + n
    → s' ≡ s + n
    → (d + (n + k) ≤ s) ⊎ (s + (n + k) ≤ d)
    → Copied m d s n m1
    → Copied m1 d' s' k m2
    → Copied m d s (n + k) m2
Copied-extend m d s n k d' s' m1 m2 ed es apart first then' a =
    ground (arith, then' a, first a, first (s' + (a - d')))

memcpy_words :
    (m : Memory) (dest src count : ℕ)
    → AllBytes m
    → (dest + count ≤ src) ⊎ (src + count ≤ dest)
    → let (m1, d, s, left) = copy_head count m dest src in
      Copied m dest src count (
        copy_bytes
          (left % 4)
          (copy_words (left / 4) m1 d s)
          (d + 4 * (left / 4))
          (s + 4 * (left / 4)))
memcpy_words m dest src count bytes apart =
    let h = copy_head-HeadCopied count m dest src in
    let (m1, d, s, left) = copy_head count m dest src in
    let n = d - dest in
    let w = left / 4 in
    let b1 : AllBytes m1 = rw h.copied (copy_bytes-AllBytes n m dest src bytes) in
    let m2 = copy_words w m1 d s in
    let m3 = copy_bytes (left % 4) m2 (d + 4 * w) (s + 4 * w) in
    let c1 : Copied m dest src n m1 =
      λ a. rw h.copied (copy_bytes_lem n m dest src a (omega (arith, h.split, h.after))) in
    let c2 : Copied m dest src (n + 4 * w) m2 =
      Copied-extend m dest src n (4 * w) d s m1 m2 (omega (arith, h.after))
        (omega (arith, h.after, h.together)) (omega (arith, h.split, h.after)) c1
        (copy_words_lem w m1 d s b1 (omega (arith, h.split, h.after, h.together))) in
    let c3 : Copied m dest src (n + 4 * w + left % 4) m3 =
      Copied-extend m dest src (n + 4 * w) (left % 4) (d + 4 * w) (s + 4 * w) m2 m3
        (omega (arith, h.after)) (omega (arith, h.after, h.together))
        (omega (arith, h.split, h.after)) c2
        (λ a.
          copy_bytes_lem (left % 4) m2 (d + 4 * w) (s + 4 * w) a
            (omega (arith, h.split, h.after, h.together))) in
    let all : n + 4 * w + left % 4 ≡ count = omega (arith, h.split, h.after) in
    subst (λ k. Copied m dest src k m3) all c3

memcpy_lem :
    (m : Memory) (dest src count a : ℕ)
    → AllBytes m
    → (dest + count ≤ src) ⊎ (src + count ≤ dest)
    → memcpy m dest src count a ≡ (if within dest count a then m (src + (a - dest)) else m a)
unfolding memcpy
memcpy_lem m dest src count a bytes apart = elim (Bool-cases (bit_and dest 3 == bit_and src 3)) [
  | inr bytewise ↦ rw bytewise (copy_bytes_lem count m dest src a (omega arith))
  | inl words ↦ rw words (memcpy_words m dest src count bytes apart a)
]

-- `memset` sets exactly the `count` bytes from `dest` on to the low byte of `value`, whatever the
-- alignment; `memcpy` of two regions that do not overlap copies exactly the `count` bytes, on the
-- word path and on the byte path alike; and `memmove` copies the `count` bytes as they were before
-- the call, however its regions overlap, and changes no other byte.
pub copies_lem :
    (m : Memory) (dest src value count a from : ℕ)
    → AllBytes m
    → (dest + count ≤ src) ⊎ (src + count ≤ dest)
    → (memset m dest value count a ≡ (if within dest count a then u8 value else m a))
      × (memcpy m dest src count a ≡ (if within dest count a then m (src + (a - dest)) else m a))
      × (memmove m dest from count a ≡ (if within dest count a then m (from + (a - dest)) else m a))
copies_lem m dest src value count a from bytes apart = (
  memset_lem m dest value count a,
  memcpy_lem m dest src count a bytes apart,
  memmove_lem m dest from count a,
)
