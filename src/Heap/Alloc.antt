-- ===== src/Heap/Alloc.antt =====
-- `kmalloc` allocates a block of its own and leaves the other allocated blocks alone.
use red_panda_os.Prelude.{
  ℕ, zero, suc, ◌+◌, ◌-◌, ◌*◌, ◌/◌, ◌^◌, ◌≤◌, ◌<◌, bit_and, ◌≡◌, refl, ◌⊎◌, inl, inr, Bool, true,
  false, not, ◌&&◌, ◌||◌, none, some, List, [], ◌∷◌, ◌++◌, arith, ltb, leb, ◌==◌, leb→le,
  Bool-cases, Option-cases, u32, sub32,
}
use red_panda_os.Prelude.Bits.{bit_and_step, bit_and_mask}
use red_panda_os.Heap.{
  Heap, Block, FrameSource, heap_base, header, split, fit, expand, expand_pages, attempts, kmalloc,
  align8,
}
use red_panda_os.Heap.Expand.{Room, expand-Expands}
use red_panda_os.Heap.Blocks.{Tiles, top, IsValid, live, Tiles-le}

-- The mask of the code clears the three low bits.
low_three_cleared : (n : ℕ) → n < 2 ^ 32 → bit_and n (2 ^ 32 - 1 - 7) ≡ n / 8 * 8
low_three_cleared n h = omega (
  arith,
  bit_and_step n (2 ^ 32 - 1 - 7),
  bit_and_step (n / 2) (2 ^ 31 - 1 - 3),
  bit_and_step (n / 2 / 2) (2 ^ 30 - 1 - 1),
  bit_and_mask 29 (n / 2 / 2 / 2),
)

-- The list `ys` is `xs` with one entry more: a block whose payload starts at `p` and holds at
-- least `want` bytes.
pub record Inserted (want p : ℕ) (xs ys : List (ℕ × ℕ)) : Type 0 where
  pub front : List (ℕ × ℕ)
  pub back : List (ℕ × ℕ)
  pub size : ℕ
  pub old : xs ≡ front ++ back
  pub new : ys ≡ front ++ ((p - header, size) ∷ back)
  pub enough : want ≤ size
  pub not_null : header < p

record Fits (want p a : ℕ) (bs : List Block) (e : ℕ) (cs : List Block) : Type 0 where
  tiles : Tiles a cs e
  inserted : Inserted want p (live bs) (live cs)

module _ (want : ℕ) where
  Fits-here :
      (b : Block) (rest : List Block) (a e : ℕ)
      → 20 ≤ a
      → e < top
      → Tiles a (b ∷ rest) e
      → b.free ≡ true
      → want ≤ b.size
      → Fits want (u32 (b.addr + header)) a (b ∷ rest) e (split want b ++ rest)
  unfolding split
  Fits-here b rest a e low h t f enough =
      let end = Tiles-le (a + header + b.size) rest e t.1 in
      let at : u32 (b.addr + header) - header ≡ b.addr = omega (arith, t.0) in
      let left : u32 (want + header + 8) ≤ b.size
          → a + header + want + header + sub32 (sub32 b.size want) header ≡ a + header + b.size =
        λ q. omega (arith, t.0) in
      elim (Bool-cases (leb (u32 (want + header + 8)) b.size)) [
        | inl big ↦ rw big (record {
          tiles = (t.0, (omega arith, rw (left (leb→le _ _ big)) t.1));
          inserted = record {
            front = [];
            back = live rest;
            size = want;
            old = rw f;
            new = rw at;
            enough = omega arith;
            not_null = omega arith;
          };
        })
        | inr small ↦ rw small (record {
          tiles = t;
          inserted = record {
            front = [];
            back = live rest;
            size = b.size;
            old = rw f;
            new = rw at;
            enough = enough;
            not_null = omega arith;
          };
        })
      ]

  Fits-there :
      (b : Block) (rest : List Block) (a e p : ℕ) (cs : List Block)
      → b.addr ≡ a
      → Fits want p (a + header + b.size) rest e cs
      → Fits want p a (b ∷ rest) e (b ∷ cs)
  Fits-there b rest a e p cs at r =
      let i = r.inserted in
      elim (Bool-cases b.free) [
        | inl f ↦ record {
          tiles = (at, r.tiles);
          inserted = record {
            front = i.front;
            back = i.back;
            size = i.size;
            old = rw f i.old;
            new = rw f i.new;
            enough = i.enough;
            not_null = i.not_null;
          };
        }
        | inr u ↦ record {
          tiles = (at, r.tiles);
          inserted = record {
            front = (b.addr, b.size) ∷ i.front;
            back = i.back;
            size = i.size;
            old = rw (u, i.old);
            new = rw (u, i.new);
            enough = i.enough;
            not_null = i.not_null;
          };
        }
      ]

  fit-Fits :
      (bs : List Block) (a e p : ℕ) (cs : List Block)
      → 20 ≤ a
      → e < top
      → Tiles a bs e
      → fit want bs ≡ some (p, cs)
      → Fits want p a bs e cs
  unfolding fit
  fit-Fits [] a e p cs low h t q = absurd (cc)
  fit-Fits (b ∷ rest) a e p cs low h t q = elim (Bool-cases (not b.free || ltb b.size want)) [
    | inl skip ↦ elim (Option-cases (fit want rest)) [
      | inl nothing ↦ let q' : none ≡ some (p, cs) = rw (skip, nothing) at q in absurd (cc)
      | inr ((p', cs'), found) ↦
          let q' : some (p', b ∷ cs') ≡ some (p, cs) = rw (skip, found) at q in
          let ep : p' ≡ p = cc in
          let ec : b ∷ cs' ≡ cs = cc in
          rw (← ep, ← ec)
            (Fits-there b rest a e p' cs' t.0
              (fit-Fits rest (a + header + b.size) e p' cs' (omega arith) h t.1 found))
    ]
    | inr here ↦
        let q' : some (u32 (b.addr + header), split want b ++ rest) ≡ some (p, cs) = rw here at q in
        let ep : u32 (b.addr + header) ≡ p = cc in
        let ec : split want b ++ rest ≡ cs = cc in
        rw (← ep, ← ec) (Fits-here b rest a e low h t (ground arith) (ground arith))
  ]

-- What `kmalloc` may do: return a block of its own, or return null; the allocated blocks are
-- otherwise as they were.
pub record Allocates {S : Type 0} (h : Heap) (want : ℕ) (r : ℕ × Heap × S) : Type 0 where
  pub valid : IsValid r.1
  pub result :
      Inserted want r.0 (live h.blocks) (live r.1.blocks)
      ⊎ ((r.0 ≡ 0) × (live r.1.blocks ≡ live h.blocks))

module _ {S : Type 0} (source : FrameSource S) (want : ℕ) where
  attempts-Allocates :
      (n : ℕ) (h : Heap) (s : S)
      → IsValid h
      → Room (n * expand_pages want) h
      → Allocates h want (attempts source n want (h, s))
  unfolding attempts
  attempts-Allocates zero h s v room = record { valid = v; result = inr (refl, refl) }
  attempts-Allocates (suc n) h s v room = elim (Option-cases (fit want h.blocks)) [
    | inr ((p, cs), found) ↦
        let f =
          fit-Fits want h.blocks heap_base (heap_base + h.mapped) p cs (omega arith) v.in_memory
            v.tiles found in
        rw (found, attempts)
          (record {
            valid = record { tiles = f.tiles; in_memory = v.in_memory };
            result = inl f.inserted;
          })
    | inl nothing ↦
        let x = expand source want (h, s) in
        let ex = expand-Expands source want h s v (grind arith) in
        elim (Bool-cases x.0) [
          | inr dry ↦
              rw (nothing, attempts)
                (rw dry (record { valid = ex.valid; result = inr (refl, ex.same_live) }))
          | inl grew ↦
              let ih = attempts-Allocates n x.1 x.2 ex.valid (grind (arith, ex.at_most)) in
              rw (nothing, attempts)
                (rw grew (record { valid = ih.valid; result = rw ex.same_live at ih.result }))
        ]
  ]

align8_bounds : (n : ℕ) → n + 7 < 2 ^ 32 → (n ≤ align8 n) × (align8 n ≤ n + 7)
unfolding align8
align8_bounds n h =
    let e : bit_and (n + 7) (2 ^ 32 - 1 - 7) ≡ (n + 7) / 8 * 8 = low_three_cleared (n + 7) h in
    let f : u32 (n + 7) ≡ n + 7 = omega arith in rw (f, e) (omega arith, omega arith)

align8_wraps : (n : ℕ) → 2 ^ 32 - 7 ≤ n → n < 2 ^ 32 → align8 n ≡ 0
unfolding align8
align8_wraps n big fits = omega (arith, low_three_cleared (u32 (n + 7)) (omega arith))

Inserted-weaken :
    (want less p : ℕ) (xs ys : List (ℕ × ℕ))
    → less ≤ want
    → Inserted want p xs ys
    → Inserted less p xs ys
Inserted-weaken want less p xs ys h i = record {
  front = i.front;
  back = i.back;
  size = i.size;
  old = i.old;
  new = i.new;
  enough = omega (arith, i.enough);
  not_null = i.not_null;
}

-- Whether a free block holds `want` bytes.
unfoldable pub has_room : ℕ → List Block → Bool
has_room want [] = false
has_room want (b ∷ rest) = (b.free && leb want b.size) || has_room want rest

fit-has_room :
    (want : ℕ) (bs : List Block)
    → has_room want bs ≡ true
    → (r : ℕ × List Block) × (fit want bs ≡ some r)
unfolding fit has_room
fit-has_room want [] h = absurd (cc)
fit-has_room want (b ∷ rest) h = elim (Bool-cases (not b.free || ltb b.size want)) [
  | inl skip ↦
      let ((p, cs), e) = fit-has_room want rest (ground arith) in ((p, b ∷ cs), rw (skip, e) refl)
  | inr here ↦ ((u32 (b.addr + header), split want b ++ rest), rw here refl)
]

module _ {S : Type 0} (source : FrameSource S) (size : ℕ) (h : Heap) (s : S) (v : IsValid h)
    (pos : 0 < size) (small : size + 7 < 2 ^ 32)
    (room : Room (2 * expand_pages (align8 size)) h) where
  -- In a valid heap with address space left to grow into, `kmalloc` of a size that the rounding
  -- does not wrap either returns the payload of a block of its own, inserted among the allocated
  -- blocks and holding at least that size, or returns null; every other allocated block keeps its
  -- place and size, and the heap stays valid.
  pub kmalloc-Allocates : Allocates h size (kmalloc source size (h, s))
  unfolding kmalloc
  kmalloc-Allocates =
      let z : (size == 0) ≡ false = ground arith in
      let e : u32 size ≡ size = omega arith in
      let r = attempts-Allocates source (align8 size) 2 h s v room in
      rw (z, e)
        (record {
          valid = r.valid;
          result = elim r.result [
            | inl i ↦ inl (Inserted-weaken (align8 size) size _ _ _ (align8_bounds size small).0 i)
            | inr failed ↦ inr failed
          ];
        })

pub kmalloc_reuse :
    {S : Type 0} (source : FrameSource S) (size : ℕ) (h : Heap) (s : S)
    → 0 < size
    → size < 2 ^ 32
    → IsValid h
    → has_room (align8 size) h.blocks ≡ true
    → let r = kmalloc source size (h, s) in (header < r.0) × (r.1.mapped ≡ h.mapped) × (r.2 ≡ s)
unfolding kmalloc attempts
kmalloc_reuse source size h s pos small v e =
    let z : (size == 0) ≡ false = ground arith in
    let n : u32 size ≡ size = omega arith in
    let ((p, cs), found) = fit-has_room (align8 size) h.blocks e in
    let f =
      fit-Fits (align8 size) h.blocks heap_base (heap_base + h.mapped) p cs (omega arith)
        v.in_memory v.tiles found in
    rw (z, n, found, attempts) (f.inserted.not_null, refl, refl)

-- A size within seven bytes of 2^32 is rounded to 0: with any free block at hand `kmalloc` then
-- returns a pointer, although the whole heap is smaller than the size asked for.
pub kmalloc_huge :
    {S : Type 0} (source : FrameSource S) (size : ℕ) (h : Heap) (s : S)
    → 2 ^ 32 - 7 ≤ size
    → size < 2 ^ 32
    → IsValid h
    → has_room 0 h.blocks ≡ true
    → (header < (kmalloc source size (h, s)).0) × (h.mapped < size)
kmalloc_huge source size h s big fits v e =
    let r =
      kmalloc_reuse source size h s (omega arith) fits v (rw (align8_wraps size big fits) e) in
    (r.0, omega (arith, v.in_memory))
