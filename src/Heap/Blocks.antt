-- ===== src/Heap/Blocks.antt =====
-- The blocks tile the mapped region, and what coalescing keeps.
use red_panda_os.Prelude.{
  ℕ, ◌+◌, ◌^◌, ◌≤◌, ◌<◌, ◌≡◌, refl, ap, ◌∙◌, inl, inr, true, false, ◌&&◌, List, [], ◌∷◌, ◌++◌,
  arith, if◌then◌else◌, Bool-cases, u32,
}
use red_panda_os.Heap.{
  Heap, Block, heap_base, header, block_end, mergeable, merge, coalesce_from, coalesce,
}

-- The blocks lie one behind the other from `a` to `e`.
abbrev pub Tiles : ℕ → List Block → ℕ → Type 0
Tiles a [] e = a ≡ e
Tiles a (b ∷ rest) e = (b.addr ≡ a) × Tiles (a + header + b.size) rest e

abbrev pub top : ℕ
top = 2 ^ 32

pub record IsValid (h : Heap) : Type 0 where
  pub tiles : Tiles heap_base h.blocks (heap_base + h.mapped)
  pub in_memory : heap_base + h.mapped < top

-- The allocated blocks: where each header lies, and the size of its payload.
abbrev pub live : List Block → List (ℕ × ℕ)
live [] = []
live (b ∷ rest) = if b.free then live rest else ((b.addr, b.size) ∷ live rest)

pub live-append : (xs ys : List Block) → live (xs ++ ys) ≡ live xs ++ live ys
live-append [] ys = refl
live-append (b ∷ xs) ys = elim (Bool-cases b.free) [
  | inl f ↦ rw f (live-append xs ys)
  | inr u ↦ rw u (ap (λ t. (b.addr, b.size) ∷ t) (live-append xs ys))
]

-- No block reaches into the next, and all lie between `lo` and `hi`.
abbrev pub Spaced : ℕ → List (ℕ × ℕ) → ℕ → Type 0
Spaced lo [] hi = lo ≤ hi
Spaced lo ((a, s) ∷ rest) hi = (lo ≤ a) × Spaced (a + header + s) rest hi

pub Tiles-le : (a : ℕ) (bs : List Block) (e : ℕ) → Tiles a bs e → a ≤ e
Tiles-le a [] e t = omega arith
Tiles-le a (b ∷ rest) e t = omega (arith, Tiles-le (a + header + b.size) rest e t.1)

Spaced-weaken :
    (lo lo' : ℕ) (xs : List (ℕ × ℕ)) (hi : ℕ) → lo ≤ lo' → Spaced lo' xs hi → Spaced lo xs hi
Spaced-weaken lo lo' [] hi h s = omega arith
Spaced-weaken lo lo' ((a, z) ∷ xs) hi h s = (omega (arith, s.0), s.1)

pub Tiles-Spaced : (a : ℕ) (bs : List Block) (e : ℕ) → Tiles a bs e → Spaced a (live bs) e
Tiles-Spaced a [] e t = omega arith
Tiles-Spaced a (b ∷ rest) e t = elim (Bool-cases b.free) [
  | inl f ↦ rw f (
      Spaced-weaken a (a + header + b.size) (live rest) e (omega arith)
        (Tiles-Spaced (a + header + b.size) rest e t.1))
  | inr u ↦ rw (u, t.0) (omega arith, Tiles-Spaced (a + header + b.size) rest e t.1)
]

pub Tiles-append :
    (a m : ℕ) (xs ys : List Block) (e : ℕ) → Tiles a xs m → Tiles m ys e → Tiles a (xs ++ ys) e
Tiles-append a m [] ys e t u = rw t u
Tiles-append a m (b ∷ xs) ys e t u = (t.0, Tiles-append (a + header + b.size) m xs ys e t.1 u)

-- What a pass over the list keeps: the tiling and the allocated blocks.
pub record Same (a : ℕ) (bs : List Block) (e : ℕ) (cs : List Block) : Type 0 where
  pub tiles : Tiles a cs e
  pub same_live : live cs ≡ live bs

pub live-cons : (b : Block) (xs ys : List Block) → live xs ≡ live ys → live (b ∷ xs) ≡ live (b ∷ ys)
live-cons b xs ys e = rw e

Tiles-merge :
    (b c : Block) (rest : List Block) (a e : ℕ)
    → e < top
    → Tiles a (b ∷ c ∷ rest) e
    → Tiles a (merge b c ∷ rest) e
unfolding merge
Tiles-merge b c rest a e h t =
    let fits = Tiles-le (a + header + b.size + header + c.size) rest e t.1.1 in
    let z : a + header + u32 (b.size + (header + c.size)) ≡ a + header + b.size + header + c.size =
      omega arith in
    (t.0, rw z t.1.1)

live-merge :
    (b c : Block) (rest : List Block)
    → mergeable b c ≡ true
    → live (merge b c ∷ rest) ≡ live (b ∷ c ∷ rest)
unfolding mergeable merge
live-merge b c rest m =
    let f : b.free ≡ true = ground arith in let g : c.free ≡ true = ground arith in rw (f, g)

coalesce_from-merge :
    (b c : Block) (rest : List Block)
    → mergeable b c ≡ true
    → coalesce_from b (c ∷ rest) ≡ coalesce_from (merge b c) rest
unfolding coalesce_from
coalesce_from-merge b c rest m = rw (m, coalesce_from)

coalesce_from-keep :
    (b c : Block) (rest : List Block)
    → mergeable b c ≡ false
    → coalesce_from b (c ∷ rest) ≡ b ∷ coalesce_from c rest
unfolding coalesce_from
coalesce_from-keep b c rest n = rw (n, coalesce_from)

pub coalesce_from-Same :
    (b : Block) (rest : List Block) (a e : ℕ)
    → e < top
    → Tiles a (b ∷ rest) e
    → Same a (b ∷ rest) e (coalesce_from b rest)
unfolding coalesce_from
coalesce_from-Same b [] a e h t = record { tiles = t; same_live = refl }
coalesce_from-Same b (c ∷ rest) a e h t = elim (Bool-cases (mergeable b c)) [
  | inl m ↦
      let ih = coalesce_from-Same (merge b c) rest a e h (Tiles-merge b c rest a e h t) in
      rw (coalesce_from-merge b c rest m)
        (record { tiles = ih.tiles; same_live = ih.same_live ∙ live-merge b c rest m })
  | inr n ↦
      let ih = coalesce_from-Same c rest (a + header + b.size) e h t.1 in
      rw (coalesce_from-keep b c rest n) (record {
        tiles = (t.0, ih.tiles);
        same_live = live-cons b (coalesce_from c rest) (c ∷ rest) ih.same_live;
      })
]

pub coalesce-Same : (bs : List Block) (a e : ℕ) → e < top → Tiles a bs e → Same a bs e (coalesce bs)
unfolding coalesce
coalesce-Same [] a e h t = record { tiles = t; same_live = refl }
coalesce-Same (b ∷ rest) a e h t = coalesce_from-Same b rest a e h t

-- The test of the loop fails for every two neighbours.
abbrev Apart : Block → List Block → Type 0
Apart b [] = Unit {0}
Apart b (c ∷ rest) = mergeable b c ≡ false

abbrev AllApart : List Block → Type 0
AllApart [] = Unit {0}
AllApart (b ∷ rest) = Apart b rest × AllApart rest

-- Of every two neighbours at least one is allocated.
abbrev pub IsMerged : List Block → Type 0
IsMerged [] = Unit {0}
IsMerged (b ∷ []) = Unit {0}
IsMerged (b ∷ c ∷ rest) = (b.free && c.free ≡ false) × IsMerged (c ∷ rest)

Apart-coalesce_from :
    (b c : Block) (rest : List Block) → mergeable b c ≡ false → Apart b (coalesce_from c rest)
unfolding coalesce_from
Apart-coalesce_from b c [] h = h
Apart-coalesce_from b c (d ∷ rest) h = elim (Bool-cases (mergeable c d)) [
  | inl m ↦ rw (coalesce_from-merge c d rest m) (Apart-coalesce_from b (merge c d) rest h)
  | inr n ↦ rw (coalesce_from-keep c d rest n) h
]

coalesce_from-AllApart : (b : Block) (rest : List Block) → AllApart (coalesce_from b rest)
unfolding coalesce_from
coalesce_from-AllApart b [] = (tt, tt)
coalesce_from-AllApart b (c ∷ rest) = elim (Bool-cases (mergeable b c)) [
  | inl m ↦ rw (coalesce_from-merge b c rest m) (coalesce_from-AllApart (merge b c) rest)
  | inr n ↦
      rw (coalesce_from-keep b c rest n)
        (Apart-coalesce_from b c rest n, coalesce_from-AllApart c rest)
]

coalesce-AllApart : (bs : List Block) → AllApart (coalesce bs)
unfolding coalesce
coalesce-AllApart [] = tt
coalesce-AllApart (b ∷ rest) = coalesce_from-AllApart b rest

-- Blocks that lie one behind the other touch, so that only an allocated one is left unmerged.
AllApart-IsMerged : (bs : List Block) (a e : ℕ) → e < top → Tiles a bs e → AllApart bs → IsMerged bs
unfolding mergeable block_end
AllApart-IsMerged [] a e h t m = tt
AllApart-IsMerged (b ∷ []) a e h t m = tt
AllApart-IsMerged (b ∷ c ∷ rest) a e h t m =
    let le = Tiles-le (a + header + b.size) (c ∷ rest) e t.1 in
    let touch : u32 (b.addr + header + b.size) ≡ c.addr = omega (arith, le, h, t.0, t.1.0) in
    let one : b.free && c.free ≡ false = ground (arith, touch, m.0) in
    (one, AllApart-IsMerged (c ∷ rest) (a + header + b.size) e h t.1 m.1)

pub coalesce-IsMerged :
    (bs : List Block) (a e : ℕ) → e < top → Tiles a bs e → IsMerged (coalesce bs)
coalesce-IsMerged bs a e h t =
    let c = coalesce-Same bs a e h t in
    AllApart-IsMerged (coalesce bs) a e h c.tiles (coalesce-AllApart bs)
