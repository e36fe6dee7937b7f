-- ===== src/Heap/Free.antt =====
-- `kfree` takes one block from the allocated ones; the counters of the heap.
use red_panda_os.Prelude.{
  ℕ, ◌+◌, ◌-◌, ◌*◌, ◌^◌, ◌≤◌, ◌<◌, ◌≡◌, refl, sym, ◌∙◌, ◌≢◌, inl, inr, true, false, Option, some,
  List, [], ◌∷◌, ◌++◌, arith, ◌==◌, Bool-cases, u32, sub32,
}
use red_panda_os.Heap.{
  Heap, Block, FrameSource, heap_base, header, mark_free, kfree, kmalloc, used_sum, heap_used_bytes,
  coalesce, expand_pages, align8,
}
use red_panda_os.Heap.Blocks.{
  Tiles, top, IsValid, live, Spaced, Tiles-Spaced, Tiles-le, coalesce-Same, IsMerged,
  coalesce-IsMerged,
}
use red_panda_os.Heap.{heap_init}
use red_panda_os.Heap.Expand.{Room, heap_init-IsValid}
use red_panda_os.Heap.Alloc.{kmalloc-Allocates}

Spaced-le :
    (lo : ℕ) (front back : List (ℕ × ℕ)) (x z hi : ℕ)
    → Spaced lo (front ++ ((x, z) ∷ back)) hi
    → lo ≤ x
Spaced-le lo [] back x z hi s = s.0
Spaced-le lo ((a, w) ∷ front) back x z hi s =
    omega (arith, s.0, Spaced-le (a + header + w) front back x z hi s.1)

Spaced-below :
    (lo : ℕ) (front back : List (ℕ × ℕ)) (x z hi : ℕ)
    → Spaced lo (front ++ ((x, z) ∷ back)) hi
    → x + header + z ≤ hi
Spaced-below lo [] [] x z hi s = s.1
Spaced-below lo [] ((a, w) ∷ back) x z hi s =
    omega (arith, s.1.0, Spaced-below (x + header + z) [] back a w hi s.1)
Spaced-below lo ((a, w) ∷ front) back x z hi s = Spaced-below (a + header + w) front back x z hi s.1

record Marked (x : ℕ) (front back : List (ℕ × ℕ)) (a : ℕ) (bs : List Block) (e : ℕ) : Type 0 where
  out : List Block
  found : mark_free x bs ≡ some out
  tiles : Tiles a out e
  rest_live : live out ≡ front ++ back

module _ (b : Block) (rest : List Block) (a e x z : ℕ) (front back : List (ℕ × ℕ))
    (t : Tiles a (b ∷ rest) e) (l : live rest ≡ front ++ ((x, z) ∷ back)) where
  -- An allocated block further on does not lie at `b`.
  elsewhere : (b.addr == x) ≡ false
  elsewhere =
      let s = Tiles-Spaced (a + header + b.size) rest e t.1 in
      let far = Spaced-le (a + header + b.size) front back x z e (rw l at s) in
      ground (arith, t.0, far)

  Marked-free :
      b.free ≡ true
      → Marked x front back (a + header + b.size) rest e
      → Marked x front back a (b ∷ rest) e
  unfolding mark_free
  Marked-free f r = record {
    out = b ∷ r.out;
    found = rw (elsewhere, r.found) refl;
    tiles = (t.0, r.tiles);
    rest_live = rw f r.rest_live;
  }

  Marked-used :
      b.free ≡ false
      → Marked x front back (a + header + b.size) rest e
      → Marked x ((b.addr, b.size) ∷ front) back a (b ∷ rest) e
  unfolding mark_free
  Marked-used u r = record {
    out = b ∷ r.out;
    found = rw (elsewhere, r.found) refl;
    tiles = (t.0, r.tiles);
    rest_live = rw (u, r.rest_live) refl;
  }

Marked-here :
    (b : Block) (rest : List Block) (a e x : ℕ) (back : List (ℕ × ℕ))
    → Tiles a (b ∷ rest) e
    → b.addr ≡ x
    → live rest ≡ back
    → Marked x [] back a (b ∷ rest) e
unfolding mark_free
Marked-here b rest a e x back t at l =
    let same : (b.addr == x) ≡ true = ground arith in
    record { out = record b { free = true } ∷ rest; found = rw same refl; tiles = t; rest_live = l }

mark_free-Marked :
    (bs : List Block) (a e x z : ℕ) (front back : List (ℕ × ℕ))
    → Tiles a bs e
    → live bs ≡ front ++ ((x, z) ∷ back)
    → Marked x front back a bs e
mark_free-Marked [] a e x z [] back t l = absurd (cc)
mark_free-Marked [] a e x z (f ∷ front) back t l = absurd (cc)
mark_free-Marked (b ∷ rest) a e x z [] back t l = elim (Bool-cases b.free) [
  | inl f ↦
      let l' : live rest ≡ (x, z) ∷ back = rw f at l in
      Marked-free b rest a e x z [] back t l' f
        (mark_free-Marked rest (a + header + b.size) e x z [] back t.1 l')
  | inr u ↦
      let l' : (b.addr, b.size) ∷ live rest ≡ (x, z) ∷ back = rw u at l in
      Marked-here b rest a e x back t (cc) (cc)
]
mark_free-Marked (b ∷ rest) a e x z (f ∷ front) back t l = elim (Bool-cases b.free) [
  | inl f' ↦
      let l' : live rest ≡ (f ∷ front) ++ ((x, z) ∷ back) = rw f' at l in
      Marked-free b rest a e x z (f ∷ front) back t l' f'
        (mark_free-Marked rest (a + header + b.size) e x z (f ∷ front) back t.1 l')
  | inr u ↦
      let l' : (b.addr, b.size) ∷ live rest ≡ f ∷ (front ++ ((x, z) ∷ back)) = rw u at l in
      let same : (b.addr, b.size) ≡ f = cc in
      let l'' : live rest ≡ front ++ ((x, z) ∷ back) = cc in
      rw (← same) (
        Marked-used b rest a e x z front back t l'' u
          (mark_free-Marked rest (a + header + b.size) e x z front back t.1 l''))
]

-- What `kfree` of the payload of the block at `x` does.
pub record Freed (h : Heap) (front back : List (ℕ × ℕ)) (r : Option Heap) : Type 0 where
  pub out : Heap
  pub returns : r ≡ some out
  pub valid : IsValid out
  pub rest_live : live out.blocks ≡ front ++ back
  pub same_mapped : out.mapped ≡ h.mapped
  pub merged : IsMerged out.blocks

-- Freeing the payload of an allocated block takes exactly that block from the allocated ones,
-- keeps the heap valid and the mapped size, and of every two neighbouring blocks of the heap that is
-- left at least one is allocated.
pub kfree-Freed :
    (h : Heap) (x z : ℕ) (front back : List (ℕ × ℕ))
    → IsValid h
    → live h.blocks ≡ front ++ ((x, z) ∷ back)
    → Freed h front back (kfree (x + header) h)
unfolding kfree
kfree-Freed h x z front back v l =
    let m = mark_free-Marked h.blocks heap_base (heap_base + h.mapped) x z front back v.tiles l in
    let s = Tiles-Spaced heap_base h.blocks (heap_base + h.mapped) v.tiles in
    let low = Spaced-le heap_base front back x z (heap_base + h.mapped) (rw l at s) in
    let high = Spaced-below heap_base front back x z (heap_base + h.mapped) (rw l at s) in
    let at : sub32 (x + header) header ≡ x = omega (arith, v.in_memory) in
    let ne : (x + header == 0) ≡ false = ground arith in
    let c = coalesce-Same m.out heap_base (heap_base + h.mapped) v.in_memory m.tiles in
    record {
      out = record h { blocks = coalesce m.out };
      returns = rw (ne, at, m.found) refl;
      valid = record { tiles = c.tiles; in_memory = v.in_memory };
      rest_live = c.same_live ∙ m.rest_live;
      same_mapped = refl;
      merged = coalesce-IsMerged m.out heap_base (heap_base + h.mapped) v.in_memory m.tiles;
    }

-- Freeing what `kmalloc` has just returned gives back the allocated blocks as they were.
pub kfree-kmalloc :
    {S : Type 0} (source : FrameSource S) (size : ℕ) (h : Heap) (s : S)
    → IsValid h
    → 0 < size
    → size + 7 < 2 ^ 32
    → Room (2 * expand_pages (align8 size)) h
    → let r = kmalloc source size (h, s) in
      r.0 ≢ 0
      → (out : Heap) × (kfree r.0 r.1 ≡ some out) × (live out.blocks ≡ live h.blocks) × IsValid out
kfree-kmalloc source size h s v pos small room given =
    let a = kmalloc-Allocates source size h s v pos small room in
    let r = kmalloc source size (h, s) in
    elim a.result [
      | inr failed ↦ absurd (given failed.0)
      | inl i ↦
          let f = kfree-Freed r.1 (r.0 - header) i.size i.front i.back a.valid i.new in
          let p : r.0 - header + header ≡ r.0 = omega (arith, i.not_null) in
          (f.out, rw p at f.returns, f.rest_live ∙ sym i.old, f.valid)
    ]

-- The bytes of the allocated payloads.
pub total : List (ℕ × ℕ) → ℕ
total [] = 0
total ((a, z) ∷ rest) = z + total rest

used_sum-total :
    (bs : List Block) (a e used : ℕ)
    → used ≤ a
    → e < top
    → Tiles a bs e
    → (used_sum bs used ≡ used + total (live bs)) × (total (live bs) + a ≤ e)
unfolding used_sum total
used_sum-total [] a e used h l t = (omega arith, omega arith)
used_sum-total (b ∷ rest) a e used h l t =
    let le = Tiles-le (a + header + b.size) rest e t.1 in
    elim (Bool-cases b.free) [
      | inl f ↦
          let r = used_sum-total rest (a + header + b.size) e used (omega arith) l t.1 in
          rw f (r.0, omega (arith, r.1))
      | inr u ↦
          let e' : u32 (used + b.size) ≡ used + b.size = omega arith in
          let r = used_sum-total rest (a + header + b.size) e (used + b.size) (omega arith) l t.1 in
          rw (u, e') (omega (arith, r.0), omega (arith, r.1))
    ]

heap_used_bytes-total :
    (h : Heap)
    → IsValid h
    → (heap_used_bytes h ≡ total (live h.blocks)) × (heap_used_bytes h ≤ h.mapped)
unfolding heap_used_bytes
heap_used_bytes-total h v =
    let r =
      used_sum-total h.blocks heap_base (heap_base + h.mapped) 0 (omega arith) v.in_memory
        v.tiles in
    (omega (arith, r.0), omega (arith, r.0, r.1))

-- In a valid heap the allocated blocks lie between the heap's base and its top in order of address,
-- each behind the end of the one before.
pub live-Spaced : (h : Heap) → IsValid h → Spaced heap_base (live h.blocks) (heap_base + h.mapped)
live-Spaced h v = Tiles-Spaced heap_base h.blocks (heap_base + h.mapped) v.tiles

-- At boot, with no block yet, `heap_init` leaves a valid heap in which nothing is allocated, whatever
-- frames there are; and in every valid heap `heap_used_bytes` is the sum of the allocated payloads,
-- with no wrap, and is at most what is mapped.
pub heap_init-heap_used_bytes :
    {S : Type 0} (source : FrameSource S) (s : S) (h : Heap)
    → IsValid h
    → let started = (heap_init source (record { blocks = []; mapped = 0 }, s)).0 in
      (IsValid started × (live started.blocks ≡ []))
      × (heap_used_bytes h ≡ total (live h.blocks))
      × (heap_used_bytes h ≤ h.mapped)
heap_init-heap_used_bytes source s h v =
    let (sum, bound) = heap_used_bytes-total h v in (heap_init-IsValid source s, sum, bound)
