-- ===== src/Heap/Expand.antt =====
-- `expand` adds memory at the top and leaves the allocated blocks alone.
use red_panda_os.Prelude.{
  ℕ, zero, suc, ◌+◌, ◌*◌, ◌≤◌, ◌<◌, ◌≡◌, refl, ◌∙◌, inl, inr, Bool, true, false, [], ◌∷◌, ◌++◌,
  arith, ◌==◌, Bool-cases, u32, sub32,
}
use mathlib.Core.List.{append-nil}
use red_panda_os.Heap.{
  Heap, Block, FrameSource, heap_base, header, frame_size, grow, expand, expand_pages, heap_init,
}
use red_panda_os.Heap.Blocks.{Tiles, top, IsValid, live, live-append, Tiles-append, coalesce-Same}

-- There is address space for growing by `n` pages.
abbrev pub Room : ℕ → Heap → Type 0
Room n h = heap_base + h.mapped + n * frame_size < top

module _ {S : Type 0} (source : FrameSource S) where
  grow_bounds :
      (n mapped grown : ℕ) (s : S)
      → grown + n * frame_size < top
      → let g = (grow source n mapped grown s).0 in (k : ℕ) × (g ≡ grown + k * frame_size) × (k ≤ n)
  unfolding grow
  grow_bounds zero mapped grown s h = (0, omega arith, omega arith)
  grow_bounds (suc n) mapped grown s h = elim (Bool-cases ((source.pmm_alloc_frame s).0 == 0)) [
    | inl out ↦ rw out (0, omega arith, omega arith)
    | inr got ↦
        let s' =
          source.paging_map (u32 (heap_base + mapped + grown)) (source.pmm_alloc_frame s).0
            (source.pmm_alloc_frame s).1 in
        let e : u32 (grown + frame_size) ≡ grown + frame_size = omega arith in
        let (k, at, le) = grow_bounds n mapped (grown + frame_size) s' (omega arith) in
        rw (got, e) (k + 1, omega arith, omega arith)
  ]

  -- What an attempt to grow does, whether or not frames were to be had.
  pub record Expands (h : Heap) (n : ℕ) (r : Bool × Heap × S) : Type 0 where
    pub valid : IsValid r.1
    pub same_live : live r.1.blocks ≡ live h.blocks
    pub grows : h.mapped ≤ r.1.mapped
    pub at_most : r.1.mapped ≤ h.mapped + n * frame_size
    pub nothing : r.0 ≡ false → r.1 ≡ h

  pub expand-Expands :
      (min_bytes : ℕ) (h : Heap) (s : S)
      → IsValid h
      → Room (expand_pages min_bytes) h
      → Expands h (expand_pages min_bytes) (expand source min_bytes (h, s))
  unfolding expand
  expand-Expands min_bytes h s v room =
      let n = expand_pages min_bytes in
      let (k, at, le) = grow_bounds n h.mapped 0 s (omega arith) in
      let g = (grow source n h.mapped 0 s).0 in
      elim (Bool-cases (g == 0)) [
        | inl dry ↦ rw dry (record {
          valid = v;
          same_live = refl;
          grows = omega arith;
          at_most = omega arith;
          nothing = λ _. refl;
        })
        | inr wet ↦
            let grew : frame_size ≤ g = ground arith in
            let b : Block = record {
              addr = u32 (heap_base + h.mapped);
              size = sub32 g header;
              free = true;
            } in
            let m : u32 (h.mapped + g) ≡ h.mapped + g = omega arith in
            let end = heap_base + (h.mapped + g) in
            let last : Tiles (heap_base + h.mapped) (b ∷ []) end = (omega arith, omega arith) in
            let t : Tiles heap_base (h.blocks ++ (b ∷ [])) end =
              Tiles-append heap_base (heap_base + h.mapped) h.blocks (b ∷ []) end v.tiles last in
            let c = coalesce-Same (h.blocks ++ (b ∷ [])) heap_base end (omega arith) t in
            rw (wet, m)
              (record {
                valid = record { tiles = c.tiles; in_memory = omega arith };
                same_live =
                    c.same_live ∙ live-append h.blocks (b ∷ []) ∙ append-nil (live h.blocks);
                grows = omega arith;
                at_most = omega arith;
                nothing = λ e. absurd (cc);
              })
      ]

pub heap_init-IsValid :
    {S : Type 0} (source : FrameSource S) (s : S)
    → let h = (heap_init source (record { blocks = []; mapped = 0 }, s)).0 in
      IsValid h × (live h.blocks ≡ [])
unfolding heap_init expand_pages
heap_init-IsValid source s =
    let boot : Heap = record { blocks = []; mapped = 0 } in
    let v : IsValid boot = record { tiles = refl; in_memory = omega arith } in
    let e = expand-Expands source 1 boot s v (omega arith) in (e.valid, e.same_live)
