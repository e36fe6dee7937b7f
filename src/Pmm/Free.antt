-- ===== src/Pmm/Free.antt =====
-- `pmm_free_frame`, and an allocation that is undone.
use red_panda_os.Prelude.{
  ℕ, ◌+◌, ◌/◌, ◌^◌, ◌≤◌, ◌<◌, ◌≡◌, refl, ◌⊎◌, inl, inr, arith, ◌==◌, if◌then◌else◌, Bool-cases,
}
use red_panda_os.Pmm.{
  Pmm, max_frames, frame_size, is_used, mark_free, pmm_alloc_frame, pmm_free_frame,
}
use red_panda_os.Pmm.Bitmap.{used, is_used-used, used-le-one, used-mark_free, mark_free-AllWords}
use red_panda_os.Pmm.Count.{free_count-mark_free, free_count-le}
use red_panda_os.Pmm.Inv.{IsValid, Takes}
use red_panda_os.Pmm.Alloc.{pmm_alloc_frame-Allocated}

-- What freeing the frame does, whether or not it was in use.
pub record Frees (p : Pmm) (frame : ℕ) (q : Pmm) : Type 0 where
  pub now_free : (g : ℕ) → used q.bitmap g ≡ (if frame == g then 0 else used p.bitmap g)
  pub counted_once : q.free_frames ≡ p.free_frames + used p.bitmap frame
  pub same_usable : q.usable_frames ≡ p.usable_frames
  pub valid : IsValid q

module _ (p : Pmm) (v : IsValid p) (addr : ℕ) where
  pmm_free_frame-Frees :
      addr < 2 ^ 32 → 256 ≤ addr / frame_size → Frees p (addr / frame_size) (pmm_free_frame p addr)
  unfolding pmm_free_frame
  pmm_free_frame-Frees small high =
      let frame = addr / frame_size in
      elim (Bool-cases (is_used p.bitmap frame == 0)) [
        | inl free ↦
            let u : used p.bitmap frame ≡ 0 = ground (arith, is_used-used p.bitmap frame) in
            rw free (record {
              now_free = λ g. elim (Bool-cases (frame == g)) [
                | inl same ↦ let e : frame ≡ g = ground arith in rw (same, ← e) u
                | inr other ↦ rw other
              ];
              counted_once = omega arith;
              same_usable = refl;
              valid = v;
            })
        | inr taken ↦
            let u : used p.bitmap frame ≡ 1 =
              ground (arith, is_used-used p.bitmap frame, used-le-one p.bitmap frame) in
            let count = free_count-mark_free p.bitmap frame max_frames (omega arith) u in
            let bound = free_count-le (mark_free p.bitmap frame) max_frames in
            rw taken (record {
              now_free = used-mark_free p.bitmap frame;
              counted_once = omega (arith, v.counted);
              same_usable = refl;
              valid = record {
                words = mark_free-AllWords p.bitmap frame v.words;
                counted = omega (arith, v.counted);
                hint_in = ground (arith, v.hint_in);
                full_below = λ f q. ground (arith, used-mark_free p.bitmap frame f, v.full_below f);
                low_reserved =
                    λ f q. ground (arith, used-mark_free p.bitmap frame f, v.low_reserved f);
              };
            })
      ]

-- Two managers with the same bits hand out the same frame.
Takes-unique :
    {p q p' q' : Pmm} {f g : ℕ}
    → ((h : ℕ) → used p.bitmap h ≡ used q.bitmap h)
    → Takes p f p'
    → Takes q g q'
    → f ≡ g
Takes-unique {f} {g} same t s =
    ground (arith, t.lowest g, s.lowest f, t.was_free, s.was_free, same f, same g)

-- Freeing the frame that an allocation returned undoes the allocation.
abbrev pub Undone : Pmm → Type 0
Undone p =
    let (addr, q) = pmm_alloc_frame p in
    let r = pmm_free_frame q addr in
    ((g : ℕ) → used r.bitmap g ≡ used p.bitmap g)
    × (r.free_frames ≡ p.free_frames)
    × ((pmm_alloc_frame r).0 ≡ addr)

pmm_free_frame-pmm_alloc_frame : (p : Pmm) → IsValid p → 0 < p.free_frames → Undone p
pmm_free_frame-pmm_alloc_frame p v h =
    let (f, at, high, t, vq) = pmm_alloc_frame-Allocated p v h in
    let (addr, q) = pmm_alloc_frame p in
    let page : addr / frame_size ≡ f = omega arith in
    let fr = pmm_free_frame-Frees q vq addr (omega (arith, t.in_range)) (omega arith) in
    let r = pmm_free_frame q addr in
    let same : (g : ℕ) → used r.bitmap g ≡ used p.bitmap g =
      λ g. ground (arith, fr.now_free g, t.now_used g, t.was_free) in
    let one : used q.bitmap f ≡ 1 = ground (arith, t.now_used f) in
    let now : used q.bitmap (addr / frame_size) ≡ 1 = rw page one in
    let count : r.free_frames ≡ p.free_frames = omega (arith, fr.counted_once, t.one_less, now) in
    let (f', at', high', t', vq') = pmm_alloc_frame-Allocated r fr.valid (omega arith) in
    (same, count, omega (arith, Takes-unique same t' t))

-- Freeing a page above the first megabyte makes that frame free and no other, counts it only if it
-- was in use (so a double free is harmless), and keeps the invariant, also when no frame was free; and
-- unless no frame is free, freeing the one that an allocation returns gives back every bit and the
-- count, and the next allocation returns the same address.
pub pmm_free_frame_lem :
    (p : Pmm) (addr : ℕ)
    → IsValid p
    → addr < 2 ^ 32
    → 256 ≤ addr / frame_size
    → Frees p (addr / frame_size) (pmm_free_frame p addr) × ((p.free_frames ≡ 0) ⊎ Undone p)
pmm_free_frame_lem p addr v small high = (
  pmm_free_frame-Frees p v addr small high,
  elim (Bool-cases (p.free_frames == 0)) [
    | inl none_free ↦ inl (ground (arith, none_free))
    | inr some_free ↦ inr (pmm_free_frame-pmm_alloc_frame p v (ground (arith, some_free)))
  ],
)
