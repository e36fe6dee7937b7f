-- ===== src/Pmm/Alloc.antt =====
-- `pmm_alloc_frame` takes the lowest free frame, and fails exactly when none is free.
use red_panda_os.Prelude.{
  ℕ, zero, suc, ◌+◌, ◌-◌, ◌*◌, ◌/◌, ◌%◌, ◌^◌, ◌≤◌, ◌<◌, bit_and, ◌≡◌, refl, ◌∙◌, subst, inl, inr,
  true, false, none, some, arith, ◌==◌, Bool-cases, Option-cases,
}
use native.Mathlib.Decide.{dec_lt}
use red_panda_os.Prelude.Bits.{bit, bit-ones, bit_and-two_pow_eq-zero, bit_and-two_pow_ne-zero}
use red_panda_os.Pmm.{
  Pmm, max_frames, frame_size, first_clear, take_frame, scan_words, alloc_within, pmm_alloc_frame,
}
use red_panda_os.Pmm.Bitmap.{used, used-mark_used, mark_used-AllWords}
use red_panda_os.Pmm.Count.{free_count-mark_used, free_count-zero, free_count-le}
use red_panda_os.Pmm.Inv.{IsValid, Takes}

first_clear-some :
    (n b word c : ℕ)
    → first_clear n b word ≡ some c
    → (b ≤ c) × (c < b + n) × (bit c word ≡ 0) × ((k : ℕ) → b ≤ k → k < c → bit k word ≡ 1)
unfolding first_clear
first_clear-some zero b word c e = absurd (cc)
first_clear-some (suc n) b word c e = elim (Bool-cases (bit_and word (2 ^ b) == 0)) [
  | inl clear ↦
      let here : b ≡ c = ground arith in
      (
        omega arith,
        omega arith,
        rw here at (bit_and-two_pow_eq-zero b word (ground arith)),
        λ k p q. absurd (omega arith),
      )
  | inr taken ↦
      let r = first_clear-some n (b + 1) word c (rw taken at e) in
      let here = bit_and-two_pow_ne-zero b word (ground arith) in
      (
        omega (arith, r.0),
        omega (arith, r.1),
        r.2,
        λ k p q. elim (Bool-cases (b == k)) [
          | inl s ↦ let s' : b ≡ k = ground arith in rw s' at here
          | inr o ↦ r.3 k (ground arith) q
        ],
      )
]

first_clear-none :
    (n b word : ℕ) → first_clear n b word ≡ none → (k : ℕ) → b ≤ k → k < b + n → bit k word ≡ 1
unfolding first_clear
first_clear-none zero b word e k p q = absurd (omega arith)
first_clear-none (suc n) b word e k p q = elim (Bool-cases (bit_and word (2 ^ b) == 0)) [
  | inl clear ↦ absurd (ground arith)
  | inr taken ↦ elim (Bool-cases (b == k)) [
    | inl s ↦
        let s' : b ≡ k = ground arith in rw s' at (bit_and-two_pow_ne-zero b word (ground arith))
    | inr o ↦ first_clear-none n (b + 1) word (rw taken at e) k (ground arith) (omega arith)
  ]
]

-- A full word, by either test of the loop.
full_word :
    (p : Pmm) (w : ℕ)
    → ((k : ℕ) → k < 32 → bit k (p.bitmap w) ≡ 1)
    → (f : ℕ) → w * 32 ≤ f
    → f < (w + 1) * 32
    → used p.bitmap f ≡ 1
full_word p w h f lo hi = let e : f / 32 ≡ w = omega arith in rw e (h (f % 32) (omega arith))

-- What a successful allocation returns.
abbrev pub Allocated : Pmm → ℕ × Pmm → Type 0
Allocated p (addr, q) =
    (frame : ℕ) × (addr ≡ frame * frame_size) × (256 ≤ frame) × Takes p frame q × IsValid q

module _ (p : Pmm) (v : IsValid p) where
  high_frame : (f : ℕ) → used p.bitmap f ≡ 0 → 256 ≤ f
  high_frame f free = elim (dec_lt f 256) [
    | yes low ↦ absurd (omega (arith, v.low_reserved f low))
    | no high ↦ omega arith
  ]

  take_frame-Allocated :
      (w b : ℕ)
      → w < max_frames / 32
      → b < 32
      → used p.bitmap (w * 32 + b) ≡ 0
      → ((g : ℕ) → g < w * 32 + b → used p.bitmap g ≡ 1)
      → Allocated p (take_frame p w b)
  unfolding take_frame
  take_frame-Allocated w b hw hb free below =
      let frame = w * 32 + b in
      let count = free_count-mark_used p.bitmap frame max_frames (omega arith) free in
      let bound = free_count-le p.bitmap max_frames in
      let high : 256 ≤ frame = high_frame frame free in
      (
        frame,
        omega arith,
        high,
        record {
          in_range = omega arith;
          was_free = free;
          lowest = below;
          now_used = used-mark_used p.bitmap frame;
          one_less = omega (arith, v.counted);
          same_usable = refl;
        },
        record {
          words = mark_used-AllWords p.bitmap frame v.words;
          counted = omega (arith, v.counted);
          hint_in = hw;
          full_below = λ f q. ground (arith, used-mark_used p.bitmap frame f, below f);
          low_reserved = λ f q. ground (arith, used-mark_used p.bitmap frame f, v.low_reserved f);
        },
      )

  extend :
      (w : ℕ)
      → ((f : ℕ) → f < w * 32 → used p.bitmap f ≡ 1)
      → ((f : ℕ) → w * 32 ≤ f → f < (w + 1) * 32 → used p.bitmap f ≡ 1)
      → (f : ℕ) → f < (w + 1) * 32
      → used p.bitmap f ≡ 1
  extend w below here f h = elim (dec_lt f (w * 32)) [
    | yes q ↦ below f q
    | no q ↦ here f (omega arith) h
  ]

  at_word : (w b : ℕ) → b < 32 → used p.bitmap (w * 32 + b) ≡ bit b (p.bitmap w)
  at_word w b h =
      let d : (w * 32 + b) / 32 ≡ w = omega arith in
      let m : (w * 32 + b) % 32 ≡ b = omega arith in rw (d, m)

  extend_to :
      (w b : ℕ)
      → ((f : ℕ) → f < w * 32 → used p.bitmap f ≡ 1)
      → ((k : ℕ) → k < b → k < 32 → bit k (p.bitmap w) ≡ 1)
      → b < 32
      → (f : ℕ) → f < w * 32 + b
      → used p.bitmap f ≡ 1
  extend_to w b below here hb f h = elim (dec_lt f (w * 32)) [
    | yes q ↦ below f q
    | no q ↦ let d : f / 32 ≡ w = omega arith in rw d (here (f % 32) (omega arith) (omega arith))
  ]

  scan_words-some :
      (n w : ℕ) (r : ℕ × Pmm)
      → w + n ≡ max_frames / 32
      → ((f : ℕ) → f < w * 32 → used p.bitmap f ≡ 1)
      → scan_words n w p ≡ some r
      → Allocated p r
  unfolding scan_words
  scan_words-some zero w r e below h = absurd (cc)
  scan_words-some (suc n) w r e below h = elim (Bool-cases (p.bitmap w == 0xFFFFFFFF)) [
    | inl full ↦
        let ones : p.bitmap w ≡ 2 ^ 32 - 1 = ground arith in
        scan_words-some n (w + 1) r (omega arith)
          (extend w below (full_word p w (λ k q. rw ones (bit-ones 32 k q)))) (rw full at h)
    | inr more ↦ elim (Option-cases (first_clear 32 0 (p.bitmap w))) [
      | inl nothing ↦
          scan_words-some n (w + 1) r (omega arith)
            (extend w below (
              full_word p w
                (λ k q. first_clear-none 32 0 (p.bitmap w) nothing k (omega arith) (omega arith))))
            (rw (more, nothing) at h)
      | inr (b, found) ↦
          let c = first_clear-some 32 0 (p.bitmap w) b found in
          let h' : some (take_frame p w b) ≡ some r = rw (more, found) at h in
          let same : take_frame p w b ≡ r = cc in
          subst (Allocated p) same (
            take_frame-Allocated w b (omega arith) (c.1) (at_word w b (c.1) ∙ c.2)
              (extend_to w b below (λ k q l. c.3 k (omega arith) q) (c.1)))
    ]
  ]

  scan_words-none :
      (n w : ℕ)
      → w + n ≡ max_frames / 32
      → ((f : ℕ) → f < w * 32 → used p.bitmap f ≡ 1)
      → scan_words n w p ≡ none
      → (f : ℕ) → f < max_frames
      → used p.bitmap f ≡ 1
  unfolding scan_words
  scan_words-none zero w e below h = λ f q. below f (omega arith)
  scan_words-none (suc n) w e below h = elim (Bool-cases (p.bitmap w == 0xFFFFFFFF)) [
    | inl full ↦
        let ones : p.bitmap w ≡ 2 ^ 32 - 1 = ground arith in
        scan_words-none n (w + 1) (omega arith)
          (extend w below (full_word p w (λ k q. rw ones (bit-ones 32 k q)))) (rw full at h)
    | inr more ↦ elim (Option-cases (first_clear 32 0 (p.bitmap w))) [
      | inl nothing ↦
          scan_words-none n (w + 1) (omega arith)
            (extend w below (
              full_word p w
                (λ k q. first_clear-none 32 0 (p.bitmap w) nothing k (omega arith) (omega arith))))
            (rw (more, nothing) at h)
      | inr (b, found) ↦ absurd (cc (rw (more, found) at h))
    ]
  ]

  -- While a frame is free the scan from the hint finds one: no frame below the hint is free.
  scan-Allocated :
      0 < p.free_frames
      → (r : ℕ × Pmm) × (scan_words (max_frames / 32 - p.search_hint) p.search_hint p ≡ some r)
        × Allocated p r
  scan-Allocated h =
      let n : ℕ = max_frames / 32 - p.search_hint in
      let e : p.search_hint + n ≡ max_frames / 32 = omega (arith, v.hint_in) in
      elim (Option-cases (scan_words n p.search_hint p)) [
        | inl nothing ↦ absurd (
            omega (
              arith,
              v.counted,
              free_count-zero p.bitmap max_frames
                  (scan_words-none n p.search_hint e v.full_below nothing),
            ))
        | inr (r, found) ↦ (r, found, scan_words-some n p.search_hint r e v.full_below found)
      ]

  -- With a free frame at hand, `pmm_alloc_frame` returns the address of the lowest one, which is
  -- not null and lies outside the first megabyte, marks it used, changes no other frame, counts
  -- one free frame less, and keeps the invariant.
  pub pmm_alloc_frame-Allocated : 0 < p.free_frames → Allocated p (pmm_alloc_frame p)
  unfolding pmm_alloc_frame alloc_within
  pmm_alloc_frame-Allocated h =
      let (r, found, done) = scan-Allocated h in
      let more : (p.free_frames == 0) ≡ false = ground arith in rw (more, found) done

-- With no free frame it returns 0 and changes nothing.
pub pmm_alloc_frame-none : (p : Pmm) → p.free_frames ≡ 0 → pmm_alloc_frame p ≡ (0, p)
unfolding pmm_alloc_frame alloc_within
pmm_alloc_frame-none p h = let z : (p.free_frames == 0) ≡ true = ground arith in rw z
