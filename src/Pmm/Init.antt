-- ===== src/Pmm/Init.antt =====
-- `pmm_init`: which frames the E820 map opens up.
use red_panda_os.Prelude.{
  ℕ, zero, suc, ◌+◌, ◌-◌, ◌*◌, ◌%◌, ◌^◌, ◌≤◌, ◌<◌, ◌≡◌, refl, sym, inl, inr, Bool, true, false,
  ◌&&◌, ◌||◌, List, [], ◌∷◌, arith, ltb, leb, ◌==◌, if◌then◌else◌, Bool-cases, shr,
}
use red_panda_os.Pmm.{
  E820Entry, Pmm, max_frames, frame_size, e820_usable, is_used, mark_free, open_frame, open_frames,
  open_region, open_regions, region_first, region_last, reserve_frame, reserve_frames, blank,
  pmm_init,
}
use red_panda_os.Pmm.Bitmap.{
  used, AllWords, is_used-used, used-le-one, used-mark_used, used-mark_free, mark_used-AllWords,
  mark_free-AllWords,
}
use red_panda_os.Pmm.Count.{
  free_count, free_count-mark_used, free_count-mark_free, free_count-le, free_count-zero,
}
use red_panda_os.Prelude.Bits.{bit-ones}
use red_panda_os.Pmm.Inv.{IsValid}

-- The state of the manager while `pmm_init` runs.
record Counted (p : Pmm) : Type 0 where
  words : AllWords p.bitmap
  counted : p.free_frames ≡ free_count p.bitmap max_frames
  hint_zero : p.search_hint ≡ 0

record Opens (p : Pmm) (opened : ℕ → Bool) (q : Pmm) : Type 0 where
  now : (g : ℕ) → used q.bitmap g ≡ (if opened g then 0 else used p.bitmap g)
  keeps : Counted q

open_frame-Opens :
    (p : Pmm) (f : ℕ) → f < max_frames → Counted p → Opens p (λ g. f == g) (open_frame p f)
unfolding open_frame
open_frame-Opens p f h c = elim (Bool-cases (is_used p.bitmap f == 0)) [
  | inl free ↦
      let u : used p.bitmap f ≡ 0 = ground (arith, is_used-used p.bitmap f) in
      rw free (record {
        now = λ g. elim (Bool-cases (f == g)) [
          | inl same ↦ let e : f ≡ g = ground arith in rw (same, ← e) u
          | inr other ↦ rw other
        ];
        keeps = c;
      })
  | inr taken ↦
      let u : used p.bitmap f ≡ 1 =
        ground (arith, is_used-used p.bitmap f, used-le-one p.bitmap f) in
      let count = free_count-mark_free p.bitmap f max_frames h u in
      let bound = free_count-le (mark_free p.bitmap f) max_frames in
      rw taken (record {
        now = used-mark_free p.bitmap f;
        keeps = record {
          words = mark_free-AllWords p.bitmap f c.words;
          counted = omega (arith, c.counted);
          hint_zero = c.hint_zero;
        };
      })
]

abbrev within : ℕ → ℕ → ℕ → Bool
within f n g = leb f g && ltb g (f + n)

open_frames-Opens :
    (n f : ℕ) (p : Pmm) → f + n ≤ max_frames → Counted p → Opens p (within f n) (open_frames n f p)
unfolding open_frames
open_frames-Opens zero f p h c = record { now = λ g. ground arith; keeps = c }
open_frames-Opens (suc n) f p h c =
    let one = open_frame-Opens p f (omega arith) c in
    let rest = open_frames-Opens n (f + 1) (open_frame p f) (omega arith) one.keeps in
    record { now = λ g. ground (arith, rest.now g, one.now g); keeps = rest.keeps }

-- The region is usable, starts below 4 GB, and the frame lies inside it and below the last page.
pub covers : E820Entry → ℕ → Bool
covers e f =
    (e.type == e820_usable)
    && ltb e.base (2 ^ 32)
    && leb e.base (f * frame_size)
    && leb ((f + 1) * frame_size) (e.base + e.len)
    && leb ((f + 1) * frame_size) 0xFFFFF000

pub covered : List E820Entry → ℕ → Bool
covered [] f = false
covered (e ∷ es) f = covers e f || covered es f

-- The sums of the code do not wrap.
abbrev pub Fits : E820Entry → Type 0
Fits e = (e.base + e.len < 2 ^ 64) × (e.base < 2 ^ 32 → e.base + frame_size ≤ 2 ^ 32)

abbrev pub AllFit : List E820Entry → Type 0
AllFit [] = Unit {0}
AllFit (e ∷ es) = Fits e × AllFit es

Opens-ext : {p q : Pmm} {a b : ℕ → Bool} → ((g : ℕ) → a g ≡ b g) → Opens p a q → Opens p b q
Opens-ext same o = record { now = λ g. rw (← same g) (o.now g); keeps = o.keeps }

-- The rounds of the loop are the frames that the region covers.
within-covers :
    (e : E820Entry)
    → Fits e
    → (e.type == e820_usable) ≡ true
    → e.base < 2 ^ 32
    → (g : ℕ) → within (region_first e) (region_last e - region_first e) g ≡ covers e g
unfolding covers
within-covers e fits u low g = rw u (ground arith)

Opens-none : {p : Pmm} (a : ℕ → Bool) → ((g : ℕ) → a g ≡ false) → Counted p → Opens p a p
Opens-none a no_frame c = record { now = λ g. rw no_frame; keeps = c }

not_covers_type : (e : E820Entry) (g : ℕ) → (e.type == e820_usable) ≡ false → covers e g ≡ false
unfolding covers
not_covers_type e g h = ground arith

not_covers_high : (e : E820Entry) (g : ℕ) → (shr e.base 32 == 0) ≡ false → covers e g ≡ false
unfolding covers
not_covers_high e g h = ground arith

open_region-Opens :
    (p : Pmm) (e : E820Entry) → Fits e → Counted p → Opens p (covers e) (open_region p e)
unfolding open_region
open_region-Opens p e fits c = elim (Bool-cases (e.type == e820_usable)) [
  | inr other ↦ rw other (Opens-none (covers e) (λ g. not_covers_type e g other) c)
  | inl usable ↦ elim (Bool-cases (shr e.base 32 == 0)) [
    | inr high ↦ rw (usable, high) (Opens-none (covers e) (λ g. not_covers_high e g high) c)
    | inl low ↦
        let low' : e.base < 2 ^ 32 = ground arith in
        let room : region_first e + (region_last e - region_first e) ≤ max_frames = ground arith in
        rw (usable, low)
          (Opens-ext (within-covers e fits usable low')
            (open_frames-Opens (region_last e - region_first e) (region_first e) p room c))
  ]
]

open_regions-Opens :
    (es : List E820Entry) (p : Pmm)
    → AllFit es
    → Counted p
    → Opens p (covered es) (open_regions es p)
unfolding open_regions covered
open_regions-Opens [] p fit c = Opens-none _ (λ g. refl) c
open_regions-Opens (e ∷ es) p fit c =
    let one = open_region-Opens p e fit.0 c in
    let rest = open_regions-Opens es (open_region p e) fit.1 one.keeps in
    record { now = λ g. ground (arith, rest.now g, one.now g); keeps = rest.keeps }

record Reserves (p : Pmm) (taken : ℕ → Bool) (q : Pmm) : Type 0 where
  now : (g : ℕ) → used q.bitmap g ≡ (if taken g then 1 else used p.bitmap g)
  keeps : Counted q

reserve_frame-Reserves :
    (p : Pmm) (f : ℕ) → f < max_frames → Counted p → Reserves p (λ g. f == g) (reserve_frame p f)
unfolding reserve_frame
reserve_frame-Reserves p f h c = elim (Bool-cases (is_used p.bitmap f == 0)) [
  | inr taken ↦
      let u : used p.bitmap f ≡ 1 =
        ground (arith, is_used-used p.bitmap f, used-le-one p.bitmap f) in
      rw taken (record {
        now = λ g. elim (Bool-cases (f == g)) [
          | inl same ↦ let e : f ≡ g = ground arith in rw (same, ← e) u
          | inr other ↦ rw other
        ];
        keeps = c;
      })
  | inl free ↦
      let u : used p.bitmap f ≡ 0 = ground (arith, is_used-used p.bitmap f) in
      let count = free_count-mark_used p.bitmap f max_frames h u in
      let bound = free_count-le p.bitmap max_frames in
      rw free (record {
        now = used-mark_used p.bitmap f;
        keeps = record {
          words = mark_used-AllWords p.bitmap f c.words;
          counted = omega (arith, c.counted);
          hint_zero = c.hint_zero;
        };
      })
]

reserve_frames-Reserves :
    (n f : ℕ) (p : Pmm)
    → f + n ≤ max_frames
    → Counted p
    → Reserves p (within f n) (reserve_frames n f p)
unfolding reserve_frames
reserve_frames-Reserves zero f p h c = record { now = λ g. ground arith; keeps = c }
reserve_frames-Reserves (suc n) f p h c =
    let one = reserve_frame-Reserves p f (omega arith) c in
    let rest = reserve_frames-Reserves n (f + 1) (reserve_frame p f) (omega arith) one.keeps in
    record { now = λ g. ground (arith, rest.now g, one.now g); keeps = rest.keeps }

blank-used : (g : ℕ) → used blank.bitmap g ≡ 1
unfolding blank
blank-used g = bit-ones 32 (g % 32) (omega arith)

blank-Counted : Counted blank
unfolding blank
blank-Counted = record {
  words = λ w. omega arith;
  counted = sym (free_count-zero blank.bitmap max_frames (λ f q. blank-used f));
  hint_zero = refl;
}

pub pmm_init-IsValid :
    (es : List E820Entry)
    → AllFit es
    → IsValid (pmm_init es)
      × ((f : ℕ)
          → used (pmm_init es).bitmap f ≡ (if ltb f 256 then 1 else if covered es f then 0 else 1))
unfolding pmm_init
pmm_init-IsValid es fit =
    let o = open_regions-Opens es blank fit blank-Counted in
    let r = reserve_frames-Reserves 256 0 (open_regions es blank) (omega arith) o.keeps in
    (
      record {
        words = r.keeps.words;
        counted = r.keeps.counted;
        hint_in = omega (arith, r.keeps.hint_zero);
        full_below = λ f q. absurd (omega (arith, r.keeps.hint_zero));
        low_reserved = λ f q. ground (arith, r.now f);
      },
      λ f. ground (arith, r.now f, o.now f, blank-used f),
    )
