-- ===== src/Pmm/Bitmap.antt =====
-- The bitmap of pmm.c seen frame by frame.
use red_panda_os.Prelude.{
  ℕ, ◌-◌, ◌/◌, ◌%◌, ◌^◌, ◌≤◌, ◌<◌, bit_and, bit_or, ◌≡◌, inl, inr, false, arith, ◌==◌,
  if◌then◌else◌, Bool-cases, shr,
}
use red_panda_os.Prelude.Bits.{
  bit, bit-le-one, bit-shr, bit-bit_or, bit-bit_and, bit-two_pow_self, bit-two_pow_ne,
  bit-complement, bit_and-one, bit_or-lt, bit_and-le_left, two_pow-lt,
}
use red_panda_os.Pmm.{update, mark_used, mark_free, is_used}

-- The frame's bit, 1 when the frame is in use.
abbrev pub used : (ℕ → ℕ) → ℕ → ℕ
used bitmap f = bit (f % 32) (bitmap (f / 32))

-- Every word fits 32 bits.
abbrev pub AllWords : (ℕ → ℕ) → Type 0
AllWords bitmap = (w : ℕ) → bitmap w < 2 ^ 32

pub is_used-used : (bitmap : ℕ → ℕ) (f : ℕ) → is_used bitmap f ≡ used bitmap f
unfolding is_used
is_used-used bitmap f =
    omega (arith, bit_and-one (shr (bitmap (f / 32)) (f % 32)), bit-shr (f % 32) (bitmap (f / 32)))

pub used-le-one : (bitmap : ℕ → ℕ) (f : ℕ) → used bitmap f ≤ 1
used-le-one bitmap f = bit-le-one (f % 32) (bitmap (f / 32))

-- The word with bit `k` set, and the word with bit `k` cleared.
bit_set : (w j k : ℕ) → bit j (bit_or w (2 ^ k)) ≡ (if k == j then 1 else bit j w)
bit_set w j k = elim (Bool-cases (k == j)) [
  | inl same ↦
      let e : k ≡ j = ground arith in
      rw (same, bit-bit_or, e, bit-two_pow_self) (omega (arith, bit-le-one j w))
  | inr other ↦ rw (other, bit-bit_or, bit-two_pow_ne j k (ground arith)) (omega arith)
]

bit_cleared :
    (w j k : ℕ)
    → j < 32
    → k < 32
    → bit j (bit_and w (2 ^ 32 - 1 - 2 ^ k)) ≡ (if k == j then 0 else bit j w)
bit_cleared w j k hj hk =
    let c = bit-complement 32 j (2 ^ k) hj (two_pow-lt k 32 hk) in
    elim (Bool-cases (k == j)) [
      | inl same ↦
          let e : k ≡ j = ground arith in
          let s : bit j (2 ^ k) ≡ 1 = rw e (bit-two_pow_self j) in
          rw (same, bit-bit_and, c, s) (omega arith)
      | inr other ↦
          let s : bit j (2 ^ k) ≡ 0 = bit-two_pow_ne j k (ground arith) in
          rw (other, bit-bit_and, c, s) (omega (arith, bit-le-one j w))
    ]

pub used-mark_used :
    (bitmap : ℕ → ℕ) (f g : ℕ) → used (mark_used bitmap f) g ≡ (if f == g then 1 else used bitmap g)
unfolding mark_used update
used-mark_used bitmap f g = elim (Bool-cases (f / 32 == g / 32)) [
  | inl same ↦
      let e : f / 32 ≡ g / 32 = ground arith in
      let t : (f % 32 == g % 32) ≡ (f == g) = ground arith in
      rw (same, bit_set (bitmap (f / 32)) (g % 32) (f % 32), t, e)
  | inr other ↦ let t : (f == g) ≡ false = ground arith in rw (other, t)
]

pub used-mark_free :
    (bitmap : ℕ → ℕ) (f g : ℕ) → used (mark_free bitmap f) g ≡ (if f == g then 0 else used bitmap g)
unfolding mark_free update
used-mark_free bitmap f g = elim (Bool-cases (f / 32 == g / 32)) [
  | inl same ↦
      let e : f / 32 ≡ g / 32 = ground arith in
      let t : (f % 32 == g % 32) ≡ (f == g) = ground arith in
      rw (same, bit_cleared (bitmap (f / 32)) (g % 32) (f % 32) (omega arith) (omega arith), t, e)
  | inr other ↦ let t : (f == g) ≡ false = ground arith in rw (other, t)
]

pub mark_used-AllWords : (bitmap : ℕ → ℕ) (f : ℕ) → AllWords bitmap → AllWords (mark_used bitmap f)
unfolding mark_used update
mark_used-AllWords bitmap f h w = ground (
  arith,
  h w,
  bit_or-lt 32 (bitmap (f / 32)) (2 ^ (f % 32)) (h (f / 32)) (two_pow-lt (f % 32) 32 (omega arith)),
)

pub mark_free-AllWords : (bitmap : ℕ → ℕ) (f : ℕ) → AllWords bitmap → AllWords (mark_free bitmap f)
unfolding mark_free update
mark_free-AllWords bitmap f h w = ground (
  arith,
  h w,
  h (f / 32),
  bit_and-le_left (bitmap (f / 32)) (bitmap (f / 32)) (2 ^ 32 - 1 - 2 ^ (f % 32)),
)
