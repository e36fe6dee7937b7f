-- ===== src/Pmm/Count.antt =====
-- The number of free frames below a bound.
use red_panda_os.Prelude.{
  ℕ, zero, suc, ◌+◌, ◌-◌, ◌≤◌, ◌<◌, ◌≡◌, refl, inl, inr, arith, ◌==◌, Bool-cases,
}
use red_panda_os.Pmm.{mark_used, mark_free}
use red_panda_os.Pmm.Bitmap.{used, used-mark_used, used-mark_free}

pub free_count : (ℕ → ℕ) → ℕ → ℕ
free_count bitmap zero = 0
free_count bitmap (suc n) = free_count bitmap n + (1 - used bitmap n)

free_count_ext :
    (a b : ℕ → ℕ) (n : ℕ)
    → ((f : ℕ) → f < n → used a f ≡ used b f)
    → free_count a n ≡ free_count b n
unfolding free_count
free_count_ext a b zero h = refl
free_count_ext a b (suc n) h =
    omega (arith, free_count_ext a b n (λ f q. h f (omega arith)), h n (omega arith))

pub free_count-mark_used :
    (b : ℕ → ℕ) (f n : ℕ) → f < n → used b f ≡ 0 → free_count (mark_used b f) n + 1 ≡ free_count b n
unfolding free_count
free_count-mark_used b f zero h u = absurd (omega arith)
free_count-mark_used b f (suc n) h u = elim (Bool-cases (f == n)) [
  | inl same ↦
      let e : f ≡ n = ground arith in
      let u' : used b n ≡ 0 = rw e at u in
      let g = free_count_ext (mark_used b f) b n (λ g q. ground (arith, used-mark_used b f g)) in
      ground (arith, g, used-mark_used b f n)
  | inr other ↦ ground (arith, free_count-mark_used b f n, used-mark_used b f n)
]

pub free_count-mark_free :
    (b : ℕ → ℕ) (f n : ℕ) → f < n → used b f ≡ 1 → free_count (mark_free b f) n ≡ free_count b n + 1
unfolding free_count
free_count-mark_free b f zero h u = absurd (omega arith)
free_count-mark_free b f (suc n) h u = elim (Bool-cases (f == n)) [
  | inl same ↦
      let e : f ≡ n = ground arith in
      let u' : used b n ≡ 1 = rw e at u in
      let g = free_count_ext (mark_free b f) b n (λ g q. ground (arith, used-mark_free b f g)) in
      ground (arith, g, used-mark_free b f n)
  | inr other ↦ ground (arith, free_count-mark_free b f n, used-mark_free b f n)
]

-- Where all frames are in use the count is zero.
pub free_count-zero : (b : ℕ → ℕ) (n : ℕ) → ((f : ℕ) → f < n → used b f ≡ 1) → free_count b n ≡ 0
unfolding free_count
free_count-zero b zero h = refl
free_count-zero b (suc n) h =
    omega (arith, free_count-zero b n (λ f q. h f (omega arith)), h n (omega arith))

pub free_count-le : (b : ℕ → ℕ) (n : ℕ) → free_count b n ≤ n
unfolding free_count
free_count-le b zero = omega arith
free_count-le b (suc n) = omega (arith, free_count-le b n)
