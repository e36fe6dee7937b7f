-- ===== src/Windows/Order.antt =====
-- kernel/gui.c, the windows: how often a window stands in the order.
use red_panda_os.Prelude.{
  ℕ, zero, suc, ◌+◌, ◌-◌, ◌≤◌, ◌<◌, ◌≡◌, refl, ap, inl, inr, Bool, true, false, List, [], ◌∷◌, ◌++◌,
  arith, ◌==◌, if◌then◌else◌, Bool-cases, length, set,
}
use red_panda_os.Windows.{Window, win_at, take_out, listed}

-- 1 where it holds.
abbrev pub bit_of : Bool → ℕ
bit_of b = if b then 1 else 0

abbrev pub count : ℕ → List ℕ → ℕ
count k [] = 0
count k (i ∷ order) = bit_of (i == k) + count k order

abbrev pub used_at : List Window → ℕ → Bool
used_at wins i = (win_at wins i).used

abbrev pub used_count : List Window → ℕ
used_count [] = 0
used_count (w ∷ wins) = bit_of w.used + used_count wins

pub count-append : (k : ℕ) (xs ys : List ℕ) → count k (xs ++ ys) ≡ count k xs + count k ys
count-append k [] ys = omega arith
count-append k (x ∷ xs) ys = omega (arith, count-append k xs ys)

pub listed-count : (k : ℕ) (xs : List ℕ) → listed k xs ≡ true → 1 ≤ count k xs
unfolding listed
listed-count k [] h = absurd (cc)
listed-count k (x ∷ xs) h = elim (Bool-cases (x == k)) [
  | inl e ↦ rw e (omega arith)
  | inr e ↦ rw e (omega (arith, listed-count k xs (rw e at h)))
]

pub count-listed : (k : ℕ) (xs : List ℕ) → 1 ≤ count k xs → listed k xs ≡ true
unfolding listed
count-listed k [] h = absurd (omega (arith, h))
count-listed k (x ∷ xs) h = elim (Bool-cases (x == k)) [
  | inl e ↦ rw e refl
  | inr e ↦ rw e (count-listed k xs (omega (arith, rw e at h)))
]

pub take_out-count : (k : ℕ) (xs : List ℕ) → count k (take_out k xs) ≡ count k xs - 1
unfolding take_out
take_out-count k [] = omega arith
take_out-count k (x ∷ xs) = elim (Bool-cases (x == k)) [
  | inl e ↦ rw e (omega arith)
  | inr e ↦ rw e (rw e (omega (arith, take_out-count k xs)))
]

pub take_out-other :
    (k j : ℕ) (xs : List ℕ) → (k == j) ≡ false → count j (take_out k xs) ≡ count j xs
unfolding take_out
take_out-other k j [] h = refl
take_out-other k j (x ∷ xs) h = elim (Bool-cases (x == k)) [
  | inl e ↦ let q : x ≡ k = ground (arith, e) in rw e (rw q (rw h (omega arith)))
  | inr e ↦ rw e (ap (λ t. bit_of (x == j) + t) (take_out-other k j xs h))
]

pub length-take_out :
    (k : ℕ) (xs : List ℕ) → 1 ≤ count k xs → length (take_out k xs) + 1 ≡ length xs
unfolding take_out
length-take_out k [] h = absurd (omega (arith, h))
length-take_out k (x ∷ xs) h = elim (Bool-cases (x == k)) [
  | inl e ↦ rw e (omega arith)
  | inr e ↦ rw e (omega (arith, length-take_out k xs (omega (arith, rw e at h))))
]

-- Changing one entry of the table.
pub used_at-set_self :
    (wins : List Window) (i : ℕ) (w : Window) → i < length wins → used_at (set wins i w) i ≡ w.used
used_at-set_self [] i w h = absurd (omega (arith, h))
used_at-set_self (x ∷ wins) zero w h = refl
used_at-set_self (x ∷ wins) (suc i) w h = used_at-set_self wins i w (omega (arith, h))

pub used_at-set_other :
    (wins : List Window) (i j : ℕ) (w : Window)
    → (i == j) ≡ false
    → used_at (set wins i w) j ≡ used_at wins j
used_at-set_other [] i j w h = refl
used_at-set_other (x ∷ wins) zero zero w h = absurd (ground (arith, h))
used_at-set_other (x ∷ wins) zero (suc j) w h = refl
used_at-set_other (x ∷ wins) (suc i) zero w h = refl
used_at-set_other (x ∷ wins) (suc i) (suc j) w h = used_at-set_other wins i j w (ground (arith, h))

pub used_count-set :
    (wins : List Window) (i : ℕ) (w : Window)
    → i < length wins
    → used_count (set wins i w) + bit_of (used_at wins i) ≡ used_count wins + bit_of w.used
used_count-set [] i w h = absurd (omega (arith, h))
used_count-set (x ∷ wins) zero w h = omega arith
used_count-set (x ∷ wins) (suc i) w h = omega (arith, used_count-set wins i w (omega (arith, h)))

pub used_at-lt : (wins : List Window) (i : ℕ) → used_at wins i ≡ true → i < length wins
used_at-lt [] i h = absurd (cc)
used_at-lt (x ∷ wins) zero h = omega arith
used_at-lt (x ∷ wins) (suc i) h = omega (arith, used_at-lt wins i h)

pub used_count-le : (wins : List Window) → used_count wins ≤ length wins
used_count-le [] = omega arith
used_count-le (x ∷ wins) = ground (arith, used_count-le wins)
