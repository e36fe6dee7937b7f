-- ===== src/Prelude/Bits.antt =====
-- The bits of a word, and the bitwise operations read bit by bit.
use Prim.Native.Nat.{
  ℕ, zero, suc, ◌+◌, ◌-◌, ◌*◌, ◌/◌, ◌%◌, ◌^◌, ◌≤◌, ◌<◌, min, max, bit_and, bit_or, digits, bitwise,
  bit_and-bitwise, bit_or-bitwise,
}
use mathlib.Core.Path.{◌≡◌, refl, ap}
use mathlib.Core.Logic.{◌≢◌}
use native.Mathlib.Omega.{arith}
use native.Mathlib.Nat.{pow-succ', pow-le-pow_right, one-le-pow, div-add-mod, div-div-eq-div-mul}

-- The native operations stand for a recursion on binary digits that carries fuel. Any fuel that is
-- at least the first operand serves.
module _ (past : ℕ → ℕ) (op : ℕ → ℕ → ℕ) where
  enough :
      (bound fuel a b : ℕ) → fuel ≤ bound → a ≤ fuel → digits past op fuel a b ≡ bitwise past op a b
  enough bound zero zero b p q = refl
  enough bound zero (suc a) b p q = absurd (omega arith)
  enough bound (suc fuel) zero b p q = refl
  enough zero (suc fuel) (suc a) b p q = absurd (omega arith)
  enough (suc bound) (suc fuel) (suc a) b p q =
      let high : ℕ = suc a / 2 in
      let with_fuel = enough bound fuel high (b / 2) (omega arith) (omega arith) in
      let by_itself = enough bound a high (b / 2) (omega arith) (omega arith) in
      cc (with_fuel, by_itself)

  unroll :
      (a b : ℕ)
      → bitwise past op (suc a) b ≡ op (suc a % 2) (b % 2) + 2 * bitwise past op (suc a / 2) (b / 2)
  unroll a b = omega (arith, enough a a (suc a / 2) (b / 2) (omega arith) (omega arith))

pub bit_or_step : (a b : ℕ) → bit_or a b ≡ max (a % 2) (b % 2) + 2 * bit_or (a / 2) (b / 2)
bit_or_step zero b = simp bit_or-bitwise (omega arith)
bit_or_step (suc a) b = simp bit_or-bitwise (unroll (λ c. c) max a b)

pub bit_and_step : (a b : ℕ) → bit_and a b ≡ min (a % 2) (b % 2) + 2 * bit_and (a / 2) (b / 2)
bit_and_step zero b = simp bit_and-bitwise (omega arith)
bit_and_step (suc a) b = simp bit_and-bitwise (unroll (λ _. 0) min a b)

-- Bit `k` of `a`, 0 or 1.
abbrev pub bit : ℕ → ℕ → ℕ
bit zero a = a % 2
bit (suc k) a = bit k (a / 2)

pub bit-le-one : (k a : ℕ) → bit k a ≤ 1
bit-le-one zero a = omega arith
bit-le-one (suc k) a = bit-le-one k (a / 2)

pub bit-shr : (k a : ℕ) → bit k a ≡ a / 2 ^ k % 2
bit-shr zero a = omega arith
bit-shr (suc k) a = rw (pow-succ', ← div-div-eq-div-mul) (bit-shr k (a / 2))

pub bit-bit_or : (k a b : ℕ) → bit k (bit_or a b) ≡ max (bit k a) (bit k b)
bit-bit_or zero a b = omega (arith, bit_or_step a b)
bit-bit_or (suc k) a b =
    let e : bit_or a b / 2 ≡ bit_or (a / 2) (b / 2) = omega (arith, bit_or_step a b) in
    rw e (bit-bit_or k (a / 2) (b / 2))

pub bit-bit_and : (k a b : ℕ) → bit k (bit_and a b) ≡ min (bit k a) (bit k b)
bit-bit_and zero a b = omega (arith, bit_and_step a b)
bit-bit_and (suc k) a b =
    let e : bit_and a b / 2 ≡ bit_and (a / 2) (b / 2) = omega (arith, bit_and_step a b) in
    rw e (bit-bit_and k (a / 2) (b / 2))

two_pow-suc : (n : ℕ) → 2 ^ suc n ≡ 2 * 2 ^ n
two_pow-suc n = pow-succ' 2 n

pub bit-two_pow_self : (k : ℕ) → bit k (2 ^ k) ≡ 1
bit-two_pow_self zero = omega arith
bit-two_pow_self (suc k) =
    let e : 2 ^ suc k / 2 ≡ 2 ^ k = omega (arith, two_pow-suc k) in rw e (bit-two_pow_self k)

pub bit-zero : (k : ℕ) → bit k 0 ≡ 0
bit-zero zero = refl
bit-zero (suc k) = bit-zero k

pub bit-two_pow_ne : (k j : ℕ) → j ≢ k → bit k (2 ^ j) ≡ 0
bit-two_pow_ne zero zero h = absurd (h refl)
bit-two_pow_ne zero (suc j) h = omega (arith, two_pow-suc j)
bit-two_pow_ne (suc k) zero h = bit-zero k
bit-two_pow_ne (suc k) (suc j) h =
    let e : 2 ^ suc j / 2 ≡ 2 ^ j = omega (arith, two_pow-suc j) in
    rw e (bit-two_pow_ne k j (λ q. h (ap suc q)))

-- `~x` on `n` bits.
pub bit-complement : (n k x : ℕ) → k < n → x < 2 ^ n → bit k (2 ^ n - 1 - x) ≡ 1 - bit k x
bit-complement zero k x h l = absurd (omega arith)
bit-complement (suc n) zero x h l = omega (arith, two_pow-suc n)
bit-complement (suc n) (suc k) x h l =
    let e : (2 ^ suc n - 1 - x) / 2 ≡ 2 ^ n - 1 - x / 2 = omega (arith, two_pow-suc n) in
    rw e (bit-complement n k (x / 2) (omega arith) (omega (arith, two_pow-suc n)))

-- A word whose bits are all set is the word of ones.
pub eq_ones : (n x : ℕ) → x < 2 ^ n → ((k : ℕ) → k < n → bit k x ≡ 1) → x ≡ 2 ^ n - 1
eq_ones zero x l h = omega arith
eq_ones (suc n) x l h = omega (
  arith,
  two_pow-suc n,
  h 0 (omega arith),
  eq_ones n (x / 2) (omega (arith, two_pow-suc n)) (λ k q. h (suc k) (omega arith)),
)

pub bit-ones : (n k : ℕ) → k < n → bit k (2 ^ n - 1) ≡ 1
bit-ones n k h =
    let e : bit k (2 ^ n - 1 - 0) ≡ 1 =
      rw (bit-complement n k 0 h (one-le-pow n 2 (omega arith)), bit-zero) in
    let f : 2 ^ n - 1 - 0 ≡ 2 ^ n - 1 = omega arith in rw f at e

-- Two words of `n` bits with the same bits are equal.
pub eq_of_bits : (n x y : ℕ) → x < 2 ^ n → y < 2 ^ n → ((k : ℕ) → k < n → bit k x ≡ bit k y) → x ≡ y
eq_of_bits zero x y l m h = omega arith
eq_of_bits (suc n) x y l m h = omega (
  arith,
  two_pow-suc n,
  h 0 (omega arith),
  eq_of_bits n (x / 2) (y / 2) (omega (arith, two_pow-suc n)) (omega (arith, two_pow-suc n))
      (λ k q. h (suc k) (omega arith)),
)

pub bit_or-lt : (n a b : ℕ) → a < 2 ^ n → b < 2 ^ n → bit_or a b < 2 ^ n
bit_or-lt zero a b h g =
    let e : a ≡ 0 = omega arith in let f : b ≡ 0 = omega arith in rw (e, f) (omega arith)
bit_or-lt (suc n) a b h g = omega (
  arith,
  two_pow-suc n,
  bit_or_step a b,
  bit_or-lt n (a / 2) (b / 2) (omega (arith, two_pow-suc n)) (omega (arith, two_pow-suc n)),
)

pub zero-bit_and : (b : ℕ) → bit_and 0 b ≡ 0
zero-bit_and b = bit_and-bitwise 0 b

bit_and-zero_upto : (bound a : ℕ) → a ≤ bound → bit_and a 0 ≡ 0
bit_and-zero_upto bound zero h = zero-bit_and 0
bit_and-zero_upto zero (suc a) h = absurd (omega arith)
bit_and-zero_upto (suc bound) (suc a) h =
    let half = bit_and-zero_upto bound (suc a / 2) (omega arith) in
    omega (arith, bit_and_step (suc a) 0, half)

pub bit_and-zero : (a : ℕ) → bit_and a 0 ≡ 0
bit_and-zero a = bit_and-zero_upto a a (omega arith)

pub bit_and-le_left : (n a b : ℕ) → a ≤ n → bit_and a b ≤ a
bit_and-le_left n zero b h = omega (arith, zero-bit_and b)
bit_and-le_left zero (suc a) b h = absurd (omega arith)
bit_and-le_left (suc n) (suc a) b h =
    omega (arith, bit_and_step (suc a) b, bit_and-le_left n (suc a / 2) (b / 2) (omega arith))

pub bit_and-one : (a : ℕ) → bit_and a 1 ≡ a % 2
bit_and-one a = omega (arith, bit_and_step a 1, bit_and-zero (a / 2))

mod-double : (a m : ℕ) → a % (2 * m) ≡ 2 * (a / 2 % m) + a % 2
mod-double a m =
    let e : 2 * m * (a / 2 / m) + a % (2 * m) ≡ a = rw div-div-eq-div-mul (div-add-mod a (2 * m)) in
    omega (arith, e, div-add-mod (a / 2) m)

-- A mask of the low `n` bits is a remainder.
pub bit_and_mask : (n a : ℕ) → bit_and a (2 ^ n - 1) ≡ a % 2 ^ n
bit_and_mask zero a = omega (arith, bit_and-zero a)
bit_and_mask (suc n) a =
    let e : (2 ^ suc n - 1) / 2 ≡ 2 ^ n - 1 = omega (arith, two_pow-suc n) in
    let q : bit_and (a / 2) ((2 ^ suc n - 1) / 2) ≡ (a / 2) % 2 ^ n =
      rw e (bit_and_mask n (a / 2)) in
    let r : a % 2 ^ suc n ≡ 2 * (a / 2 % 2 ^ n) + a % 2 = rw two_pow-suc (mod-double a (2 ^ n)) in
    omega (arith, two_pow-suc n, one-le-pow n 2, bit_and_step a (2 ^ suc n - 1))

-- Testing bit `k` by a mask with that bit alone.
pub bit_and-two_pow : (k a : ℕ) → bit_and a (2 ^ k) ≡ bit k a * 2 ^ k
bit_and-two_pow zero a = omega (arith, bit_and-one a)
bit_and-two_pow (suc k) a =
    let e : 2 ^ suc k / 2 ≡ 2 ^ k = omega (arith, two_pow-suc k) in
    let q : bit_and (a / 2) (2 ^ suc k / 2) ≡ bit k (a / 2) * 2 ^ k =
      rw e (bit_and-two_pow k (a / 2)) in
    omega (
      arith,
      two_pow-suc k,
      bit_and_step a (2 ^ suc k),
      q,
      ap (λ (t : ℕ). bit k (a / 2) * t) (two_pow-suc k),
    )

pub bit_and-two_pow_eq-zero : (k a : ℕ) → bit_and a (2 ^ k) ≡ 0 → bit k a ≡ 0
bit_and-two_pow_eq-zero k a h =
    grind (arith, bit_and-two_pow k a, one-le-pow k 2 (omega arith), bit-le-one k a)

pub bit_and-two_pow_ne-zero : (k a : ℕ) → bit_and a (2 ^ k) ≢ 0 → bit k a ≡ 1
bit_and-two_pow_ne-zero k a h =
    grind (arith, bit_and-two_pow k a, one-le-pow k 2 (omega arith), bit-le-one k a)

pub two_pow-lt : (k n : ℕ) → k < n → 2 ^ k < 2 ^ n
two_pow-lt k n h = omega (
  arith,
  two_pow-suc k,
  one-le-pow k 2,
  pow-le-pow_right {n = 2} (omega arith) {i = suc k} {j = n} h,
)
