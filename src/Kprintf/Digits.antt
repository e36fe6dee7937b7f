-- ===== src/Kprintf/Digits.antt =====
-- kernel/kprintf.c: the digits of a number, and their value.
use red_panda_os.Prelude.{
  ℕ, zero, suc, ◌+◌, ◌-◌, ◌*◌, ◌/◌, ◌%◌, ◌^◌, ◌≤◌, ◌<◌, min, ◌≡◌, refl, sym, ap, ◌∙◌, ◌⊎◌, inl, inr,
  Bool, true, false, List, [], ◌∷◌, ◌++◌, arith, leb, ◌==◌, if◌then◌else◌, Bool-cases, length,
  replicate, length-append, length-replicate,
}
use red_panda_os.Kprintf.{digit_char, low_digits, num_digits, reversed, num_buf, print_num}
use red_panda_os.Fb.Rows.{mul_le}
use native.Mathlib.Nat.{mod-add-div, mod-lt, pow-zero, pow-suc, pow-le-pow_left, div-lt_iff_lt-mul}

-- The value of a character as a digit, and of digits from the lowest on; a space counts as 0.
abbrev pub char_value : ℕ → ℕ
char_value c = if leb 97 c then c - 87 else c - 48

abbrev pub low_value : ℕ → List ℕ → ℕ
low_value base [] = 0
low_value base (c ∷ cs) = char_value c + base * low_value base cs

-- The value of digits from the highest on.
abbrev pub value_from : ℕ → ℕ → List ℕ → ℕ
value_from base acc [] = acc
value_from base acc (c ∷ cs) = value_from base (acc * base + char_value c) cs

digit_char-value : (d : ℕ) → d < 16 → char_value (digit_char d) ≡ d
unfolding digit_char
digit_char-value d h = ground (arith, h)

value_from-reversed :
    (base acc : ℕ) (xs ys : List ℕ)
    → value_from base acc (reversed xs ys)
      ≡ value_from base (value_from base acc (reversed xs [])) ys
unfolding reversed
value_from-reversed base acc [] ys = refl
value_from-reversed base acc (x ∷ xs) ys =
    value_from-reversed base acc xs (x ∷ ys)
    ∙ ap (λ t. value_from base t ys) (sym (value_from-reversed base acc xs (x ∷ [])))

reversed-value : (base : ℕ) (xs : List ℕ) → value_from base 0 (reversed xs []) ≡ low_value base xs
unfolding reversed
reversed-value base [] = refl
reversed-value base (x ∷ xs) =
    value_from-reversed base 0 xs (x ∷ [])
    ∙ (omega (arith, ap (λ t. t * base) (reversed-value base xs)))

length-reversed : (xs ys : List ℕ) → length (reversed xs ys) ≡ length xs + length ys
unfolding reversed
length-reversed [] ys = omega arith
length-reversed (x ∷ xs) ys = omega (arith, length-reversed xs (x ∷ ys))

-- Padding above the digits, of characters that count as 0.
padded-value :
    (base k pad : ℕ) (xs : List ℕ)
    → char_value pad ≡ 0
    → low_value base (xs ++ replicate k pad) ≡ low_value base xs
padded-value base zero pad [] h = refl
padded-value base (suc k) pad [] h =
    let rest = padded-value base k pad [] h in omega (arith, h, ap (λ t. base * t) rest)
padded-value base k pad (x ∷ xs) h =
    ap (λ t. char_value x + base * t) (padded-value base k pad xs h)

le_product : (n base : ℕ) → 2 ≤ base → 2 ^ suc n ≤ 2 ^ n * base
le_product n base h = omega (arith, mul_le 2 base (2 ^ n) h)

module _ (base : ℕ) (least : 2 ≤ base) (most : base ≤ 16) where
  quotient_lt : (v y : ℕ) → v < y * base → v / base < y
  quotient_lt v y h = (div-lt_iff_lt-mul (omega (arith, least))).1 h

  low_digits-value : (fuel v : ℕ) → v < 2 ^ fuel → low_value base (low_digits fuel v base) ≡ v
  unfolding low_digits
  low_digits-value zero v h = omega (arith, h)
  low_digits-value (suc fuel) v h = elim (Bool-cases (v == 0)) [
    | inl none_left ↦ rw none_left (ground (arith, none_left))
    | inr more ↦
        let small =
          digit_char-value (v % base)
            (omega (arith, most, mod-lt v {m = base} (omega (arith, least)))) in
        let q = quotient_lt v (2 ^ fuel) (omega (arith, h, le_product fuel base least)) in
        let rest = low_digits-value fuel (v / base) q in
        rw more (omega (arith, small, ap (λ t. base * t) rest, mod-add-div v base))
  ]

  length-low_digits : (fuel k v : ℕ) → v < base ^ k → length (low_digits fuel v base) ≤ k
  unfolding low_digits
  length-low_digits zero k v h = omega arith
  length-low_digits (suc fuel) zero v h =
      let z : v ≡ 0 = omega (arith, h, pow-zero base) in rw z (omega arith)
  length-low_digits (suc fuel) (suc k) v h = elim (Bool-cases (v == 0)) [
    | inl none_left ↦ rw none_left (omega arith)
    | inr more ↦
        let q = quotient_lt v (base ^ k) (omega (arith, h, pow-suc base k)) in
        rw more (omega (arith, length-low_digits fuel k (v / base) q))
  ]

either :
    (b : Bool) (xs ys : List ℕ) (P : List ℕ → Type 0)
    → (b ≡ true → P xs)
    → P ys
    → P (if b then xs else ys)
either true xs ys P p q = p refl
either false xs ys P p q = q

num_digits-value :
    (v base : ℕ) → 2 ≤ base → base ≤ 16 → v < 2 ^ 32 → low_value base (num_digits v base) ≡ v
unfolding num_digits
num_digits-value v base least most h =
    either (v == 0) (48 ∷ []) (low_digits 32 v base) (λ xs. low_value base xs ≡ v)
      (λ e. ground (arith, e)) (low_digits-value base least most 32 v h)

length-num_digits :
    (v base : ℕ) → 10 ≤ base → base ≤ 16 → v < 2 ^ 32 → length (num_digits v base) ≤ 10
unfolding num_digits
length-num_digits v base least most h =
    let bound : 10 ^ 10 ≤ base ^ 10 = pow-le-pow_left least 10 in
    either (v == 0) (48 ∷ []) (low_digits 32 v base) (λ xs. length xs ≤ 10) (λ e. omega arith)
      (length-low_digits base (omega (arith, least)) most 32 10 v (omega (arith, h, bound)))

-- In a base from 10 to 16, and with padding of zeros or spaces, a 32-bit value's characters read
-- back as the value, and they are at most 11 and at least the width (up to 11), so that they fit
-- the 12 bytes of `buf`.
pub print_num-reads :
    (v base width pad : ℕ)
    → 10 ≤ base
    → base ≤ 16
    → v < 2 ^ 32
    → (pad ≡ 48) ⊎ (pad ≡ 32)
    → (value_from base 0 (print_num v base width pad) ≡ v)
      × (length (print_num v base width pad) ≤ 11)
      × (min width 11 ≤ length (print_num v base width pad))
unfolding print_num num_buf
print_num-reads v base width pad least most h zeros =
    let buf = num_digits v base in
    let room = min width 11 - length buf in
    let all = buf ++ replicate room pad in
    let none : char_value pad ≡ 0 = ground (arith, zeros) in
    let size : length (reversed all []) ≡ length buf + room =
      length-reversed all []
      ∙ omega (arith, length-append buf (replicate room pad), length-replicate room pad) in
    let short = length-num_digits v base least most h in
    (
      reversed-value base all
          ∙ (padded-value base room pad buf none
              ∙ num_digits-value v base (omega (arith, least)) most h),
      omega (arith, size, short),
      omega (arith, size),
    )
