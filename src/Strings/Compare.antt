-- ===== src/Strings/Compare.antt =====
-- The comparing functions of string.c decide equality of the texts that they read.
use red_panda_os.Prelude.{
  ℕ, zero, suc, ◌≤◌, ◌≡◌, refl, ◌↔◌, List, [], ◌∷◌, arith, ◌==◌, if◌then◌else◌, length, take,
}
use red_panda_os.Prelude.Int.{pos, sub_ℕ}
use red_panda_os.Strings.{strlen, strcmp, strncmp, memcmp}

-- The text that a pointer stands for: the bytes before the terminator.
unfoldable pub c_str : List ℕ → List ℕ
c_str [] = []
c_str (x ∷ xs) = if x == 0 then [] else (x ∷ c_str xs)

-- `strlen` is the length of the text.
pub strlen_lem : (xs : List ℕ) → strlen xs ≡ length (c_str xs)
unfolding strlen c_str
strlen_lem [] = refl
strlen_lem (x ∷ xs) = ground (arith, strlen_lem xs)

sub_ℕ-eq-zero : (a b : ℕ) → sub_ℕ a b ≡ pos 0 → a ≡ b
sub_ℕ-eq-zero a b e = ground arith

-- `strcmp` returns 0 exactly when the two texts are the same.
pub strcmp_iff : (xs ys : List ℕ) → (strcmp xs ys ≡ pos 0) ↔ (c_str xs ≡ c_str ys)
unfolding strcmp c_str
strcmp_iff [] [] = (λ _. refl, λ _. refl)
strcmp_iff [] (y ∷ ys) = ground arith
strcmp_iff (x ∷ xs) [] = ground arith
strcmp_iff (x ∷ xs) (y ∷ ys) = ground (arith, (strcmp_iff xs ys).0, (strcmp_iff xs ys).1)

-- `strncmp` returns 0 exactly when the first `n` characters of the two texts are the same.
pub strncmp_iff :
    (xs ys : List ℕ) (n : ℕ) → (strncmp xs ys n ≡ pos 0) ↔ (take n (c_str xs) ≡ take n (c_str ys))
unfolding strncmp c_str
strncmp_iff xs ys zero = (λ _. refl, λ _. nothing xs ys)
  where
    nothing : (xs ys : List ℕ) → strncmp xs ys 0 ≡ pos 0
    nothing [] ys = refl
    nothing (x ∷ xs) ys = refl
strncmp_iff [] [] (suc n) = (λ _. refl, λ _. refl)
strncmp_iff [] (y ∷ ys) (suc n) = ground arith
strncmp_iff (x ∷ xs) [] (suc n) = ground arith
strncmp_iff (x ∷ xs) (y ∷ ys) (suc n) =
    ground (arith, (strncmp_iff xs ys n).0, (strncmp_iff xs ys n).1)

-- `memcmp` of two regions of at least `n` bytes returns 0 exactly when the first `n` agree.
pub memcmp_iff :
    (xs ys : List ℕ) (n : ℕ)
    → n ≤ length xs
    → n ≤ length ys
    → (memcmp xs ys n ≡ pos 0) ↔ (take n xs ≡ take n ys)
unfolding memcmp
memcmp_iff xs ys zero h k = (λ _. refl, λ _. refl)
memcmp_iff [] ys (suc n) h k = absurd (omega arith)
memcmp_iff (x ∷ xs) [] (suc n) h k = absurd (omega arith)
memcmp_iff (x ∷ xs) (y ∷ ys) (suc n) h k = ground (
  arith,
  (memcmp_iff xs ys n (omega arith) (omega arith)).0,
  (memcmp_iff xs ys n (omega arith) (omega arith)).1,
)
