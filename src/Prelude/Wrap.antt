-- ===== src/Prelude/Wrap.antt =====
-- The 32-bit `int` of the kernel's C: what the machine keeps of a result.
use red_panda_os.Prelude.{◌+◌, ◌-◌, ◌%◌, ◌^◌, ◌≤◌, ◌<◌, ◌≡◌, refl, arith, ltb, if◌then◌else◌}
use red_panda_os.Prelude.Int.{ℤ, pos, negsuc, pos_part, neg_part}

-- Two's complement: of the values that agree with an integer modulo 2^32, the one from -2^31 to
-- 2^31 - 1.
unfoldable pub int32 : ℤ → ℤ
int32 (pos n) = let r = n % 2 ^ 32 in if ltb r (2 ^ 31) then pos r else negsuc (2 ^ 32 - 1 - r)
int32 (negsuc n) = let r = n % 2 ^ 32 in if ltb r (2 ^ 31) then negsuc r else pos (2 ^ 32 - 1 - r)

-- An integer that an `int` holds.
pub record IsInt (a : ℤ) : Type 0 where
  pub most : pos_part a < 2 ^ 31
  pub least : neg_part a ≤ 2 ^ 31

-- By the difference of its parts.
pub IsInt-between :
    (a : ℤ) → pos_part a < 2 ^ 31 + neg_part a → neg_part a ≤ 2 ^ 31 + pos_part a → IsInt a
IsInt-between (pos n) h k = record { most = omega (arith, h); least = omega arith }
IsInt-between (negsuc n) h k = record { most = omega arith; least = omega (arith, k) }

-- What an `int` holds does not wrap.
pub int32_exact : (a : ℤ) → IsInt a → int32 a ≡ a
unfolding int32
int32_exact (pos n) h = ground (arith, h.most)
int32_exact (negsuc n) h = ground (arith, h.least)

int32-above : int32 (pos (2 ^ 31)) ≡ negsuc (2 ^ 31 - 1)
unfolding int32
int32-above = refl

int32-below : int32 (negsuc (2 ^ 31)) ≡ pos (2 ^ 31 - 1)
unfolding int32
int32-below = refl
