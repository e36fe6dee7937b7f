-- ===== src/Fb/Sqrt.antt =====
-- kernel/fb.c: the integer square root of the round shapes.
use red_panda_os.Prelude.{
  ℕ, zero, suc, ◌+◌, ◌*◌, ◌≤◌, ◌<◌, inl, inr, arith, leb, leb→le, Bool-cases,
}
use red_panda_os.Fb.Shapes.{isqrt_from, isqrt}

abbrev pub IsRoot : ℕ → ℕ → Type 0
IsRoot r v = (r * r ≤ v) × (v < (r + 1) * (r + 1))

square_le : (r : ℕ) → r ≤ r * r
square_le zero = omega arith
square_le (suc r) = omega arith

isqrt_from-IsRoot : (fuel r v : ℕ) → r * r ≤ v → v + 1 ≤ fuel + r → IsRoot (isqrt_from fuel r v) v
unfolding isqrt_from
isqrt_from-IsRoot zero r v h enough = absurd (omega (arith, h, enough, square_le r))
isqrt_from-IsRoot (suc fuel) r v h enough = elim (Bool-cases (leb ((r + 1) * (r + 1)) v)) [
  | inl more ↦
      let le = leb→le ((r + 1) * (r + 1)) v more in
      rw more (isqrt_from-IsRoot fuel (suc r) v (omega (arith, le)) (omega (arith, enough)))
  | inr done ↦ rw done (h, ground (arith, done))
]

-- The square root's loop ends at the greatest number whose square is at most the argument.
pub isqrt-IsRoot : (v : ℕ) → IsRoot (isqrt v) v
unfolding isqrt
isqrt-IsRoot v = isqrt_from-IsRoot (suc v) 0 v (omega arith) (omega arith)
