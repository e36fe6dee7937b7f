-- ===== src/Fb/Exact.antt =====
-- kernel/fb.c: the line on integers that do not wrap, and when the two agree.
use red_panda_os.Prelude.{
  ℕ, suc, ◌+◌, ◌*◌, ◌^◌, ◌≤◌, ◌<◌, ◌≡◌, inl, inr, Bool, true, false, arith, ltb, if◌then◌else◌,
  Bool-cases,
}
use red_panda_os.Prelude.Wrap.{int32, IsInt, IsInt-between, int32_exact}
use red_panda_os.Prelude.Int.{
  ℤ, pos, negsuc, ◌+ℤ◌, ◌-ℤ◌, ◌*ℤ◌, pos_part, neg_part, ltb_ℤ, +ℤ_parts, -ℤ_parts,
}
use red_panda_os.Fb.{eq_ℤ, span, Pen, toward}

-- The span, the move and the step on integers that do not wrap.
unfoldable pub exact_span : ℤ → ℤ → ℕ
exact_span a b = if ltb_ℤ a b then pos_part (b -ℤ a) else pos_part (a -ℤ b)

unfoldable pub exact_toward : Bool → ℤ → ℤ
exact_toward up x = if up then x +ℤ pos 1 else x +ℤ negsuc 0

unfoldable pub exact_step : ℕ → ℕ → Bool → Bool → Pen → Pen
unfolding exact_toward
exact_step dx dy right down p =
    let e2 = p.err *ℤ pos 2 in
    let p1 : Pen =
      if ltb_ℤ (pos 0 -ℤ pos dy) e2
      then record p { x = exact_toward right p.x; err = p.err -ℤ pos dy }
      else p in
    if ltb_ℤ e2 (pos dx)
    then record p1 { y = exact_toward down p1.y; err = p1.err +ℤ pos dx }
    else p1

-- `r` steps towards the goal are left.
abbrev pub Left : Bool → ℤ → ℤ → ℕ → Type 0
Left true cur goal r = pos_part cur + neg_part goal + r ≡ pos_part goal + neg_part cur
Left false cur goal r = pos_part goal + neg_part cur + r ≡ pos_part cur + neg_part goal

pub exact_toward-Left :
    (up : Bool) (cur goal : ℤ) (r : ℕ)
    → Left up cur goal (suc r)
    → Left up (exact_toward up cur) goal r
unfolding exact_toward
exact_toward-Left true cur goal r h = omega (arith, h, +ℤ_parts cur (pos 1))
exact_toward-Left false cur goal r h = omega (arith, h, +ℤ_parts cur (negsuc 0))

pub Left-zero : (up : Bool) (cur goal : ℤ) → Left up cur goal 0 → eq_ℤ cur goal ≡ true
Left-zero true cur goal h = ground (arith, h)
Left-zero false cur goal h = ground (arith, h)

pub exact_span-Left : (a b : ℤ) → Left (ltb_ℤ a b) a b (exact_span a b)
unfolding exact_span ◌-ℤ◌
exact_span-Left a b = elim (Bool-cases (ltb_ℤ a b)) [
  | inl e ↦ rw e (ground (arith, e))
  | inr e ↦ rw e (ground (arith, e))
]

-- The steps that are left in both directions, and the error that they determine.
pub record On (dx dy : ℕ) (right down : Bool) (x1 y1 : ℤ) (p : Pen) (rx ry : ℕ) : Type 0 where
  pub left_x : Left right p.x x1 rx
  pub left_y : Left down p.y y1 ry
  pub in_x : rx ≤ dx
  pub in_y : ry ≤ dy
  pub balance : pos_part p.err + dy + ry * dx ≡ neg_part p.err + dx + rx * dy

-- The two tests of a round, on twice the error.
module _ (d : ℕ) (err : ℤ) where
  pub test_x : ltb_ℤ (pos 0 -ℤ pos d) (err *ℤ pos 2) ≡ ltb (2 * neg_part err) (2 * pos_part err + d)
  unfolding ◌-ℤ◌ ◌*ℤ◌
  test_x = ground arith

  pub test_y : ltb_ℤ (err *ℤ pos 2) (pos d) ≡ ltb (2 * pos_part err) (2 * neg_part err + d)
  unfolding ◌*ℤ◌
  test_y = ground arith

-- A coordinate less than 2^28 away from 0.
pub record IsNear (a : ℤ) : Type 0 where
  pub right : pos_part a < 2 ^ 28
  pub left : neg_part a < 2 ^ 28

-- The error stays between twice the two spans.
pub record IsTame (dx dy : ℕ) (err : ℤ) : Type 0 where
  pub high : pos_part err ≤ 2 * dx + neg_part err
  pub low : neg_part err ≤ 2 * dy + pos_part err

far_apart :
    (a b : ℤ)
    → pos_part b + neg_part a ≤ pos_part a + neg_part b
    → pos_part a < 2 ^ 28
    → neg_part b < 2 ^ 28
    → (a -ℤ b ≡ pos (pos_part (a -ℤ b))) × (pos_part (a -ℤ b) < 2 ^ 29)
unfolding ◌-ℤ◌
far_apart a b h k l = (ground (arith, h), ground (arith, h, k, l))

pub span_lem :
    (a b : ℤ) → IsNear a → IsNear b → (span a b ≡ pos (exact_span a b)) × (exact_span a b < 2 ^ 29)
unfolding span exact_span
span_lem a b na nb =
    let up = int32_exact (b -ℤ a) (
      IsInt-between (b -ℤ a) (omega (arith, -ℤ_parts b a, na.left, nb.right))
        (omega (arith, -ℤ_parts b a, na.right, nb.left))) in
    let down = int32_exact (a -ℤ b) (
      IsInt-between (a -ℤ b) (omega (arith, -ℤ_parts a b, na.right, nb.left))
        (omega (arith, -ℤ_parts a b, na.left, nb.right))) in
    elim (Bool-cases (ltb_ℤ a b)) [
      | inl e ↦ rw (e, up) (far_apart b a (ground (arith, e)) nb.right na.left)
      | inr e ↦ rw (e, down) (far_apart a b (ground (arith, e)) na.right nb.left)
    ]

-- A move towards a near goal that is less than 2^29 steps away does not wrap.
pub toward_lem :
    (up : Bool) (cur goal : ℤ) (r : ℕ)
    → r < 2 ^ 29
    → IsNear goal
    → Left up cur goal r
    → toward up cur ≡ exact_toward up cur
unfolding toward exact_toward
toward_lem true cur goal r h n l = int32_exact (cur +ℤ pos 1) (
    IsInt-between (cur +ℤ pos 1) (omega (arith, +ℤ_parts cur (pos 1), l, n.right))
      (omega (arith, +ℤ_parts cur (pos 1), l, n.left, h)))
toward_lem false cur goal r h n l = int32_exact (cur +ℤ negsuc 0) (
    IsInt-between (cur +ℤ negsuc 0) (omega (arith, +ℤ_parts cur (negsuc 0), l, n.right, h))
      (omega (arith, +ℤ_parts cur (negsuc 0), l, n.left)))

pub less_IsInt : (d : ℕ) → d < 2 ^ 29 → IsInt (pos 0 -ℤ pos d)
less_IsInt d h =
    IsInt-between (pos 0 -ℤ pos d) (omega (arith, -ℤ_parts (pos 0) (pos d)))
      (omega (arith, -ℤ_parts (pos 0) (pos d), h))

pub doubled :
    (dx dy : ℕ) (err : ℤ)
    → dx < 2 ^ 29
    → dy < 2 ^ 29
    → IsTame dx dy err
    → int32 (err *ℤ pos 2) ≡ err *ℤ pos 2
unfolding ◌*ℤ◌
doubled dx dy err hx hy t =
    int32_exact (err *ℤ pos 2)
      (IsInt-between (err *ℤ pos 2) (ground (arith, t.high, hx)) (ground (arith, t.low, hy)))
