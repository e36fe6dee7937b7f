-- ===== src/Fb/Step.antt =====
-- kernel/fb.c: each round of the line brings the pen nearer.
use red_panda_os.Prelude.{
  ℕ, zero, suc, ◌+◌, ◌*◌, ◌≤◌, ◌<◌, ◌≡◌, sym, ◌∙◌, inl, inr, Bool, true, false, ◌&&◌, arith, ltb,
  Bool-cases,
}
use red_panda_os.Prelude.Int.{
  ℤ, pos, ◌+ℤ◌, ◌-ℤ◌, ◌*ℤ◌, pos_part, neg_part, ltb_ℤ, +ℤ_parts, -ℤ_parts,
}
use red_panda_os.Fb.{eq_ℤ, Pen}
use red_panda_os.Fb.Exact.{
  exact_toward, exact_step, exact_toward-Left, Left-zero, On, test_x, test_y,
}

module _ (dx dy : ℕ) (right down : Bool) (x1 y1 : ℤ) where
  -- A round that did not end the loop brings the pen nearer.
  pub record Nearer (p : Pen) (rx ry : ℕ) : Type 0 where
    pub rx' : ℕ
    pub ry' : ℕ
    pub on_line : On dx dy right down x1 y1 p rx' ry'
    pub fewer : rx' + ry' < rx + ry

  both_steps :
      (p : Pen) (rx ry : ℕ)
      → On dx dy right down x1 y1 p (suc rx) (suc ry)
      → On dx dy right down x1 y1
          (record {
            x = exact_toward right p.x;
            y = exact_toward down p.y;
            err = p.err -ℤ pos dy +ℤ pos dx;
          })
          rx
          ry
  both_steps p rx ry o = record {
    left_x = exact_toward-Left right p.x x1 rx o.left_x;
    left_y = exact_toward-Left down p.y y1 ry o.left_y;
    in_x = omega (arith, o.in_x);
    in_y = omega (arith, o.in_y);
    balance =
        omega (arith, o.balance, -ℤ_parts p.err (pos dy), +ℤ_parts (p.err -ℤ pos dy) (pos dx));
  }

  x_step :
      (p : Pen) (rx ry : ℕ)
      → On dx dy right down x1 y1 p (suc rx) ry
      → On dx dy right down x1 y1
          (record p { x = exact_toward right p.x; err = p.err -ℤ pos dy })
          rx
          ry
  x_step p rx ry o = record {
    left_x = exact_toward-Left right p.x x1 rx o.left_x;
    left_y = o.left_y;
    in_x = omega (arith, o.in_x);
    in_y = o.in_y;
    balance = omega (arith, o.balance, -ℤ_parts p.err (pos dy));
  }

  y_step :
      (p : Pen) (rx ry : ℕ)
      → On dx dy right down x1 y1 p rx (suc ry)
      → On dx dy right down x1 y1
          (record p { y = exact_toward down p.y; err = p.err +ℤ pos dx })
          rx
          ry
  y_step p rx ry o = record {
    left_x = o.left_x;
    left_y = exact_toward-Left down p.y y1 ry o.left_y;
    in_x = o.in_x;
    in_y = omega (arith, o.in_y);
    balance = omega (arith, o.balance, +ℤ_parts p.err (pos dx));
  }

  pub exact_step-Nearer :
      (p : Pen) (rx ry : ℕ)
      → 1 ≤ rx + ry
      → On dx dy right down x1 y1 p rx ry
      → Nearer (exact_step dx dy right down p) rx ry
  unfolding exact_step
  exact_step-Nearer p zero zero more o = absurd (omega arith)
  exact_step-Nearer p zero (suc ry) more o =
      let no_x : ltb_ℤ (pos 0 -ℤ pos dy) (p.err *ℤ pos 2) ≡ false =
        test_x dy p.err ∙ ground (arith, o.balance) in
      let go_y : ltb_ℤ (p.err *ℤ pos 2) (pos dx) ≡ true =
        test_y dx p.err ∙ ground (arith, o.balance, o.in_y) in
      rw (no_x, go_y) (record { rx' = 0; ry' = ry; on_line = y_step p 0 ry o; fewer = omega arith })
  exact_step-Nearer p (suc rx) zero more o =
      let no_y : ltb_ℤ (p.err *ℤ pos 2) (pos dx) ≡ false =
        test_y dx p.err ∙ ground (arith, o.balance) in
      let go_x : ltb_ℤ (pos 0 -ℤ pos dy) (p.err *ℤ pos 2) ≡ true =
        test_x dy p.err ∙ ground (arith, o.balance, o.in_x) in
      rw (no_y, go_x) (record { rx' = rx; ry' = 0; on_line = x_step p rx 0 o; fewer = omega arith })
  exact_step-Nearer p (suc rx) (suc ry) more o =
      let sx = test_x dy p.err in
      let sy = test_y dx p.err in
      elim (Bool-cases (ltb_ℤ (pos 0 -ℤ pos dy) (p.err *ℤ pos 2))) [
        | inl i ↦ elim (Bool-cases (ltb_ℤ (p.err *ℤ pos 2) (pos dx))) [
          | inl j ↦
              rw (i, j)
                (record { rx' = rx; ry' = ry; on_line = both_steps p rx ry o; fewer = omega arith })
          | inr j ↦
              rw (i, j)
                (record {
                  rx' = rx;
                  ry' = suc ry;
                  on_line = x_step p rx (suc ry) o;
                  fewer = omega arith;
                })
        ]
        | inr i ↦ elim (Bool-cases (ltb_ℤ (p.err *ℤ pos 2) (pos dx))) [
          | inl j ↦
              rw (i, j)
                (record {
                  rx' = suc rx;
                  ry' = ry;
                  on_line = y_step p (suc rx) ry o;
                  fewer = omega arith;
                })
          | inr j ↦
              let a : ltb (2 * neg_part p.err) (2 * pos_part p.err + dy) ≡ false = sym sx ∙ i in
              let b : ltb (2 * pos_part p.err) (2 * neg_part p.err + dx) ≡ false = sym sy ∙ j in
              absurd (ground (arith, a, b, o.in_x, o.in_y))
        ]
      ]

  pub still_apart :
      (p : Pen) (rx ry : ℕ)
      → On dx dy right down x1 y1 p rx ry
      → (eq_ℤ p.x x1 && eq_ℤ p.y y1) ≡ false
      → 1 ≤ rx + ry
  still_apart p zero zero o going =
      let a = Left-zero right p.x x1 o.left_x in
      let b = Left-zero down p.y y1 o.left_y in absurd (cc (rw (a, b) at going))
  still_apart p (suc rx) ry o going = omega arith
  still_apart p zero (suc ry) o going = omega arith
