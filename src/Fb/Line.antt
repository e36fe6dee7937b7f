-- ===== src/Fb/Line.antt =====
-- kernel/fb.c: the loop of the line ends.
use red_panda_os.Prelude.{
  ℕ, zero, suc, ◌+◌, ◌*◌, ◌^◌, ◌≤◌, ◌<◌, ◌≡◌, refl, sym, ap, ap₂, ◌∙◌, inl, inr, Bool, true, ◌&&◌,
  Option, some, arith, ltb, Bool-cases,
}
use red_panda_os.Prelude.Wrap.{int32, IsInt, IsInt-between, int32_exact}
use red_panda_os.Prelude.Int.{
  ℤ, pos, ◌+ℤ◌, ◌-ℤ◌, ◌*ℤ◌, pos_part, neg_part, ltb_ℤ, +ℤ_parts, -ℤ_parts,
}
use red_panda_os.Fb.{Fb, eq_ℤ, fb_putpixel, Pen, line_step, line_loop, fb_line}
use red_panda_os.Fb.Exact.{
  exact_span, exact_step, exact_span-Left, On, test_x, test_y, IsNear, IsTame, span_lem, toward_lem,
  less_IsInt, doubled,
}
use red_panda_os.Fb.Step.{exact_step-Nearer, still_apart}

-- The line on given spans.
abbrev line_between : ℤ → ℤ → ℤ → ℤ → ℕ → Fb → ℤ → ℤ → Option Fb
line_between x0 y0 x1 y1 rgb fb dx dy =
    line_loop (pos_part dx + pos_part dy + 1) dx dy (ltb_ℤ x0 x1) (ltb_ℤ y0 y1) x1 y1 rgb
      (record { x = x0; y = y0; err = int32 (dx -ℤ dy) }) fb

module _ (dx dy : ℕ) (right down : Bool) (x1 y1 : ℤ) where
  exact_step-IsTame :
      (p : Pen) → IsTame dx dy p.err → IsTame dx dy (exact_step dx dy right down p).err
  unfolding exact_step
  exact_step-IsTame p t =
      let sx = test_x dy p.err in
      let sy = test_y dx p.err in
      let less = -ℤ_parts p.err (pos dy) in
      elim (Bool-cases (ltb_ℤ (pos 0 -ℤ pos dy) (p.err *ℤ pos 2))) [
        | inl i ↦
            let a : ltb (2 * neg_part p.err) (2 * pos_part p.err + dy) ≡ true = sym sx ∙ i in
            elim (Bool-cases (ltb_ℤ (p.err *ℤ pos 2) (pos dx))) [
              | inl j ↦
                  let b : ltb (2 * pos_part p.err) (2 * neg_part p.err + dx) ≡ true = sym sy ∙ j in
                  let more = +ℤ_parts (p.err -ℤ pos dy) (pos dx) in
                  rw (i, j)
                    (record {
                      high = ground (arith, a, b, less, more, t.high, t.low);
                      low = ground (arith, a, b, less, more, t.high, t.low);
                    })
              | inr j ↦
                  rw (i, j)
                    (record {
                      high = ground (arith, a, less, t.high);
                      low = ground (arith, a, less, t.low);
                    })
            ]
        | inr i ↦ elim (Bool-cases (ltb_ℤ (p.err *ℤ pos 2) (pos dx))) [
          | inl j ↦
              let b : ltb (2 * pos_part p.err) (2 * neg_part p.err + dx) ≡ true = sym sy ∙ j in
              let more = +ℤ_parts p.err (pos dx) in
              rw (i, j)
                (record {
                  high = ground (arith, b, more, t.high);
                  low = ground (arith, b, more, t.low);
                })
          | inr j ↦ rw (i, j) t
        ]
      ]

  -- In reach of the goal no sum of a step wraps.
  line_step_lem :
      (p : Pen) (rx ry : ℕ)
      → dx < 2 ^ 29
      → dy < 2 ^ 29
      → IsNear x1
      → IsNear y1
      → IsTame dx dy p.err
      → On dx dy right down x1 y1 p rx ry
      → line_step (pos dx) (pos dy) right down p ≡ exact_step dx dy right down p
  unfolding line_step exact_step
  line_step_lem p rx ry hx hy nx ny t o =
      let double = doubled dx dy p.err hx hy t in
      let back = int32_exact (pos 0 -ℤ pos dy) (less_IsInt dy hy) in
      let less = -ℤ_parts p.err (pos dy) in
      let sub : IsInt (p.err -ℤ pos dy) =
        IsInt-between (p.err -ℤ pos dy) (omega (arith, less, t.high, hx))
          (omega (arith, less, t.low, hy)) in
      let add : IsInt (p.err +ℤ pos dx) =
        IsInt-between (p.err +ℤ pos dx) (omega (arith, +ℤ_parts p.err (pos dx), t.high, hx))
          (omega (arith, +ℤ_parts p.err (pos dx), t.low, hy)) in
      let both : IsInt (p.err -ℤ pos dy +ℤ pos dx) =
        IsInt-between (p.err -ℤ pos dy +ℤ pos dx)
          (omega (arith, less, +ℤ_parts (p.err -ℤ pos dy) (pos dx), t.high, hx))
          (omega (arith, less, +ℤ_parts (p.err -ℤ pos dy) (pos dx), t.low, hy)) in
      let move_x = toward_lem right p.x x1 rx (omega (arith, o.in_x, hx)) nx o.left_x in
      let move_y = toward_lem down p.y y1 ry (omega (arith, o.in_y, hy)) ny o.left_y in
      elim (Bool-cases (ltb_ℤ (pos 0 -ℤ pos dy) (p.err *ℤ pos 2))) [
        | inl i ↦
            rw
              (
                double,
                back,
                i,
                move_x,
                move_y,
                int32_exact (p.err -ℤ pos dy) sub,
                int32_exact (p.err -ℤ pos dy +ℤ pos dx) both,
              )
              refl
        | inr i ↦ rw (double, back, i, move_y, int32_exact (p.err +ℤ pos dx) add) refl
      ]

  module _ (hx : dx < 2 ^ 29) (hy : dy < 2 ^ 29) (nx : IsNear x1) (ny : IsNear y1) where
    line_loop-ends :
        (fuel rgb : ℕ) (p : Pen) (fb : Fb) (rx ry : ℕ)
        → rx + ry < fuel
        → IsTame dx dy p.err
        → On dx dy right down x1 y1 p rx ry
        → (fb' : Fb) × (line_loop fuel (pos dx) (pos dy) right down x1 y1 rgb p fb ≡ some fb')
    unfolding line_loop
    line_loop-ends zero rgb p fb rx ry h t o = absurd (omega arith)
    line_loop-ends (suc n) rgb p fb rx ry h t o = elim (Bool-cases (eq_ℤ p.x x1 && eq_ℤ p.y y1)) [
      | inl at_end ↦ (fb_putpixel p.x p.y rgb fb, rw at_end refl)
      | inr going ↦
          let more : 1 ≤ rx + ry = still_apart dx dy right down x1 y1 p rx ry o going in
          let next = exact_step-Nearer dx dy right down x1 y1 p rx ry more o in
          let step = line_step_lem p rx ry hx hy nx ny t o in
          let rest =
            line_loop-ends n rgb (exact_step dx dy right down p) (fb_putpixel p.x p.y rgb fb)
              next.rx' next.ry' (omega (arith, next.fewer, h)) (exact_step-IsTame p t)
              next.on_line in
          let same =
            ap
              (λ q.
                line_loop n (pos dx) (pos dy) right down x1 y1 rgb q (fb_putpixel p.x p.y rgb fb))
              step in
          (rest.0, rw going (same ∙ rest.1))
    ]

-- For every two points whose coordinates are less than 2^28 away from 0, the line's loop ends within
-- one round more than they are apart in the two directions together.
pub fb_line-ends :
    (x0 y0 x1 y1 : ℤ) (rgb : ℕ) (fb : Fb)
    → IsNear x0
    → IsNear y0
    → IsNear x1
    → IsNear y1
    → (fb' : Fb) × (fb_line x0 y0 x1 y1 rgb fb ≡ some fb')
unfolding fb_line
fb_line-ends x0 y0 x1 y1 rgb fb nx0 ny0 nx1 ny1 =
    let dx = exact_span x0 x1 in
    let dy = exact_span y0 y1 in
    let (sx, hx) = span_lem x0 x1 nx0 nx1 in
    let (sy, hy) = span_lem y0 y1 ny0 ny1 in
    let pen : Pen = record { x = x0; y = y0; err = pos dx -ℤ pos dy } in
    let start : On dx dy (ltb_ℤ x0 x1) (ltb_ℤ y0 y1) x1 y1 pen dx dy = record {
      left_x = exact_span-Left x0 x1;
      left_y = exact_span-Left y0 y1;
      in_x = omega arith;
      in_y = omega arith;
      balance = omega (arith, -ℤ_parts (pos dx) (pos dy));
    } in
    let t : IsTame dx dy (pos dx -ℤ pos dy) = record {
      high = omega (arith, -ℤ_parts (pos dx) (pos dy));
      low = omega (arith, -ℤ_parts (pos dx) (pos dy));
    } in
    let first = int32_exact (pos dx -ℤ pos dy) (
      IsInt-between (pos dx -ℤ pos dy) (omega (arith, -ℤ_parts (pos dx) (pos dy), hx))
        (omega (arith, -ℤ_parts (pos dx) (pos dy), hy))) in
    let run =
      line_loop-ends dx dy (ltb_ℤ x0 x1) (ltb_ℤ y0 y1) x1 y1 hx hy nx1 ny1 (dx + dy + 1) rgb pen fb
        dx dy (omega arith) t start in
    (
      run.0,
      ap₂ (line_between x0 y0 x1 y1 rgb fb) sx sy
          ∙ (ap
                (λ e.
                  line_loop (dx + dy + 1) (pos dx) (pos dy) (ltb_ℤ x0 x1) (ltb_ℤ y0 y1) x1 y1 rgb
                    (record { x = x0; y = y0; err = e }) fb)
                first
              ∙ run.1),
    )
