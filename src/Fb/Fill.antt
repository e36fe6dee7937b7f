-- ===== src/Fb/Fill.antt =====
-- kernel/fb.c: what a clipped rectangle paints.
use red_panda_os.Prelude.{
  ℕ, ◌+◌, ◌*◌, ◌^◌, ◌≤◌, ◌<◌, ◌≡◌, refl, ap₂, ◌∙◌, subst, ◌⊎◌, inl, inr, Bool, true, false, not,
  ◌&&◌, ◌||◌, arith, ◌==◌, if◌then◌else◌, Bool-cases, Option-cases,
}
use red_panda_os.Prelude.Int.{ℤ, pos, ◌+ℤ◌, ◌-ℤ◌, pos_part, ltb_ℤ, +ℤ_comm, +ℤ_parts, -ℤ_parts}
use red_panda_os.Prelude.Wrap.{IsInt, IsInt-between, int32_exact}
use red_panda_os.Fb.{
  Bytes, Mode, Fb, target, on_target, offset, clip, fill_rows, rounds, fill_rect, fb_fill_rect,
}
use red_panda_os.Fb.Rows.{IsMode, pixel_at, colour, mul_le, offset_lem}
use red_panda_os.Fb.Area.{fill_rows-outside, fill_rows-same, fill_rows-pixel}

-- From `m` to `m'`, the pixels of the region are `rgb`, and no other pixel of the screen and
-- no byte behind the screen has changed.
pub record Paints (mode : Mode) (region : ℕ → ℕ → Bool) (rgb : ℕ) (m m' : Bytes) : Type 0 where
  pub pixels :
      (x y : ℕ)
      → x < mode.width
      → y < mode.height
      → pixel_at m' (offset mode x y)
        ≡ (if region x y then colour rgb else pixel_at m (offset mode x y))
  pub behind : (o : ℕ) → mode.height * mode.pitch ≤ o → m' o ≡ m o

-- Whether a coordinate is in the half-open interval of `len` units from `start` on.
abbrev pub within : ℤ → ℤ → ℕ → Bool
within start len x = not (ltb_ℤ (pos x) start) && ltb_ℤ (pos x) (start +ℤ len)

-- A start and a length whose sum, the end, an `int` holds like the two.
pub record Fits (x len : ℤ) : Type 0 where
  pub start : IsInt x
  pub extent : IsInt len
  pub end : IsInt (x +ℤ len)

-- The clipping on integers that do not wrap.
unfoldable exact_clip : ℕ → ℤ → ℤ → ℕ × ℕ
exact_clip limit x len =
    let x' = if ltb_ℤ x (pos 0) then pos 0 else x in
    let len' = if ltb_ℤ x (pos 0) then len +ℤ x else len in
    let len'' = if ltb_ℤ (pos limit) (x' +ℤ len') then pos limit -ℤ x' else len' in
    (pos_part x', pos_part len'')

clip_lem :
    (limit : ℕ) (x len : ℤ)
    → limit < 2 ^ 31
    → Fits x len
    → clip limit x len ≡ exact_clip limit x len
unfolding clip exact_clip
clip_lem limit x len hl f = elim (Bool-cases (ltb_ℤ x (pos 0))) [
  | inl e ↦
      let cut : IsInt (len +ℤ x) = subst IsInt (+ℤ_comm x len) f.end in
      let a = int32_exact (len +ℤ x) cut in
      let b = int32_exact (pos 0 +ℤ (len +ℤ x)) (
        IsInt-between (pos 0 +ℤ (len +ℤ x)) (omega (arith, +ℤ_parts (pos 0) (len +ℤ x), cut.most))
          (omega (arith, +ℤ_parts (pos 0) (len +ℤ x), cut.least))) in
      let c = int32_exact (pos limit -ℤ pos 0) (
        IsInt-between (pos limit -ℤ pos 0) (omega (arith, -ℤ_parts (pos limit) (pos 0), hl))
          (omega (arith, -ℤ_parts (pos limit) (pos 0), hl))) in
      rw (e, a, b, c) refl
  | inr e ↦
      let a = int32_exact (x +ℤ len) f.end in
      let c = int32_exact (pos limit -ℤ x) (
        IsInt-between (pos limit -ℤ x) (ground (arith, -ℤ_parts (pos limit) x, hl, e))
          (ground (arith, -ℤ_parts (pos limit) x, f.start.most))) in
      rw (e, a, c) refl
]

rounds_lem : (start n : ℕ) → start + n < 2 ^ 31 → rounds start n ≡ n
unfolding rounds ◌-ℤ◌
rounds_lem start n h =
    let a = int32_exact (pos start +ℤ pos n) (
      IsInt-between (pos start +ℤ pos n) (omega (arith, +ℤ_parts (pos start) (pos n), h))
        (omega (arith, +ℤ_parts (pos start) (pos n)))) in
    rw a (ground (arith, +ℤ_parts (pos start) (pos n)))

-- The filling with that clipping.
unfoldable exact_rect : Mode → ℤ → ℤ → ℤ → ℤ → ℕ → Bytes → Bytes
unfolding exact_clip fill_rows
exact_rect mode x y w h rgb m =
    let (x', w') = exact_clip mode.width x w in
    let (y', h') = exact_clip mode.height y h in
    if (w' == 0) || (h' == 0) then m else fill_rows mode h' y' x' w' rgb m

exact_clip-le :
    (limit : ℕ) (x len : ℤ)
    → 1 ≤ (exact_clip limit x len).1
    → (exact_clip limit x len).0 + (exact_clip limit x len).1 ≤ limit
unfolding exact_clip ◌+ℤ◌ ◌-ℤ◌
exact_clip-le limit x len h = ground (arith, h)

exact_clip-inside :
    (limit : ℕ) (x len : ℤ) (px : ℕ)
    → px < limit
    → within x len px ≡ true
    → ((exact_clip limit x len).0 ≤ px)
      × (px < (exact_clip limit x len).0 + (exact_clip limit x len).1)
unfolding exact_clip ◌+ℤ◌ ◌-ℤ◌
exact_clip-inside limit x len px h t = ground (arith, h, t)

exact_clip-outside :
    (limit : ℕ) (x len : ℤ) (px : ℕ)
    → px < limit
    → within x len px ≡ false
    → (px < (exact_clip limit x len).0)
      ⊎ ((exact_clip limit x len).0 + (exact_clip limit x len).1 ≤ px)
unfolding exact_clip ◌+ℤ◌ ◌-ℤ◌
exact_clip-outside limit x len px h t = ground (arith, h, t)

module _ (mode : Mode) (v : IsMode mode) where
  module _ (x y w h : ℤ) (rgb : ℕ) (m : Bytes) where
    abbrev region : ℕ → ℕ → Bool
    region px py = within x w px && within y h py

    clipped : Bytes
    unfolding fill_rows exact_clip
    clipped =
        let (x', w') = exact_clip mode.width x w in
        let (y', h') = exact_clip mode.height y h in fill_rows mode h' y' x' w' rgb m

    clipped_pixel :
        (px py : ℕ)
        → px < mode.width
        → py < mode.height
        → 1 ≤ (exact_clip mode.width x w).1
        → 1 ≤ (exact_clip mode.height y h).1
        → pixel_at clipped (py * mode.pitch + px * mode.bypp)
          ≡ (if region px py then colour rgb else pixel_at m (py * mode.pitch + px * mode.bypp))
    unfolding clipped
    clipped_pixel px py hx hy wide high =
        let (x', w') = exact_clip mode.width x w in
        let (y', h') = exact_clip mode.height y h in
        let fits = exact_clip-le mode.width x w wide in
        let fits_down = exact_clip-le mode.height y h high in
        let same = fill_rows-same mode v h' y' x' w' rgb px py m wide fits fits_down hx in
        elim (Bool-cases (within x w px)) [
          | inl i ↦ elim (Bool-cases (within y h py)) [
            | inl j ↦
                let a = exact_clip-inside mode.width x w px hx i in
                let b = exact_clip-inside mode.height y h py hy j in
                rw (i, j)
                  (fill_rows-pixel mode v h' y' x' w' rgb px py m fits fits_down b.0 b.1 a.0 a.1)
            | inr j ↦ rw (i, j) (same (omega (arith, exact_clip-outside mode.height y h py hy j)))
          ]
          | inr i ↦ rw i (same (omega (arith, exact_clip-outside mode.width x w px hx i)))
        ]

    empty_region :
        (px py : ℕ)
        → px < mode.width
        → py < mode.height
        → (((exact_clip mode.width x w).1 == 0) || ((exact_clip mode.height y h).1 == 0)) ≡ true
        → region px py ≡ false
    empty_region px py hx hy empty = elim (Bool-cases (within x w px)) [
      | inl i ↦ elim (Bool-cases (within y h py)) [
        | inl j ↦
            let a = exact_clip-inside mode.width x w px hx i in
            let b = exact_clip-inside mode.height y h py hy j in
            absurd (ground (arith, empty, a, b))
        | inr j ↦ rw (i, j) refl
      ]
      | inr i ↦ rw i refl
    ]

    exact_rect-Paints : Paints mode region rgb m (exact_rect mode x y w h rgb m)
    unfolding exact_rect clipped
    exact_rect-Paints =
        let (x', w') = exact_clip mode.width x w in
        let (y', h') = exact_clip mode.height y h in
        elim (Bool-cases ((w' == 0) || (h' == 0))) [
          | inl empty ↦ rw empty (record {
            pixels = λ px py hx hy. rw (empty_region px py hx hy empty) refl;
            behind = λ o ho. refl;
          })
          | inr some_left ↦
              let wide : 1 ≤ w' = ground (arith, some_left) in
              let high : 1 ≤ h' = ground (arith, some_left) in
              let fits = exact_clip-le mode.width x w wide in
              let fits_down = exact_clip-le mode.height y h high in
              rw some_left (record {
                pixels = λ px py hx hy.
                    rw (offset_lem mode px py v hx hy) (clipped_pixel px py hx hy wide high);
                behind = λ o ho.
                    fill_rows-outside mode v h' y' x' w' rgb o m wide fits fits_down
                      (inr (omega (arith, ho, mul_le (y' + h') mode.height mode.pitch fits_down)));
              })
        ]

fill_rect_lem :
    (mode : Mode) (x y w h : ℤ) (rgb : ℕ) (m : Bytes)
    → mode.width < 2 ^ 31
    → mode.height < 2 ^ 31
    → Fits x w
    → Fits y h
    → fill_rect mode x y w h rgb m ≡ exact_rect mode x y w h rgb m
unfolding fill_rect exact_rect
fill_rect_lem mode x y w h rgb m hw hh fx fy =
    let (x', w') = exact_clip mode.width x w in
    let (y', h') = exact_clip mode.height y h in
    ap₂
      (λ (p q : ℕ × ℕ).
        if (p.1 == 0) || (q.1 == 0) then m else fill_rows mode (rounds q.0 q.1) q.0 p.0 p.1 rgb m)
      (clip_lem mode.width x w hw fx) (clip_lem mode.height y h hh fy)
    ∙ (elim (Bool-cases ((w' == 0) || (h' == 0))) [
      | inl empty ↦ rw empty refl
      | inr some_left ↦
          let high : 1 ≤ h' = ground (arith, some_left) in
          let down = exact_clip-le mode.height y h high in
          rw (some_left, rounds_lem y' h' (omega (arith, down, hh))) refl
    ])

target-on_target : (draw : Bytes → Bytes) (fb : Fb) → target (on_target draw fb) ≡ draw (target fb)
unfolding target on_target
target-on_target draw fb = elim (Option-cases fb.backbuf) [
  | inl e ↦ rw e refl
  | inr (m, e) ↦ rw e refl
]

-- On a screen of three or four bytes a pixel, with fewer than 2^31 pixels each way, whose rows fit
-- their pitch and 32 bits, a rectangle of any position and size whose edges fit an `int`, negative ones included, paints on the target exactly
-- the pixels of the screen that are in it, and writes no byte behind the screen.
pub fb_fill_rect-Paints :
    (x y w h : ℤ) (rgb : ℕ) (fb : Fb)
    → IsMode fb.mode
    → fb.mode.width < 2 ^ 31
    → fb.mode.height < 2 ^ 31
    → Fits x w
    → Fits y h
    → Paints fb.mode
        (λ px py. within x w px && within y h py)
        rgb
        (target fb)
        (target (fb_fill_rect x y w h rgb fb))
unfolding fb_fill_rect
fb_fill_rect-Paints x y w h rgb fb v wide high fx fy =
    rw
      (
        target-on_target (fill_rect fb.mode x y w h rgb) fb,
        fill_rect_lem fb.mode x y w h rgb (target fb) wide high fx fy,
      )
      (exact_rect-Paints fb.mode v x y w h rgb (target fb))
