-- ===== src/Fb/Shapes.antt =====
-- kernel/fb.c: blended pixels, circles, rounded rectangles and text. A radius, a scale and the rows
-- of a shape are natural numbers, since the code has none that are negative; `font_glyph`, a table,
-- is a parameter.
use red_panda_os.Prelude.{
  ℕ, zero, suc, ◌+◌, ◌-◌, ◌*◌, ◌/◌, bit_and, Bool, not, ◌&&◌, List, [], ◌∷◌, ltb, leb, ◌==◌,
  if◌then◌else◌, u8, shr,
}
use red_panda_os.Prelude.Int.{ℤ, pos, ◌+ℤ◌, ◌-ℤ◌, pos_part, neg_part}
use red_panda_os.Fb.{
  Bytes, Mode, Fb, on_target, set_byte, offset, on_screen, fb_putpixel, fb_fill_rect,
}

-- One colour channel of a blend.
unfoldable pub blend : ℕ → ℕ → ℕ → ℕ
blend c a old = u8 ((c * a + old * (255 - a)) / 255)

unfoldable pub blend_pixel : Mode → ℤ → ℤ → ℕ → ℕ → Bytes → Bytes
unfolding on_screen offset set_byte blend
blend_pixel mode x y rgb a m =
    let at = offset mode (pos_part x) (pos_part y) in
    let m1 = set_byte at (blend (u8 rgb) a (m at)) m in
    let m2 = set_byte (at + 1) (blend (u8 (shr rgb 8)) a (m1 (at + 1))) m1 in
    let m3 = set_byte (at + 2) (blend (u8 (shr rgb 16)) a (m2 (at + 2))) m2 in
    if on_screen mode x y && not (a == 0) then m3 else m

unfoldable pub fb_blend_pixel : ℤ → ℤ → ℕ → ℕ → Fb → Fb
unfolding blend_pixel on_target
fb_blend_pixel x y rgb a fb = on_target (blend_pixel fb.mode x y rgb a) fb

-- `n` pixels from `x` on.
unfoldable pub blend_row : ℕ → ℤ → ℤ → ℕ → ℕ → Fb → Fb
unfolding fb_blend_pixel
blend_row zero x y rgb a fb = fb
blend_row (suc n) x y rgb a fb = blend_row n (x +ℤ pos 1) y rgb a (fb_blend_pixel x y rgb a fb)

-- `n` rows from `y` on.
unfoldable pub blend_rows : ℕ → ℤ → ℤ → ℕ → ℕ → ℕ → Fb → Fb
unfolding blend_row
blend_rows zero x y w rgb a fb = fb
blend_rows (suc n) x y w rgb a fb = blend_rows n x (y +ℤ pos 1) w rgb a (blend_row w x y rgb a fb)

unfoldable pub fb_blend_rect : ℤ → ℤ → ℤ → ℤ → ℕ → ℕ → Fb → Fb
unfolding blend_rows
fb_blend_rect x y w h rgb a fb = blend_rows (pos_part h) x y (pos_part w) rgb a fb

-- The loop from `r` on, with `fuel` rounds.
unfoldable pub isqrt_from : ℕ → ℕ → ℕ → ℕ
isqrt_from zero r v = r
isqrt_from (suc fuel) r v =
    let rest = isqrt_from fuel (suc r) v in if leb ((r + 1) * (r + 1)) v then rest else r

unfoldable pub isqrt : ℕ → ℕ
unfolding isqrt_from
isqrt v = isqrt_from (suc v) 0 v

-- `n` rows of the circle, from `dy` on.
unfoldable pub circle_rows : ℕ → ℤ → ℤ → ℤ → ℕ → ℕ → Fb → Fb
unfolding isqrt fb_fill_rect
circle_rows zero dy cx cy r rgb fb = fb
circle_rows (suc n) dy cx cy r rgb fb =
    let d = pos_part dy + neg_part dy in
    let half = isqrt (r * r - d * d) in
    circle_rows n (dy +ℤ pos 1) cx cy r rgb
      (fb_fill_rect (cx -ℤ pos half) (cy +ℤ dy) (pos (half * 2 + 1)) (pos 1) rgb fb)

unfoldable pub fb_fill_circle : ℤ → ℤ → ℕ → ℕ → Fb → Fb
unfolding circle_rows
fb_fill_circle cx cy r rgb fb = circle_rows (2 * r + 1) (pos 0 -ℤ pos r) cx cy r rgb fb

unfoldable pub fb_round_inset : ℕ → ℕ → ℕ
unfolding isqrt
fb_round_inset d r = if leb r d then 0 else r - isqrt (r * r - (r - d) * (r - d))

-- The inset of a row, where `h` is the height.
unfoldable pub row_inset : ℕ → ℕ → ℕ → Bool → Bool → ℕ
unfolding fb_round_inset
row_inset row h r top bottom =
    if top && ltb row r
    then fb_round_inset row r
    else if bottom && leb h (row + r)
    then fb_round_inset (h - 1 - row) r
    else 0

-- `n` rows of a rounded rectangle, from `row` on.
unfoldable pub rounded_rows : ℕ → ℕ → ℤ → ℤ → ℤ → ℕ → ℕ → ℕ → Bool → Bool → Fb → Fb
unfolding row_inset fb_fill_rect fb_blend_pixel
rounded_rows zero row x y w h r rgb top bottom fb = fb
rounded_rows (suc n) row x y w h r rgb top bottom fb =
    let inset = row_inset row h r top bottom in
    let at = y +ℤ pos row in
    let fb1 = fb_fill_rect (x +ℤ pos inset) at (w -ℤ pos (2 * inset)) (pos 1) rgb fb in
    let fb2 = fb_blend_pixel (x +ℤ pos inset -ℤ pos 1) at rgb 110 fb1 in
    let fb3 = fb_blend_pixel (x +ℤ w -ℤ pos inset) at rgb 110 fb2 in
    rounded_rows n (suc row) x y w h r rgb top bottom (if ltb 0 inset then fb3 else fb1)

-- `top` and `bottom` are the two flags.
unfoldable pub fb_fill_rounded_rect : ℤ → ℤ → ℤ → ℤ → ℕ → ℕ → Bool → Bool → Fb → Fb
unfolding rounded_rows
fb_fill_rounded_rect x y w h r rgb top bottom fb =
    rounded_rows (pos_part h) 0 x y w (pos_part h) r rgb top bottom fb

-- The `n` bits of a glyph's row from bit `gx` on, of which `plot` draws those that are set.
unfoldable pub glyph_row : (ℕ → Fb → Fb) → ℕ → ℕ → ℕ → Fb → Fb
glyph_row plot zero gx bits fb = fb
glyph_row plot (suc n) gx bits fb =
    let fb' = plot gx fb in
    glyph_row plot n (suc gx) bits (if bit_and bits (shr 0x80 gx) == 0 then fb else fb')

-- The `n` rows of a glyph from row `gy` on.
unfoldable pub glyph_rows : (ℕ → ℕ → Fb → Fb) → ℕ → ℕ → (ℕ → ℕ) → Fb → Fb
unfolding glyph_row
glyph_rows plot zero gy glyph fb = fb
glyph_rows plot (suc n) gy glyph fb =
    glyph_rows plot n (suc gy) glyph (glyph_row (λ gx. plot gx gy) 8 0 (glyph gy) fb)

module _ (font_glyph : ℕ → ℕ → ℕ) where
  unfoldable pub fb_text : ℤ → ℤ → List ℕ → ℕ → Fb → Fb
  unfolding glyph_rows fb_putpixel
  fb_text x y [] rgb fb = fb
  fb_text x y (c ∷ s) rgb fb =
      let plot = λ (gx gy : ℕ). fb_putpixel (x +ℤ pos gx) (y +ℤ pos gy) rgb in
      fb_text (x +ℤ pos 8) y s rgb (glyph_rows plot 16 0 (font_glyph c) fb)

  unfoldable pub fb_text_scaled : ℤ → ℤ → List ℕ → ℕ → ℕ → Fb → Fb
  unfolding glyph_rows fb_fill_rect
  fb_text_scaled x y [] rgb scale fb = fb
  fb_text_scaled x y (c ∷ s) rgb scale fb =
      let plot = λ (gx gy : ℕ).
        fb_fill_rect (x +ℤ pos (gx * scale)) (y +ℤ pos (gy * scale)) (pos scale) (pos scale) rgb in
      fb_text_scaled (x +ℤ pos (8 * scale)) y s rgb scale (glyph_rows plot 16 0 (font_glyph c) fb)
