-- ===== src/Draw.antt =====
-- kernel/gui.c, what the desktop draws, on the screen of kernel/fb.c: its colours, its texts and the
-- wallpaper. `scr_w` and `scr_h` are the screen's width and height; `font_glyph`, a table, is a
-- parameter.
pub mod Frame
pub mod Apps
pub mod Desk
pub mod Glyphs
pub mod Menu
pub mod Taskbar
use red_panda_os.Prelude.{
  ℕ, zero, suc, ◌+◌, ◌-◌, ◌*◌, ◌/◌, ◌%◌, ◌^◌, ◌≤◌, ◌<◌, min, max, bit_and, bit_or, bit_xor, ◌≡◌,
  refl, sym, ap, ap₂, ◌∙◌, fun_ext, subst, ◌≢◌, ◌↔◌, ◌⊎◌, inl, inr, Bool, true, false, not, ◌&&◌,
  ◌||◌, Option, none, some, List, [], ◌∷◌, ◌++◌, map, arith, ltb, leb, ◌==◌, if◌then◌else◌, ltb→lt,
  lt→ltb, leb→le, ==_iff, tests, Bool-cases, Option-cases, length, get_elem?, get_or, set, take,
  drop, replicate, length-append, length-set, length-take, length-drop, length-replicate,
  take-append-drop, get_elem?-set_self, get_elem?-set_ne, length-map, u8, u16, u32, u64, sub32, shr,
  shl,
}
use red_panda_os.Prelude.Int.{ℤ, pos, negsuc, ◌+ℤ◌, ◌-ℤ◌, ◌*ℤ◌, ltb_ℤ, pos_part, neg_part}
use red_panda_os.Prelude.Chars.{chars}
use red_panda_os.Fb.{Fb, fb_fill_rect}
use red_panda_os.Fb.Shapes.{fb_text, fb_blend_pixel}
use red_panda_os.Shell.Paint.{int_digits, turned}

abbrev pub col_body : ℕ
col_body = 0x1E1E28

abbrev pub col_title_top : ℕ
col_title_top = 0x3A3A4E

abbrev pub col_title_bot : ℕ
col_title_bot = 0x232330

abbrev pub col_title_top_u : ℕ
col_title_top_u = 0x282830

abbrev pub col_title_bot_u : ℕ
col_title_bot_u = 0x1F1F26

abbrev pub col_text : ℕ
col_text = 0xC8C8D8

abbrev pub col_text_dim : ℕ
col_text_dim = 0x8A8AA0

abbrev pub col_accent : ℕ
col_accent = 0xE8743B

abbrev pub col_close : ℕ
col_close = 0xFF5F57

abbrev pub col_mini : ℕ
col_mini = 0xFEBC2E

abbrev pub col_zoom : ℕ
col_zoom = 0x28C840

abbrev pub col_icon_page : ℕ
col_icon_page = 0xECECF4

abbrev pub col_icon_fold : ℕ
col_icon_fold = 0xB8BCD0

abbrev pub col_icon_rule : ℕ
col_icon_rule = 0x9AA0B8

abbrev pub col_label : ℕ
col_label = 0xD8DCE8

abbrev pub taskbar_h : ℕ
taskbar_h = 36

abbrev pub win_radius : ℕ
win_radius = 8

abbrev pub shadow_size : ℕ
shadow_size = 14

abbrev pub icon_cell_w : ℕ
icon_cell_w = 96

abbrev pub icon_cell_h : ℕ
icon_cell_h = 92

-- Drawings one after the other.
unfoldable pub draw_all : List (Fb → Fb) → Fb → Fb
draw_all [] fb = fb
draw_all (d ∷ ds) fb = draw_all ds (d fb)

-- What `app_str` and `app_int` add to a buffer.
unfoldable pub app_str : List ℕ → List ℕ → List ℕ
app_str p s = p ++ s

unfoldable pub app_int : List ℕ → ℕ → List ℕ
unfolding int_digits turned
app_int p v = p ++ turned (int_digits 10 v) []

unfoldable pub app_2digit : List ℕ → ℕ → List ℕ
app_2digit p v = p ++ ((48 + v / 10) ∷ ((48 + v % 10) ∷ []))

-- A division of integers, which C rounds towards 0.
unfoldable pub div_ℤ : ℤ → ℕ → ℤ
unfolding ◌-ℤ◌
div_ℤ a n = pos (pos_part a / n) -ℤ pos (neg_part a / n)

-- One of the three colours `t / max` of the way.
unfoldable pub lerp : ℕ → ℕ → ℕ → ℕ → ℕ
unfolding div_ℤ ◌+ℤ◌ ◌-ℤ◌ ◌*ℤ◌
lerp a b t max = pos_part (pos a +ℤ div_ℤ ((pos b -ℤ pos a) *ℤ pos t) max)

unfoldable pub lerp_rgb : ℕ → ℕ → ℕ → ℕ → ℕ
unfolding lerp
lerp_rgb a b t max =
    let red = lerp (bit_and (shr a 16) 0xFF) (bit_and (shr b 16) 0xFF) t max in
    let green = lerp (bit_and (shr a 8) 0xFF) (bit_and (shr b 8) 0xFF) t max in
    let blue = lerp (bit_and a 0xFF) (bit_and b 0xFF) t max in
    bit_or (bit_or (shl red 16) (shl green 8)) blue

-- The square of the distance between two coordinates.
unfoldable pub square : ℤ → ℤ → ℕ
unfolding ◌-ℤ◌
square x c = let d = x -ℤ c in (pos_part d + neg_part d) * (pos_part d + neg_part d)

unfoldable pub on_axis : ℤ → ℕ → Bool
on_axis v size = not (ltb_ℤ v (pos 0)) && ltb_ℤ v (pos size)

-- One pixel of a glow of radius `r`.
unfoldable pub glow_pixel : ℤ → ℤ → ℕ → ℕ → ℕ → ℤ → ℤ → Fb → Fb
unfolding square fb_blend_pixel
glow_pixel cx cy r rgb max_alpha x y fb =
    let d2 = square x cx + square y cy in
    let t = 255 - d2 * 255 / (r * r) in
    if leb (r * r) d2 then fb else fb_blend_pixel x y rgb (u8 (max_alpha * t * t / (255 * 255))) fb

unfoldable pub glow_row : ℕ → ℤ → ℤ → ℤ → ℕ → ℕ → ℕ → ℤ → Fb → Fb
unfolding glow_pixel on_axis ◌+ℤ◌
glow_row zero x cx cy r rgb max_alpha y fb = fb
glow_row (suc n) x cx cy r rgb max_alpha y fb =
    let drawn = if on_axis x fb.mode.width then glow_pixel cx cy r rgb max_alpha x y fb else fb in
    glow_row n (x +ℤ pos 1) cx cy r rgb max_alpha y drawn

unfoldable pub glow_rows : ℕ → ℤ → ℤ → ℤ → ℕ → ℕ → ℕ → Fb → Fb
unfolding glow_row on_axis ◌+ℤ◌ ◌-ℤ◌
glow_rows zero y cx cy r rgb max_alpha fb = fb
glow_rows (suc n) y cx cy r rgb max_alpha fb =
    let row = glow_row (2 * r + 1) (cx -ℤ pos r) cx cy r rgb max_alpha y fb in
    glow_rows n (y +ℤ pos 1) cx cy r rgb max_alpha (if on_axis y fb.mode.height then row else fb)

unfoldable pub glow : ℤ → ℤ → ℕ → ℕ → ℕ → Fb → Fb
unfolding glow_rows ◌-ℤ◌
glow cx cy r rgb max_alpha fb = glow_rows (2 * r + 1) (cy -ℤ pos r) cx cy r rgb max_alpha fb

-- The gradient, `n` rows from row `y` on.
unfoldable pub sky : ℕ → ℕ → Fb → Fb
unfolding fb_fill_rect lerp_rgb
sky zero y fb = fb
sky (suc n) y fb =
    let rgb = lerp_rgb 0x0F2027 0x2C5364 y (fb.mode.height - 1) in
    sky n (suc y) (fb_fill_rect (pos 0) (pos y) (pos fb.mode.width) (pos 1) rgb fb)

module _ (font_glyph : ℕ → ℕ → ℕ) where
  unfoldable pub text_shadowed : ℤ → ℤ → List ℕ → ℕ → Fb → Fb
  unfolding fb_text ◌+ℤ◌
  text_shadowed x y s rgb fb =
      fb_text font_glyph x y s rgb (fb_text font_glyph (x +ℤ pos 1) (y +ℤ pos 1) s 0x101014 fb)

  unfoldable pub render_wallpaper : Fb → Fb
  unfolding sky glow fb_text chars ◌+ℤ◌ ◌-ℤ◌
  render_wallpaper fb =
      let w = fb.mode.width in
      let h = fb.mode.height in
      let f1 = sky h 0 fb in
      let f2 = glow (pos (w * 78 / 100)) (pos (h * 16 / 100)) 300 col_accent 80 f1 in
      let f3 = glow (pos (w * 10 / 100)) (pos (h * 88 / 100)) 340 0x7B2FBE 65 f2 in
      let f4 = glow (pos (w * 46 / 100)) (pos (h * 62 / 100)) 260 0x2EC4B6 45 f3 in
      let brand = chars "RedPandaOS 1.0" in
      let bx = pos w -ℤ pos (length brand * 8) -ℤ pos 18 in
      let by = pos h -ℤ pos taskbar_h -ℤ pos 30 in
      let f5 = fb_text font_glyph (bx +ℤ pos 1) (by +ℤ pos 1) brand 0x11202A f4 in
      fb_text font_glyph bx by brand 0x55758A f5
