-- ===== src/Draw/Frame.antt =====
-- kernel/gui.c: a window's shadow, title bar and border.
use red_panda_os.Prelude.{
  ℕ, zero, suc, ◌+◌, ◌-◌, ◌*◌, ◌/◌, min, max, Bool, true, ◌||◌, ltb, leb, if◌then◌else◌, length, u8,
}
use red_panda_os.Prelude.Int.{ℤ, pos, ◌+ℤ◌, ◌-ℤ◌, ltb_ℤ, pos_part, neg_part}
use red_panda_os.Fb.{Fb, fb_fill_rect}
use red_panda_os.Fb.Flip.{max_ℤ}
use red_panda_os.Fb.Shapes.{
  fb_blend_pixel, fb_blend_rect, fb_fill_circle, fb_round_inset, fb_fill_rounded_rect,
}
use red_panda_os.Windows.{Window}
use red_panda_os.Shell.Gfx.{draw_line}
use red_panda_os.Editor.{title_h}
use red_panda_os.Draw.{
  div_ℤ, lerp_rgb, text_shadowed, col_body, col_title_top, col_title_bot, col_title_top_u,
  col_title_bot_u, col_close, col_mini, col_zoom, win_radius, shadow_size,
}

-- How far a coordinate is outside the core from `c0` to `c1`.
unfoldable pub outside : ℤ → ℤ → ℤ → ℕ
unfolding ◌-ℤ◌
outside p c0 c1 =
    let q = if ltb_ℤ p c0 then c0 else if ltb_ℤ c1 p then c1 else p in
    let d = p -ℤ q in pos_part d + neg_part d

-- The eight-sided distance from a window's core.
unfoldable pub core_distance : ℕ → ℕ → ℕ
core_distance dx dy = let hi = max dx dy in let lo = min dx dy in hi + lo / 2

-- One pixel of the shadow.
unfoldable pub shadow_pixel : ℤ → ℤ → ℤ → ℤ → ℤ → ℤ → Fb → Fb
unfolding outside core_distance fb_blend_pixel ◌+ℤ◌ ◌-ℤ◌
shadow_pixel x y w h px py fb =
    let r = pos win_radius in
    let dx = outside px (x +ℤ r) (x +ℤ w -ℤ pos 1 -ℤ r) in
    let dy = outside py (y +ℤ r) (y +ℤ h -ℤ pos 1 -ℤ r) in
    let far = core_distance dx dy in
    let t = shadow_size + win_radius - far in
    if ltb far win_radius || leb (shadow_size + win_radius) far
    then fb
    else fb_blend_pixel px py 0x000000 (u8 (t * t * 110 / (shadow_size * shadow_size))) fb

-- `n` pixels from `px` on, in row `py`, and `n` rows of `across` pixels.
unfoldable pub shadow_line : ℕ → ℤ → ℤ → ℤ → ℤ → ℤ → ℤ → Fb → Fb
unfolding shadow_pixel ◌+ℤ◌
shadow_line zero x y w h px py fb = fb
shadow_line (suc n) x y w h px py fb =
    shadow_line n x y w h (px +ℤ pos 1) py (shadow_pixel x y w h px py fb)

unfoldable pub shadow_lines : ℕ → ℕ → ℤ → ℤ → ℤ → ℤ → ℤ → Fb → Fb
unfolding shadow_line ◌+ℤ◌ ◌-ℤ◌
shadow_lines zero across x y w h py fb = fb
shadow_lines (suc n) across x y w h py fb =
    shadow_lines n across x y w h (py +ℤ pos 1)
      (shadow_line across x y w h (x -ℤ pos shadow_size) py fb)

unfoldable pub window_shadow : ℤ → ℤ → ℤ → ℤ → Fb → Fb
unfolding shadow_lines ◌+ℤ◌ ◌-ℤ◌
window_shadow x y w h fb =
    let across = pos_part (w +ℤ pos (2 * shadow_size)) in
    let down = pos_part (h +ℤ pos (2 * shadow_size)) in
    shadow_lines down across x y w h (y -ℤ pos shadow_size) fb

-- The title bar, `n` rows from row `ty` on.
unfoldable pub title_rows : ℕ → ℕ → ℕ → ℕ → ℤ → ℤ → ℤ → Fb → Fb
unfolding fb_round_inset fb_fill_rect lerp_rgb ◌+ℤ◌ ◌-ℤ◌
title_rows zero ty top bot x y w fb = fb
title_rows (suc n) ty top bot x y w fb =
    let inset = if ltb ty win_radius then fb_round_inset ty win_radius else 0 in
    title_rows n (suc ty) top bot x y w (
      fb_fill_rect (x +ℤ pos inset) (y +ℤ pos ty) (w -ℤ pos (2 * inset)) (pos 1)
        (lerp_rgb top bot ty (title_h - 1)) fb)

-- The close, minimize and zoom buttons, with glyphs on the window in focus.
unfoldable pub traffic_lights : ℤ → ℤ → Bool → Fb → Fb
unfolding fb_fill_circle draw_line fb_fill_rect ◌+ℤ◌ ◌-ℤ◌
traffic_lights x cy is_focused fb =
    let f1 = fb_fill_circle (x +ℤ pos 20) cy 6 col_close fb in
    let f2 = fb_fill_circle (x +ℤ pos 40) cy 6 col_mini f1 in
    let f3 = fb_fill_circle (x +ℤ pos 60) cy 6 col_zoom f2 in
    let up = cy -ℤ pos 3 in
    let down = cy +ℤ pos 3 in
    let f4 = draw_line (x +ℤ pos 17) up (x +ℤ pos 23) down 0x7A1815 f3 in
    let f5 = draw_line (x +ℤ pos 17) down (x +ℤ pos 23) up 0x7A1815 f4 in
    if is_focused then fb_fill_rect (x +ℤ pos 37) cy (pos 7) (pos 2) 0x8A5D0A f5 else f3

unfoldable pub window_border : ℤ → ℤ → ℤ → ℤ → ℕ → Fb → Fb
unfolding fb_blend_rect ◌+ℤ◌ ◌-ℤ◌
window_border x y w h alpha fb =
    let r = pos win_radius in
    let one = pos 1 in
    let across = w -ℤ pos (2 * win_radius) in
    let down = h -ℤ pos (2 * win_radius) in
    let f1 = fb_blend_rect (x +ℤ r) y across one 0xFFFFFF alpha fb in
    let f2 = fb_blend_rect (x +ℤ r) (y +ℤ h -ℤ one) across one 0xFFFFFF (alpha / 2) f1 in
    let f3 = fb_blend_rect x (y +ℤ r) one down 0xFFFFFF (alpha / 2) f2 in
    fb_blend_rect (x +ℤ w -ℤ one) (y +ℤ r) one down 0xFFFFFF (alpha / 2) f3

-- `content` is what the window's own `draw` draws, if it has one.
module _ (font_glyph : ℕ → ℕ → ℕ) (content : Window → Fb → Fb) where
  unfoldable pub draw_window : Window → Bool → Fb → Fb
  unfolding window_shadow title_rows traffic_lights window_border text_shadowed fb_fill_rounded_rect
      fb_fill_rect div_ℤ max_ℤ ◌+ℤ◌ ◌-ℤ◌
  draw_window win is_focused fb =
      let x = win.x in
      let y = win.y in
      let f1 = window_shadow x y win.w win.h fb in
      let f2 = fb_fill_rounded_rect x y win.w win.h win_radius col_body true true f1 in
      let top = if is_focused then col_title_top else col_title_top_u in
      let bot = if is_focused then col_title_bot else col_title_bot_u in
      let f3 = title_rows title_h 0 top bot x y win.w f2 in
      let f4 = fb_fill_rect x (y +ℤ pos title_h) win.w (pos 1) 0x14141A f3 in
      let f5 = traffic_lights x (y +ℤ pos (title_h / 2)) is_focused f4 in
      let tx = max_ℤ (x +ℤ div_ℤ (win.w -ℤ pos (length win.title * 8)) 2) (x +ℤ pos 76) in
      let shade = if is_focused then 0xEAEAF2 else 0x9090A0 in
      let f6 = text_shadowed font_glyph tx (y +ℤ pos ((title_h - 16) / 2)) win.title shade f5 in
      content win (window_border x y win.w win.h (if is_focused then 70 else 30) f6)
