-- ===== src/Draw/Taskbar.antt =====
-- kernel/gui.c: the taskbar, and the picture of the whole desktop.
use red_panda_os.Prelude.{
  ℕ, suc, ◌+◌, ◌-◌, ◌*◌, ◌/◌, min, Bool, false, ◌&&◌, Option, none, some, List, [], ◌∷◌, ◌++◌, ◌==◌,
  if◌then◌else◌, get_or, take,
}
use red_panda_os.Prelude.Int.{ℤ, pos, ◌+ℤ◌, ◌-ℤ◌}
use red_panda_os.Fb.{Fb, Bytes, fb_fill_rect}
use red_panda_os.Fb.Shapes.{fb_blend_rect, fb_fill_circle}
use red_panda_os.Draw.{draw_all, app_2digit, text_shadowed, col_accent, taskbar_h}
use red_panda_os.Strings.{strlen}
use red_panda_os.Fb.Flip.{fb_flip, fb_restore}
use red_panda_os.Windows.{Window, Windows, no_window}
use red_panda_os.Icons.{Desktop}
use red_panda_os.Draw.Frame.{draw_window}
use red_panda_os.Draw.Desk.{draw_desktop_icons, draw_band, draw_drag_ghost}
use red_panda_os.Draw.Menu.{draw_menu}

-- Whether window `i` is the one in focus.
abbrev pub is_focus : ℕ → Option ℕ → Bool
is_focus i none = false
is_focus i (some focused) = i == focused

-- The start orb; it has a halo while the menu is open.
unfoldable pub draw_orb : Bool → ℤ → Fb → Fb
unfolding draw_all fb_fill_circle ◌+ℤ◌ ◌-ℤ◌
draw_orb menu_open cy fb =
    let cx = pos 22 in
    let pad : ℕ = 0xF2E0C8 in
    let halo = fb_fill_circle cx cy 15 0x6B3A20 fb in
    draw_all
      (fb_fill_circle cx cy 12 col_accent
        ∷ fb_fill_circle (cx -ℤ pos 3) (cy -ℤ pos 4) 4 0xD96E33
        ∷ fb_fill_circle cx (cy +ℤ pos 3) 4 pad
        ∷ fb_fill_circle (cx -ℤ pos 6) (cy -ℤ pos 2) 2 pad
        ∷ fb_fill_circle cx (cy -ℤ pos 5) 2 pad
        ∷ fb_fill_circle (cx +ℤ pos 6) (cy -ℤ pos 2) 2 pad
        ∷ [])
      (if menu_open then halo else fb)

-- The text of the clock.
unfoldable pub clock_text : ℕ → ℕ → ℕ → List ℕ
unfolding app_2digit
clock_text hh mm ss = app_2digit (app_2digit (app_2digit [] hh ++ (58 ∷ [])) mm ++ (58 ∷ [])) ss

module _ (font_glyph : ℕ → ℕ → ℕ) where
  -- A window's button at a slot; `top` is the taskbar's.
  unfoldable pub draw_button : ℤ → ℕ → Bool → Window → Fb → Fb
  unfolding fb_blend_rect fb_fill_rect text_shadowed strlen ◌+ℤ◌
  draw_button top slot focused win fb =
      let bx = pos (48 + slot * 148) in
      let by = top +ℤ pos 5 in
      let lit = focused && win.visible in
      let plate = fb_blend_rect bx by (pos 140) (pos 26) 0xFFFFFF (if lit then 60 else 25) fb in
      let mark = fb_fill_rect (bx +ℤ pos 8) (by +ℤ pos 23) (pos 124) (pos 2) col_accent plate in
      text_shadowed font_glyph (bx +ℤ pos 10) (by +ℤ pos 5)
        (take (min (strlen win.title) 15) win.title) (if win.visible then 0xD8D8E2 else 0x8888A0)
        (if lit then mark else plate)

  -- The buttons of the windows from number `i` on, the next one at `slot`.
  unfoldable pub draw_buttons : ℤ → ℕ → ℕ → Option ℕ → List Window → Fb → Fb
  unfolding draw_button
  draw_buttons top i slot focused [] fb = fb
  draw_buttons top i slot focused (win ∷ wins) fb =
      if win.used
      then draw_buttons top (suc i) (suc slot) focused wins
          (draw_button top slot (is_focus i focused) win fb)
      else draw_buttons top (suc i) slot focused wins fb

  -- `time` is what `rtc_time` gives.
  unfoldable pub draw_taskbar : Bool → Windows → ℕ × ℕ × ℕ → Fb → Fb
  unfolding draw_all fb_blend_rect draw_orb draw_buttons clock_text text_shadowed ◌+ℤ◌ ◌-ℤ◌
  draw_taskbar menu_open ws (hh, mm, ss) fb =
      let w = pos fb.mode.width in
      let top = pos fb.mode.height -ℤ pos taskbar_h in
      draw_all
        (fb_blend_rect (pos 0) top w (pos taskbar_h) 0x06060A 150
          ∷ fb_blend_rect (pos 0) top w (pos 1) 0xFFFFFF 40
          ∷ draw_orb menu_open (top +ℤ pos (taskbar_h / 2))
          ∷ draw_buttons top 0 0 ws.focused ws.wins
          ∷ text_shadowed font_glyph (w -ℤ pos (8 * 8) -ℤ pos 14)
              (top +ℤ pos ((taskbar_h - 16) / 2)) (clock_text hh mm ss) 0xE0E0EA
          ∷ [])
        fb

  -- The windows of an order from the bottom to the top; `content` is their own drawing.
  unfoldable pub draw_windows : (Window → Fb → Fb) → Windows → List ℕ → Fb → Fb
  unfolding draw_window
  draw_windows content ws [] fb = fb
  draw_windows content ws (i ∷ order) fb =
      let win = get_or ws.wins i no_window in
      let drawn = draw_window font_glyph content win (is_focus i ws.focused) fb in
      draw_windows content ws order (if win.used && win.visible then drawn else fb)

-- What the picture depends on besides the windows and the icons.
pub record Scene : Type 0 where
  pub trash_count : ℕ
  pub icon_dragging : Bool
  pub mouse : ℤ × ℤ
  pub press : ℤ × ℤ
  pub band : Option ((ℤ × ℤ) × (ℤ × ℤ))
  pub menu_open : Bool
  pub menu_y : ℤ
  pub menu_slide : ℕ
  pub time : ℕ × ℕ × ℕ

unfoldable pub scene_band : Option ((ℤ × ℤ) × (ℤ × ℤ)) → Fb → Fb
unfolding draw_band
scene_band none fb = fb
scene_band (some (anchor, corner)) fb = draw_band anchor corner fb

module _ (font_glyph : ℕ → ℕ → ℕ) (content : Window → Fb → Fb) (bg_layer : Bytes) where
  -- `bg_layer` is the finished wallpaper.
  unfoldable pub composite : Scene → Desktop → Windows → Fb → Fb
  unfolding draw_desktop_icons scene_band draw_windows draw_taskbar draw_menu draw_drag_ghost
      fb_flip fb_restore ◌-ℤ◌
  composite sc d ws fb =
      let (mouse_x, mouse_y) = sc.mouse in
      let (press_x, press_y) = sc.press in
      let f1 =
        draw_desktop_icons font_glyph sc.trash_count sc.icon_dragging mouse_x mouse_y d
          (fb_restore bg_layer fb) in
      let f2 = draw_windows font_glyph content ws ws.zorder (scene_band sc.band f1) in
      let f3 = draw_taskbar font_glyph sc.menu_open ws sc.time f2 in
      let menu = draw_menu font_glyph sc.menu_y sc.menu_slide mouse_x mouse_y f3 in
      let f4 = if sc.menu_open then menu else f3 in
      let ghost = draw_drag_ghost d (mouse_x -ℤ press_x) (mouse_y -ℤ press_y) d.icons f4 in
      fb_flip (if sc.icon_dragging then ghost else f4)
