-- ===== src/Draw/Menu.antt =====
-- kernel/gui.c: the start menu, its rows, what is at a point of it, and how it is drawn.
use red_panda_os.Prelude.{
  ℕ, zero, suc, ◌+◌, ◌-◌, ◌*◌, Bool, true, false, not, ◌&&◌, ◌||◌, Option, none, some, List, [],
  ◌∷◌, ltb, leb, ◌==◌, if◌then◌else◌,
}
use red_panda_os.Prelude.Int.{ℤ, pos, ◌+ℤ◌, ltb_ℤ}
use red_panda_os.Prelude.Chars.{chars}
use red_panda_os.Fb.{Fb, fb_fill_rect}
use red_panda_os.Fb.Shapes.{fb_text, fb_blend_rect, fb_round_inset}
use red_panda_os.Shell.Gfx.{draw_panda}
use red_panda_os.Draw.{draw_all, lerp_rgb, text_shadowed, col_text, col_text_dim, col_accent}
use red_panda_os.Draw.Frame.{window_shadow}
use red_panda_os.Draw.Glyphs.{
  glyph_paw, glyph_pencil, glyph_gauge, glyph_trash, glyph_info, glyph_restart, glyph_power,
}

-- The entries of the menu; `MI_NONE` is `none` of an option.
pub data Item : Type 0 where
  mi_welcome mi_editor mi_system mi_trash mi_about mi_restart mi_shutdown : Item

pub record MenuRow : Type 0 where
  pub label : List ℕ
  pub id : Item
  pub yoff : ℕ

unfoldable pub menu_rows : List MenuRow
unfolding chars
menu_rows =
    record { label = chars "Welcome"; id = mi_welcome; yoff = 94 }
    ∷ record { label = chars "Text Editor"; id = mi_editor; yoff = 126 }
    ∷ record { label = chars "System Monitor"; id = mi_system; yoff = 158 }
    ∷ record { label = chars "Trash"; id = mi_trash; yoff = 190 }
    ∷ record { label = chars "About"; id = mi_about; yoff = 236 }
    ∷ record { label = chars "Restart"; id = mi_restart; yoff = 268 }
    ∷ record { label = chars "Shut Down"; id = mi_shutdown; yoff = 300 }
    ∷ []

abbrev pub menu_x : ℕ
menu_x = 10

abbrev pub menu_w : ℕ
menu_w = 248

abbrev pub menu_h : ℕ
menu_h = 344

abbrev pub menu_radius : ℕ
menu_radius = 10

abbrev pub row_h : ℕ
row_h = 32

abbrev pub between : ℤ → ℤ → ℤ → Bool
between v low high = not (ltb_ℤ v low) && ltb_ℤ v high

-- The first of the rows at a point; `menu_y` is the top of the menu.
unfoldable pub item_from : ℤ → ℤ → ℤ → List MenuRow → Option Item
unfolding ◌+ℤ◌
item_from menu_y mx my [] = none
item_from menu_y mx my (row ∷ rows) =
    let rest = item_from menu_y mx my rows in
    let ry = menu_y +ℤ pos row.yoff in
    if between mx (pos (menu_x + 8)) (pos (menu_x + menu_w - 8)) && between my ry (ry +ℤ pos row_h)
    then some row.id
    else rest

unfoldable pub menu_item_at : ℤ → ℤ → ℤ → Option Item
unfolding item_from menu_rows
menu_item_at menu_y mx my = item_from menu_y mx my menu_rows

-- What a press does while the menu is open: whether it stays open, and the entry that is chosen.
unfoldable pub menu_press : ℤ → ℤ → ℤ → Bool × Option Item
unfolding menu_item_at ◌+ℤ◌
menu_press menu_y mx my =
    if not (between mx (pos menu_x) (pos (menu_x + menu_w)))
      || not (between my menu_y (menu_y +ℤ pos menu_h))
    then (false, none)
    else elim (menu_item_at menu_y mx my) [ none ↦ (true, none) | some item ↦ (false, some item) ]

unfoldable pub menu_bg_at : ℕ → ℕ
unfolding lerp_rgb
menu_bg_at ty = lerp_rgb 0x30303F 0x191922 ty (menu_h - 1)

-- The glyph of an entry; `bg` is what shows through its holes.
unfoldable pub menu_glyph : Item → ℤ → ℤ → ℕ → ℕ → Fb → Fb
unfolding glyph_paw glyph_pencil glyph_gauge glyph_trash glyph_info glyph_restart glyph_power
menu_glyph mi_welcome gx gy c bg = glyph_paw gx gy c
menu_glyph mi_editor gx gy c bg = glyph_pencil gx gy c
menu_glyph mi_system gx gy c bg = glyph_gauge gx gy c
menu_glyph mi_trash gx gy c bg = glyph_trash gx gy c bg
menu_glyph mi_about gx gy c bg = glyph_info gx gy c bg
menu_glyph mi_restart gx gy c bg = glyph_restart gx gy c bg
menu_glyph mi_shutdown gx gy c bg = glyph_power gx gy c bg

-- The panel, `n` rows from row `ty` on.
unfoldable pub panel_rows : ℕ → ℕ → ℤ → ℤ → Fb → Fb
unfolding fb_round_inset fb_fill_rect menu_bg_at ◌+ℤ◌
panel_rows zero ty mx my fb = fb
panel_rows (suc n) ty mx my fb =
    let inset =
      if ltb ty menu_radius
      then fb_round_inset ty menu_radius
      else if leb (menu_h - menu_radius) ty
      then fb_round_inset (menu_h - 1 - ty) menu_radius
      else 0 in
    panel_rows n (suc ty) mx my (
      fb_fill_rect (mx +ℤ pos inset) (my +ℤ pos ty) (pos (menu_w - 2 * inset)) (pos 1)
        (menu_bg_at ty) fb)

abbrev pub item_number : Item → ℕ
item_number mi_welcome = 0
item_number mi_editor = 1
item_number mi_system = 2
item_number mi_trash = 3
item_number mi_about = 4
item_number mi_restart = 5
item_number mi_shutdown = 6

abbrev pub is_hover : Item → Option Item → Bool
is_hover id none = false
is_hover id (some hover) = item_number id == item_number hover

module _ (font_glyph : ℕ → ℕ → ℕ) where
  unfoldable pub draw_menu_row : ℤ → ℤ → Option Item → MenuRow → Fb → Fb
  unfolding draw_all fb_blend_rect fb_fill_rect menu_glyph menu_bg_at fb_text ◌+ℤ◌
  draw_menu_row mx my hover row fb =
      let ry = my +ℤ pos row.yoff in
      let hot = is_hover row.id hover in
      let light =
        draw_all
          (fb_blend_rect (mx +ℤ pos 8) ry (pos (menu_w - 16)) (pos row_h) 0xFFFFFF 22
            ∷ fb_fill_rect (mx +ℤ pos 8) (ry +ℤ pos 6) (pos 3) (pos (row_h - 12)) col_accent
            ∷ [])
          fb in
      let gc = if hot then col_accent else 0x8E8EA8 in
      let bg = menu_bg_at (row.yoff + 16) in
      let drawn =
        menu_glyph row.id (mx +ℤ pos 24) (ry +ℤ pos 8) gc bg (if hot then light else fb) in
      fb_text font_glyph (mx +ℤ pos 52) (ry +ℤ pos 8) row.label (if hot then 0xF2F2FA else col_text)
        drawn

  unfoldable pub draw_menu_rows : ℤ → ℤ → Option Item → List MenuRow → Fb → Fb
  unfolding draw_menu_row
  draw_menu_rows mx my hover [] fb = fb
  draw_menu_rows mx my hover (row ∷ rows) fb =
      draw_menu_rows mx my hover rows (draw_menu_row mx my hover row fb)

  -- `slide` is how far the menu still is below its place, and then no row is lit.
  unfoldable pub draw_menu : ℤ → ℕ → ℤ → ℤ → Fb → Fb
  unfolding draw_all window_shadow panel_rows fb_blend_rect draw_panda text_shadowed fb_text
      draw_menu_rows menu_rows menu_item_at chars ◌+ℤ◌
  draw_menu menu_y slide mouse_x mouse_y =
      let mx = pos menu_x in
      let my = menu_y +ℤ pos slide in
      let hover = if slide == 0 then menu_item_at menu_y mouse_x mouse_y else none in
      draw_all (
        window_shadow mx my (pos menu_w) (pos menu_h)
        ∷ panel_rows menu_h 0 mx my
        ∷ fb_blend_rect (mx +ℤ pos menu_radius) my (pos (menu_w - 2 * menu_radius)) (pos 1) 0xFFFFFF
            50
        ∷ draw_panda (mx +ℤ pos 20) (my +ℤ pos 14) 2
        ∷ text_shadowed font_glyph (mx +ℤ pos 62) (my +ℤ pos 16) (chars "RedPandaOS") 0xEAEAF2
        ∷ fb_text font_glyph (mx +ℤ pos 62) (my +ℤ pos 36) (chars "version 11") col_text_dim
        ∷ fb_blend_rect (mx +ℤ pos 14) (my +ℤ pos 64) (pos (menu_w - 28)) (pos 1) 0xFFFFFF 25
        ∷ fb_text font_glyph (mx +ℤ pos 22) (my +ℤ pos 70) (chars "APPS") 0x60607A
        ∷ draw_menu_rows mx my hover menu_rows
        ∷ fb_blend_rect (mx +ℤ pos 14) (my +ℤ pos 228) (pos (menu_w - 28)) (pos 1) 0xFFFFFF 25
        ∷ [])
