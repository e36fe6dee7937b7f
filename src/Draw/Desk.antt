-- ===== src/Draw/Desk.antt =====
-- kernel/gui.c: the icons on the desktop, the band that selects them, and the preview of a drop.
use red_panda_os.Prelude.{
  ℕ, zero, suc, ◌+◌, ◌-◌, ◌*◌, ◌/◌, min, Bool, ◌&&◌, List, [], ◌∷◌, ◌==◌, if◌then◌else◌, length,
  take,
}
use red_panda_os.Prelude.Int.{ℤ, pos, ◌+ℤ◌, ◌-ℤ◌}
use red_panda_os.Prelude.Chars.{chars}
use red_panda_os.Fb.{Fb, fb_fill_rect}
use red_panda_os.Fb.Flip.{min_ℤ, max_ℤ}
use red_panda_os.Fb.Shapes.{fb_blend_rect}
use red_panda_os.Draw.{
  draw_all, div_ℤ, text_shadowed, col_accent, col_icon_page, col_icon_fold, col_icon_rule,
  col_label, icon_cell_w, icon_cell_h,
}
use red_panda_os.Strings.{strlen}
use red_panda_os.Icons.{Icon, Desktop, clamp_cell, over_trash}

-- The fold of a page, `n` rows from row `i` on.
unfoldable pub fold_rows : ℕ → ℕ → ℤ → ℤ → ℕ → Fb → Fb
unfolding fb_blend_rect ◌+ℤ◌
fold_rows zero i x y a fb = fb
fold_rows (suc n) i x y a fb =
    fold_rows n (suc i) x y a
      (fb_blend_rect (x +ℤ pos 21) (y +ℤ pos i) (pos (i + 1)) (pos 1) col_icon_fold a fb)

unfoldable pub rule_rows : ℕ → ℕ → ℤ → ℤ → ℕ → Fb → Fb
unfolding fb_blend_rect ◌+ℤ◌
rule_rows zero k x y a fb = fb
rule_rows (suc n) k x y a fb =
    rule_rows n (suc k) x y a
      (fb_blend_rect (x +ℤ pos 5) (y +ℤ pos (15 + k * 6)) (pos 20) (pos 2) col_icon_rule a fb)

unfoldable pub draw_doc_glyph : ℤ → ℤ → ℕ → Fb → Fb
unfolding draw_all fb_blend_rect fold_rows rule_rows ◌+ℤ◌
draw_doc_glyph x y a = draw_all (
    fb_blend_rect x y (pos 21) (pos 38) col_icon_page a
    ∷ fb_blend_rect (x +ℤ pos 21) (y +ℤ pos 9) (pos 9) (pos 29) col_icon_page a
    ∷ fold_rows 9 0 x y a
    ∷ rule_rows 4 0 x y a
    ∷ fb_blend_rect (x +ℤ pos 1) (y +ℤ pos 38) (pos 30) (pos 1) 0x000000 (a / 3)
    ∷ [])

-- The can, `n` rows from row `r` on, and its ridges.
unfoldable pub can_rows : ℕ → ℕ → ℤ → ℤ → ℕ → Fb → Fb
unfolding fb_fill_rect ◌+ℤ◌
can_rows zero r x y body fb = fb
can_rows (suc n) r x y body fb =
    let inset = r * 5 / 32 in
    can_rows n (suc r) x y body (
      fb_fill_rect (x +ℤ pos (2 + inset)) (y +ℤ pos (10 + r)) (pos (32 - 2 * inset)) (pos 1) body
        fb)

unfoldable pub ridges : ℕ → ℕ → ℤ → ℤ → ℕ → Fb → Fb
unfolding fb_fill_rect ◌+ℤ◌
ridges zero k x y dark fb = fb
ridges (suc n) k x y dark fb =
    ridges n (suc k) x y dark
      (fb_fill_rect (x +ℤ pos (9 + k * 8)) (y +ℤ pos 14) (pos 2) (pos 24) dark fb)

unfoldable pub crumpled_paper : ℤ → ℤ → Fb → Fb
unfolding fb_fill_rect ◌+ℤ◌ ◌-ℤ◌
crumpled_paper x y fb =
    fb_fill_rect (x +ℤ pos 19) (y -ℤ pos 3) (pos 9) (pos 8) 0xD8D8E4
      (fb_fill_rect (x +ℤ pos 7) (y -ℤ pos 1) (pos 8) (pos 6) 0xE8E8F0 fb)

-- The sides of a rectangle, and a fill of the whole.
unfoldable pub tinted_frame : ℤ → ℤ → ℤ → ℤ → ℕ → ℕ → Fb → Fb
unfolding draw_all fb_blend_rect ◌+ℤ◌ ◌-ℤ◌
tinted_frame x y w h fill edge =
    let one = pos 1 in
    draw_all (
      fb_blend_rect x y w h col_accent fill
      ∷ fb_blend_rect x y w one col_accent edge
      ∷ fb_blend_rect x (y +ℤ h -ℤ one) w one col_accent edge
      ∷ fb_blend_rect x y one h col_accent edge
      ∷ fb_blend_rect (x +ℤ w -ℤ one) y one h col_accent edge
      ∷ [])

unfoldable pub draw_band : ℤ × ℤ → ℤ × ℤ → Fb → Fb
unfolding tinted_frame min_ℤ max_ℤ ◌+ℤ◌ ◌-ℤ◌
draw_band (ax, ay) (bx, by) =
    let x0 = min_ℤ ax bx in
    let y0 = min_ℤ ay by in
    tinted_frame x0 y0 (max_ℤ ax bx -ℤ x0 +ℤ pos 1) (max_ℤ ay by -ℤ y0 +ℤ pos 1) 30 160

-- `dx` and `dy` are how far the mouse has moved.
unfoldable pub draw_drag_ghost : Desktop → ℤ → ℤ → List Icon → Fb → Fb
unfolding clamp_cell draw_doc_glyph ◌+ℤ◌
draw_drag_ghost d dx dy [] fb = fb
draw_drag_ghost d dx dy (ic ∷ icons) fb =
    let (gx, gy) = clamp_cell d (ic.x +ℤ dx, ic.y +ℤ dy) in
    let drawn = draw_doc_glyph (gx +ℤ pos 33) (gy +ℤ pos 6) 150 fb in
    draw_drag_ghost d dx dy icons (if ic.selected then drawn else fb)

module _ (font_glyph : ℕ → ℕ → ℕ) where
  unfoldable pub draw_icon_label : ℤ → ℤ → List ℕ → ℕ → Fb → Fb
  unfolding text_shadowed div_ℤ strlen ◌+ℤ◌ ◌-ℤ◌
  draw_icon_label cx cy name rgb =
      let t = take (min (strlen name) 11) name in
      let n = length t in
      text_shadowed font_glyph (cx +ℤ div_ℤ (pos icon_cell_w -ℤ pos (n * 8)) 2) (cy +ℤ pos 52) t rgb

  -- `count` is `trash_file_count()`.
  unfoldable pub draw_trash_icon : ℕ → Bool → Desktop → Fb → Fb
  unfolding draw_all crumpled_paper fb_fill_rect can_rows ridges text_shadowed chars ◌+ℤ◌ ◌-ℤ◌
  draw_trash_icon count hot d fb =
      let x = d.trash_x +ℤ pos 30 in
      let y = d.trash_y +ℤ pos 6 in
      let body = if hot then col_accent else 0x99A1B5 in
      let dark = if hot then 0xA84E1E else 0x6E7588 in
      draw_all
        (fb_fill_rect (x +ℤ pos 13) y (pos 10) (pos 3) dark
          ∷ fb_fill_rect (x -ℤ pos 2) (y +ℤ pos 3) (pos 40) (pos 5) body
          ∷ can_rows 32 0 x y body
          ∷ ridges 3 0 x y dark
          ∷ text_shadowed font_glyph (d.trash_x +ℤ pos ((icon_cell_w - 5 * 8) / 2))
              (d.trash_y +ℤ pos 52) (chars "Trash") col_label
          ∷ [])
        (if count == 0 then fb else crumpled_paper x y fb)

  unfoldable pub draw_icon : Icon → Fb → Fb
  unfolding tinted_frame draw_doc_glyph draw_icon_label ◌+ℤ◌
  draw_icon ic fb =
      let cell =
        tinted_frame (ic.x +ℤ pos 6) ic.y (pos (icon_cell_w - 12)) (pos (icon_cell_h - 8)) 45 150
          fb in
      let page =
        draw_doc_glyph (ic.x +ℤ pos 33) (ic.y +ℤ pos 6) 255 (if ic.selected then cell else fb) in
      draw_icon_label ic.x ic.y ic.name (if ic.selected then 0xFFFFFF else col_label) page

  unfoldable pub draw_icons : List Icon → Fb → Fb
  unfolding draw_icon
  draw_icons [] fb = fb
  draw_icons (ic ∷ icons) fb = draw_icons icons (draw_icon ic fb)

  unfoldable pub draw_desktop_icons : ℕ → Bool → ℤ → ℤ → Desktop → Fb → Fb
  unfolding draw_icons draw_trash_icon over_trash
  draw_desktop_icons count dragging mouse_x mouse_y d fb =
      draw_trash_icon count (dragging && over_trash mouse_x mouse_y d) d (draw_icons d.icons fb)
