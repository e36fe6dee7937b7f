-- ===== src/Draw/Glyphs.antt =====
-- kernel/gui.c: the glyphs of the start menu, 16 by 16 pixels.
use red_panda_os.Prelude.{ℕ, ◌+◌, [], ◌∷◌}
use red_panda_os.Prelude.Int.{ℤ, pos, ◌+ℤ◌}
use red_panda_os.Fb.{Fb, fb_fill_rect}
use red_panda_os.Fb.Shapes.{fb_fill_circle}
use red_panda_os.Shell.Gfx.{draw_line}
use red_panda_os.Draw.{draw_all}

-- A disc and a bar of a glyph, at an offset from its corner.
unfoldable pub disc : ℤ → ℤ → ℕ → ℕ → ℕ → ℕ → Fb → Fb
unfolding fb_fill_circle ◌+ℤ◌
disc gx gy x y r c = fb_fill_circle (gx +ℤ pos x) (gy +ℤ pos y) r c

unfoldable pub bar : ℤ → ℤ → ℕ → ℕ → ℕ → ℕ → ℕ → Fb → Fb
unfolding fb_fill_rect ◌+ℤ◌
bar gx gy x y w h c = fb_fill_rect (gx +ℤ pos x) (gy +ℤ pos y) (pos w) (pos h) c

unfoldable pub glyph_paw : ℤ → ℤ → ℕ → Fb → Fb
unfolding draw_all disc
glyph_paw gx gy c =
    draw_all
      (disc gx gy 8 10 5 c ∷ disc gx gy 3 5 2 c ∷ disc gx gy 8 3 2 c ∷ disc gx gy 13 5 2 c ∷ [])

unfoldable pub glyph_pencil : ℤ → ℤ → ℕ → Fb → Fb
unfolding draw_all bar draw_line ◌+ℤ◌
glyph_pencil gx gy c =
    let stroke = λ (k : ℕ).
      draw_line (gx +ℤ pos (4 + k)) (gy +ℤ pos (11 + k)) (gx +ℤ pos (11 + k)) (gy +ℤ pos (4 + k))
        c in
    draw_all (stroke 0 ∷ stroke 1 ∷ stroke 2 ∷ bar gx gy 12 3 3 3 c ∷ bar gx gy 3 12 2 2 c ∷ [])

unfoldable pub glyph_gauge : ℤ → ℤ → ℕ → Fb → Fb
unfolding draw_all bar
glyph_gauge gx gy c =
    draw_all (bar gx gy 2 10 3 5 c ∷ bar gx gy 7 6 3 9 c ∷ bar gx gy 12 2 3 13 c ∷ [])

unfoldable pub glyph_trash : ℤ → ℤ → ℕ → ℕ → Fb → Fb
unfolding draw_all bar
glyph_trash gx gy c bg = draw_all (
    bar gx gy 6 1 4 2 c
    ∷ bar gx gy 2 3 12 2 c
    ∷ bar gx gy 3 7 10 8 c
    ∷ bar gx gy 6 9 1 4 bg
    ∷ bar gx gy 9 9 1 4 bg
    ∷ [])

unfoldable pub glyph_info : ℤ → ℤ → ℕ → ℕ → Fb → Fb
unfolding draw_all bar disc
glyph_info gx gy c bg =
    draw_all
      (disc gx gy 8 8 7 c ∷ disc gx gy 8 8 5 bg ∷ bar gx gy 7 4 2 2 c ∷ bar gx gy 7 7 2 6 c ∷ [])

unfoldable pub glyph_restart : ℤ → ℤ → ℕ → ℕ → Fb → Fb
unfolding draw_all bar disc
glyph_restart gx gy c bg = draw_all (
    disc gx gy 8 8 7 c
    ∷ disc gx gy 8 8 4 bg
    ∷ bar gx gy 8 0 8 8 bg
    ∷ bar gx gy 11 2 5 2 c
    ∷ bar gx gy 12 4 3 2 c
    ∷ bar gx gy 13 6 1 1 c
    ∷ [])

unfoldable pub glyph_power : ℤ → ℤ → ℕ → ℕ → Fb → Fb
unfolding draw_all bar disc
glyph_power gx gy c bg =
    draw_all
      (disc gx gy 8 9 6 c ∷ disc gx gy 8 9 4 bg ∷ bar gx gy 6 2 4 4 bg ∷ bar gx gy 7 1 2 7 c ∷ [])
