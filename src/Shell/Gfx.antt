-- ===== src/Shell/Gfx.antt =====
-- kernel/shell.c: the picture of `gfx`, on the screen of kernel/fb.c.
use red_panda_os.Prelude.{
  ℕ, zero, suc, ◌+◌, ◌-◌, ◌*◌, ◌/◌, bit_or, Option, none, some, u32, sub32, shl,
}
use red_panda_os.Prelude.Int.{ℤ, pos, ◌+ℤ◌, ◌-ℤ◌}
use red_panda_os.Prelude.Chars.{chars}
use red_panda_os.Fb.{Fb, fb_fill_rect, fb_draw_rect, fb_line}
use red_panda_os.Fb.Shapes.{fb_text}
use red_panda_os.Fb.Flip.{fb_flip}
use red_panda_os.Shell.{Machine}

-- `fb_line`, which ends for the points that are drawn here.
unfoldable pub draw_line : ℤ → ℤ → ℤ → ℤ → ℕ → Fb → Fb
unfolding fb_line
draw_line x0 y0 x1 y1 rgb fb = elim (fb_line x0 y0 x1 y1 rgb fb) [ none ↦ fb | some fb1 ↦ fb1 ]

-- A square block of the panda, in units of `s`.
unfoldable pub panda_block : ℤ → ℤ → ℕ → ℕ → ℕ → ℕ → ℕ → ℕ → Fb → Fb
unfolding fb_fill_rect
panda_block ox oy s x y w h rgb fb =
    fb_fill_rect (ox +ℤ pos (x * s)) (oy +ℤ pos (y * s)) (pos (w * s)) (pos (h * s)) rgb fb

abbrev fur : ℕ
fur = 0xC65A1E

abbrev dark : ℕ
dark = 0x6E3208

abbrev cream : ℕ
cream = 0xF2E0C8

abbrev ink : ℕ
ink = 0x1A1A1A

unfoldable pub draw_panda : ℤ → ℤ → ℕ → Fb → Fb
unfolding panda_block
draw_panda ox oy s fb =
    let b1 = panda_block ox oy s 1 0 3 3 dark fb in
    let b2 = panda_block ox oy s 12 0 3 3 dark b1 in
    let b3 = panda_block ox oy s 2 1 1 1 cream b2 in
    let b4 = panda_block ox oy s 13 1 1 1 cream b3 in
    let b5 = panda_block ox oy s 0 2 16 12 fur b4 in
    let b6 = panda_block ox oy s 2 5 4 3 cream b5 in
    let b7 = panda_block ox oy s 10 5 4 3 cream b6 in
    let b8 = panda_block ox oy s 3 6 2 2 ink b7 in
    let b9 = panda_block ox oy s 11 6 2 2 ink b8 in
    let b10 = panda_block ox oy s 5 9 6 5 cream b9 in
    let b11 = panda_block ox oy s 7 10 2 2 ink b10 in
    let b12 = panda_block ox oy s 0 9 2 3 cream b11 in panda_block ox oy s 14 9 2 3 cream b12

-- The columns of the gradient from `x` on; `t` counts in 255 steps over the width.
unfoldable pub gradient : ℕ → ℕ → ℕ → Fb → Fb
unfolding fb_fill_rect
gradient zero x w fb = fb
gradient (suc n) x w fb =
    let t = u32 (x * 255) / sub32 w 81 in
    let rgb = bit_or (bit_or (shl t 16) (shl (sub32 255 t) 8)) 96 in
    gradient n (suc x) w (fb_fill_rect (pos (40 + x)) (pos 56) (pos 1) (pos 48) (u32 rgb) fb)

unfoldable pub nested : ℕ → ℕ → Fb → Fb
unfolding fb_draw_rect
nested zero i fb = fb
nested (suc n) i fb =
    let c = 0x2060A0 + i * 0x101008 in
    nested n (suc i) (
      fb_draw_rect (pos (40 + i * 14)) (pos (140 + i * 10)) (pos 300 -ℤ pos (i * 28))
        (pos 200 -ℤ pos (i * 20)) c fb)

unfoldable pub starburst : ℕ → ℕ → ℤ → ℤ → Fb → Fb
unfolding draw_line
starburst zero i cx cy fb = fb
starburst (suc n) i cx cy fb =
    let x = cx -ℤ pos 200 +ℤ pos (i * 25) in
    let up = draw_line cx cy x (cy -ℤ pos 100) 0xE0A030 fb in
    starburst n (suc i) cx cy (draw_line cx cy x (cy +ℤ pos 100) 0x30A0E0 up)

module _ (font_glyph : ℕ → ℕ → ℕ) where
  -- What `cmd_gfx` draws.
  unfoldable pub gfx_picture : Fb → Fb
  unfolding fb_fill_rect fb_text gradient nested starburst draw_panda fb_flip
  gfx_picture fb =
      let w = fb.mode.width in
      let h = fb.mode.height in
      let f1 = fb_fill_rect (pos 0) (pos 0) (pos w) (pos h) 0x101018 fb in
      let f2 =
        fb_text font_glyph (pos 40) (pos 24) (chars "RedPandaOS v5 - drawing its own pixels")
          0xFFFFFF f1 in
      let f3 = gradient (w - 80) 0 w f2 in
      let f4 = nested 9 0 f3 in
      let f5 = starburst 17 0 (pos w -ℤ pos 280) (pos 240) f4 in
      let f6 = draw_panda (pos (w / 2) -ℤ pos 64) (pos h -ℤ pos 220) 8 f5 in
      let f7 =
        fb_text font_glyph (pos (w / 2) -ℤ pos 100) (pos h -ℤ pos 80)
          (chars "the resident red panda") 0xC65A1E f6 in
      let f8 =
        fb_text font_glyph (pos 40) (pos h -ℤ pos 32) (chars "press any key to return") 0x808080
          f7 in
      fb_flip f8

module _ {S : Type 0} (m : Machine S) (font_glyph : ℕ → ℕ → ℕ) where
  unfoldable pub cmd_gfx : S → Option S
  unfolding gfx_picture
  cmd_gfx s = elim (m.keyboard_getchar (m.set_screen (gfx_picture font_glyph (m.screen s)) s)) [
    | none ↦ none
    | some (_, s1) ↦ some (m.console_clear s1)
  ]
