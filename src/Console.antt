-- ===== src/Console.antt =====
-- kernel/console.c: the text console on the screen of kernel/fb.c. Columns and rows are natural
-- numbers, since the code keeps them from falling below 0; `font_glyph`, a table, is a parameter.
pub mod Grid
mod Tests
use red_panda_os.Prelude.{
  ℕ, zero, suc, ◌+◌, ◌-◌, ◌*◌, ◌/◌, ◌%◌, ◌^◌, ◌≤◌, ◌<◌, min, max, bit_and, bit_or, bit_xor, ◌≡◌,
  refl, sym, ap, ap₂, ◌∙◌, fun_ext, subst, ◌≢◌, ◌↔◌, ◌⊎◌, inl, inr, Bool, true, false, not, ◌&&◌,
  ◌||◌, Option, none, some, List, [], ◌∷◌, ◌++◌, map, arith, ltb, leb, ◌==◌, if◌then◌else◌, ltb→lt,
  lt→ltb, leb→le, ==_iff, tests, Bool-cases, Option-cases, length, get_elem?, get_or, set, take,
  drop, replicate, length-append, length-set, length-take, length-drop, length-replicate,
  take-append-drop, get_elem?-set_self, get_elem?-set_ne, length-map, u8, u16, u32, u64, sub32, shr,
  shl,
}
use red_panda_os.Prelude.Int.{ℤ, pos}
use red_panda_os.Fb.{Fb, fb_putpixel, fb_fill_rect}
use red_panda_os.Fb.Flip.{fb_flip, fb_flip_rect, fb_scroll_up}

abbrev pub tab_width : ℕ
tab_width = 4

abbrev pub palette : List ℕ
palette =
    0x000000 ∷ 0x0000AA ∷ 0x00AA00 ∷ 0x00AAAA ∷ 0xAA0000 ∷ 0xAA00AA ∷ 0xAA5500 ∷ 0xAAAAAA ∷ 0x555555
    ∷ 0x5555FF ∷ 0x55FF55 ∷ 0x55FFFF ∷ 0xFF5555 ∷ 0xFF55FF ∷ 0xFFFF55 ∷ 0xFFFFFF ∷ []

-- The static state of kernel/console.c.
pub record Console : Type 0 where
  pub cols : ℕ
  pub rows : ℕ
  pub col : ℕ
  pub row : ℕ
  pub fg : ℕ
  pub bg : ℕ

-- The `n` pixels of a glyph's row from bit `gx` on.
unfoldable pub glyph_pixels : ℕ → ℕ → ℕ → ℕ → ℕ → Console → Fb → Fb
unfolding fb_putpixel
glyph_pixels zero gx bits px py con fb = fb
glyph_pixels (suc n) gx bits px py con fb =
    let rgb = if bit_and bits (shr 0x80 gx) == 0 then con.bg else con.fg in
    glyph_pixels n (suc gx) bits px py con (fb_putpixel (pos (px + gx)) (pos py) rgb fb)

-- The `n` rows of a glyph from row `gy` on.
unfoldable pub glyph_lines : ℕ → ℕ → (ℕ → ℕ) → ℕ → ℕ → Console → Fb → Fb
unfolding glyph_pixels
glyph_lines zero gy glyph px py con fb = fb
glyph_lines (suc n) gy glyph px py con fb =
    glyph_lines n (suc gy) glyph px py con (glyph_pixels 8 0 (glyph gy) px (py + gy) con fb)

-- The cell of a row and a column, brought to the screen.
unfoldable pub flip_cell : ℕ → ℕ → Fb → Fb
unfolding fb_flip_rect
flip_cell r c fb = fb_flip_rect (pos (c * 8)) (pos (r * 16)) (pos 8) (pos 16) fb

unfoldable pub fill_cell : ℕ → ℕ → Console → Fb → Fb
unfolding fb_fill_rect flip_cell
fill_cell r c con fb =
    flip_cell r c (fb_fill_rect (pos (c * 8)) (pos (r * 16)) (pos 8) (pos 16) con.bg fb)

unfoldable pub cursor_draw : Console → Fb → Fb
unfolding fb_fill_rect flip_cell
cursor_draw con fb =
    flip_cell con.row con.col
      (fb_fill_rect (pos (con.col * 8)) (pos (con.row * 16 + 14)) (pos 8) (pos 2) con.fg fb)

unfoldable pub cursor_erase : Console → Fb → Fb
unfolding fill_cell
cursor_erase con fb = fill_cell con.row con.col con fb

unfoldable pub console_set_color : ℕ → ℕ → Console → Console
console_set_color f b con = record con {
  fg = get_or palette (bit_and f 15) 0;
  bg = get_or palette (bit_and b 15) 0;
}

unfoldable pub console_clear : Console × Fb → Console × Fb
unfolding fb_fill_rect fb_flip cursor_draw
console_clear (con, fb) =
    let home = record con { col = 0; row = 0 } in
    let filled = fb_fill_rect (pos 0) (pos 0) (pos fb.mode.width) (pos fb.mode.height) con.bg fb in
    (home, cursor_draw home (fb_flip filled))

unfoldable pub console_init : Console × Fb → Console × Fb
unfolding console_set_color console_clear
console_init (con, fb) =
    let sized = record con { cols = fb.mode.width / 8; rows = fb.mode.height / 16 } in
    console_clear (console_set_color 7 0 sized, fb)

-- The wrap of a long line, and the scroll behind the last row.
unfoldable pub settle : Console × Fb → Console × Fb
unfolding fb_scroll_up
settle (con, fb) =
    let wrapped = if leb con.cols con.col then record con { col = 0; row = suc con.row } else con in
    if leb wrapped.rows wrapped.row
    then (record wrapped { row = wrapped.rows - 1 }, fb_scroll_up 16 wrapped.bg fb)
    else (wrapped, fb)

module _ (font_glyph : ℕ → ℕ → ℕ) where
  unfoldable pub draw_glyph : ℕ → ℕ → ℕ → Console → Fb → Fb
  unfolding glyph_lines flip_cell
  draw_glyph r c ch con fb =
      flip_cell r c (glyph_lines 16 0 (font_glyph ch) (c * 8) (r * 16) con fb)

  -- The `switch` on the character.
  unfoldable pub print_char : ℕ → Console × Fb → Console × Fb
  unfolding draw_glyph fill_cell
  print_char c (con, fb) =
      if c == 10
      then (record con { col = 0; row = suc con.row }, fb)
      else if c == 13
      then (record con { col = 0 }, fb)
      else if c == 8
      then if con.col == 0
        then (con, fb)
        else (record con { col = con.col - 1 }, fill_cell con.row (con.col - 1) con fb)
      else if c == 9
      then (record con { col = (con.col + tab_width) / tab_width * tab_width }, fb)
      else (record con { col = suc con.col }, draw_glyph con.row con.col c con fb)

  unfoldable pub console_putc : ℕ → Console × Fb → Console × Fb
  unfolding cursor_erase print_char settle cursor_draw
  console_putc c (con, fb) =
      let (con', fb') = settle (print_char c (con, cursor_erase con fb)) in
      (con', cursor_draw con' fb')

  unfoldable pub console_print : List ℕ → Console × Fb → Console × Fb
  unfolding console_putc
  console_print [] st = st
  console_print (c ∷ s) st = console_print s (console_putc c st)
