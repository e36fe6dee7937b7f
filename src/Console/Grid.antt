-- ===== src/Console/Grid.antt =====
-- kernel/console.c: the cursor stays on the grid, whatever is printed.
use red_panda_os.Prelude.{
  ℕ, suc, ◌+◌, ◌-◌, ◌*◌, ◌/◌, ◌≤◌, ◌<◌, ◌⊎◌, inl, inr, Bool, true, false, List, [], ◌∷◌, arith, leb,
  ◌==◌, if◌then◌else◌, Bool-cases,
}
use red_panda_os.Fb.{Fb}
use red_panda_os.Console.{
  Console, console_init, console_clear, console_set_color, cursor_erase, tab_width, settle,
  print_char, console_putc, console_print,
}

-- A grid of at least one cell, with the cursor on it.
pub record InGrid (con : Console) : Type 0 where
  pub some_col : 1 ≤ con.cols
  pub some_row : 1 ≤ con.rows
  pub in_cols : con.col < con.cols
  pub in_rows : con.row < con.rows

-- After the `switch`: at most one row behind the grid, and never more.
record Near (con : Console) : Type 0 where
  some_col : 1 ≤ con.cols
  some_row : 1 ≤ con.rows
  in_rows : con.row ≤ con.rows
  not_both : (con.row < con.rows) ⊎ (con.col < con.cols)

settle-InGrid : (con : Console) (fb : Fb) → Near con → InGrid (settle (con, fb)).0
unfolding settle
settle-InGrid con fb n = elim (Bool-cases (leb con.cols con.col)) [
  | inl long ↦ elim (Bool-cases (leb con.rows (suc con.row))) [
    | inl last ↦
        rw (long, last)
          (record {
            some_col = n.some_col;
            some_row = n.some_row;
            in_cols = n.some_col;
            in_rows = omega (arith, n.some_row);
          })
    | inr above ↦
        rw (long, above)
          (record {
            some_col = n.some_col;
            some_row = n.some_row;
            in_cols = n.some_col;
            in_rows = ground (arith, above);
          })
  ]
  | inr short ↦ elim (Bool-cases (leb con.rows con.row)) [
    | inl last ↦
        rw (short, last)
          (record {
            some_col = n.some_col;
            some_row = n.some_row;
            in_cols = ground (arith, short);
            in_rows = omega (arith, n.some_row);
          })
    | inr above ↦
        rw (short, above)
          (record {
            some_col = n.some_col;
            some_row = n.some_row;
            in_cols = ground (arith, short);
            in_rows = ground (arith, above);
          })
  ]
]

on_row : (con : Console) (c : ℕ) → InGrid con → Near (record con { col = c })
on_row con c g = record {
  some_col = g.some_col;
  some_row = g.some_row;
  in_rows = omega (arith, g.in_rows);
  not_both = inl g.in_rows;
}

started : (con : Console) → InGrid con → Near (record con { col = 0; row = suc con.row })
started con g = record {
  some_col = g.some_col;
  some_row = g.some_row;
  in_rows = omega (arith, g.in_rows);
  not_both = inr g.some_col;
}

pick : (b : Bool) (p q : Console × Fb) → Near p.0 → Near q.0 → Near (if b then p else q).0
pick true p q hp hq = hp
pick false p q hp hq = hq

module _ (font_glyph : ℕ → ℕ → ℕ) where
  print_char-Near :
      (c : ℕ) (con : Console) (fb : Fb) → InGrid con → Near (print_char font_glyph c (con, fb)).0
  unfolding print_char
  print_char-Near c con fb g = pick (c == 10) _ _ (started con g) (
      pick (c == 13) _ _ (on_row con 0 g) (
        pick (c == 8) _ _
          (pick (con.col == 0) _ _ (on_row con con.col g) (on_row con (con.col - 1) g))
          (pick (c == 9) _ _ (on_row con ((con.col + tab_width) / tab_width * tab_width) g)
            (on_row con (suc con.col) g))))

  console_putc-InGrid :
      (c : ℕ) (con : Console) (fb : Fb)
      → InGrid con
      → InGrid (console_putc font_glyph c (con, fb)).0
  unfolding console_putc
  console_putc-InGrid c con fb g =
      let put = print_char font_glyph c (con, cursor_erase con fb) in
      settle-InGrid put.0 put.1 (print_char-Near c con (cursor_erase con fb) g)

  -- On a grid of at least one cell the cursor stays on the grid, whatever text is printed.
  pub console_print-InGrid :
      (s : List ℕ) (con : Console) (fb : Fb)
      → InGrid con
      → InGrid (console_print font_glyph s (con, fb)).0
  unfolding console_print
  console_print-InGrid [] con fb g = g
  console_print-InGrid (c ∷ s) con fb g =
      let next = console_putc font_glyph c (con, fb) in
      console_print-InGrid s next.0 next.1 (console_putc-InGrid c con fb g)

-- The grid of a screen that has room for a cell.
pub console_init-InGrid :
    (con : Console) (fb : Fb)
    → 8 ≤ fb.mode.width
    → 16 ≤ fb.mode.height
    → InGrid (console_init (con, fb)).0
unfolding console_init console_clear console_set_color
console_init-InGrid con fb wide high = record {
  some_col = omega (arith, wide);
  some_row = omega (arith, high);
  in_cols = omega (arith, wide);
  in_rows = omega (arith, high);
}
