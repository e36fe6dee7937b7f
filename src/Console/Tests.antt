-- ===== src/Console/Tests.antt =====
-- Runs of kernel/console.c, and its theorem there.
use red_panda_os.Prelude.{◌≡◌, refl, false, none, [], ◌∷◌, arith}
use red_panda_os.Prelude.Int.{pos}
use red_panda_os.Fb.{Fb}
use red_panda_os.Console.{Console, console_init, settle, console_print}
use red_panda_os.Console.Grid.{InGrid, console_print-InGrid, console_init-InGrid}

-- Three columns and two rows.
abbrev screen : Fb
screen = record {
  lfb = λ o. 0;
  backbuf = none;
  mode = record { width = 24; height = 32; pitch = 96; bypp = 4 };
  cur_sprite = none;
  cur_w = 0;
  cur_h = 0;
  cur_hx = pos 0;
  cur_hy = pos 0;
  cur_x = pos 0;
  cur_y = pos 0;
  cur_visible = false;
}

abbrev off : Console
off = record { cols = 0; rows = 0; col = 0; row = 0; fg = 0; bg = 0 }

abbrev ready : Console × Fb
ready = console_init (off, screen)

-- A character that the grid has no room for scrolls it.
wrapped :
    (settle (record off { cols = 3; rows = 2; col = 3; row = 1 }, screen)).0
    ≡ record off { cols = 3; rows = 2; col = 0; row = 1 }
unfolding settle
wrapped = refl

ready-InGrid : InGrid ready.0
ready-InGrid = console_init-InGrid off screen (omega arith) (omega arith)

console_print-InGrid_example :
    InGrid (console_print (λ c gy. 0) (72 ∷ 105 ∷ 10 ∷ []) (ready.0, ready.1)).0
console_print-InGrid_example =
    console_print-InGrid (λ c gy. 0) (72 ∷ 105 ∷ 10 ∷ []) ready.0 ready.1 ready-InGrid
