-- ===== src/Editor/Tests.antt =====
-- Runs of kernel/gui.c's text editor, and its theorems there.
use red_panda_os.Prelude.{
  ℕ, suc, ◌+◌, ◌≤◌, min, ◌≡◌, refl, true, false, List, [], ◌∷◌, arith, length,
}
use red_panda_os.Editor.{
  Editor, World, ed_linecol, linecol_from, ed_line_start, line_start_from, ed_line_len,
  line_len_from, ed_line_count, line_count_from, ed_sync_prefcol, ed_clear_stack, ed_push_state,
  has_any, coalesces, ed_before_edit, ed_undo, ed_redo, ed_grow, put_char, ed_insert,
}
use red_panda_os.Editor.Pane.{Pane, ed_metrics, editor_draw, editor_key}
use red_panda_os.Prelude.Int.{pos}
use red_panda_os.Editor.Lines.{ed_linecol-line}
use red_panda_os.Editor.Inv.{IsValid}
use red_panda_os.Editor.Keys.{editor_key-IsValid}
use red_panda_os.Editor.View.{InView, editor_key-InView, AllWithin, editor_draw-fits}
use red_panda_os.Editor.Undo.{HasRoom, SameText, ed_undo-ed_insert, ed_redo-ed_undo}

-- A machine with memory without end, and a clock that moves with every allocation.
abbrev machine : World ℕ
machine = record {
  kmalloc = λ n s. (suc s, suc s);
  kfree = λ p s. s;
  timer_ticks = λ s. s;
  fs_write = λ name bytes s. (true, s);
  refresh_icons = λ s. s;
}

plenty : (e : Editor) (s : ℕ) → HasRoom machine e s
plenty e s = omega arith

abbrev pane : Pane
pane = record { x = pos 100; y = pos 60; w = 560; h = 420 }

-- "ab", a newline and "c", with the cursor after the newline.
abbrev text : List ℕ
text = 97 ∷ 98 ∷ 10 ∷ 99 ∷ []

abbrev opened : Editor
opened = record {
  ptr = 7;
  buf = text;
  cap = 4;
  cursor = 3;
  scroll_line = 0;
  scroll_col = 0;
  prefcol = 0;
  modified = false;
  filename = 110 ∷ [];
  undo = [];
  redo = [];
  last_edit_tick = 0;
  last_edit_kind = 0;
}

-- `opened` after a letter was typed.
abbrev typed : Editor
typed = (ed_insert machine 120 (opened, 200)).0

opened-IsValid : IsValid opened
opened-IsValid = record {
  cursor_in = omega arith;
  within = omega arith;
  undo_ok = record { bounded = omega arith; fit = tt };
  redo_ok = record { bounded = omega arith; fit = tt };
}

typed-buf : typed.buf ≡ 97 ∷ 98 ∷ 10 ∷ 120 ∷ 99 ∷ []
unfolding ed_insert ed_before_edit ed_grow put_char ed_sync_prefcol ed_linecol linecol_from
    coalesces ed_push_state ed_clear_stack
typed-buf = refl

new_step : coalesces 1 (machine.timer_ticks 200) opened ≡ false
unfolding coalesces
new_step = refl

some_left : has_any typed.undo ≡ true
unfolding ed_insert ed_before_edit ed_grow put_char ed_sync_prefcol coalesces ed_push_state has_any
    ed_clear_stack
some_left = refl

line_count : ed_line_count text ≡ 2
unfolding ed_line_count line_count_from
line_count = refl

line_len : ed_line_len text (ed_line_start text 1) ≡ 1
unfolding ed_line_len line_len_from ed_line_start line_start_from
line_len = refl

ed_linecol-line_example : ed_linecol text (ed_line_start text 1 + 1) ≡ (1, 1)
ed_linecol-line_example =
    ed_linecol-line text 1 1 (omega (arith, line_count)) (omega (arith, line_len))

editor_key-IsValid_example : IsValid (editor_key machine pane 120 (opened, 200)).0
editor_key-IsValid_example = editor_key-IsValid machine pane 120 opened 200 opened-IsValid

ed_undo-ed_insert_example :
    SameText (ed_undo machine (ed_insert machine 120 (opened, 200))).0 opened
ed_undo-ed_insert_example =
    ed_undo-ed_insert machine 120 opened 200 (plenty opened 200) (omega arith) new_step

ed_redo-ed_undo_example : SameText (ed_redo machine (ed_undo machine (typed, 300))).0 typed
ed_redo-ed_undo_example = ed_redo-ed_undo machine typed 300 (plenty typed 300) some_left

rows : 1 ≤ (ed_metrics pane).2
unfolding ed_metrics
rows = omega arith

columns : 1 ≤ (ed_metrics pane).3
unfolding ed_metrics
columns = omega arith

editor_key-InView_example : InView pane (editor_key machine pane 120 (opened, 200)).0
editor_key-InView_example = editor_key-InView machine pane 120 opened 200 rows columns

editor_draw-fits_example :
    (length (editor_draw pane opened).0 ≤ (ed_metrics pane).2)
    × AllWithin (min (ed_metrics pane).3 95) (editor_draw pane opened).0
editor_draw-fits_example = editor_draw-fits pane opened
