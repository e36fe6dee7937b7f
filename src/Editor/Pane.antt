-- ===== src/Editor/Pane.antt =====
-- kernel/gui.c, the window of the text editor: the moves of the cursor by lines, the view that follows
-- it, the lines that are drawn, and what a key and a click do.
use red_panda_os.Prelude.{
  ℕ, zero, suc, ◌+◌, ◌-◌, ◌*◌, ◌/◌, min, Bool, true, false, not, ◌&&◌, List, [], ◌∷◌, ltb, leb,
  ◌==◌, if◌then◌else◌, length, take, drop,
}
use red_panda_os.Prelude.Int.{ℤ, pos, negsuc, ◌+ℤ◌, ◌-ℤ◌, pos_part, ltb_ℤ}
use red_panda_os.Editor.{
  Editor, World, ed_line_h, ed_pad, ed_status_h, title_h, ed_linecol, ed_line_start, ed_line_len,
  ed_line_count, ed_sync_prefcol, ed_clear_stack, ed_undo, ed_redo, ed_insert, ed_delete_at,
}

-- The column that an up or down move goes to in the line from `start` on.
unfoldable pub ed_go : ℕ → Editor → Editor
unfolding ed_line_start ed_line_len
ed_go target e =
    let start = ed_line_start e.buf target in
    record e { cursor = start + min e.prefcol (ed_line_len e.buf start) }

-- `down` is the direction 1, and its opposite -1.
unfoldable pub ed_vertical : Bool → Editor → Editor
unfolding ed_go ed_line_count ed_linecol
ed_vertical down e =
    let line = (ed_linecol e.buf e.cursor).0 in
    if down
    then if leb (ed_line_count e.buf) (suc line) then e else ed_go (suc line) e
    else if line == 0
    then e
    else ed_go (line - 1) e

-- A window; one with an editor is 560 by 420, so that no height or width below is negative.
pub record Pane : Type 0 where
  pub x : ℤ
  pub y : ℤ
  pub w : ℕ
  pub h : ℕ

-- The first position of the text, and the number of rows and columns.
unfoldable pub ed_metrics : Pane → ℤ × ℤ × ℕ × ℕ
ed_metrics p = (
  p.x +ℤ pos ed_pad,
  p.y +ℤ pos title_h +ℤ pos 10,
  (p.h - title_h - 10 - ed_status_h) / ed_line_h,
  (p.w - 2 * ed_pad) / 8,
)

-- The scroll position in one direction, of `n` lines or columns that are shown.
unfoldable pub scroll_to : ℕ → ℕ → ℕ → ℕ
scroll_to n at scroll =
    let up = if ltb at scroll then at else scroll in if leb (up + n) at then at + 1 - n else up

unfoldable pub ed_scroll_into_view : ℕ → ℕ → Editor → Editor
unfolding scroll_to ed_linecol
ed_scroll_into_view rows cols e =
    let (line, col) = ed_linecol e.buf e.cursor in
    record e {
      scroll_line = scroll_to rows line e.scroll_line;
      scroll_col = scroll_to cols col e.scroll_col;
    }

-- The texts that `editor_draw` shows, with `n` rows left, from byte `i` on.
unfoldable pub draw_lines : ℕ → ℕ → Editor → ℕ → List (List ℕ)
unfolding ed_line_len
draw_lines zero cols e i = []
draw_lines (suc n) cols e i =
    let ll = ed_line_len e.buf i in
    let shown = take (min cols (ll - e.scroll_col)) (drop (i + e.scroll_col) e.buf) in
    let rest = draw_lines n cols e (i + ll + 1) in if leb i (length e.buf) then shown ∷ rest else []

unfoldable pub editor_draw : Pane → Editor → List (List ℕ) × Editor
unfolding draw_lines ed_scroll_into_view ed_metrics ed_line_start
editor_draw p e =
    let (_, _, rows, cols) = ed_metrics p in
    let e' = ed_scroll_into_view rows cols e in
    (draw_lines rows (min cols 95) e' (ed_line_start e'.buf e'.scroll_line), e')

module _ {S : Type 0} (w : World S) where
  unfoldable pub editor_save : Editor × S → Editor × S
  editor_save (e, s) =
      let (ok, s') = w.fs_write e.filename e.buf s in
      if ok then (record e { modified = false }, w.refresh_icons s') else (e, s')

  -- The effect of a key, before the view follows the cursor.
  unfoldable pub key_effect : ℕ → Editor × S → Editor × S
  unfolding ed_insert ed_delete_at ed_vertical ed_undo ed_redo editor_save ed_line_len ed_line_start
      ed_linecol
  key_effect ch (e, s) =
      let line = (ed_linecol e.buf e.cursor).0 in
      let start = ed_line_start e.buf line in
      if ch == 0x80
      then (ed_sync_prefcol (record e { cursor = e.cursor - 1 }), s)
      else if ch == 0x81
      then (
        ed_sync_prefcol
            (record e { cursor = if ltb e.cursor (length e.buf) then suc e.cursor else e.cursor }),
        s,
      )
      else if ch == 0x82
      then (ed_vertical false e, s)
      else if ch == 0x83
      then (ed_vertical true e, s)
      else if ch == 0x84
      then (ed_sync_prefcol (record e { cursor = start }), s)
      else if ch == 0x85
      then (ed_sync_prefcol (record e { cursor = start + ed_line_len e.buf start }), s)
      else if ch == 0x86
      then ed_delete_at w e.cursor (e, s)
      else if ch == 8
      then if e.cursor == 0 then (e, s) else ed_delete_at w (e.cursor - 1) (e, s)
      else if ch == 10
      then ed_insert w 10 (e, s)
      else if ch == 9
      then ed_insert w 32 (ed_insert w 32 (ed_insert w 32 (ed_insert w 32 (e, s))))
      else if ch == 0x13
      then editor_save (e, s)
      else if ch == 0x1A
      then ed_undo w (e, s)
      else if ch == 0x19
      then ed_redo w (e, s)
      else if leb 32 ch && ltb ch 127
      then ed_insert w ch (e, s)
      else (e, s)

  unfoldable pub editor_key : Pane → ℕ → Editor × S → Editor × S
  unfolding key_effect ed_scroll_into_view ed_metrics
  editor_key p ch es =
      let (_, _, rows, cols) = ed_metrics p in
      let (e, s) = key_effect ch es in (ed_scroll_into_view rows cols e, s)

  -- Both stacks and the buffer are freed, and then the editor at `self`.
  unfoldable pub editor_close : ℕ → Editor × S → S
  unfolding ed_clear_stack
  editor_close self (e, s) =
      w.kfree self (w.kfree e.ptr (ed_clear_stack w e.redo (ed_clear_stack w e.undo s)))

-- Division of an `int`, towards zero.
unfoldable pub div_int : ℤ → ℕ → ℤ
div_int (pos n) k = pos (n / k)
div_int (negsuc n) k = pos 0 -ℤ pos (suc n / k)

unfoldable pub editor_click : Pane → ℤ → ℤ → Editor → Editor
unfolding ed_metrics ed_line_count ed_line_start ed_line_len div_int
editor_click p mx my e =
    let (tx, ty, rows, cols) = ed_metrics p in
    let r = pos_part (div_int (my -ℤ ty) ed_line_h) in
    let target = min (e.scroll_line + r) (ed_line_count e.buf - 1) in
    let start = ed_line_start e.buf target in
    let c = pos_part (div_int (mx -ℤ tx +ℤ pos 4) 8 +ℤ pos e.scroll_col) in
    let c' = min c (ed_line_len e.buf start) in
    if not (ltb_ℤ my (p.y +ℤ pos p.h -ℤ pos ed_status_h))
    then e
    else record e { cursor = start + c'; prefcol = c' }
