-- ===== src/Editor/Keys.antt =====
-- kernel/gui.c, the text editor: every key keeps what holds of an editor.
use red_panda_os.Prelude.{
  ℕ, suc, ◌+◌, ◌-◌, ◌≤◌, min, Bool, true, false, ◌&&◌, arith, ltb, leb, ◌==◌, if◌then◌else◌, length,
}
use red_panda_os.Editor.{
  Editor, World, ed_linecol, ed_line_start, ed_line_len, ed_line_count, ed_sync_prefcol, ed_undo,
  ed_redo, ed_insert,
}
use red_panda_os.Editor.Pane.{
  Pane, ed_go, ed_vertical, ed_scroll_into_view, editor_save, key_effect, editor_key,
}
use red_panda_os.Editor.Lines.{line_start-le, line_end-le}
use red_panda_os.Editor.Inv.{
  IsValid, ed_insert-IsValid, ed_delete_at-IsValid, undo_to-IsValid, redo_to-IsValid,
}

module _ {S : Type 0} (w : World S) where
  moved-IsValid :
      (e : Editor) (to : ℕ) → to ≤ length e.buf → IsValid e → IsValid (record e { cursor = to })
  moved-IsValid e to h v = record {
    cursor_in = h;
    within = v.within;
    undo_ok = v.undo_ok;
    redo_ok = v.redo_ok;
  }

  synced-IsValid : (e : Editor) → IsValid e → IsValid (ed_sync_prefcol e)
  unfolding ed_sync_prefcol
  synced-IsValid e v = record {
    cursor_in = v.cursor_in;
    within = v.within;
    undo_ok = v.undo_ok;
    redo_ok = v.redo_ok;
  }

  ed_go-IsValid : (target : ℕ) (e : Editor) → IsValid e → IsValid (ed_go target e)
  unfolding ed_go
  ed_go-IsValid target e v =
      let start = ed_line_start e.buf target in
      moved-IsValid e (start + min e.prefcol (ed_line_len e.buf start))
        (omega (arith, line_end-le e.buf start (line_start-le e.buf target))) v

  either :
      (x y : Editor × S) (b : Bool) → IsValid x.0 → IsValid y.0 → IsValid (if b then x else y).0
  either x y true p q = p
  either x y false p q = q

  if_IsValid : {x y : Editor} (b : Bool) → IsValid x → IsValid y → IsValid (if b then x else y)
  if_IsValid true p q = p
  if_IsValid false p q = q

  ed_vertical-IsValid : (down : Bool) (e : Editor) → IsValid e → IsValid (ed_vertical down e)
  unfolding ed_vertical
  ed_vertical-IsValid true e v =
      let line = (ed_linecol e.buf e.cursor).0 in
      if_IsValid (leb (ed_line_count e.buf) (suc line)) v (ed_go-IsValid (suc line) e v)
  ed_vertical-IsValid false e v =
      let line = (ed_linecol e.buf e.cursor).0 in
      if_IsValid (line == 0) v (ed_go-IsValid (line - 1) e v)

  key_effect-IsValid :
      (ch : ℕ) (e : Editor) (s : S) → IsValid e → IsValid (key_effect w ch (e, s)).0
  unfolding key_effect editor_save ed_undo ed_redo
  key_effect-IsValid ch e s v =
      let line = (ed_linecol e.buf e.cursor).0 in
      let start = ed_line_start e.buf line in
      let inside = line_start-le e.buf line in
      let go = λ (to : ℕ) (h : to ≤ length e.buf).
        synced-IsValid (record e { cursor = to }) (moved-IsValid e to h v) in
      let one = ed_insert w 32 (e, s) in
      let two = ed_insert w 32 one in
      let three = ed_insert w 32 two in
      let one_ok = ed_insert-IsValid w 32 e s v in
      let two_ok = ed_insert-IsValid w 32 one.0 one.1 one_ok in
      let three_ok = ed_insert-IsValid w 32 two.0 two.1 two_ok in
      either _ _ (ch == 0x80) (go (e.cursor - 1) (omega (arith, v.cursor_in))) (
        either _ _ (ch == 0x81)
          (go (if ltb e.cursor (length e.buf) then suc e.cursor else e.cursor)
            (ground (arith, v.cursor_in)))
          (either _ _ (ch == 0x82) (ed_vertical-IsValid false e v) (
            either _ _ (ch == 0x83) (ed_vertical-IsValid true e v) (
              either _ _ (ch == 0x84) (go start inside) (
                either _ _ (ch == 0x85)
                  (go (start + ed_line_len e.buf start) (line_end-le e.buf start inside))
                  (either _ _ (ch == 0x86) (ed_delete_at-IsValid w e.cursor e s v) (
                    either _ _ (ch == 8)
                      (either _ _ (e.cursor == 0) v (ed_delete_at-IsValid w (e.cursor - 1) e s v))
                      (either _ _ (ch == 10) (ed_insert-IsValid w 10 e s v) (
                        either _ _ (ch == 9) (ed_insert-IsValid w 32 three.0 three.1 three_ok) (
                          either _ _ (ch == 0x13)
                            (either _ _ (w.fs_write e.filename e.buf s).0
                              (record {
                                cursor_in = v.cursor_in;
                                within = v.within;
                                undo_ok = v.undo_ok;
                                redo_ok = v.redo_ok;
                              })
                              v)
                            (either _ _ (ch == 0x1A) (undo_to-IsValid w e.undo e s v.undo_ok v) (
                              either _ _ (ch == 0x19) (redo_to-IsValid w e.redo e s v.redo_ok v) (
                                either _ _ (leb 32 ch && ltb ch 127) (ed_insert-IsValid w ch e s v)
                                  v)))))))))))))

  -- Every key keeps the cursor inside the text, the text inside its buffer, and both stacks of
  -- snapshots inside their arrays, whether or not there is memory.
  pub editor_key-IsValid :
      (p : Pane) (ch : ℕ) (e : Editor) (s : S) → IsValid e → IsValid (editor_key w p ch (e, s)).0
  unfolding editor_key ed_scroll_into_view
  editor_key-IsValid p ch e s v =
      let k = key_effect-IsValid ch e s v in
      record {
        cursor_in = k.cursor_in;
        within = k.within;
        undo_ok = k.undo_ok;
        redo_ok = k.redo_ok;
      }
