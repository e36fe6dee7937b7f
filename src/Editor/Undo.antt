-- ===== src/Editor/Undo.antt =====
-- kernel/gui.c, the text editor: undo takes an edit back, and redo takes the undo back.
use red_panda_os.Prelude.{
  ℕ, ◌<◌, max, ◌≡◌, ◌≢◌, refl, sym, subst, inl, inr, true, false, List, [], ◌∷◌, arith, leb, ◌==◌,
  if◌then◌else◌, Bool-cases, length,
}
use red_panda_os.Editor.{
  Snap, Editor, World, ed_max_len, ed_max_undo, ed_sync_prefcol, forget_oldest, ed_push_state,
  ed_restore, has_any, coalesces, ed_before_edit, undo_to, redo_to, ed_undo, ed_redo, ed_grow,
  put_char, ed_insert, take_char, ed_delete_at,
}

-- The same text with the cursor at the same place.
pub record SameText (d e : Editor) : Type 0 where
  pub same_buf : d.buf ≡ e.buf
  pub same_cursor : d.cursor ≡ e.cursor

-- The newest snapshot holds the text and the cursor of `e`.
record Saved (e : Editor) (st : List Snap) : Type 0 where
  snap : Snap
  rest : List Snap
  top : st ≡ snap ∷ rest
  same_buf : snap.buf ≡ e.buf
  same_cursor : snap.cursor ≡ e.cursor

one_at_least : (n : ℕ) → (if n == 0 then 1 else n) ≡ max 1 n
one_at_least n = ground arith

module _ {S : Type 0} (w : World S) where
  -- There is memory for a copy of the text, or for one byte when it is empty.
  abbrev pub HasRoom : Editor → S → Type 0
  HasRoom e s = (w.kmalloc (max 1 (length e.buf)) s).0 ≢ 0

  ed_push_state-Saved :
      (st : List Snap) (e : Editor) (s : S) → HasRoom e s → Saved e (ed_push_state w st e s).0
  unfolding ed_push_state
  ed_push_state-Saved st e s room =
      let n = if length e.buf == 0 then 1 else length e.buf in
      let some_left : ((w.kmalloc n s).0 == 0) ≡ false =
        rw (one_at_least (length e.buf)) (ground (arith, room)) in
      let got = w.kmalloc n s in
      let snap : Snap = record { ptr = got.0; buf = e.buf; cursor = e.cursor } in
      elim (Bool-cases (length st == ed_max_undo)) [
        | inl at_limit ↦
            rw (some_left, at_limit)
              (record {
                snap = snap;
                rest = (forget_oldest w st got.1).0;
                top = refl;
                same_buf = refl;
                same_cursor = refl;
              })
        | inr below ↦
            rw (some_left, below)
              (record { snap = snap; rest = st; top = refl; same_buf = refl; same_cursor = refl })
      ]

  undo_to-Saved :
      (e d : Editor) (s : S) (st : List Snap) → Saved e st → SameText (undo_to w st (d, s)).0 e
  unfolding undo_to ed_restore ed_sync_prefcol
  undo_to-Saved e d s st v =
      rw (v.top, undo_to) (record { same_buf = v.same_buf; same_cursor = v.same_cursor })

  redo_to-Saved :
      (e d : Editor) (s : S) (st : List Snap) → Saved e st → SameText (redo_to w st (d, s)).0 e
  unfolding redo_to ed_restore ed_sync_prefcol
  redo_to-Saved e d s st v =
      rw (v.top, redo_to) (record { same_buf = v.same_buf; same_cursor = v.same_cursor })

  before_edit-Saved :
      (kind : ℕ) (e : Editor) (s : S)
      → HasRoom e s
      → coalesces kind (w.timer_ticks s) e ≡ false
      → Saved e (ed_before_edit w kind (e, s)).0.undo
  unfolding ed_before_edit
  before_edit-Saved kind e s room new = rw new (ed_push_state-Saved e.undo e s room)

  ed_grow-same_undo : (e : Editor) (s : S) → (ed_grow w (e, s)).1.undo ≡ e.undo
  unfolding ed_grow
  ed_grow-same_undo e s = ground arith

  put_char-same_undo : (c : ℕ) (e : Editor) → (put_char c e).undo ≡ e.undo
  unfolding put_char ed_sync_prefcol
  put_char-same_undo c e = refl

  ed_insert-Saved :
      (c : ℕ) (e : Editor) (s : S)
      → HasRoom e s
      → length e.buf < ed_max_len
      → coalesces 1 (w.timer_ticks s) e ≡ false
      → Saved e (ed_insert w c (e, s)).0.undo
  unfolding ed_insert put_char ed_sync_prefcol
  ed_insert-Saved c e s room fits new =
      let b = ed_before_edit w 1 (e, s) in
      let saved =
        subst (Saved e) (sym (ed_grow-same_undo b.0 b.1)) (before_edit-Saved 1 e s room new) in
      let small : leb ed_max_len (length e.buf) ≡ false = ground (arith, fits) in
      elim (Bool-cases (ed_grow w b).0) [
        | inl ok ↦ rw (small, ok) saved
        | inr failed ↦ rw (small, failed) saved
      ]

  -- Where `kmalloc` has memory for a copy of the text (for one byte when the text is empty), and
  -- there is room in the text, undo after a typed character gives back the text and the cursor from
  -- before it, where the character starts a new undo step.
  pub ed_undo-ed_insert :
      (c : ℕ) (e : Editor) (s : S)
      → HasRoom e s
      → length e.buf < ed_max_len
      → coalesces 1 (w.timer_ticks s) e ≡ false
      → SameText (ed_undo w (ed_insert w c (e, s))).0 e
  unfolding ed_undo
  ed_undo-ed_insert c e s room fits new =
      let d = ed_insert w c (e, s) in
      undo_to-Saved e d.0 d.1 d.0.undo (ed_insert-Saved c e s room fits new)

  ed_delete_at-Saved :
      (at : ℕ) (e : Editor) (s : S)
      → HasRoom e s
      → at < length e.buf
      → coalesces 2 (w.timer_ticks s) e ≡ false
      → Saved e (ed_delete_at w at (e, s)).0.undo
  unfolding ed_delete_at take_char ed_sync_prefcol
  ed_delete_at-Saved at e s room inside new =
      let small : leb (length e.buf) at ≡ false = ground (arith, inside) in
      rw small (before_edit-Saved 2 e s room new)

  -- Where `kmalloc` has memory for a copy of the text, undo after a byte was deleted gives back the text and the cursor from
  -- before it, where the deletion starts a new undo step.
  pub ed_undo-ed_delete_at :
      (at : ℕ) (e : Editor) (s : S)
      → HasRoom e s
      → at < length e.buf
      → coalesces 2 (w.timer_ticks s) e ≡ false
      → SameText (ed_undo w (ed_delete_at w at (e, s))).0 e
  unfolding ed_undo
  ed_undo-ed_delete_at at e s room inside new =
      let d = ed_delete_at w at (e, s) in
      undo_to-Saved e d.0 d.1 d.0.undo (ed_delete_at-Saved at e s room inside new)

  undo_to-Redoable :
      (st : List Snap) (e : Editor) (s : S)
      → HasRoom e s
      → has_any st ≡ true
      → Saved e (undo_to w st (e, s)).0.redo
  unfolding undo_to ed_restore ed_sync_prefcol has_any
  undo_to-Redoable [] e s room some_left = absurd (cc)
  undo_to-Redoable (snap ∷ rest) e s room some_left = ed_push_state-Saved e.redo e s room

  -- Where `kmalloc` has memory for a copy of the text (for one byte when the text is empty), and
  -- there is a step to undo, redo after undo gives back the text and the cursor from before the undo.
  pub ed_redo-ed_undo :
      (e : Editor) (s : S)
      → HasRoom e s
      → has_any e.undo ≡ true
      → SameText (ed_redo w (ed_undo w (e, s))).0 e
  unfolding ed_undo ed_redo
  ed_redo-ed_undo e s room some_left =
      let d = undo_to w e.undo (e, s) in
      redo_to-Saved e d.0 d.1 d.0.redo (undo_to-Redoable e.undo e s room some_left)
