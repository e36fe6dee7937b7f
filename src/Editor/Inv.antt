-- ===== src/Editor/Inv.antt =====
-- kernel/gui.c, the text editor: what holds of an editor whatever is typed and clicked.
use red_panda_os.Prelude.{
  ℕ, suc, ◌+◌, ◌*◌, ◌≤◌, ◌<◌, ◌≡◌, refl, ap, inl, inr, true, List, [], ◌∷◌, arith, ltb, leb, ◌==◌,
  if◌then◌else◌, Bool-cases, length, take, drop, length-append, length-take, length-drop,
}
use red_panda_os.Editor.{
  Snap, Editor, World, ed_max_len, ed_max_undo, ed_sync_prefcol, forget_oldest, ed_push_state,
  ed_restore, coalesces, ed_before_edit, undo_to, redo_to, ed_grow, put_char, ed_insert, take_char,
  ed_delete_at,
}

abbrev pub AllFit : List Snap → Type 0
AllFit [] = Unit {0}
AllFit (x ∷ xs) = (x.cursor ≤ length x.buf) × AllFit xs

-- A stack within its array, of snapshots with the cursor inside their text.
pub record IsStack (st : List Snap) : Type 0 where
  pub bounded : length st ≤ ed_max_undo
  pub fit : AllFit st

-- The cursor is inside the text, the text inside its buffer, and the stacks inside their arrays.
pub record IsValid (e : Editor) : Type 0 where
  pub cursor_in : e.cursor ≤ length e.buf
  pub within : length e.buf ≤ e.cap
  pub undo_ok : IsStack e.undo
  pub redo_ok : IsStack e.redo

empty-IsStack : IsStack []
empty-IsStack = record { bounded = omega arith; fit = tt }

tail-IsStack : (x : Snap) (xs : List Snap) → IsStack (x ∷ xs) → IsStack xs
tail-IsStack x xs h = record { bounded = omega (arith, h.bounded); fit = h.fit.1 }

module _ {S : Type 0} (w : World S) where
  length-forget_oldest :
      (x : Snap) (st : List Snap) (s : S) → length (forget_oldest w (x ∷ st) s).0 ≡ length st
  unfolding forget_oldest
  length-forget_oldest x [] s = refl
  length-forget_oldest x (y ∷ st) s = ap suc (length-forget_oldest y st s)

  forget_oldest-AllFit : (st : List Snap) (s : S) → AllFit st → AllFit (forget_oldest w st s).0
  unfolding forget_oldest
  forget_oldest-AllFit [] s h = tt
  forget_oldest-AllFit (x ∷ []) s h = tt
  forget_oldest-AllFit (x ∷ y ∷ st) s h = (h.0, forget_oldest-AllFit (y ∷ st) s h.1)

  full-IsStack :
      (snap : Snap) (st : List Snap) (s : S)
      → snap.cursor ≤ length snap.buf
      → length st ≡ 24
      → AllFit st
      → IsStack (snap ∷ (forget_oldest w st s).0)
  full-IsStack snap [] s c n h = absurd (omega arith)
  full-IsStack snap (x ∷ st) s c n h = record {
    bounded = omega (arith, n, length-forget_oldest x st s);
    fit = (c, forget_oldest-AllFit (x ∷ st) s h);
  }

  ed_push_state-IsStack :
      (st : List Snap) (e : Editor) (s : S)
      → e.cursor ≤ length e.buf
      → IsStack st
      → IsStack (ed_push_state w st e s).0
  unfolding ed_push_state
  ed_push_state-IsStack st e s c h =
      let got = w.kmalloc (if length e.buf == 0 then 1 else length e.buf) s in
      let snap : Snap = record { ptr = got.0; buf = e.buf; cursor = e.cursor } in
      elim (Bool-cases (got.0 == 0)) [
        | inl failed ↦ rw failed h
        | inr ok ↦ elim (Bool-cases (length st == ed_max_undo)) [
          | inl full ↦ rw (ok, full) (full-IsStack snap st got.1 c (ground arith) h.fit)
          | inr room ↦
              let less : length st < 24 = ground (arith, h.bounded) in
              rw (ok, room) (record { bounded = omega arith; fit = (c, h.fit) })
        ]
      ]

  ed_before_edit-IsValid :
      (kind : ℕ) (e : Editor) (s : S) → IsValid e → IsValid (ed_before_edit w kind (e, s)).0
  unfolding ed_before_edit
  ed_before_edit-IsValid kind e s v =
      let now = w.timer_ticks s in
      elim (Bool-cases (coalesces kind now e)) [
        | inl same ↦ rw same (record {
          cursor_in = v.cursor_in;
          within = v.within;
          undo_ok = v.undo_ok;
          redo_ok = empty-IsStack;
        })
        | inr new ↦ rw new (record {
          cursor_in = v.cursor_in;
          within = v.within;
          undo_ok = ed_push_state-IsStack e.undo e s v.cursor_in v.undo_ok;
          redo_ok = empty-IsStack;
        })
      ]

  -- A buffer that has grown has room for one more byte.
  ed_grow-IsValid :
      (e : Editor) (s : S)
      → IsValid e
      → IsValid (ed_grow w (e, s)).1
        × ((ed_grow w (e, s)).0 ≡ true
            → length (ed_grow w (e, s)).1.buf + 1 ≤ (ed_grow w (e, s)).1.cap)
  unfolding ed_grow
  ed_grow-IsValid e s v =
      let newcap = if ltb e.cap 256 then 256 else e.cap * 2 in
      let got = w.kmalloc newcap s in
      let enough : length e.buf + 1 ≤ newcap = ground (arith, v.within) in
      elim (Bool-cases (leb (length e.buf + 1) e.cap)) [
        | inl room ↦ rw room (v, λ _. ground arith)
        | inr full ↦ elim (Bool-cases (got.0 == 0)) [
          | inl failed ↦ rw (full, failed) (v, λ bad. absurd (cc))
          | inr ok ↦
              rw (full, ok)
                (
                  record {
                    cursor_in = v.cursor_in;
                    within = omega (arith, enough);
                    undo_ok = v.undo_ok;
                    redo_ok = v.redo_ok;
                  },
                  λ _. enough,
                )
        ]
      ]

  put_char-IsValid :
      (c : ℕ) (e : Editor) → IsValid e → length e.buf + 1 ≤ e.cap → IsValid (put_char c e)
  unfolding put_char ed_sync_prefcol
  put_char-IsValid c e v room =
      let n = length-append (take e.cursor e.buf) (c ∷ drop e.cursor e.buf) in
      let t = length-take e.cursor e.buf in
      let d = length-drop e.cursor e.buf in
      record {
        cursor_in = omega (arith, n, t, d, v.cursor_in);
        within = omega (arith, n, t, d, v.cursor_in, room);
        undo_ok = v.undo_ok;
        redo_ok = v.redo_ok;
      }

  take_char-IsValid :
      (at : ℕ) (e : Editor) → IsValid e → at < length e.buf → IsValid (take_char at e)
  unfolding take_char ed_sync_prefcol
  take_char-IsValid at e v lt =
      let n = length-append (take at e.buf) (drop (suc at) e.buf) in
      let t = length-take at e.buf in
      let d = length-drop (suc at) e.buf in
      record {
        cursor_in = omega (arith, n, t, d, lt);
        within = omega (arith, n, t, d, lt, v.within);
        undo_ok = v.undo_ok;
        redo_ok = v.redo_ok;
      }

  ed_before_edit-same_buf :
      (kind : ℕ) (e : Editor) (s : S) → (ed_before_edit w kind (e, s)).0.buf ≡ e.buf
  unfolding ed_before_edit
  ed_before_edit-same_buf kind e s = refl

  pub ed_insert-IsValid :
      (c : ℕ) (e : Editor) (s : S) → IsValid e → IsValid (ed_insert w c (e, s)).0
  unfolding ed_insert
  ed_insert-IsValid c e s v =
      let b = ed_before_edit w 1 (e, s) in
      let g = ed_grow w b in
      let (valid, room) = ed_grow-IsValid b.0 b.1 (ed_before_edit-IsValid 1 e s v) in
      elim (Bool-cases (leb ed_max_len (length e.buf))) [
        | inl long ↦ rw long v
        | inr short ↦ elim (Bool-cases g.0) [
          | inl ok ↦ rw (short, ok) (put_char-IsValid c g.1 valid (room ok))
          | inr no_room ↦ rw (short, no_room) valid
        ]
      ]

  pub ed_delete_at-IsValid :
      (at : ℕ) (e : Editor) (s : S) → IsValid e → IsValid (ed_delete_at w at (e, s)).0
  unfolding ed_delete_at
  ed_delete_at-IsValid at e s v = elim (Bool-cases (leb (length e.buf) at)) [
    | inl out ↦ rw out v
    | inr inside ↦
        let lt : at < length e.buf = ground arith in
        rw inside (
          take_char-IsValid at (ed_before_edit w 2 (e, s)).0 (ed_before_edit-IsValid 2 e s v)
            (rw (ed_before_edit-same_buf 2 e s) lt))
  ]

  ed_restore-IsValid :
      (snap : Snap) (e : Editor) (s : S)
      → snap.cursor ≤ length snap.buf
      → IsStack e.undo
      → IsStack e.redo
      → IsValid (ed_restore w snap (e, s)).0
  unfolding ed_restore ed_sync_prefcol
  ed_restore-IsValid snap e s c u r = record {
    cursor_in = c;
    within = ground arith;
    undo_ok = u;
    redo_ok = r;
  }

  pub undo_to-IsValid :
      (st : List Snap) (e : Editor) (s : S)
      → IsStack st
      → IsValid e
      → IsValid (undo_to w st (e, s)).0
  unfolding undo_to
  undo_to-IsValid [] e s h v = v
  undo_to-IsValid (snap ∷ rest) e s h v =
      let pushed = ed_push_state w e.redo e s in
      ed_restore-IsValid snap (record e { undo = rest; redo = pushed.0 }) pushed.1 h.fit.0
        (tail-IsStack snap rest h) (ed_push_state-IsStack e.redo e s v.cursor_in v.redo_ok)

  pub redo_to-IsValid :
      (st : List Snap) (e : Editor) (s : S)
      → IsStack st
      → IsValid e
      → IsValid (redo_to w st (e, s)).0
  unfolding redo_to
  redo_to-IsValid [] e s h v = v
  redo_to-IsValid (snap ∷ rest) e s h v =
      let pushed = ed_push_state w e.undo e s in
      ed_restore-IsValid snap (record e { undo = pushed.0; redo = rest }) pushed.1 h.fit.0
        (ed_push_state-IsStack e.undo e s v.cursor_in v.undo_ok) (tail-IsStack snap rest h)
