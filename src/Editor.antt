-- ===== src/Editor.antt =====
-- kernel/gui.c, the text editor: a flat buffer of bytes with a cursor, and two stacks of snapshots.
-- The buffer is the list of its first `len` bytes, `cap` is how many it has room for, and `ptr` its
-- address; the stacks have their newest snapshot first. The heap, the clock and the files are
-- behind the interface `World`.
pub mod Pane
pub mod Lines
pub mod Inv
pub mod Keys
pub mod Undo
pub mod View
mod Tests
use red_panda_os.Prelude.{
  ℕ, zero, suc, ◌+◌, ◌-◌, ◌*◌, ◌/◌, ◌%◌, ◌^◌, ◌≤◌, ◌<◌, min, max, bit_and, bit_or, bit_xor, ◌≡◌,
  refl, sym, ap, ap₂, ◌∙◌, fun_ext, subst, ◌≢◌, ◌↔◌, ◌⊎◌, inl, inr, Bool, true, false, not, ◌&&◌,
  ◌||◌, Option, none, some, List, [], ◌∷◌, ◌++◌, map, arith, ltb, leb, ◌==◌, if◌then◌else◌, ltb→lt,
  lt→ltb, leb→le, ==_iff, tests, Bool-cases, Option-cases, length, get_elem?, get_or, set, take,
  drop, replicate, length-append, length-set, length-take, length-drop, length-replicate,
  take-append-drop, get_elem?-set_self, get_elem?-set_ne, length-map, u8, u16, u32, u64, sub32, shr,
  shl,
}
use red_panda_os.Prelude.Int.{ℤ, pos, negsuc, ◌+ℤ◌, ◌-ℤ◌, pos_part, ltb_ℤ}

abbrev pub ed_line_h : ℕ
ed_line_h = 18

abbrev pub ed_pad : ℕ
ed_pad = 14

abbrev pub ed_status_h : ℕ
ed_status_h = 28

abbrev pub title_h : ℕ
title_h = 30

abbrev pub ed_max_undo : ℕ
ed_max_undo = 24

abbrev pub ed_max_len : ℕ
ed_max_len = 32 * 1024

-- `struct ed_snap`
pub record Snap : Type 0 where
  pub ptr : ℕ
  pub buf : List ℕ
  pub cursor : ℕ

-- `editor_t`
pub record Editor : Type 0 where
  pub ptr : ℕ
  pub buf : List ℕ
  pub cap : ℕ
  pub cursor : ℕ
  pub scroll_line : ℕ
  pub scroll_col : ℕ
  pub prefcol : ℕ
  pub modified : Bool
  pub filename : List ℕ
  pub undo : List Snap
  pub redo : List Snap
  pub last_edit_tick : ℕ
  pub last_edit_kind : ℕ

-- What the editor calls, on the state `S` of the rest; the null pointer is 0.
pub record World (S : Type 0) : Type 0 where
  pub kmalloc : ℕ → S → ℕ × S
  pub kfree : ℕ → S → S
  pub timer_ticks : S → ℕ
  pub fs_write : List ℕ → List ℕ → S → Bool × S
  pub refresh_icons : S → S

-- The loop with `n` bytes left to look at, at line `l` and column `c`.
unfoldable pub linecol_from : List ℕ → ℕ → ℕ → ℕ → ℕ × ℕ
linecol_from xs zero l c = (l, c)
linecol_from [] (suc n) l c = (l, c)
linecol_from (x ∷ xs) (suc n) l c =
    linecol_from xs n (if x == 10 then suc l else l) (if x == 10 then 0 else suc c)

unfoldable pub ed_linecol : List ℕ → ℕ → ℕ × ℕ
ed_linecol buf at = linecol_from buf at 0 0

unfoldable pub line_start_from : List ℕ → ℕ → ℕ → ℕ
line_start_from [] line i = i
line_start_from (x ∷ xs) zero i = i
line_start_from (x ∷ xs) (suc line) i =
    line_start_from xs (if x == 10 then line else suc line) (suc i)

unfoldable pub ed_line_start : List ℕ → ℕ → ℕ
ed_line_start buf line = line_start_from buf line 0

-- The bytes before the next newline.
unfoldable pub line_len_from : List ℕ → ℕ
line_len_from [] = 0
line_len_from (x ∷ xs) = if x == 10 then 0 else suc (line_len_from xs)

unfoldable pub ed_line_len : List ℕ → ℕ → ℕ
ed_line_len buf start = line_len_from (drop start buf)

unfoldable pub line_count_from : List ℕ → ℕ → ℕ
line_count_from [] n = n
line_count_from (x ∷ xs) n = line_count_from xs (if x == 10 then suc n else n)

unfoldable pub ed_line_count : List ℕ → ℕ
ed_line_count buf = line_count_from buf 1

unfoldable pub ed_sync_prefcol : Editor → Editor
ed_sync_prefcol e = record e { prefcol = (ed_linecol e.buf e.cursor).1 }

-- The `memmove` and the store.
unfoldable pub put_char : ℕ → Editor → Editor
put_char c e =
    ed_sync_prefcol
      (record e { buf = take e.cursor e.buf ++ (c ∷ drop e.cursor e.buf); cursor = suc e.cursor })

unfoldable pub take_char : ℕ → Editor → Editor
take_char at e =
    ed_sync_prefcol (record e { buf = take at e.buf ++ drop (suc at) e.buf; cursor = at })

-- `undo_n` is not 0.
unfoldable pub has_any : List Snap → Bool
has_any [] = false
has_any (_ ∷ _) = true

-- Whether an edit of this kind is one step with the edit before.
unfoldable pub coalesces : ℕ → ℕ → Editor → Bool
unfolding has_any
coalesces kind now e =
    (kind == e.last_edit_kind) && (has_any e.undo && ltb (sub32 now e.last_edit_tick) 150)

module _ {S : Type 0} (w : World S) where
  -- The snapshots are freed one by one.
  unfoldable pub ed_clear_stack : List Snap → S → S
  ed_clear_stack [] s = s
  ed_clear_stack (x ∷ xs) s = w.kfree x.ptr (ed_clear_stack xs s)

  -- The stack when it is full, without its oldest snapshot, which is freed.
  unfoldable pub forget_oldest : List Snap → S → List Snap × S
  forget_oldest [] s = ([], s)
  forget_oldest (x ∷ []) s = ([], w.kfree x.ptr s)
  forget_oldest (x ∷ y ∷ xs) s = let (rest, s') = forget_oldest (y ∷ xs) s in (x ∷ rest, s')

  unfoldable pub ed_push_state : List Snap → Editor → S → List Snap × S
  ed_push_state st e s =
      let (copy, s1) = w.kmalloc (if length e.buf == 0 then 1 else length e.buf) s in
      let snap : Snap = record { ptr = copy; buf = e.buf; cursor = e.cursor } in
      let (kept, s2) = forget_oldest st s1 in
      if copy == 0
      then (st, s1)
      else if length st == ed_max_undo
      then (snap ∷ kept, s2)
      else (snap ∷ st, s1)

  unfoldable pub ed_restore : Snap → Editor × S → Editor × S
  ed_restore snap (e, s) = (
    ed_sync_prefcol (record e {
      ptr = snap.ptr;
      buf = snap.buf;
      cap = if length snap.buf == 0 then 1 else length snap.buf;
      cursor = snap.cursor;
      modified = true;
      last_edit_kind = 0;
    }),
    w.kfree e.ptr s,
  )

  unfoldable pub ed_before_edit : ℕ → Editor × S → Editor × S
  ed_before_edit kind (e, s) =
      let now = w.timer_ticks s in
      let coalesce = coalesces kind now e in
      let (pushed, s1) = ed_push_state e.undo e s in
      let (stack, s2) : List Snap × S = if coalesce then (e.undo, s) else (pushed, s1) in
      (
        record e {
          undo = stack;
          redo = [];
          last_edit_tick = now;
          last_edit_kind = kind;
          modified = true;
        },
        ed_clear_stack e.redo s2,
      )

  -- `st` is the stack that the step is taken from.
  unfoldable pub undo_to : List Snap → Editor × S → Editor × S
  unfolding ed_push_state ed_restore
  undo_to [] es = es
  undo_to (snap ∷ rest) (e, s) =
      let (redo', s1) = ed_push_state e.redo e s in
      ed_restore snap (record e { undo = rest; redo = redo' }, s1)

  unfoldable pub ed_undo : Editor × S → Editor × S
  unfolding undo_to
  ed_undo (e, s) = undo_to e.undo (e, s)

  unfoldable pub redo_to : List Snap → Editor × S → Editor × S
  unfolding ed_push_state ed_restore
  redo_to [] es = es
  redo_to (snap ∷ rest) (e, s) =
      let (undo', s1) = ed_push_state e.undo e s in
      ed_restore snap (record e { undo = undo'; redo = rest }, s1)

  unfoldable pub ed_redo : Editor × S → Editor × S
  unfolding redo_to
  ed_redo (e, s) = redo_to e.redo (e, s)

  -- The growth of the buffer: `false` when there is no memory.
  unfoldable pub ed_grow : Editor × S → Bool × Editor × S
  ed_grow (e, s) =
      let newcap = if ltb e.cap 256 then 256 else e.cap * 2 in
      let (nb, s1) = w.kmalloc newcap s in
      if leb (length e.buf + 1) e.cap
      then (true, e, s)
      else if nb == 0
      then (false, e, s1)
      else (true, record e { ptr = nb; cap = newcap }, w.kfree e.ptr s1)

  unfoldable pub ed_insert : ℕ → Editor × S → Editor × S
  unfolding ed_before_edit ed_grow put_char
  ed_insert c (e, s) =
      let (ok, e', s') = ed_grow (ed_before_edit 1 (e, s)) in
      if leb ed_max_len (length e.buf) then (e, s) else if ok then (put_char c e', s') else (e', s')

  unfoldable pub ed_delete_at : ℕ → Editor × S → Editor × S
  unfolding ed_before_edit take_char
  ed_delete_at at (e, s) =
      let (e', s') = ed_before_edit 2 (e, s) in
      if leb (length e.buf) at then (e, s) else (take_char at e', s')
