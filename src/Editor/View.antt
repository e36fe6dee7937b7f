-- ===== src/Editor/View.antt =====
-- kernel/gui.c, the text editor: what is shown of the text.
use red_panda_os.Prelude.{
  ℕ, zero, suc, ◌+◌, ◌-◌, ◌≤◌, ◌<◌, min, inl, inr, List, [], ◌∷◌, arith, leb, Bool-cases, length,
  take, drop, length-take,
}
use red_panda_os.Editor.{Editor, World, ed_linecol, ed_line_start, ed_line_len}
use red_panda_os.Editor.Pane.{
  Pane, ed_metrics, scroll_to, ed_scroll_into_view, draw_lines, editor_draw, key_effect, editor_key,
}

-- The cursor's line and column are among the rows and columns that are shown.
pub record InView (p : Pane) (e : Editor) : Type 0 where
  pub line_from : e.scroll_line ≤ (ed_linecol e.buf e.cursor).0
  pub line_to : (ed_linecol e.buf e.cursor).0 < e.scroll_line + (ed_metrics p).2
  pub col_from : e.scroll_col ≤ (ed_linecol e.buf e.cursor).1
  pub col_to : (ed_linecol e.buf e.cursor).1 < e.scroll_col + (ed_metrics p).3

scroll_to-shows :
    (n at scroll : ℕ) → 1 ≤ n → (scroll_to n at scroll ≤ at) × (at < scroll_to n at scroll + n)
unfolding scroll_to
scroll_to-shows n at scroll h = (ground (arith, h), ground (arith, h))

-- After every key, in a window that has a row and a column to show, the cursor is in view.
pub editor_key-InView :
    {S : Type 0} (w : World S) (p : Pane) (ch : ℕ) (e : Editor) (s : S)
    → 1 ≤ (ed_metrics p).2
    → 1 ≤ (ed_metrics p).3
    → InView p (editor_key w p ch (e, s)).0
unfolding editor_key ed_scroll_into_view
editor_key-InView w p ch e s rows cols =
    let k = (key_effect w ch (e, s)).0 in
    let at = ed_linecol k.buf k.cursor in
    let down = scroll_to-shows (ed_metrics p).2 at.0 k.scroll_line rows in
    let across = scroll_to-shows (ed_metrics p).3 at.1 k.scroll_col cols in
    record { line_from = down.0; line_to = down.1; col_from = across.0; col_to = across.1 }

-- Every text of the list has at most `n` bytes.
abbrev pub AllWithin : ℕ → List (List ℕ) → Type 0
AllWithin n [] = Unit {0}
AllWithin n (x ∷ xs) = (length x ≤ n) × AllWithin n xs

draw_lines-AllWithin : (n cols : ℕ) (e : Editor) (i : ℕ) → AllWithin cols (draw_lines n cols e i)
unfolding draw_lines
draw_lines-AllWithin zero cols e i = tt
draw_lines-AllWithin (suc n) cols e i =
    let ll = ed_line_len e.buf i in
    let rest = draw_lines-AllWithin n cols e (i + ll + 1) in
    let text = drop (i + e.scroll_col) e.buf in
    let fits : length (take (min cols (ll - e.scroll_col)) text) ≤ cols =
      omega (arith, length-take (min cols (ll - e.scroll_col)) text) in
    elim (Bool-cases (leb i (length e.buf))) [
      | inl inside ↦ rw inside (fits, rest)
      | inr past ↦ rw past tt
    ]

length-draw_lines : (n cols : ℕ) (e : Editor) (i : ℕ) → length (draw_lines n cols e i) ≤ n
unfolding draw_lines
length-draw_lines zero cols e i = omega arith
length-draw_lines (suc n) cols e i =
    let rest = length-draw_lines n cols e (i + ed_line_len e.buf i + 1) in
    elim (Bool-cases (leb i (length e.buf))) [
      | inl inside ↦ rw inside (omega (arith, rest))
      | inr past ↦ rw past (omega arith)
    ]

-- Drawing shows at most as many lines as the window has rows, each of at most 95 bytes and of at
-- most as many as the window has columns, so that each fits the 96 bytes of `line` with its end.
pub editor_draw-fits :
    (p : Pane) (e : Editor)
    → (length (editor_draw p e).0 ≤ (ed_metrics p).2)
      × AllWithin (min (ed_metrics p).3 95) (editor_draw p e).0
unfolding editor_draw
editor_draw-fits p e =
    let cols = (ed_metrics p).3 in
    let e' = ed_scroll_into_view (ed_metrics p).2 cols e in
    let start = ed_line_start e'.buf e'.scroll_line in
    (
      length-draw_lines (ed_metrics p).2 (min cols 95) e' start,
      draw_lines-AllWithin (ed_metrics p).2 (min cols 95) e' start,
    )
