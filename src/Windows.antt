-- ===== src/Windows.antt =====
-- kernel/gui.c, the windows: the table `wins`, their order `zorder` from the bottom to the top, and
-- the one that has the focus, where `none` is -1. A function pointer is a number and the null
-- pointer 0; what a window's `on_close` does to the rest of the machine is a parameter.
pub mod Press
pub mod Order
pub mod Inv
pub mod Hide
pub mod Found
pub mod Steps
pub mod Top
mod Tests
use red_panda_os.Prelude.{
  ℕ, zero, suc, ◌+◌, ◌-◌, ◌*◌, ◌/◌, ◌%◌, ◌^◌, ◌≤◌, ◌<◌, min, max, bit_and, bit_or, bit_xor, ◌≡◌,
  refl, sym, ap, ap₂, ◌∙◌, fun_ext, subst, ◌≢◌, ◌↔◌, ◌⊎◌, inl, inr, Bool, true, false, not, ◌&&◌,
  ◌||◌, Option, none, some, List, [], ◌∷◌, ◌++◌, map, arith, ltb, leb, ◌==◌, if◌then◌else◌, ltb→lt,
  lt→ltb, leb→le, ==_iff, tests, Bool-cases, Option-cases, length, get_elem?, get_or, set, take,
  drop, replicate, length-append, length-set, length-take, length-drop, length-replicate,
  take-append-drop, get_elem?-set_self, get_elem?-set_ne, length-map, u8, u16, u32, u64, sub32, shr,
  shl,
}
use red_panda_os.Prelude.Int.{ℤ, pos, negsuc, ◌+ℤ◌, ◌-ℤ◌, ◌*ℤ◌, pos_part, neg_part, ltb_ℤ}
use red_panda_os.Fb.{eq_ℤ}
use red_panda_os.Strings.{strcmp}

abbrev pub max_windows : ℕ
max_windows = 8

abbrev pub title_max : ℕ
title_max = 23

-- `window_t`
pub record Window : Type 0 where
  pub x : ℤ
  pub y : ℤ
  pub w : ℤ
  pub h : ℤ
  pub title : List ℕ
  pub draw : ℕ
  pub click : ℕ
  pub key : ℕ
  pub on_close : ℕ
  pub user : ℕ
  pub visible : Bool
  pub used : Bool

pub record Windows : Type 0 where
  pub wins : List Window
  pub zorder : List ℕ
  pub focused : Option ℕ

-- A zeroed entry of the table.
abbrev pub no_window : Window
no_window = record {
  x = pos 0;
  y = pos 0;
  w = pos 0;
  h = pos 0;
  title = [];
  draw = 0;
  click = 0;
  key = 0;
  on_close = 0;
  user = 0;
  visible = false;
  used = false;
}

abbrev pub win_at : List Window → ℕ → Window
win_at wins i = get_or wins i no_window

-- The list without the first `idx`: what the shift of the entries above it leaves.
unfoldable pub take_out : ℕ → List ℕ → List ℕ
take_out idx [] = []
take_out idx (i ∷ order) = let rest = take_out idx order in if i == idx then order else i ∷ rest

unfoldable pub listed : ℕ → List ℕ → Bool
listed idx [] = false
listed idx (i ∷ order) = let rest = listed idx order in if i == idx then true else rest

unfoldable pub raise_window : ℕ → Windows → Windows
unfolding take_out listed
raise_window idx ws =
    if listed idx ws.zorder
    then record ws { zorder = take_out idx ws.zorder ++ (idx ∷ []); focused = some idx }
    else ws

-- The loop from the top down, as the last visible one of the list from the bottom up.
unfoldable pub topmost : List Window → List ℕ → Option ℕ → Option ℕ
topmost wins [] found = found
topmost wins (i ∷ order) found =
    topmost wins order (if (win_at wins i).visible then some i else found)

unfoldable pub focus_topmost_visible : Windows → Windows
unfolding topmost
focus_topmost_visible ws = record ws { focused = topmost ws.wins ws.zorder none }

unfoldable pub has_focus : ℕ → Option ℕ → Bool
has_focus idx none = false
has_focus idx (some i) = i == idx

-- After `on_close`.
unfoldable pub drop_window : ℕ → Windows → Windows
unfolding take_out focus_topmost_visible has_focus
drop_window idx ws =
    let closed = record (win_at ws.wins idx) { used = false; visible = false } in
    let ws' = record ws { wins = set ws.wins idx closed; zorder = take_out idx ws.zorder } in
    if has_focus idx ws.focused then focus_topmost_visible ws' else ws'

unfoldable pub close_window {ℓ} : {S : Type ℓ} → (Window → S → S) → ℕ → Windows × S → Windows × S
unfolding drop_window
close_window on_close idx (ws, s) =
    let win = win_at ws.wins idx in
    (drop_window idx ws, if win.on_close == 0 then s else on_close win s)

-- The minimize light of the title bar.
unfoldable pub minimize : ℕ → Windows → Windows
unfolding focus_topmost_visible has_focus
minimize idx ws =
    let hidden = record (win_at ws.wins idx) { visible = false } in
    let ws' = record ws { wins = set ws.wins idx hidden } in
    if has_focus idx ws.focused then focus_topmost_visible ws' else ws'

-- The first entry from `i` on that is not used.
unfoldable pub free_from : List Window → ℕ → Option ℕ
free_from [] i = none
free_from (win ∷ wins) i = let rest = free_from wins (suc i) in if win.used then rest else some i

unfoldable pub new_window : ℤ → ℤ → ℤ → ℤ → List ℕ → ℕ → Window
new_window x y w h title draw = record no_window {
  x = x;
  y = y;
  w = w;
  h = h;
  title = take title_max title;
  draw = draw;
  visible = true;
  used = true;
}

unfoldable pub put_window : Window → Option ℕ → Windows → Option ℕ × Windows
put_window win none ws = (none, ws)
put_window win (some i) ws =
    (some i, record { wins = set ws.wins i win; zorder = ws.zorder ++ (i ∷ []); focused = some i })

unfoldable pub add_window : ℤ → ℤ → ℤ → ℤ → List ℕ → ℕ → Windows → Option ℕ × Windows
unfolding free_from new_window put_window
add_window x y w h title draw ws =
    put_window (new_window x y w h title draw) (free_from ws.wins 0) ws

unfoldable pub find_from : List ℕ → List Window → ℕ → Option ℕ
find_from title [] i = none
find_from title (win ∷ wins) i =
    let rest = find_from title wins (suc i) in
    if win.used && eq_ℤ (strcmp win.title title) (pos 0) then some i else rest

unfoldable pub find_window : List ℕ → Windows → Option ℕ
unfolding find_from
find_window title ws = find_from title ws.wins 0

unfoldable pub show_and_raise : ℕ → Windows → Windows
unfolding raise_window
show_and_raise idx ws =
    let shown = record (win_at ws.wins idx) { visible = true } in
    raise_window idx (record ws { wins = set ws.wins idx shown })

-- The end of `open_app`, with the window that there is.
unfoldable pub show_if : Option ℕ × Windows → Windows
unfolding show_and_raise
show_if (none, ws) = ws
show_if (some idx, ws) = show_and_raise idx ws

-- With the window that was found, or else the one that would be `added`.
unfoldable pub found_or : Option ℕ → Option ℕ × Windows → Windows → Option ℕ × Windows
found_or (some idx) added ws = (some idx, ws)
found_or none added ws = added

unfoldable pub open_app : List ℕ → ℕ → ℤ → ℤ → ℤ → ℤ → Windows → Windows
unfolding find_window add_window show_if found_or
open_app title draw x y w h ws =
    show_if (found_or (find_window title ws) (add_window x y w h title draw ws) ws)
