-- ===== src/Windows/Press.antt =====
-- kernel/gui.c, the windows: presses of the left button, the taskbar and the dragging of a window.
-- `TASKBAR_H` is 36 and `TITLE_H` is 30.
use red_panda_os.Prelude.{
  ℕ, suc, ◌+◌, ◌*◌, Bool, not, ◌&&◌, ◌||◌, Option, none, some, List, [], ◌∷◌, if◌then◌else◌, set,
}
use red_panda_os.Prelude.Int.{ℤ, pos, ◌+ℤ◌, ◌-ℤ◌, ◌*ℤ◌, ltb_ℤ}
use red_panda_os.Windows.{
  Window, Windows, win_at, raise_window, close_window, minimize, show_and_raise, open_app,
}

-- Where a press on the desktop landed among the windows.
pub data Press : Type 0 where
  missed : Press
  close_light : ℕ → Press
  minimize_light : ℕ → Press
  title_bar : ℕ → ℤ → ℤ → Press
  body : ℕ → Press

-- Whether a light of the title bar at (cx, cy) is hit.
unfoldable pub on_light : ℤ → ℤ → ℤ → ℤ → Bool
on_light mx my cx cy =
    let dx = mx -ℤ cx in let dy = my -ℤ cy in not (ltb_ℤ (pos 49) (dx *ℤ dx +ℤ dy *ℤ dy))

unfoldable pub press_in : ℤ → ℤ → ℕ → Window → Press
unfolding on_light
press_in mx my idx w =
    if ltb_ℤ my (w.y +ℤ pos 30)
    then if on_light mx my (w.x +ℤ pos 20) (w.y +ℤ pos 15)
      then close_light idx
      else if on_light mx my (w.x +ℤ pos 40) (w.y +ℤ pos 15)
      then minimize_light idx
      else title_bar idx (mx -ℤ w.x) (my -ℤ w.y)
    else body idx

unfoldable pub covers : ℤ → ℤ → Window → Bool
covers mx my w =
    w.visible
    && not (
        ltb_ℤ mx w.x
        || (not (ltb_ℤ mx (w.x +ℤ w.w)) || (ltb_ℤ my w.y || not (ltb_ℤ my (w.y +ℤ w.h)))))

-- The topmost window at the point, as the last one of the list from the bottom up.
unfoldable pub press_from : ℤ → ℤ → List Window → List ℕ → Press → Press
unfolding press_in covers
press_from mx my wins [] found = found
press_from mx my wins (i ∷ order) found =
    let win = win_at wins i in
    press_from mx my wins order (if covers mx my win then press_in mx my i win else found)

-- What a press does to the windows; the click in a body and the drag come after it.
unfoldable pub pressed {ℓ} : {S : Type ℓ} → (Window → S → S) → Press → Windows × S → Windows × S
unfolding close_window minimize raise_window
pressed on_close missed (ws, s) = (ws, s)
pressed on_close (close_light idx) (ws, s) = close_window on_close idx (ws, s)
pressed on_close (minimize_light idx) (ws, s) = (minimize idx ws, s)
pressed on_close (title_bar idx dx dy) (ws, s) = (raise_window idx ws, s)
pressed on_close (body idx) (ws, s) = (raise_window idx ws, s)

-- The taskbar's buttons from window `i` on; `slot` counts the windows that are used.
unfoldable pub taskbar_from : ℤ → ℤ → ℤ → List Window → ℕ → ℕ → Option ℕ
taskbar_from scr_h mx my [] i slot = none
taskbar_from scr_h mx my (win ∷ wins) i slot =
    let bx = pos (48 + slot * 148) in
    let by = scr_h -ℤ pos 36 +ℤ pos 5 in
    let hit =
      not (ltb_ℤ mx bx)
      && (ltb_ℤ mx (bx +ℤ pos 140) && (not (ltb_ℤ my by) && ltb_ℤ my (by +ℤ pos 26))) in
    let rest = taskbar_from scr_h mx my wins (suc i) (if win.used then suc slot else slot) in
    if not win.used then rest else if hit then some i else rest

unfoldable pub show_found : Option ℕ → Windows → Windows
unfolding show_and_raise
show_found none ws = ws
show_found (some idx) ws = show_and_raise idx ws

unfoldable pub taskbar_press : ℤ → ℤ → ℤ → Windows → Windows
unfolding taskbar_from show_found
taskbar_press scr_h mx my ws = show_found (taskbar_from scr_h mx my ws.wins 0 0) ws

-- A window that is dragged by its title bar keeps the bar within reach.
unfoldable pub drag_window : ℤ → ℤ → ℤ → ℤ → Window → Window
drag_window scr_w scr_h x y w =
    let least = pos 60 -ℤ w.w in
    let x1 = if ltb_ℤ x least then least else x in
    let x2 = if ltb_ℤ (scr_w -ℤ pos 60) x1 then scr_w -ℤ pos 60 else x1 in
    let y1 = if ltb_ℤ y (pos 0) then pos 0 else y in
    let lowest = scr_h -ℤ pos 36 -ℤ pos 20 in
    let y2 = if ltb_ℤ lowest y1 then lowest else y1 in record w { x = x2; y = y2 }

-- What the user does to the windows.
pub data Action : Type 0 where
  press : ℤ → ℤ → Action
  taskbar : ℤ → ℤ → ℤ → Action
  launch : List ℕ → ℕ → ℤ → ℤ → ℤ → ℤ → Action
  drag : ℕ → ℤ → ℤ → ℤ → ℤ → Action

unfoldable pub act {ℓ} : {S : Type ℓ} → (Window → S → S) → Action → Windows × S → Windows × S
unfolding pressed press_from taskbar_press open_app drag_window
act on_close (press mx my) (ws, s) =
    pressed on_close (press_from mx my ws.wins ws.zorder missed) (ws, s)
act on_close (taskbar scr_h mx my) (ws, s) = (taskbar_press scr_h mx my ws, s)
act on_close (launch title draw x y w h) (ws, s) = (open_app title draw x y w h ws, s)
act on_close (drag idx scr_w scr_h x y) (ws, s) =
    (record ws { wins = set ws.wins idx (drag_window scr_w scr_h x y (win_at ws.wins idx)) }, s)

unfoldable pub run {ℓ} : {S : Type ℓ} → (Window → S → S) → List Action → Windows × S → Windows × S
unfolding act
run on_close [] st = st
run on_close (a ∷ actions) st = run on_close actions (act on_close a st)
