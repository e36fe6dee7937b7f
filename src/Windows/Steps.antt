-- ===== src/Windows/Steps.antt =====
-- kernel/gui.c, the windows: every run of the user's actions.
use red_panda_os.Prelude.{
  ℕ, zero, suc, ◌≤◌, ◌≡◌, refl, sym, ◌∙◌, inl, inr, Bool, true, false, Option, none, some, List, [],
  ◌∷◌, arith, ◌==◌, if◌then◌else◌, Bool-cases, set,
}
use red_panda_os.Prelude.Int.{ℤ, pos, ◌+ℤ◌, ◌-ℤ◌, ltb_ℤ}
use red_panda_os.Windows.{
  Window, Windows, win_at, listed, topmost, close_window, free_from, new_window, add_window,
  find_window, show_if, found_or, open_app,
}
use red_panda_os.Windows.Press.{
  Press, missed, close_light, minimize_light, title_bar, body, on_light, press_in, covers,
  press_from, pressed, taskbar_from, taskbar_press, drag_window, Action, press, taskbar, launch,
  drag, act, run,
}
use red_panda_os.Windows.Order.{count, used_at}
use red_panda_os.Windows.Inv.{IsValid, used-listed, listed-used, raise_window-IsValid}
use red_panda_os.Windows.Hide.{drop_window-IsValid, minimize-IsValid, kept-IsOrder}
use red_panda_os.Windows.Found.{
  Shown, Found, show_if-IsValid, show_found-IsValid, free_from-Found, find_from-Found,
  taskbar_from-Found, Found-Shown, put_window-Shown,
}

found_or-IsValid :
    (o : Option ℕ) (added : Option ℕ × Windows) (ws : Windows)
    → IsValid ws
    → Found true ws.wins 0 o
    → Shown added.0 added.1
    → IsValid (show_if (found_or o added ws))
unfolding found_or
found_or-IsValid none added ws v h a = show_if-IsValid added.0 added.1 a
found_or-IsValid (some k) added ws v h a = show_if-IsValid (some k) ws (Found-Shown (some k) ws v h)

open_app-IsValid :
    (title : List ℕ) (draw : ℕ) (x y w h : ℤ) (ws : Windows)
    → IsValid ws
    → IsValid (open_app title draw x y w h ws)
unfolding open_app add_window find_window new_window
open_app-IsValid title draw x y w h ws v =
    found_or-IsValid (find_window title ws) (add_window x y w h title draw ws) ws v
      (find_from-Found title ws.wins 0)
      (put_window-Shown (new_window x y w h title draw) (free_from ws.wins 0) ws refl refl v
        (free_from-Found ws.wins 0))

-- What a press is on is a window that is in use and shown.
abbrev Target : List Window → Press → Type 0
Target wins missed = Unit {0}
Target wins (close_light i) = (used_at wins i ≡ true) × ((win_at wins i).visible ≡ true)
Target wins (minimize_light i) = (used_at wins i ≡ true) × ((win_at wins i).visible ≡ true)
Target wins (title_bar i dx dy) = (used_at wins i ≡ true) × ((win_at wins i).visible ≡ true)
Target wins (body i) = (used_at wins i ≡ true) × ((win_at wins i).visible ≡ true)

pick :
    (wins : List Window) (b : Bool) (p q : Press)
    → Target wins p
    → Target wins q
    → Target wins (if b then p else q)
pick wins true p q hp hq = hp
pick wins false p q hp hq = hq

press_in-Target :
    (mx my : ℤ) (wins : List Window) (i : ℕ)
    → (used_at wins i ≡ true) × ((win_at wins i).visible ≡ true)
    → Target wins (press_in mx my i (win_at wins i))
unfolding press_in
press_in-Target mx my wins i h =
    let w = win_at wins i in
    let cy = w.y +ℤ pos 15 in
    let bar = title_bar i (mx -ℤ w.x) (my -ℤ w.y) in
    let mini = on_light mx my (w.x +ℤ pos 40) cy in
    let rest = if mini then minimize_light i else bar in
    let close = on_light mx my (w.x +ℤ pos 20) cy in
    pick wins (ltb_ℤ my (w.y +ℤ pos 30)) (if close then close_light i else rest) (body i)
      (pick wins close (close_light i) rest h (pick wins mini (minimize_light i) bar h h)) h

same : (i : ℕ) → (i == i) ≡ true
same i = ground arith

press_from-Target :
    (mx my : ℤ) (wins : List Window) (order : List ℕ) (found : Press)
    → ((i : ℕ) → 1 ≤ count i order → used_at wins i ≡ true)
    → Target wins found
    → Target wins (press_from mx my wins order found)
unfolding press_from covers
press_from-Target mx my wins [] found listed h = h
press_from-Target mx my wins (i ∷ order) found listed h =
    let later = λ (j : ℕ) (c : 1 ≤ count j order). listed j (omega (arith, c)) in
    let here : used_at wins i ≡ true = listed i (rw (same i) (omega arith)) in
    elim (Bool-cases (covers mx my (win_at wins i))) [
      | inl e ↦ rw e (
          press_from-Target mx my wins order (press_in mx my i (win_at wins i)) later
            (press_in-Target mx my wins i (here, ground (arith, e))))
      | inr e ↦ rw e (press_from-Target mx my wins order found later h)
    ]

drag_window-used :
    (scr_w scr_h x y : ℤ) (w : Window) → (drag_window scr_w scr_h x y w).used ≡ w.used
unfolding drag_window
drag_window-used scr_w scr_h x y w = refl

drag_window-visible :
    (scr_w scr_h x y : ℤ) (w : Window) → (drag_window scr_w scr_h x y w).visible ≡ w.visible
unfolding drag_window
drag_window-visible scr_w scr_h x y w = refl

moved-visible :
    (wins : List Window) (idx : ℕ) (w : Window) (i : ℕ)
    → w.visible ≡ (win_at wins idx).visible
    → (win_at (set wins idx w) i).visible ≡ (win_at wins i).visible
moved-visible [] idx w i h = refl
moved-visible (x ∷ wins) zero w zero h = h
moved-visible (x ∷ wins) zero w (suc i) h = refl
moved-visible (x ∷ wins) (suc idx) w zero h = refl
moved-visible (x ∷ wins) (suc idx) w (suc i) h = moved-visible wins idx w i h

moved-topmost :
    (wins : List Window) (idx : ℕ) (w : Window)
    → w.visible ≡ (win_at wins idx).visible
    → (order : List ℕ) (found : Option ℕ)
    → topmost (set wins idx w) order found ≡ topmost wins order found
unfolding topmost
moved-topmost wins idx w h [] found = refl
moved-topmost wins idx w h (i ∷ order) found =
    rw (moved-visible wins idx w i h)
      (moved-topmost wins idx w h order (if (win_at wins i).visible then some i else found))

module _ {ℓ} {S : Type ℓ} (on_close : Window → S → S) where
  pressed-IsValid :
      (p : Press) (ws : Windows) (s : S)
      → IsValid ws
      → Target ws.wins p
      → IsValid (pressed on_close p (ws, s)).0
  unfolding pressed close_window
  pressed-IsValid missed ws s v t = v
  pressed-IsValid (close_light i) ws s v t = drop_window-IsValid ws i v t.0
  pressed-IsValid (minimize_light i) ws s v t = minimize-IsValid ws i v
  pressed-IsValid (title_bar i dx dy) ws s v t =
      raise_window-IsValid ws i v.order (used-listed ws i v.order t.0) t.1
  pressed-IsValid (body i) ws s v t =
      raise_window-IsValid ws i v.order (used-listed ws i v.order t.0) t.1

  act-IsValid :
      (a : Action) (ws : Windows) (s : S) → IsValid ws → IsValid (act on_close a (ws, s)).0
  unfolding act taskbar_press
  act-IsValid (press mx my) ws s v =
      let listed = λ (i : ℕ) (c : 1 ≤ count i ws.zorder). listed-used ws i v.order c in
      pressed-IsValid (press_from mx my ws.wins ws.zorder missed) ws s v
        (press_from-Target mx my ws.wins ws.zorder missed listed tt)
  act-IsValid (taskbar scr_h mx my) ws s v =
      let o = taskbar_from scr_h mx my ws.wins 0 0 in
      show_found-IsValid o ws v (Found-Shown o ws v (taskbar_from-Found scr_h mx my ws.wins 0 0))
  act-IsValid (launch title draw x y w h) ws s v = open_app-IsValid title draw x y w h ws v
  act-IsValid (drag i scr_w scr_h x y) ws s v =
      let w = drag_window scr_w scr_h x y (win_at ws.wins i) in
      record {
        order =
            kept-IsOrder ws i w ws.focused v.order
              (drag_window-used scr_w scr_h x y (win_at ws.wins i));
        focus =
            v.focus
            ∙ sym (
                moved-topmost ws.wins i w (drag_window-visible scr_w scr_h x y (win_at ws.wins i))
                  ws.zorder none);
      }

  pub run-IsValid :
      (actions : List Action) (ws : Windows) (s : S)
      → IsValid ws
      → IsValid (run on_close actions (ws, s)).0
  unfolding run
  run-IsValid [] ws s v = v
  run-IsValid (a ∷ actions) ws s v =
      let next = act on_close a (ws, s) in run-IsValid actions next.0 next.1 (act-IsValid a ws s v)
