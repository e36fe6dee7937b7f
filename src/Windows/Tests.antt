-- ===== src/Windows/Tests.antt =====
-- Runs of the windows of kernel/gui.c, and their theorem there.
use red_panda_os.Prelude.{ℕ, zero, suc, ◌≡◌, refl, false, none, some, List, [], ◌∷◌, replicate}
use red_panda_os.Prelude.Int.{pos, ◌+ℤ◌, ◌-ℤ◌, ◌*ℤ◌}
use red_panda_os.Strings.{strcmp}
use red_panda_os.Windows.{
  Windows, no_window, take_out, listed, raise_window, topmost, focus_topmost_visible, has_focus,
  drop_window, close_window, free_from, new_window, put_window, add_window, find_from, find_window,
  show_and_raise, show_if, found_or, open_app,
}
use red_panda_os.Windows.Press.{
  on_light, press_in, covers, press_from, pressed, Action, press, launch, act, run,
}
use red_panda_os.Windows.Order.{used_at}
use red_panda_os.Windows.Top.{IsOrdered, run-IsOrdered}

-- No window, as at boot.
abbrev boot : Windows
boot = record { wins = replicate 8 no_window; zorder = []; focused = none }

unused : (n i : ℕ) → used_at (replicate n no_window) i ≡ false
unused zero i = refl
unused (suc n) zero = refl
unused (suc n) (suc i) = unused n i

boot-IsOrdered : IsOrdered boot
boot-IsOrdered = record {
  order = record { size = refl; counts = λ i. rw (unused 8 i) refl; total = refl };
  focus = tt;
}

abbrev title : List ℕ
title = 65 ∷ []

-- Two windows; a press on the lower one's body, and one on the other one's close light.
abbrev actions : List Action
actions =
    launch title 1 (pos 100) (pos 100) (pos 300) (pos 200)
    ∷ launch (66 ∷ []) 2 (pos 350) (pos 250) (pos 300) (pos 200)
    ∷ press (pos 120) (pos 200)
    ∷ press (pos 600) (pos 400)
    ∷ press (pos 370) (pos 265)
    ∷ []

closed : (run (λ w (s : ℕ). suc s) actions (boot, 0)).0.zorder ≡ 0 ∷ []
unfolding run act pressed press_from open_app find_window find_from add_window free_from new_window
    put_window found_or show_if show_and_raise raise_window take_out listed drop_window close_window
    press_in covers on_light has_focus focus_topmost_visible topmost ◌+ℤ◌ ◌-ℤ◌ ◌*ℤ◌ strcmp
closed = refl

refocused : (run (λ w (s : ℕ). suc s) actions (boot, 0)).0.focused ≡ some 0
unfolding run act pressed press_from open_app find_window find_from add_window free_from new_window
    put_window found_or show_if show_and_raise raise_window take_out listed drop_window close_window
    press_in covers on_light has_focus focus_topmost_visible topmost ◌+ℤ◌ ◌-ℤ◌ ◌*ℤ◌ strcmp
refocused = refl

run-IsOrdered_example : IsOrdered (run (λ w (s : ℕ). suc s) actions (boot, 0)).0
run-IsOrdered_example = run-IsOrdered (λ w (s : ℕ). suc s) actions boot 0 boot-IsOrdered
