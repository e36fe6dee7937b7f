-- ===== src/Windows/Top.antt =====
-- kernel/gui.c, the windows: where the focus is, said without the loop that looks for it.
use red_panda_os.Prelude.{
  ℕ, ◌≡◌, refl, sym, ap, ◌∙◌, subst, ◌⊎◌, inl, inr, true, false, Option, none, some, List, [], ◌∷◌,
  ◌++◌, if◌then◌else◌, Bool-cases,
}
use red_panda_os.Windows.{Window, Windows, win_at, topmost}
use red_panda_os.Windows.Press.{Action, run}
use red_panda_os.Windows.Inv.{IsOrder, IsValid}
use red_panda_os.Windows.Steps.{run-IsValid}

-- Every window of the list is hidden.
abbrev pub AllHidden : List Window → List ℕ → Type 0
AllHidden wins [] = Unit {0}
AllHidden wins (i ∷ order) = ((win_at wins i).visible ≡ false) × AllHidden wins order

-- Window `k` is in the list, it is shown, and every window above it is hidden.
pub record OnTop (wins : List Window) (order : List ℕ) (k : ℕ) : Type 0 where
  pub under : List ℕ
  pub over : List ℕ
  pub listed : order ≡ under ++ (k ∷ over)
  pub shown : (win_at wins k).visible ≡ true
  pub hidden : AllHidden wins over

-- The focus is on the topmost visible window, or on none when no window of the list is visible.
abbrev pub IsFocus : List Window → List ℕ → Option ℕ → Type 0
IsFocus wins order none = AllHidden wins order
IsFocus wins order (some k) = OnTop wins order k

-- The order lists each used window once and no other, and the focus is where it belongs.
pub record IsOrdered (ws : Windows) : Type 0 where
  pub order : IsOrder ws
  pub focus : IsFocus ws.wins ws.zorder ws.focused

topmost-AllHidden :
    (wins : List Window) (order : List ℕ) (f : Option ℕ)
    → AllHidden wins order
    → topmost wins order f ≡ f
unfolding topmost
topmost-AllHidden wins [] f h = refl
topmost-AllHidden wins (i ∷ order) f h = rw h.0 (topmost-AllHidden wins order f h.1)

topmost-at :
    (wins : List Window) (under : List ℕ) (k : ℕ) (over : List ℕ) (f : Option ℕ)
    → (win_at wins k).visible ≡ true
    → AllHidden wins over
    → topmost wins (under ++ (k ∷ over)) f ≡ some k
unfolding topmost
topmost-at wins [] k over f h rest = rw (topmost, h) (topmost-AllHidden wins over (some k) rest)
topmost-at wins (i ∷ under) k over f h rest =
    topmost-at wins under k over (if (win_at wins i).visible then some i else f) h rest

IsFocus-topmost :
    (wins : List Window) (order : List ℕ) (f : Option ℕ)
    → IsFocus wins order f
    → f ≡ topmost wins order none
IsFocus-topmost wins order none h = sym (topmost-AllHidden wins order none h)
IsFocus-topmost wins order (some k) t = sym (
    ap (λ o. topmost wins o none) t.listed ∙ topmost-at wins t.under k t.over none t.shown t.hidden)

-- What the loop finds from `f` on: nothing, and all is hidden, or a window that is on top.
abbrev Finds : List Window → List ℕ → Option ℕ → Type 0
Finds wins order f =
    (AllHidden wins order × (topmost wins order f ≡ f))
    ⊎ ((k : ℕ) × OnTop wins order k × (topmost wins order f ≡ some k))

below :
    (wins : List Window) (i : ℕ) (order : List ℕ) (k : ℕ)
    → OnTop wins order k
    → OnTop wins (i ∷ order) k
below wins i order k t = record {
  under = i ∷ t.under;
  over = t.over;
  listed = ap (λ o. i ∷ o) t.listed;
  shown = t.shown;
  hidden = t.hidden;
}

topmost-Finds : (wins : List Window) (order : List ℕ) (f : Option ℕ) → Finds wins order f
unfolding topmost
topmost-Finds wins [] f = inl (tt, refl)
topmost-Finds wins (i ∷ order) f = elim (Bool-cases (win_at wins i).visible) [
  | inl shown ↦ elim (topmost-Finds wins order (some i)) [
    | inl (hidden, same) ↦
        let top : OnTop wins (i ∷ order) i = record {
          under = [];
          over = order;
          listed = refl;
          shown = shown;
          hidden = hidden;
        } in
        inr (i, top, rw shown same)
    | inr (k, t, same) ↦ inr (k, below wins i order k t, rw shown same)
  ]
  | inr hidden ↦ elim (topmost-Finds wins order f) [
    | inl (rest, same) ↦ inl ((hidden, rest), rw hidden same)
    | inr (k, t, same) ↦ inr (k, below wins i order k t, rw hidden same)
  ]
]

topmost-IsFocus :
    (wins : List Window) (order : List ℕ) → IsFocus wins order (topmost wins order none)
topmost-IsFocus wins order = elim (topmost-Finds wins order none) [
  | inl (hidden, same) ↦ subst (IsFocus wins order) (sym same) hidden
  | inr (k, t, same) ↦ subst (IsFocus wins order) (sym same) t
]

IsOrdered-IsValid : (ws : Windows) → IsOrdered ws → IsValid ws
IsOrdered-IsValid ws v = record {
  order = v.order;
  focus = IsFocus-topmost ws.wins ws.zorder ws.focused v.focus;
}

IsValid-IsOrdered : (ws : Windows) → IsValid ws → IsOrdered ws
IsValid-IsOrdered ws v = record {
  order = v.order;
  focus = subst (IsFocus ws.wins ws.zorder) (sym v.focus) (topmost-IsFocus ws.wins ws.zorder);
}

-- These stay true in every sequence of opening, pressing, dragging and closing: the order of the
-- windows lists each used window once and no other, and the focus is on a listed window that is
-- visible with every window above it hidden, or on none when all listed windows are hidden.
pub run-IsOrdered {ℓ} :
    {S : Type ℓ} (on_close : Window → S → S) (actions : List Action) (ws : Windows) (s : S)
    → IsOrdered ws
    → IsOrdered (run on_close actions (ws, s)).0
run-IsOrdered on_close actions ws s v =
    IsValid-IsOrdered (run on_close actions (ws, s)).0
      (run-IsValid on_close actions ws s (IsOrdered-IsValid ws v))
