-- ===== src/Windows/Inv.antt =====
-- kernel/gui.c, the windows: what holds whatever is opened, pressed and closed.
use red_panda_os.Prelude.{
  ℕ, zero, suc, ◌≤◌, ◌≡◌, refl, sym, ap, ◌∙◌, subst, ◌⊎◌, inl, inr, Bool, true, false, Option, none,
  some, List, [], ◌∷◌, ◌++◌, arith, ◌==◌, if◌then◌else◌, Bool-cases, length, set, length-append,
}
use red_panda_os.Windows.{
  max_windows, Window, Windows, win_at, take_out, raise_window, topmost, has_focus,
}
use red_panda_os.Windows.Order.{
  bit_of, count, used_at, used_count, count-append, count-listed, take_out-count, take_out-other,
  length-take_out,
}

-- The order lists each used window once and no other.
pub record IsOrder (ws : Windows) : Type 0 where
  pub size : length ws.wins ≡ max_windows
  pub counts : (i : ℕ) → count i ws.zorder ≡ bit_of (used_at ws.wins i)
  pub total : length ws.zorder ≡ used_count ws.wins

-- And the focus is on the topmost visible window.
pub record IsValid (ws : Windows) : Type 0 where
  pub order : IsOrder ws
  pub focus : ws.focused ≡ topmost ws.wins ws.zorder none

pub used-listed :
    (ws : Windows) (i : ℕ) → IsOrder ws → used_at ws.wins i ≡ true → 1 ≤ count i ws.zorder
used-listed ws i v h = rw (v.counts i) (rw h (omega arith))

pub listed-used :
    (ws : Windows) (i : ℕ) → IsOrder ws → 1 ≤ count i ws.zorder → used_at ws.wins i ≡ true
listed-used ws i v h = elim (Bool-cases (used_at ws.wins i)) [
  | inl e ↦ e
  | inr e ↦
      let none_there : count i ws.zorder ≡ 0 = v.counts i ∙ rw e refl in
      absurd (omega (arith, h, none_there))
]

-- To the top.
reordered :
    (ws : Windows) (idx : ℕ) (f : Option ℕ)
    → IsOrder ws
    → 1 ≤ count idx ws.zorder
    → IsOrder (record ws { zorder = take_out idx ws.zorder ++ (idx ∷ []); focused = f })
reordered ws idx f v h = record {
  size = v.size;
  counts = λ i. count-append i (take_out idx ws.zorder) (idx ∷ []) ∙ (elim (Bool-cases (idx == i)) [
    | inl e ↦
        let q : idx ≡ i = ground (arith, e) in
        rw e (
          omega (
            arith,
            take_out-count i ws.zorder,
            rw q at h,
            v.counts i,
            ap (λ t. count i (take_out t ws.zorder)) q,
          ))
    | inr e ↦ rw e (omega (arith, take_out-other idx i ws.zorder e, v.counts i))
  ]);
  total =
      length-append (take_out idx ws.zorder) (idx ∷ [])
      ∙ (omega (arith, length-take_out idx ws.zorder h, v.total));
}

pub topmost-append :
    (wins : List Window) (xs : List ℕ) (i : ℕ) (f : Option ℕ)
    → (win_at wins i).visible ≡ true
    → topmost wins (xs ++ (i ∷ [])) f ≡ some i
unfolding topmost
topmost-append wins [] i f h = rw h refl
topmost-append wins (x ∷ xs) i f h =
    topmost-append wins xs i (if (win_at wins x).visible then some x else f) h

pub raise_window-IsValid :
    (ws : Windows) (idx : ℕ)
    → IsOrder ws
    → 1 ≤ count idx ws.zorder
    → (win_at ws.wins idx).visible ≡ true
    → IsValid (raise_window idx ws)
unfolding raise_window
raise_window-IsValid ws idx v h seen = rw (count-listed idx ws.zorder h) (record {
  order = reordered ws idx (some idx) v h;
  focus = sym (topmost-append ws.wins (take_out idx ws.zorder) idx none seen);
})

-- Two tables that differ in that `idx` is hidden in the second one.
pub record Hides (idx : ℕ) (wins wins' : List Window) : Type 0 where
  hidden : (win_at wins' idx).visible ≡ false
  others : (i : ℕ) → (idx == i) ≡ false → (win_at wins' i).visible ≡ (win_at wins i).visible

set_hidden :
    (idx : ℕ) (wins : List Window) (w : Window)
    → w.visible ≡ false
    → (win_at (set wins idx w) idx).visible ≡ false
set_hidden idx [] w h = refl
set_hidden zero (x ∷ wins) w h = h
set_hidden (suc idx) (x ∷ wins) w h = set_hidden idx wins w h

set_others :
    (idx : ℕ) (wins : List Window) (w : Window) (i : ℕ)
    → (idx == i) ≡ false
    → (win_at (set wins idx w) i).visible ≡ (win_at wins i).visible
set_others idx [] w i h = refl
set_others zero (x ∷ wins) w zero h = absurd (ground (arith, h))
set_others zero (x ∷ wins) w (suc i) h = refl
set_others (suc idx) (x ∷ wins) w zero h = refl
set_others (suc idx) (x ∷ wins) w (suc i) h = set_others idx wins w i (ground (arith, h))

pub set-Hides :
    (idx : ℕ) (wins : List Window) (w : Window)
    → w.visible ≡ false
    → Hides idx wins (set wins idx w)
set-Hides idx wins w h = record { hidden = set_hidden idx wins w h; others = set_others idx wins w }

same_choice :
    (idx x : ℕ) (b : Bool) (f f' : Option ℕ)
    → (has_focus idx f ≡ true) ⊎ (f ≡ f')
    → (has_focus idx (if b then some x else f) ≡ true)
      ⊎ ((if b then some x else f) ≡ (if b then some x else f'))
same_choice idx x true f f' r = inr refl
same_choice idx x false f f' r = r

lost_choice :
    (idx x : ℕ) (b : Bool) (f f' : Option ℕ)
    → (x == idx) ≡ true
    → (has_focus idx f ≡ true) ⊎ (f ≡ f')
    → (has_focus idx (if b then some x else f) ≡ true) ⊎ ((if b then some x else f) ≡ f')
unfolding has_focus
lost_choice idx x true f f' e r = inl e
lost_choice idx x false f f' e r = r

module _ (idx : ℕ) (wins wins' : List Window) (d : Hides idx wins wins') where
  pub topmost-Hides :
      (xs : List ℕ) (f f' : Option ℕ)
      → (has_focus idx f ≡ true) ⊎ (f ≡ f')
      → has_focus idx (topmost wins xs f) ≡ false
      → topmost wins' xs f' ≡ topmost wins xs f
  unfolding topmost
  topmost-Hides [] f f' (inl r) h = absurd (cc)
  topmost-Hides [] f f' (inr r) h = sym r
  topmost-Hides (x ∷ xs) f f' r h = elim (Bool-cases (idx == x)) [
    | inl e ↦
        let q : idx ≡ x = ground (arith, e) in
        let gone : (win_at wins' x).visible ≡ false =
          subst (λ t. (win_at wins' t).visible ≡ false) q d.hidden in
        rw gone (
          topmost-Hides xs (if (win_at wins x).visible then some x else f) f'
            (lost_choice idx x (win_at wins x).visible f f' (ground (arith, e)) r) h)
    | inr e ↦ rw (d.others x e) (
        topmost-Hides xs (if (win_at wins x).visible then some x else f)
          (if (win_at wins x).visible then some x else f')
          (same_choice idx x (win_at wins x).visible f f' r) h)
  ]

  pub topmost-take_out :
      (xs : List ℕ) (f : Option ℕ) → topmost wins' (take_out idx xs) f ≡ topmost wins' xs f
  unfolding topmost take_out
  topmost-take_out [] f = refl
  topmost-take_out (x ∷ xs) f = elim (Bool-cases (x == idx)) [
    | inl e ↦
        let q : idx ≡ x = ground (arith, e) in
        let gone : (win_at wins' x).visible ≡ false =
          subst (λ t. (win_at wins' t).visible ≡ false) q d.hidden in
        rw (e, gone) refl
    | inr e ↦ rw e (topmost-take_out xs (if (win_at wins' x).visible then some x else f))
  ]
