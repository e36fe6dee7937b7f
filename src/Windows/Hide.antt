-- ===== src/Windows/Hide.antt =====
-- kernel/gui.c, the windows: closing, minimizing and showing one keeps the focus on top.
use red_panda_os.Prelude.{
  ℕ, zero, suc, ◌+◌, ◌<◌, ◌≡◌, refl, sym, ap, ◌∙◌, subst, inl, inr, true, false, Option, none, List,
  [], ◌∷◌, arith, ◌==◌, Bool-cases, length, set, length-set,
}
use red_panda_os.Windows.{
  Window, Windows, win_at, take_out, topmost, focus_topmost_visible, has_focus, drop_window,
  minimize, show_and_raise,
}
use red_panda_os.Windows.Order.{
  bit_of, count, used_at, used_count, take_out-count, take_out-other, length-take_out,
  used_at-set_self, used_at-set_other, used_count-set, used_at-lt,
}
use red_panda_os.Windows.Inv.{
  IsOrder, IsValid, used-listed, raise_window-IsValid, set-Hides, topmost-Hides, topmost-take_out,
}

-- One window of the table is replaced by a hidden one.
hidden-focus :
    (ws : Windows) (idx : ℕ) (order' : List ℕ) (w : Window)
    → ws.focused ≡ topmost ws.wins ws.zorder none
    → has_focus idx ws.focused ≡ false
    → topmost (set ws.wins idx w) order' none ≡ topmost (set ws.wins idx w) ws.zorder none
    → w.visible ≡ false
    → ws.focused ≡ topmost (set ws.wins idx w) order' none
hidden-focus ws idx order' w f other same h =
    f
    ∙ (sym (
          topmost-Hides idx ws.wins (set ws.wins idx w) (set-Hides idx ws.wins w h) ws.zorder none
            none (inr refl) (subst (λ t. has_focus idx t ≡ false) f other))
        ∙ sym same)

dropped :
    (ws : Windows) (idx : ℕ) (w : Window) (f : Option ℕ)
    → IsOrder ws
    → used_at ws.wins idx ≡ true
    → w.used ≡ false
    → IsOrder (record { wins = set ws.wins idx w; zorder = take_out idx ws.zorder; focused = f })
dropped ws idx w f v there gone =
    let inside = used_at-lt ws.wins idx there in
    let before : bit_of (used_at ws.wins idx) ≡ 1 = rw there refl in
    let after : bit_of w.used ≡ 0 = rw gone refl in
    record {
      size = length-set ws.wins idx w ∙ v.size;
      counts = λ i. elim (Bool-cases (idx == i)) [
        | inl e ↦
            let q : idx ≡ i = ground (arith, e) in
            subst (λ t. count t (take_out idx ws.zorder) ≡ bit_of (used_at (set ws.wins idx w) t)) q
              (rw (used_at-set_self ws.wins idx w inside)
                (omega (arith, take_out-count idx ws.zorder, v.counts idx, before, after)))
        | inr e ↦
            take_out-other idx i ws.zorder e
            ∙ (v.counts i ∙ ap bit_of (sym (used_at-set_other ws.wins idx i w e)))
      ];
      total =
          let one = used-listed ws idx v there in
          omega (
            arith,
            length-take_out idx ws.zorder one,
            used_count-set ws.wins idx w inside,
            v.total,
            before,
            after,
          );
    }

pub drop_window-IsValid :
    (ws : Windows) (idx : ℕ)
    → IsValid ws
    → used_at ws.wins idx ≡ true
    → IsValid (drop_window idx ws)
unfolding drop_window focus_topmost_visible
drop_window-IsValid ws idx v there =
    let w = record (win_at ws.wins idx) { used = false; visible = false } in
    let ok = λ (f : Option ℕ). dropped ws idx w f v.order there refl in
    let same =
      topmost-take_out idx ws.wins (set ws.wins idx w) (set-Hides idx ws.wins w refl) ws.zorder
        none in
    elim (Bool-cases (has_focus idx ws.focused)) [
      | inl e ↦ rw e (record {
        order = ok (topmost (set ws.wins idx w) (take_out idx ws.zorder) none);
        focus = refl;
      })
      | inr e ↦ rw e (record {
        order = ok ws.focused;
        focus = hidden-focus ws idx (take_out idx ws.zorder) w v.focus e same refl;
      })
    ]

-- A window of the table that is replaced by one that is used as much.
pub used_at-kept :
    (wins : List Window) (idx : ℕ) (w : Window) (i : ℕ)
    → w.used ≡ used_at wins idx
    → used_at (set wins idx w) i ≡ used_at wins i
used_at-kept [] idx w i h = refl
used_at-kept (x ∷ wins) zero w zero h = h
used_at-kept (x ∷ wins) zero w (suc i) h = refl
used_at-kept (x ∷ wins) (suc idx) w zero h = refl
used_at-kept (x ∷ wins) (suc idx) w (suc i) h = used_at-kept wins idx w i h

used_count-kept :
    (wins : List Window) (idx : ℕ) (w : Window)
    → w.used ≡ used_at wins idx
    → used_count (set wins idx w) ≡ used_count wins
used_count-kept [] idx w h = refl
used_count-kept (x ∷ wins) zero w h = ap (λ b. bit_of b + used_count wins) h
used_count-kept (x ∷ wins) (suc idx) w h =
    ap (λ n. bit_of x.used + n) (used_count-kept wins idx w h)

pub kept-IsOrder :
    (ws : Windows) (idx : ℕ) (w : Window) (f : Option ℕ)
    → IsOrder ws
    → w.used ≡ used_at ws.wins idx
    → IsOrder (record ws { wins = set ws.wins idx w; focused = f })
kept-IsOrder ws idx w f v h = record {
  size = length-set ws.wins idx w ∙ v.size;
  counts = λ i. v.counts i ∙ ap bit_of (sym (used_at-kept ws.wins idx w i h));
  total = v.total ∙ sym (used_count-kept ws.wins idx w h);
}

pub minimize-IsValid : (ws : Windows) (idx : ℕ) → IsValid ws → IsValid (minimize idx ws)
unfolding minimize focus_topmost_visible
minimize-IsValid ws idx v =
    let w = record (win_at ws.wins idx) { visible = false } in
    let ok = λ (f : Option ℕ). kept-IsOrder ws idx w f v.order refl in
    elim (Bool-cases (has_focus idx ws.focused)) [
      | inl e ↦
          rw e (record { order = ok (topmost (set ws.wins idx w) ws.zorder none); focus = refl })
      | inr e ↦ rw e (record {
        order = ok ws.focused;
        focus = hidden-focus ws idx ws.zorder w v.focus e refl refl;
      })
    ]

pub set_visible :
    (wins : List Window) (idx : ℕ) (w : Window)
    → idx < length wins
    → win_at (set wins idx w) idx ≡ w
set_visible [] idx w h = absurd (omega (arith, h))
set_visible (x ∷ wins) zero w h = refl
set_visible (x ∷ wins) (suc idx) w h = set_visible wins idx w (omega (arith, h))

pub show_and_raise-IsValid :
    (ws : Windows) (idx : ℕ)
    → IsOrder ws
    → used_at ws.wins idx ≡ true
    → IsValid (show_and_raise idx ws)
unfolding show_and_raise
show_and_raise-IsValid ws idx v there =
    let w = record (win_at ws.wins idx) { visible = true } in
    raise_window-IsValid (record ws { wins = set ws.wins idx w }) idx
      (kept-IsOrder ws idx w ws.focused v refl) (used-listed ws idx v there)
      (ap (λ t. t.visible) (set_visible ws.wins idx w (used_at-lt ws.wins idx there)))
