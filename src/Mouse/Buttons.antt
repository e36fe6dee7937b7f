-- ===== src/Mouse/Buttons.antt =====
-- kernel/mouse.c: what the button events say.
use red_panda_os.Prelude.{
  ℕ, zero, suc, ◌+◌, ◌-◌, ◌<◌, bit_and, bit_xor, ◌≡◌, refl, ◌∙◌, inl, inr, Bool, true, ◌&&◌, List,
  [], ◌∷◌, arith, ◌==◌, ==_iff, Bool-cases, shl,
}
use red_panda_os.Prelude.Int.{ℤ, pos}
use red_panda_os.Input.{Event}
use red_panda_os.Mouse.{int16, button_event, button_events}

-- What a listener takes an event to say of the buttons that are down.
abbrev pub heard : ℕ → List Event → ℕ
heard down [] = down
heard down (ev ∷ evs) =
    let others = bit_and down (7 - shl 1 ev.button) in heard (others + shl ev.pressed ev.button) evs

-- `p` holds of all numbers below `n`.
all_below : ℕ → (ℕ → Bool) → Bool
all_below zero p = true
all_below (suc n) p = p n && all_below n p

all_below-at : (n k : ℕ) (p : ℕ → Bool) → k < n → all_below n p ≡ true → p k ≡ true
unfolding all_below
all_below-at zero k p h e = absurd (omega arith)
all_below-at (suc n) k p h e = elim (Bool-cases (k == n)) [
  | inl here ↦ let q : k ≡ n = ground (arith, here) in rw q (ground (arith, e))
  | inr before ↦ all_below-at n k p (ground (arith, h, before)) (ground (arith, e))
]

tells : ℕ → ℕ → Bool
unfolding button_events button_event
tells down now =
    let evs = button_events 3 0 (bit_xor now down) now (pos 0) (pos 0) in heard down evs == now

all_tell : all_below 8 (λ down. all_below 8 (tells down)) ≡ true
unfolding all_below tells button_events button_event int16
all_tell = refl

heard-anywhere :
    (n b changed now down : ℕ) (mx my : ℤ)
    → heard down (button_events n b changed now mx my)
      ≡ heard down (button_events n b changed now (pos 0) (pos 0))
unfolding button_events button_event
heard-anywhere zero b changed now down mx my = refl
heard-anywhere (suc n) b changed now down mx my =
    elim (Bool-cases (bit_and changed (shl 1 b) == 0)) [
      | inl same ↦ rw same (heard-anywhere n (suc b) changed now down mx my)
      | inr other ↦ rw other (heard-anywhere n (suc b) changed now _ mx my)
    ]

-- A listener that knew which of the three buttons were down, and takes in the events of the changed
-- ones in their order, knows which are down now.
pub button_events-tell :
    (down now : ℕ) (mx my : ℤ)
    → down < 8
    → now < 8
    → heard down (button_events 3 0 (bit_xor now down) now mx my) ≡ now
unfolding tells
button_events-tell down now mx my hd hn =
    let row = all_below-at 8 down (λ d. all_below 8 (tells d)) hd all_tell in
    let cell : tells down now ≡ true = all_below-at 8 now (tells down) hn row in
    heard-anywhere 3 0 (bit_xor now down) now down mx my
    ∙ (==_iff (heard down (button_events 3 0 (bit_xor now down) now (pos 0) (pos 0))) now).0 cell
