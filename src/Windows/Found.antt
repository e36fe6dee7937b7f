-- ===== src/Windows/Found.antt =====
-- kernel/gui.c, the windows: the entries of the table that the loops find, and a new window.
use red_panda_os.Prelude.{
  ℕ, suc, ◌+◌, ◌-◌, ◌≤◌, ◌<◌, ◌≡◌, refl, ap, ◌∙◌, subst, inl, inr, Bool, true, false, not, ◌&&◌,
  Option, none, some, List, [], ◌∷◌, arith, ◌==◌, if◌then◌else◌, Bool-cases, length, set,
  length-append, length-set,
}
use red_panda_os.Prelude.Int.{ℤ, pos}
use red_panda_os.Fb.{eq_ℤ}
use red_panda_os.Strings.{strcmp}
use red_panda_os.Windows.{Window, Windows, free_from, put_window, find_from, show_if}
use red_panda_os.Windows.Press.{taskbar_from, show_found}
use red_panda_os.Windows.Order.{
  bit_of, count, used_at, count-append, used_at-set_self, used_at-set_other, used_count-set,
}
use red_panda_os.Windows.Inv.{IsOrder, IsValid}
use red_panda_os.Windows.Hide.{show_and_raise-IsValid}

-- A window that may be missing, and is in use otherwise.
abbrev pub Shown : Option ℕ → Windows → Type 0
Shown none ws = IsValid ws
Shown (some i) ws = IsOrder ws × (used_at ws.wins i ≡ true)

pub show_if-IsValid : (o : Option ℕ) (ws : Windows) → Shown o ws → IsValid (show_if (o, ws))
unfolding show_if
show_if-IsValid none ws v = v
show_if-IsValid (some i) ws v = show_and_raise-IsValid ws i v.0 v.1

pub show_found-IsValid :
    (o : Option ℕ) (ws : Windows) → IsValid ws → Shown o ws → IsValid (show_found o ws)
unfolding show_found
show_found-IsValid none ws v h = v
show_found-IsValid (some i) ws v h = show_and_raise-IsValid ws i v.order h.1

-- An entry of the table that was found from entry `i` on is in use, or is free.
abbrev pub Found : Bool → List Window → ℕ → Option ℕ → Type 0
Found b wins i none = Unit {0}
Found b wins i (some k) = (i ≤ k) × ((used_at wins (k - i) ≡ b) × (k - i < length wins))

later-Found :
    (b : Bool) (x : Window) (wins : List Window) (i : ℕ) (o : Option ℕ)
    → Found b wins (suc i) o
    → Found b (x ∷ wins) i o
later-Found b x wins i none h = tt
later-Found b x wins i (some k) h =
    let e : k - i ≡ suc (k - suc i) = omega (arith, h.0) in
    (omega (arith, h.0), (ap (used_at (x ∷ wins)) e ∙ h.1.0, omega (arith, h.1.1, e)))

here-Found :
    (b : Bool) (x : Window) (wins : List Window) (i : ℕ)
    → x.used ≡ b
    → Found b (x ∷ wins) i (some i)
here-Found b x wins i h =
    let e : i - i ≡ 0 = omega arith in
    (omega arith, (ap (used_at (x ∷ wins)) e ∙ h, omega (arith, e)))

choose :
    (P : Option ℕ → Type 0) (b : Bool) (o p : Option ℕ)
    → (b ≡ true → P o)
    → (b ≡ false → P p)
    → P (if b then o else p)
choose P true o p hit other = hit refl
choose P false o p hit other = other refl

pub free_from-Found : (wins : List Window) (i : ℕ) → Found false wins i (free_from wins i)
unfolding free_from
free_from-Found [] i = tt
free_from-Found (x ∷ wins) i =
    let rest = free_from wins (suc i) in
    choose (Found false (x ∷ wins) i) x.used rest (some i)
      (λ e. later-Found false x wins i rest (free_from-Found wins (suc i)))
      (here-Found false x wins i)

pub find_from-Found :
    (title : List ℕ) (wins : List Window) (i : ℕ) → Found true wins i (find_from title wins i)
unfolding find_from
find_from-Found title [] i = tt
find_from-Found title (x ∷ wins) i =
    let rest = find_from title wins (suc i) in
    choose (Found true (x ∷ wins) i) (x.used && eq_ℤ (strcmp x.title title) (pos 0)) (some i) rest
      (λ e. here-Found true x wins i (ground (arith, e)))
      (λ e. later-Found true x wins i rest (find_from-Found title wins (suc i)))

pub taskbar_from-Found :
    (scr_h mx my : ℤ) (wins : List Window) (i slot : ℕ)
    → Found true wins i (taskbar_from scr_h mx my wins i slot)
unfolding taskbar_from
taskbar_from-Found scr_h mx my [] i slot = tt
taskbar_from-Found scr_h mx my (x ∷ wins) i slot =
    let slot' = if x.used then suc slot else slot in
    let rest = taskbar_from scr_h mx my wins (suc i) slot' in
    let later =
      later-Found true x wins i rest (taskbar_from-Found scr_h mx my wins (suc i) slot') in
    choose (Found true (x ∷ wins) i) (not x.used) rest _ (λ e. later)
      (λ e.
        choose (Found true (x ∷ wins) i) _ (some i) rest
          (λ hit. here-Found true x wins i (ground (arith, e))) (λ other. later))

from_start : (wins : List Window) (k : ℕ) (b : Bool) → Found b wins 0 (some k) → used_at wins k ≡ b
from_start wins k b h = ap (used_at wins) (omega arith) ∙ h.1.0

pub Found-Shown : (o : Option ℕ) (ws : Windows) → IsValid ws → Found true ws.wins 0 o → Shown o ws
Found-Shown none ws v h = v
Found-Shown (some k) ws v h = (v.order, from_start ws.wins k true h)

-- A new window on top of a free entry.
pub put_window-Shown :
    (win : Window) (o : Option ℕ) (ws : Windows)
    → win.used ≡ true
    → win.visible ≡ true
    → IsValid ws
    → Found false ws.wins 0 o
    → Shown (put_window win o ws).0 (put_window win o ws).1
unfolding put_window
put_window-Shown win none ws used seen v h = v
put_window-Shown win (some k) ws used seen v h =
    let free = from_start ws.wins k false h in
    let inside : k < length ws.wins = omega (arith, h.1.1) in
    let none_there : bit_of (used_at ws.wins k) ≡ 0 = rw free refl in
    let one : bit_of win.used ≡ 1 = rw used refl in
    let now = used_at-set_self ws.wins k win inside in
    (
      record {
        size = length-set ws.wins k win ∙ v.order.size;
        counts = λ i. count-append i ws.zorder (k ∷ []) ∙ (elim (Bool-cases (k == i)) [
          | inl e ↦
              let q : k ≡ i = ground (arith, e) in
              rw e (
                subst (λ t. count t ws.zorder + 1 ≡ bit_of (used_at (set ws.wins k win) t)) q
                  (rw now (omega (arith, v.order.counts k, none_there, one))))
          | inr e ↦
              rw e (rw (used_at-set_other ws.wins k i win e) (omega (arith, v.order.counts i)))
        ]);
        total =
            length-append ws.zorder (k ∷ [])
            ∙ omega (arith, v.order.total, used_count-set ws.wins k win inside, none_there, one);
      },
      now ∙ used,
    )
