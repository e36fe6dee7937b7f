-- ===== src/Keyboard/Tests.antt =====
-- Runs of keyboard.c, and its theorems there.
use red_panda_os.Prelude.{ℕ, ◌≡◌, refl, true, false, some, List, [], ◌∷◌, arith}
use red_panda_os.Ring.{push, poll}
use red_panda_os.Ring.Refine.{IsValid, contents}
use red_panda_os.Input.{key_event}
use red_panda_os.Keyboard.{Keyboard, keyboard_irqs, keyboard_getchar}
use red_panda_os.Keyboard.Refine.{is_plain, all_plain, OnlyPlain}
use red_panda_os.Keyboard.Getchar.{keyboard_getchar-plain, keyboard_getchar_oldest}

abbrev no_keys : Keyboard
no_keys = record {
  shift_down = false;
  ctrl_down = false;
  caps_on = false;
  extended = false;
  kb_buf = record { slots = λ _. 0; head = 0; tail = 0 };
  events = record { slots = λ _. key_event 0; head = 0; tail = 0 };
}

-- Shift down, a, shift up, a, and an arrow: the shell sees two letters.
abbrev typed_keys : Keyboard
typed_keys = keyboard_irqs (0x2A ∷ 0x1E ∷ 0xAA ∷ 0x1E ∷ 0xE0 ∷ 0x48 ∷ []) no_keys

typed_letters : contents typed_keys.kb_buf ≡ 65 ∷ 97 ∷ []
unfolding keyboard_irqs push
typed_letters = refl

typed_keys-IsValid : IsValid typed_keys.kb_buf
unfolding keyboard_irqs push
typed_keys-IsValid = record { head_in = omega arith; tail_in = omega arith }

no_keys-OnlyPlain : OnlyPlain no_keys
unfolding all_plain
no_keys-OnlyPlain = record {
  valid = record { head_in = omega arith; tail_in = omega arith };
  plain = refl;
}

-- The keyboard is asleep, then Ctrl and s are pressed, then s alone.
abbrev arriving : List (List ℕ)
arriving = (0x1D ∷ 0x1F ∷ 0x9D ∷ []) ∷ (0x1F ∷ []) ∷ []

abbrev later_keys : Keyboard
later_keys =
    let k = keyboard_irqs (0x1F ∷ []) (keyboard_irqs (0x1D ∷ 0x1F ∷ 0x9D ∷ []) no_keys) in
    record k { kb_buf = (poll k.kb_buf).1 }

returns_s : keyboard_getchar arriving no_keys ≡ some (115, later_keys)
unfolding keyboard_getchar keyboard_irqs push poll
returns_s = refl

keyboard_getchar-plain_example : (is_plain 115 ≡ true) × OnlyPlain later_keys
keyboard_getchar-plain_example =
    keyboard_getchar-plain arriving no_keys later_keys 115 no_keys-OnlyPlain returns_s

keyboard_getchar_oldest_example :
    (k' : Keyboard) × (keyboard_getchar [] typed_keys ≡ some (65, k'))
    × (contents k'.kb_buf ≡ 97 ∷ [])
keyboard_getchar_oldest_example =
    keyboard_getchar_oldest [] typed_keys 65 (97 ∷ []) typed_keys-IsValid typed_letters
