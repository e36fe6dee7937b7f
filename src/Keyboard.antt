-- ===== src/Keyboard.antt =====
-- kernel/keyboard.c: the scancodes of the keyboard become characters for the shell and events for
-- the graphical interface. A byte of `char` is a number below 256; the port's byte is an argument.
pub mod Refine
pub mod Getchar
pub mod Start
mod Tests
use red_panda_os.Prelude.{
  ℕ, zero, suc, ◌+◌, ◌-◌, ◌*◌, ◌/◌, ◌%◌, ◌^◌, ◌≤◌, ◌<◌, min, max, bit_and, bit_or, bit_xor, ◌≡◌,
  refl, sym, ap, ap₂, ◌∙◌, fun_ext, subst, ◌≢◌, ◌↔◌, ◌⊎◌, inl, inr, Bool, true, false, not, ◌&&◌,
  ◌||◌, Option, none, some, List, [], ◌∷◌, ◌++◌, map, arith, ltb, leb, ◌==◌, if◌then◌else◌, ltb→lt,
  lt→ltb, leb→le, ==_iff, tests, Bool-cases, Option-cases, length, get_elem?, get_or, set, take,
  drop, replicate, length-append, length-set, length-take, length-drop, length-replicate,
  take-append-drop, get_elem?-set_self, get_elem?-set_ne, length-map, u8, u16, u32, u64, sub32, shr,
  shl,
}
use red_panda_os.Ring.{Ring, push, poll}
use red_panda_os.Input.{Event, Queue, key_event, input_push}

-- The static variables of keyboard.c, and the event queue.
pub record Keyboard : Type 0 where
  pub shift_down : Bool
  pub ctrl_down : Bool
  pub caps_on : Bool
  pub extended : Bool
  pub kb_buf : Ring ℕ
  pub events : Queue

abbrev pub keymap : List ℕ
keymap =
    0 ∷ 27 ∷ 49 ∷ 50 ∷ 51 ∷ 52 ∷ 53 ∷ 54 ∷ 55 ∷ 56 ∷ 57 ∷ 48 ∷ 45 ∷ 61 ∷ 8 ∷ 9 ∷ 113 ∷ 119 ∷ 101
    ∷ 114 ∷ 116 ∷ 121 ∷ 117 ∷ 105 ∷ 111 ∷ 112 ∷ 91 ∷ 93 ∷ 10 ∷ 0 ∷ 97 ∷ 115 ∷ 100 ∷ 102 ∷ 103 ∷ 104
    ∷ 106 ∷ 107 ∷ 108 ∷ 59 ∷ 39 ∷ 96 ∷ 0 ∷ 92 ∷ 122 ∷ 120 ∷ 99 ∷ 118 ∷ 98 ∷ 110 ∷ 109 ∷ 44 ∷ 46 ∷ 47
    ∷ 0 ∷ 42 ∷ 0 ∷ 32 ∷ []

abbrev pub keymap_shift : List ℕ
keymap_shift =
    0 ∷ 27 ∷ 33 ∷ 64 ∷ 35 ∷ 36 ∷ 37 ∷ 94 ∷ 38 ∷ 42 ∷ 40 ∷ 41 ∷ 95 ∷ 43 ∷ 8 ∷ 9 ∷ 81 ∷ 87 ∷ 69 ∷ 82
    ∷ 84 ∷ 89 ∷ 85 ∷ 73 ∷ 79 ∷ 80 ∷ 123 ∷ 125 ∷ 10 ∷ 0 ∷ 65 ∷ 83 ∷ 68 ∷ 70 ∷ 71 ∷ 72 ∷ 74 ∷ 75 ∷ 76
    ∷ 58 ∷ 34 ∷ 126 ∷ 0 ∷ 124 ∷ 90 ∷ 88 ∷ 67 ∷ 86 ∷ 66 ∷ 78 ∷ 77 ∷ 60 ∷ 62 ∷ 63 ∷ 0 ∷ 42 ∷ 0 ∷ 32
    ∷ []

-- An entry of the tables that the initializer leaves out is zero.
unfoldable pub lookup : List ℕ → ℕ → ℕ
lookup table sc = get_or table sc 0

-- The character of a scancode, before Ctrl and Caps Lock.
unfoldable pub translate : Bool → ℕ → ℕ
unfolding lookup
translate shift sc = if shift then lookup keymap_shift sc else lookup keymap sc

unfoldable pub push_special : ℕ → Keyboard → Keyboard
push_special code k = record k { events = input_push k.events (key_event code) }

-- The `switch` behind an 0xE0 prefix.
unfoldable pub extended_key : ℕ → Keyboard → Keyboard
unfolding push_special
extended_key sc k =
    if sc == 0x1D
    then record k { ctrl_down = true }
    else if sc == 0x9D
    then record k { ctrl_down = false }
    else if sc == 0x48
    then push_special 0x82 k
    else if sc == 0x50
    then push_special 0x83 k
    else if sc == 0x4B
    then push_special 0x80 k
    else if sc == 0x4D
    then push_special 0x81 k
    else if sc == 0x47
    then push_special 0x84 k
    else if sc == 0x4F
    then push_special 0x85 k
    else if sc == 0x53
    then push_special 0x86 k
    else k

-- A release of the key `key`.
unfoldable pub release_key : ℕ → Keyboard → Keyboard
release_key key k = record k {
  shift_down = if key == 0x2A || key == 0x36 then false else k.shift_down;
  ctrl_down = if key == 0x1D then false else k.ctrl_down;
}

-- A character under Ctrl: only s, z and y become a control code.
unfoldable pub ctrl_char : ℕ → Keyboard → Keyboard
unfolding push_special
ctrl_char c k =
    let lo = bit_or c 0x20 in
    if lo == 115 || (lo == 122 || lo == 121) then push_special (u8 (lo - 97 + 1)) k else k

unfoldable pub is_letter : ℕ → Bool
is_letter c = (leb 97 c && leb c 122) || (leb 65 c && leb c 90)

unfoldable pub caps_char : Bool → ℕ → ℕ
unfolding is_letter
caps_char caps c = if caps && is_letter c then bit_xor c 0x20 else c

-- A character for both queues.
unfoldable pub type_char : ℕ → Keyboard → Keyboard
type_char c k = record k { kb_buf = push k.kb_buf c; events = input_push k.events (key_event c) }

-- A key that is translated by the tables.
unfoldable pub plain_key : ℕ → Keyboard → Keyboard
unfolding translate ctrl_char caps_char type_char
plain_key sc k =
    let c = translate k.shift_down sc in
    if c == 0 then k else if k.ctrl_down then ctrl_char c k else type_char (caps_char k.caps_on c) k

unfoldable pub keyboard_irq : ℕ → Keyboard → Keyboard
unfolding extended_key release_key plain_key
keyboard_irq sc k =
    if sc == 0xE0
    then record k { extended = true }
    else if k.extended
    then extended_key sc (record k { extended = false })
    else if not (bit_and sc 0x80 == 0)
    then release_key (bit_and sc 0x7F) k
    else if sc == 0x2A || sc == 0x36
    then record k { shift_down = true }
    else if sc == 0x1D
    then record k { ctrl_down = true }
    else if sc == 0x3A
    then record k { caps_on = not k.caps_on }
    else if sc == 0x58
    then push_special 0x05 k
    else plain_key sc k

-- The bytes of the keyboard, one interrupt after the other.
unfoldable pub keyboard_irqs : List ℕ → Keyboard → Keyboard
unfolding keyboard_irq
keyboard_irqs [] k = k
keyboard_irqs (sc ∷ scs) k = keyboard_irqs scs (keyboard_irq sc k)

-- The loop sleeps in `hlt` while the buffer is empty; each list is what the keyboard sends during
-- one sleep, and `none` means that the reader still sleeps when the lists are used up.
unfoldable pub keyboard_getchar : List (List ℕ) → Keyboard → Option (ℕ × Keyboard)
unfolding keyboard_irqs
keyboard_getchar [] k =
    let (got, rest) = poll k.kb_buf in
    elim got [ some c ↦ some (c, record k { kb_buf = rest }) | none ↦ none ]
keyboard_getchar (scs ∷ arrivals) k =
    let (got, rest) = poll k.kb_buf in
    let again = keyboard_getchar arrivals (keyboard_irqs scs k) in
    elim got [ some c ↦ some (c, record k { kb_buf = rest }) | none ↦ again ]
