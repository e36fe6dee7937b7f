-- ===== src/Keyboard/Start.antt =====
-- kernel/keyboard.c: starting the keyboard, over the machine's ports.
use red_panda_os.Prelude.{ℕ, zero, suc, bit_and, true, false, Option, none, some, ◌==◌}
use red_panda_os.Ata.{Ports}
use red_panda_os.Interrupts.{Handlers, irq_register, on_keyboard}

abbrev pub kbd_data : ℕ
kbd_data = 0x60

abbrev pub kbd_status : ℕ
kbd_status = 0x64

module _ {S : Type 0} (p : Ports S) where
  -- The loop that empties the controller, with at most `fuel` bytes in it; `none` when it has not
  -- ended.
  unfoldable pub drain : ℕ → S → Option S
  drain zero s = none
  drain (suc fuel) s =
      let (state, s1) = p.inb kbd_status s in
      elim (bit_and state 1 == 0) [ true ↦ some s1 | false ↦ drain fuel (p.inb kbd_data s1).1 ]

  unfoldable pub keyboard_init : ℕ → Handlers × S → Option (Handlers × S)
  unfolding drain irq_register
  keyboard_init fuel (handlers, s) = elim (drain fuel s) [
    | none ↦ none
    | some s1 ↦ some (irq_register 1 on_keyboard handlers, s1)
  ]
