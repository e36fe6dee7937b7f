-- ===== src/Timer/Start.antt =====
-- kernel/timer.c: programming the timer chip, over the machine's ports.
use red_panda_os.Prelude.{ℕ, ◌/◌, u8, shr}
use red_panda_os.Ata.{Ports}
use red_panda_os.Timer.{Timer}
use red_panda_os.Interrupts.{Handlers, irq_register, on_timer}

abbrev pub pit_base_hz : ℕ
pit_base_hz = 1193182

abbrev pub pit_channel0 : ℕ
pit_channel0 = 0x40

abbrev pub pit_command : ℕ
pit_command = 0x43

module _ {S : Type 0} (p : Ports S) where
  unfoldable pub timer_init : ℕ → Timer × Handlers × S → Timer × Handlers × S
  unfolding irq_register
  timer_init freq (t, handlers, s) =
      let divisor = pit_base_hz / freq in
      let s1 = p.outb pit_command 0x36 s in
      let s2 = p.outb pit_channel0 (u8 (shr divisor 8)) (p.outb pit_channel0 (u8 divisor) s1) in
      (record t { hz = freq }, irq_register 0 on_timer handlers, s2)
