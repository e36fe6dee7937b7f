-- ===== src/Interrupts/Dispatch.antt =====
-- kernel/isr.c and kernel/pic.c: that a line is free again when its interrupt is over.
use red_panda_os.Prelude.{
  ℕ, ◌+◌, ◌-◌, ◌<◌, ◌≡◌, refl, ◌∙◌, inl, inr, true, false, Option, none, some, arith, ltb, leb,
  if◌then◌else◌, Bool-cases, get_or, u8,
}
use red_panda_os.Interrupts.{
  Registers, Handler, Handlers, returned, halted, Board, pic1_cmd, pic2_cmd, pic_eoi, pic_send_eoi,
  call_handler, panic, panic_report, interrupt_dispatch,
}

-- What the code relies on of the two interrupt controllers: each has at most one line in service,
-- since interrupts are off meanwhile, and the command for the end of an interrupt ends it. No handler
-- touches them.
pub record Controllers {S : Type 0} (b : Board S) : Type 0 where
  pub master : S → Option ℕ
  pub slave : S → Option ℕ
  pub ends_master :
      (s : S)
      → (master (b.ports.outb pic1_cmd pic_eoi s) ≡ none)
        × (slave (b.ports.outb pic1_cmd pic_eoi s) ≡ slave s)
  pub ends_slave :
      (s : S)
      → (slave (b.ports.outb pic2_cmd pic_eoi s) ≡ none)
        × (master (b.ports.outb pic2_cmd pic_eoi s) ≡ master s)
  pub handlers_keep :
      (h : Handler) (r : Registers) (s : S)
      → (master (b.handle h r s) ≡ master s) × (slave (b.handle h r s) ≡ slave s)

-- The line of an interrupt as the controllers have it: the slave hangs on the master's line 2.
pub record Serves {S : Type 0} {b : Board S} (c : Controllers b) (irq : ℕ) (s : S) : Type 0 where
  pub on_master : c.master s ≡ some (if ltb irq 8 then irq else 2)
  pub on_slave : c.slave s ≡ (if ltb irq 8 then none else some (irq - 8))

module _ {S : Type 0} (b : Board S) (c : Controllers b) where
  call_handler-slave :
      (h : Option Handler) (r : Registers) (s : S) → c.slave (call_handler b h r s) ≡ c.slave s
  unfolding call_handler
  call_handler-slave none r s = refl
  call_handler-slave (some h) r s = (c.handlers_keep h r s).1

  pic_send_eoi_lem :
      (irq : ℕ) (s : S)
      → c.slave s ≡ (if ltb irq 8 then none else some (irq - 8))
      → (c.master (pic_send_eoi b irq s) ≡ none) × (c.slave (pic_send_eoi b irq s) ≡ none)
  unfolding pic_send_eoi
  pic_send_eoi_lem irq s e = elim (Bool-cases (ltb irq 8)) [
    | inl low ↦
        let off : leb 8 irq ≡ false = ground (arith, low) in
        let idle : c.slave s ≡ none = rw low at e in
        let (m, q) = c.ends_master s in rw (off, pic_send_eoi) (m, q ∙ idle)
    | inr high ↦
        let on : leb 8 irq ≡ true = ground (arith, high) in
        let (q, _) = c.ends_slave s in
        let (m, q') = c.ends_master (b.ports.outb pic2_cmd pic_eoi s) in
        rw (on, pic_send_eoi) (m, q' ∙ q)
  ]

  -- A hardware interrupt on any of the 16 lines, with or without a handler, returns with neither
  -- controller holding a line in service, so that the next interrupt can come; an exception of the
  -- processor never returns.
  pub interrupt_dispatch-ends :
      (handlers : Handlers) (r fault : Registers) (s t : S) (irq : ℕ)
      → irq < 16
      → r.int_no ≡ irq + 32
      → Serves c irq s
      → fault.int_no < 32
      → ((s' : S) × (interrupt_dispatch b handlers r s ≡ returned s')
          × (c.master s' ≡ none)
          × (c.slave s' ≡ none))
        × ((t' : S) × (interrupt_dispatch b handlers fault t ≡ halted t'))
  unfolding interrupt_dispatch panic
  interrupt_dispatch-ends handlers r fault s t irq small e serves below =
      let line : u8 (r.int_no - 32) ≡ irq = omega (arith, small, e) in
      let hard : ltb r.int_no 32 ≡ false = ground (arith, e) in
      let trap : ltb fault.int_no 32 ≡ true = ground (arith, below) in
      let s1 = call_handler b (get_or handlers (r.int_no - 32) none) r s in
      let (m, q) =
        pic_send_eoi_lem irq s1
          (call_handler-slave (get_or handlers (r.int_no - 32) none) r s ∙ serves.on_slave) in
      (
        (pic_send_eoi b irq s1, rw (hard, line, interrupt_dispatch) refl, m, q),
        (panic_report b fault t, rw (trap, interrupt_dispatch) refl),
      )
