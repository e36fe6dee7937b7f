-- ===== src/Interrupts.antt =====
-- kernel/isr.c, kernel/idt.c and kernel/pic.c: the gates of the descriptor table, the handlers of the
-- hardware interrupts, and the end of an interrupt. The ports, the console and the handlers' own work
-- are behind the interface `Board`; the table's loading is an instruction that is not modelled.
pub mod Gates
pub mod Dispatch
mod Tests
use red_panda_os.Prelude.{
  ℕ, zero, suc, ◌+◌, ◌-◌, ◌*◌, ◌/◌, ◌%◌, ◌^◌, ◌≤◌, ◌<◌, min, max, bit_and, bit_or, bit_xor, ◌≡◌,
  refl, sym, ap, ap₂, ◌∙◌, fun_ext, subst, ◌≢◌, ◌↔◌, ◌⊎◌, inl, inr, Bool, true, false, not, ◌&&◌,
  ◌||◌, Option, none, some, List, [], ◌∷◌, ◌++◌, map, arith, ltb, leb, ◌==◌, if◌then◌else◌, ltb→lt,
  lt→ltb, leb→le, ==_iff, tests, Bool-cases, Option-cases, length, get_elem?, get_or, set, take,
  drop, replicate, length-append, length-set, length-take, length-drop, length-replicate,
  take-append-drop, get_elem?-set_self, get_elem?-set_ne, length-map, u8, u16, u32, u64, sub32, shr,
  shl,
}
use red_panda_os.Prelude.Chars.{chars}
use red_panda_os.Ata.{Ports}
use red_panda_os.Kprintf.{Arg, word, string}
use red_panda_os.Shell.{shown}
use Prim.Native.String.{String}

-- `registers_t`
pub record Registers : Type 0 where
  pub gs : ℕ
  pub fs : ℕ
  pub es : ℕ
  pub ds : ℕ
  pub edi : ℕ
  pub esi : ℕ
  pub ebp : ℕ
  pub esp : ℕ
  pub ebx : ℕ
  pub edx : ℕ
  pub ecx : ℕ
  pub eax : ℕ
  pub int_no : ℕ
  pub err_code : ℕ
  pub eip : ℕ
  pub cs : ℕ
  pub eflags : ℕ

-- `struct idt_entry`
pub record Gate : Type 0 where
  pub base_low : ℕ
  pub selector : ℕ
  pub zero_byte : ℕ
  pub flags : ℕ
  pub base_high : ℕ

abbrev pub empty_gate : Gate
empty_gate = record { base_low = 0; selector = 0; zero_byte = 0; flags = 0; base_high = 0 }

unfoldable pub gate_of : ℕ → Gate
gate_of handler = record {
  base_low = bit_and handler 0xFFFF;
  selector = 0x08;
  zero_byte = 0;
  flags = 0x8E;
  base_high = u16 (shr handler 16);
}

-- The gate of vector `n` in the table of 256.
unfoldable pub set_gate : ℕ → ℕ → List Gate → List Gate
unfolding gate_of
set_gate n handler idt = set idt n (gate_of handler)

-- The loop from vector `i` on, with `rounds` left.
unfoldable pub set_gates : ℕ → ℕ → (ℕ → ℕ) → List Gate → List Gate
unfolding set_gate
set_gates zero i stubs idt = idt
set_gates (suc rounds) i stubs idt = set_gates rounds (suc i) stubs (set_gate i (stubs i) idt)

-- `stubs` is the table of isr.asm.
unfoldable pub idt_init : (ℕ → ℕ) → List Gate → List Gate
unfolding set_gates
idt_init stubs idt = set_gates 48 0 stubs idt

-- The handlers that the drivers register.
pub data Handler : Type 0 where
  on_timer on_keyboard on_mouse : Handler

-- `irq_handlers`, with the null pointer as `none`.
abbrev pub Handlers : Type 0
Handlers = List (Option Handler)

unfoldable pub irq_register : ℕ → Handler → Handlers → Handlers
irq_register irq handler handlers = set handlers irq (some handler)

-- How a C function ends: it returns, or stops the machine.
pub data Outcome (S : Type 0) : Type 0 where
  returned : S → Outcome S
  halted : S → Outcome S

-- What the code uses of the machine; `handle` is a call of a handler, and `cr2` the register.
pub record Board (S : Type 0) : Type 0 where
  pub ports : Ports S
  pub handle : Handler → Registers → S → S
  pub console_print : List ℕ → S → S
  pub console_set_color : ℕ → ℕ → S → S
  pub console_clear : S → S
  pub cr2 : S → ℕ

abbrev pub pic1_cmd : ℕ
pic1_cmd = 0x20

abbrev pub pic1_data : ℕ
pic1_data = 0x21

abbrev pub pic2_cmd : ℕ
pic2_cmd = 0xA0

abbrev pub pic2_data : ℕ
pic2_data = 0xA1

abbrev pub pic_eoi : ℕ
pic_eoi = 0x20

unfoldable pub exception_names : List (List ℕ)
unfolding chars
exception_names =
    chars "Divide Error"
    ∷ chars "Debug"
    ∷ chars "Non-Maskable Interrupt"
    ∷ chars "Breakpoint"
    ∷ chars "Overflow"
    ∷ chars "Bound Range Exceeded"
    ∷ chars "Invalid Opcode"
    ∷ chars "Device Not Available"
    ∷ chars "Double Fault"
    ∷ chars "Coprocessor Segment Overrun"
    ∷ chars "Invalid TSS"
    ∷ chars "Segment Not Present"
    ∷ chars "Stack-Segment Fault"
    ∷ chars "General Protection Fault"
    ∷ chars "Page Fault"
    ∷ chars "Reserved"
    ∷ chars "x87 Floating-Point Error"
    ∷ chars "Alignment Check"
    ∷ chars "Machine Check"
    ∷ chars "SIMD Floating-Point Error"
    ∷ chars "Virtualization Error"
    ∷ chars "Control Protection Error"
    ∷ chars "Reserved"
    ∷ chars "Reserved"
    ∷ chars "Reserved"
    ∷ chars "Reserved"
    ∷ chars "Reserved"
    ∷ chars "Reserved"
    ∷ chars "Reserved"
    ∷ chars "Reserved"
    ∷ chars "Reserved"
    ∷ chars "Reserved"
    ∷ []

module _ {S : Type 0} (b : Board S) where
  unfoldable pub pic_init : S → S
  pic_init s =
      let out = b.ports.outb in
      let s1 = out pic2_cmd 0x11 (out pic1_cmd 0x11 s) in
      let s2 = out pic2_data 0x28 (out pic1_data 0x20 s1) in
      let s3 = out pic2_data 0x02 (out pic1_data 0x04 s2) in
      let s4 = out pic2_data 0x01 (out pic1_data 0x01 s3) in
      out pic2_data 0xEF (out pic1_data 0xF8 s4)

  unfoldable pub pic_send_eoi : ℕ → S → S
  pic_send_eoi irq s =
      b.ports.outb pic1_cmd pic_eoi (if leb 8 irq then b.ports.outb pic2_cmd pic_eoi s else s)

  unfoldable pub report : String → List Arg → S → S
  unfolding shown
  report fmt args s = b.console_print (shown fmt args) s

  unfoldable pub fault_address : Registers → S → S
  unfolding report
  fault_address r s =
      if r.int_no == 14
      then report "   faulting address (cr2): %08x\n" (word (b.cr2 s) ∷ []) s
      else s

  unfoldable pub dump_registers : Registers → S → S
  unfolding report
  dump_registers r s =
      let s1 =
        report "   eip=%08x  cs=%08x  eflags=%08x\n" (word r.eip ∷ word r.cs ∷ word r.eflags ∷ [])
          s in
      let s2 =
        report "   eax=%08x ebx=%08x ecx=%08x edx=%08x\n"
          (word r.eax ∷ word r.ebx ∷ word r.ecx ∷ word r.edx ∷ []) s1 in
      let s3 =
        report "   esi=%08x edi=%08x ebp=%08x esp=%08x\n"
          (word r.esi ∷ word r.edi ∷ word r.ebp ∷ word r.esp ∷ []) s2 in
      report "   ds=%08x  es=%08x  fs=%08x  gs=%08x\n"
        (word r.ds ∷ word r.es ∷ word r.fs ∷ word r.gs ∷ []) s3

  -- What `panic` shows, white on red.
  unfoldable pub panic_report : Registers → S → S
  unfolding report exception_names fault_address dump_registers
  panic_report r s =
      let s1 = b.console_clear (b.console_set_color 15 4 s) in
      let s2 = report "\n\n   KERNEL PANIC  (the red panda fell out of the tree)\n\n" [] s1 in
      let s3 =
        report "   exception %u: %s\n"
          (word r.int_no ∷ string (some (get_or exception_names r.int_no [])) ∷ []) s2 in
      let s4 = report "   error code: %08x\n" (word r.err_code ∷ []) s3 in
      let s5 = report "\n" [] (fault_address r s4) in
      report "\n   System halted." [] (dump_registers r s5)

  -- The loop behind the report never ends.
  unfoldable pub panic : Registers → S → Outcome S
  unfolding panic_report
  panic r s = halted (panic_report r s)

  -- The handler of a line, if there is one.
  unfoldable pub call_handler : Option Handler → Registers → S → S
  call_handler none r s = s
  call_handler (some handler) r s = b.handle handler r s

  unfoldable pub interrupt_dispatch : Handlers → Registers → S → Outcome S
  unfolding panic call_handler pic_send_eoi
  interrupt_dispatch handlers r s =
      let irq = r.int_no - 32 in
      if ltb r.int_no 32
      then panic r s
      else returned (pic_send_eoi (u8 irq) (call_handler (get_or handlers irq none) r s))
