-- ===== src/Interrupts/Tests.antt =====
-- Interrupts on a small board.
use red_panda_os.Prelude.{
  ℕ, ◌+◌, ◌*◌, ◌%◌, ◌≡◌, refl, ◌&&◌, Option, none, some, [], ◌∷◌, arith, ◌==◌, if◌then◌else◌,
  get_or, replicate,
}
use red_panda_os.Interrupts.{
  Registers, empty_gate, idt_init, on_keyboard, Handlers, returned, halted, Board,
  interrupt_dispatch,
}
use red_panda_os.Interrupts.Gates.{address, idt_init_lem}
use red_panda_os.Interrupts.Dispatch.{Controllers, interrupt_dispatch-ends}

abbrev stubs : ℕ → ℕ
stubs i = 0x10000 + i % 48 * 16

idt_init_lem_example :
    let g = get_or (idt_init stubs (replicate 256 empty_gate)) 44 empty_gate in
    (address g ≡ stubs 44) × (g.flags ≡ 0x8E) × (g.selector ≡ 0x08)
idt_init_lem_example = idt_init_lem stubs 44 (λ i. omega arith)

-- The lines in service on the master and on the slave.
abbrev Lines : Type 0
Lines = Option ℕ × Option ℕ

abbrev after_out : ℕ → ℕ → Lines → Lines
after_out port v (m, s) =
    if (port == 0x20) && (v == 0x20)
    then (none, s)
    else if (port == 0xA0) && (v == 0x20)
    then (m, none)
    else (m, s)

abbrev board : Board Lines
board = record {
  ports = record {
    inb = λ port s. (0, s);
    outb = after_out;
    insw = λ port n s. ([], s);
    outsw = λ port ws s. s;
  };
  handle = λ h r s. s;
  console_print = λ cs s. s;
  console_set_color = λ f b s. s;
  console_clear = λ s. s;
  cr2 = λ s. 0;
}

abbrev board-Controllers : Controllers board
board-Controllers = record {
  master = λ s. s.0;
  slave = λ s. s.1;
  ends_master = λ s. (refl, refl);
  ends_slave = λ s. (refl, refl);
  handlers_keep = λ h r s. (refl, refl);
}

abbrev trap : ℕ → Registers
trap n = record {
  gs = 16;
  fs = 16;
  es = 16;
  ds = 16;
  edi = 0;
  esi = 0;
  ebp = 0;
  esp = 0;
  ebx = 0;
  edx = 0;
  ecx = 0;
  eax = 0;
  int_no = n;
  err_code = 0;
  eip = 0x10000;
  cs = 8;
  eflags = 2;
}

abbrev drivers : Handlers
drivers = none ∷ some on_keyboard ∷ []

-- The mouse, on line 12, and a page fault.
interrupt_dispatch-ends_example :
    ((s' : Lines) × (interrupt_dispatch board drivers (trap 44) (some 2, some 4) ≡ returned s')
      × (s'.0 ≡ none)
      × (s'.1 ≡ none))
    × ((t' : Lines) × (interrupt_dispatch board drivers (trap 14) (none, none) ≡ halted t'))
interrupt_dispatch-ends_example =
    interrupt_dispatch-ends board board-Controllers drivers (trap 44) (trap 14) (some 2, some 4)
      (none, none) 12 (omega arith) refl (record { on_master = refl; on_slave = refl })
      (omega arith)
