-- ===== src/Mouse/Tests.antt =====
-- Runs of kernel/mouse.c's handler, and its theorems there.
use red_panda_os.Prelude.{bit_xor, ◌≡◌, refl, false, none, arith}
use red_panda_os.Prelude.Int.{pos, ◌+ℤ◌, ◌-ℤ◌, ◌*ℤ◌}
use red_panda_os.Fb.{Fb}
use red_panda_os.Mouse.{
  Desk, accel, clamp, button_events, moved, delta, process_packet, mouse_irq, mouse_start,
}
use red_panda_os.Input.{tick_event}
use red_panda_os.Mouse.Inv.{IsValid, mouse_irq-IsValid}
use red_panda_os.Mouse.Buttons.{heard, button_events-tell}

abbrev screen : Fb
screen = record {
  lfb = λ o. 0;
  backbuf = none;
  mode = record { width = 20; height = 10; pitch = 80; bypp = 4 };
  cur_sprite = none;
  cur_w = 0;
  cur_h = 0;
  cur_hx = pos 0;
  cur_hy = pos 0;
  cur_x = pos 0;
  cur_y = pos 0;
  cur_visible = false;
}

abbrev started : Desk
started = record {
  mouse = mouse_start screen;
  queue = record { slots = λ _. tick_event; head = 0; tail = 0 };
  fb = screen;
}

started-IsValid : IsValid started
unfolding mouse_start
started-IsValid = record {
  room = refl;
  in_packet = omega arith;
  in_sync = λ h. absurd (omega (arith, h));
  on_x = (refl, omega arith);
  on_y = (refl, omega arith);
}

-- A packet of 200 to the right with the left button down, after a stray byte.
abbrev pushed : Desk
pushed = mouse_irq 0 (mouse_irq 200 (mouse_irq 0x09 (mouse_irq 0x40 started)))

pushed-mx : pushed.mouse.mx ≡ pos 19
unfolding mouse_irq process_packet moved delta accel clamp mouse_start ◌+ℤ◌ ◌-ℤ◌ ◌*ℤ◌
pushed-mx = refl

pushed-buttons : pushed.mouse.buttons ≡ 1
unfolding mouse_irq process_packet moved delta accel clamp mouse_start ◌+ℤ◌ ◌-ℤ◌ ◌*ℤ◌
pushed-buttons = refl

mouse_irq-IsValid_example : IsValid (mouse_irq 0x09 started)
mouse_irq-IsValid_example =
    mouse_irq-IsValid 0x09 started (omega arith) (omega arith) started-IsValid

button_events-tell_example : heard 1 (button_events 3 0 (bit_xor 6 1) 6 (pos 4) (pos 5)) ≡ 6
button_events-tell_example = button_events-tell 1 6 (pos 4) (pos 5) (omega arith) (omega arith)
