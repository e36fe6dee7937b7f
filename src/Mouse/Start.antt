-- ===== src/Mouse/Start.antt =====
-- kernel/mouse.c: starting the mouse, over the machine's ports.
use red_panda_os.Prelude.{
  ℕ, zero, suc, bit_and, bit_or, Bool, true, false, not, Option, none, some, ◌==◌, if◌then◌else◌,
}
use red_panda_os.Ata.{Ports}
use red_panda_os.Fb.{Fb}
use red_panda_os.Keyboard.Start.{drain}
use red_panda_os.Mouse.{Mouse, mouse_start}
use red_panda_os.Interrupts.{Handlers, irq_register, on_mouse}

abbrev pub ps2_data : ℕ
ps2_data = 0x60

abbrev pub ps2_status : ℕ
ps2_status = 0x64

abbrev pub ps2_cmd : ℕ
ps2_cmd = 0x64

module _ {S : Type 0} (p : Ports S) where
  -- A wait, with `rounds` left, until a bit of the status is clear or, where `want` holds, set.
  unfoldable pub ps2_wait : Bool → ℕ → ℕ → S → S
  ps2_wait want mask zero s = s
  ps2_wait want mask (suc rounds) s =
      let (state, s1) = p.inb ps2_status s in
      let ready = if want then not (bit_and state mask == 0) else bit_and state mask == 0 in
      elim ready [ true ↦ s1 | false ↦ ps2_wait want mask rounds s1 ]

  unfoldable pub ps2_wait_write : S → S
  unfolding ps2_wait
  ps2_wait_write s = ps2_wait false 2 100000 s

  unfoldable pub ps2_wait_read : S → S
  unfolding ps2_wait
  ps2_wait_read s = ps2_wait true 1 100000 s

  -- A byte for the controller, once it can take one.
  unfoldable pub ps2_put : ℕ → ℕ → S → S
  unfolding ps2_wait_write
  ps2_put port b s = p.outb port b (ps2_wait_write s)

  unfoldable pub mouse_write : ℕ → S → S
  unfolding ps2_put ps2_wait_read
  mouse_write b s = (p.inb ps2_data (ps2_wait_read (ps2_put ps2_data b (ps2_put ps2_cmd 0xD4 s)))).1

  -- The controller's configuration: line 12 on, and the mouse's clock running.
  unfoldable pub set_config : S → S
  unfolding ps2_put ps2_wait_read
  set_config s =
      let (cfg, s1) = p.inb ps2_data (ps2_wait_read (ps2_put ps2_cmd 0x20 s)) in
      let cfg' = bit_and (bit_or cfg 0x02) 0xDF in ps2_put ps2_data cfg' (ps2_put ps2_cmd 0x60 s1)

  unfoldable pub mouse_init : ℕ → Fb → Handlers × S → Option (Mouse × Handlers × S)
  unfolding ps2_put set_config mouse_write drain irq_register mouse_start
  mouse_init fuel fb (handlers, s) =
      let s1 = set_config (ps2_put ps2_cmd 0xA8 s) in
      let s2 = mouse_write 0xF4 (mouse_write 200 (mouse_write 0xF3 (mouse_write 0xF6 s1))) in
      elim (drain p fuel s2) [
        | none ↦ none
        | some s3 ↦ some (mouse_start fb, irq_register 12 on_mouse handlers, s3)
      ]
