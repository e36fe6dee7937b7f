-- ===== src/Timer.antt =====
-- kernel/timer.c: the tick counter, and one event for each second. Timer/Start has the programming
-- of the chip.
pub mod Seconds
pub mod Start
mod Tests
use red_panda_os.Prelude.{
  ℕ, zero, suc, ◌+◌, ◌-◌, ◌*◌, ◌/◌, ◌%◌, ◌^◌, ◌≤◌, ◌<◌, min, max, bit_and, bit_or, bit_xor, ◌≡◌,
  refl, sym, ap, ap₂, ◌∙◌, fun_ext, subst, ◌≢◌, ◌↔◌, ◌⊎◌, inl, inr, Bool, true, false, not, ◌&&◌,
  ◌||◌, Option, none, some, List, [], ◌∷◌, ◌++◌, map, arith, ltb, leb, ◌==◌, if◌then◌else◌, ltb→lt,
  lt→ltb, leb→le, ==_iff, tests, Bool-cases, Option-cases, length, get_elem?, get_or, set, take,
  drop, replicate, length-append, length-set, length-take, length-drop, length-replicate,
  take-append-drop, get_elem?-set_self, get_elem?-set_ne, length-map, u8, u16, u32, u64, sub32, shr,
  shl,
}
use red_panda_os.Input.{Queue, input_push, tick_event}

-- `ticks` and `hz`, and the event queue.
pub record Timer : Type 0 where
  pub ticks : ℕ
  pub hz : ℕ
  pub events : Queue

unfoldable pub timer_irq : Timer → Timer
timer_irq t =
    let ticks = u32 (t.ticks + 1) in
    record t {
      ticks = ticks;
      events =
          if not (t.hz == 0) && (ticks % t.hz == 0)
          then input_push t.events tick_event
          else t.events;
    }

-- One interrupt after the other.
unfoldable pub timer_irqs : ℕ → Timer → Timer
unfolding timer_irq
timer_irqs zero t = t
timer_irqs (suc n) t = timer_irq (timer_irqs n t)

unfoldable pub timer_ticks : Timer → ℕ
timer_ticks t = t.ticks

unfoldable pub timer_hz : Timer → ℕ
timer_hz t = t.hz
