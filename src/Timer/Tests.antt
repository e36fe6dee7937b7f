-- ===== src/Timer/Tests.antt =====
-- A run of timer.c, and its theorem.
use red_panda_os.Prelude.{◌≡◌, refl, [], ◌∷◌, arith}
use red_panda_os.Ring.Refine.{IsValid, contents}
use red_panda_os.Input.{tick_event, input_push}
use red_panda_os.Ring.{push}
use red_panda_os.Timer.{Timer, timer_irqs, timer_ticks, timer_hz}
use red_panda_os.Timer.Seconds.{Passed, timer_irqs-Passed}

-- Four interrupts in a second.
abbrev started : Timer
started = record {
  ticks = 0;
  hz = 4;
  events = record { slots = λ _. tick_event; head = 5; tail = 5 };
}

two_seconds : contents (timer_irqs 11 started).events ≡ tick_event ∷ tick_event ∷ []
unfolding timer_irqs input_push push
two_seconds = refl

counters : (timer_ticks (timer_irqs 11 started) ≡ 11) × (timer_hz (timer_irqs 11 started) ≡ 4)
unfolding timer_irqs timer_ticks timer_hz
counters = (refl, refl)

started-IsValid : IsValid started.events
started-IsValid = record { head_in = omega arith; tail_in = omega arith }

timer_irqs-Passed_example : Passed started 11 (timer_irqs 11 started)
timer_irqs-Passed_example =
    timer_irqs-Passed started started-IsValid (omega arith) refl 11 (omega arith)
