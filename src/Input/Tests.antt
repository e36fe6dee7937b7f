-- ===== src/Input/Tests.antt =====
-- Runs of the event queue, and its theorems there.
use red_panda_os.Prelude.{◌≡◌, refl, none, some, List, [], ◌∷◌, arith}
use red_panda_os.Fifo
use red_panda_os.Ring.{push, poll, flush}
use red_panda_os.Ring.Refine.{IsValid, contents}
use red_panda_os.Input.{
  Event, Queue, key_event, tick_event, input_push, input_poll, input_flush, input_wait, Op, irq,
  main_poll, main_flush, run,
}
use red_panda_os.Input.Refine.{spec_run, run_refines, input_wait_refines, Waited}

-- Two slots before the end of the array, so that the third push wraps.
abbrev near_end : Queue
near_end = record { slots = λ _. tick_event; head = 126; tail = 126 }

abbrev script : List Op
script =
    irq (key_event 97)
    ∷ irq (key_event 98)
    ∷ irq (key_event 99)
    ∷ main_poll
    ∷ main_poll
    ∷ main_flush
    ∷ main_poll
    ∷ []

near_end-IsValid : IsValid near_end
near_end-IsValid = omega arith

run-script : (run near_end script).0 ≡ some (key_event 97) ∷ some (key_event 98) ∷ none ∷ []
unfolding run input_push input_poll input_flush push poll flush
run-script = refl

run_refines_example :
    ((run near_end script).0 ≡ (spec_run [] script).0)
    × (contents (run near_end script).1 ≡ (spec_run [] script).1)
    × IsValid (run near_end script).1
run_refines_example = run_refines script near_end near_end-IsValid

abbrev arrivals : List (List Event)
arrivals = [] ∷ (key_event 97 ∷ key_event 98 ∷ []) ∷ []

wait-arrivals : Fifo.wait 127 arrivals [] ≡ some (key_event 97, key_event 98 ∷ [])
unfolding Fifo.wait Fifo.push_all Fifo.push
wait-arrivals = refl

input_wait_refines_example : Waited (input_wait arrivals near_end) (Fifo.wait 127 arrivals [])
input_wait_refines_example = input_wait_refines arrivals near_end near_end-IsValid
