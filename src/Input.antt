-- ===== src/Input.antt =====
-- kernel/input.c and kernel/input.h: the queue of input events between the interrupt handlers and
-- the main thread. Masking interrupts makes each call one step.
pub mod Refine
mod Tests
use red_panda_os.Prelude.{
  ℕ, zero, suc, ◌+◌, ◌-◌, ◌*◌, ◌/◌, ◌%◌, ◌^◌, ◌≤◌, ◌<◌, min, max, bit_and, bit_or, bit_xor, ◌≡◌,
  refl, sym, ap, ap₂, ◌∙◌, fun_ext, subst, ◌≢◌, ◌↔◌, ◌⊎◌, inl, inr, Bool, true, false, not, ◌&&◌,
  ◌||◌, Option, none, some, List, [], ◌∷◌, ◌++◌, map, arith, ltb, leb, ◌==◌, if◌then◌else◌, ltb→lt,
  lt→ltb, leb→le, ==_iff, tests, Bool-cases, Option-cases, length, get_elem?, get_or, set, take,
  drop, replicate, length-append, length-set, length-take, length-drop, length-replicate,
  take-append-drop, get_elem?-set_self, get_elem?-set_ne, length-map, u8, u16, u32, u64, sub32, shr,
  shl,
}
use red_panda_os.Prelude.Int.{ℤ, pos}
use red_panda_os.Ring.{Ring, push, poll, flush}

-- `event_type_t`
pub data EventType : Type 0 where
  ev_key ev_mouse_move ev_mouse_button ev_tick : EventType

-- `event_t`; the fields that an initializer leaves out are zero.
pub record Event : Type 0 where
  pub type : EventType
  pub ch : ℕ
  pub button : ℕ
  pub pressed : ℕ
  pub x : ℤ
  pub y : ℤ

abbrev pub key_event : ℕ → Event
key_event c = record { type = ev_key; ch = c; button = 0; pressed = 0; x = pos 0; y = pos 0 }

abbrev pub tick_event : Event
tick_event = record { type = ev_tick; ch = 0; button = 0; pressed = 0; x = pos 0; y = pos 0 }

abbrev pub Queue : Type 0
Queue = Ring Event

unfoldable pub input_push : Queue → Event → Queue
input_push q ev = push q ev

pub input_poll : Queue → Option Event × Queue
input_poll q = poll q

pub input_flush : Queue → Queue
input_flush q = flush q

pub push_all : Queue → List Event → Queue
push_all q [] = q
push_all q (ev ∷ evs) = push_all (input_push q ev) evs

-- The loop sleeps in `hlt` between two polls. Each list is what the interrupts push during one
-- sleep; `none` means that the reader still sleeps when the lists are used up.
pub input_wait : List (List Event) → Queue → Option (Event × Queue)
input_wait [] q = let (got, q') = input_poll q in elim got [ some ev ↦ some (ev, q') | none ↦ none ]
input_wait (b ∷ arrivals) q =
    let (got, q') = input_poll q in
    let again = input_wait arrivals (push_all q' b) in
    elim got [ some ev ↦ some (ev, q') | none ↦ again ]

-- One step of the two sides: an interrupt pushes, the main thread polls or flushes.
pub data Op : Type 0 where
  irq : Event → Op
  main_poll : Op
  main_flush : Op

pub run : Queue → List Op → List (Option Event) × Queue
run q [] = ([], q)
run q (irq ev ∷ ops) = run (input_push q ev) ops
run q (main_flush ∷ ops) = run (input_flush q) ops
run q (main_poll ∷ ops) =
    let (got, q') = input_poll q in let (replies, q'') = run q' ops in (got ∷ replies, q'')
