-- ===== src/Input/Refine.antt =====
-- The event queue, under any interleaving of interrupts and main thread, is the bounded queue.
use red_panda_os.Prelude.{◌≡◌, refl, ap₂, ◌⊎◌, inl, inr, Option, none, some, List, [], ◌∷◌}
use red_panda_os.Fifo
use red_panda_os.Ring.Refine.{IsValid, contents, push_refines, poll_refines, flush_refines}
use red_panda_os.Ring.{poll}
use red_panda_os.Input.{
  Event, Queue, input_push, input_poll, input_flush, push_all, input_wait, Op, irq, main_poll,
  main_flush, run,
}

-- The same steps on the abstract queue.
unfoldable pub spec_run : List Event → List Op → List (Option Event) × List Event
spec_run xs [] = ([], xs)
spec_run xs (irq ev ∷ ops) = spec_run (Fifo.push 127 xs ev) ops
spec_run xs (main_flush ∷ ops) = spec_run [] ops
spec_run xs (main_poll ∷ ops) =
    let (got, xs') = Fifo.poll xs in let (replies, xs'') = spec_run xs' ops in (got ∷ replies, xs'')

pub input_push_refines :
    (q : Queue) (ev : Event)
    → IsValid q
    → (contents (input_push q ev) ≡ Fifo.push 127 (contents q) ev) × IsValid (input_push q ev)
unfolding input_push
input_push_refines q ev v = push_refines q ev v

-- Every interleaving of pushes by interrupts with polls and flushes by the main thread returns
-- the events that a bounded first-in first-out queue returns, and leaves the ring holding that
-- queue.
pub run_refines :
    (ops : List Op) (q : Queue)
    → IsValid q
    → ((run q ops).0 ≡ (spec_run (contents q) ops).0)
      × (contents (run q ops).1 ≡ (spec_run (contents q) ops).1)
      × IsValid (run q ops).1
unfolding run spec_run input_push input_poll input_flush
run_refines [] q v = (refl, refl, v)
run_refines (irq ev ∷ ops) q v =
    let (c, w) = push_refines q ev v in
    let (a, b, d) = run_refines ops (input_push q ev) w in (rw c at a, rw c at b, d)
run_refines (main_flush ∷ ops) q v =
    let (c, w) = flush_refines q v in
    let (a, b, d) = run_refines ops (input_flush q) w in (rw c at a, rw c at b, d)
run_refines (main_poll ∷ ops) q v =
    let (got, c, w) = poll_refines q v in
    let (a, b, d) = run_refines ops (input_poll q).1 w in (ap₂ ◌∷◌ got (rw c at a), rw c at b, d)

push_all_refines :
    (evs : List Event) (q : Queue)
    → IsValid q
    → (contents (push_all q evs) ≡ Fifo.push_all 127 (contents q) evs) × IsValid (push_all q evs)
unfolding push_all input_push Fifo.push_all
push_all_refines [] q v = (refl, v)
push_all_refines (ev ∷ evs) q v =
    let (c, w) = push_refines q ev v in
    let (a, d) = push_all_refines evs (input_push q ev) w in (rw c at a, d)

-- What a wait that has returned leaves, or that it still sleeps.
abbrev pub Waited : Option (Event × Queue) → Option (Event × List Event) → Type 0
Waited none none = Unit {0}
Waited none (some _) = ⊥
Waited (some _) none = ⊥
Waited (some (ev, q)) (some (ev', xs)) = (ev ≡ ev') × (contents q ≡ xs) × IsValid q

abbrev Polled : Queue → Type 0
Polled q =
    ((contents q ≡ []) × ((poll q).0 ≡ none) × (contents (poll q).1 ≡ []) × IsValid (poll q).1)
    ⊎ ((ev : Event) × (xs : List Event) × (contents q ≡ ev ∷ xs)
        × ((poll q).0 ≡ some ev)
        × (contents (poll q).1 ≡ xs)
        × IsValid (poll q).1)

poll_cases : (q : Queue) → IsValid q → Polled q
unfolding Fifo.poll
poll_cases q v = go (contents q) refl
  where
    go : (xs : List Event) → contents q ≡ xs → Polled q
    go [] e = let (a, b, w) = poll_refines q v in inl (e, rw e at a, rw e at b, w)
    go (ev ∷ xs) e = let (a, b, w) = poll_refines q v in inr (ev, xs, e, rw e at a, rw e at b, w)

-- `input_wait` returns the oldest event, of the queue or of the first sleep that brings any, and
-- leaves the others queued in order; with no event at all it sleeps on.
pub input_wait_refines :
    (arrivals : List (List Event)) (q : Queue)
    → IsValid q
    → Waited (input_wait arrivals q) (Fifo.wait 127 arrivals (contents q))
unfolding input_wait input_poll Fifo.wait
input_wait_refines [] q v = elim (poll_cases q v) [
  | inl (e, got, rest, w) ↦ rw (e, got, input_wait) tt
  | inr (ev, xs, e, got, rest, w) ↦ rw (e, got, input_wait) (refl, rest, w)
]
input_wait_refines (b ∷ arrivals) q v = elim (poll_cases q v) [
  | inl (e, got, rest, w) ↦
      let (c, d) = push_all_refines b (poll q).1 w in
      let ih = input_wait_refines arrivals (push_all (poll q).1 b) d in
      rw (e, got, input_wait) (rw (c, rest) at ih)
  | inr (ev, xs, e, got, rest, w) ↦ rw (e, got, input_wait) (refl, rest, w)
]
