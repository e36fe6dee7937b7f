-- ===== src/Timer/Seconds.antt =====
-- kernel/timer.c: the events are the seconds that have passed.
use red_panda_os.Prelude.{
  ℕ, zero, suc, ◌+◌, ◌*◌, ◌/◌, ◌%◌, ◌^◌, ◌≤◌, ◌<◌, ◌≡◌, refl, sym, ap, ◌∙◌, ◌≢◌, ◌⊎◌, inl, inr,
  true, false, List, [], ◌∷◌, ◌++◌, arith, ◌==◌, replicate, u32,
}
use native.Mathlib.Decide.{dec_lt}
use native.Mathlib.Nat.{
  div-add-mod, mod-lt, mul-add-div, mul-add-mod_self_left, div-eq_of_lt, mod-eq_of_lt, div_self,
  mod_self, zero-div,
}
use red_panda_os.Fifo
use red_panda_os.Ring.Refine.{IsValid, contents}
use red_panda_os.Input.{Event, tick_event}
use red_panda_os.Input.Refine.{input_push_refines}
use red_panda_os.Timer.{Timer, timer_irq, timer_irqs, timer_ticks}

-- Either `suc n` is a multiple of `d`, and the quotient grows, or it is none, and it does not.
div-suc :
    (n d : ℕ)
    → 1 ≤ d
    → ((suc n % d ≡ 0) × (suc n / d ≡ suc (n / d))) ⊎ ((suc n % d ≢ 0) × (suc n / d ≡ n / d))
div-suc n d h =
    let q = n / d in
    let r = n % d in
    let split : d * q + r ≡ n = div-add-mod n d in
    let low : r < d = mod-lt n h in
    let next : suc n ≡ d * q + (r + 1) = omega (arith, split) in
    let quotient : suc n / d ≡ q + (r + 1) / d = ap (λ m. m / d) next ∙ mul-add-div h q (r + 1) in
    let rest : suc n % d ≡ (r + 1) % d = ap (λ m. m % d) next ∙ mul-add-mod_self_left d q (r + 1) in
    elim (dec_lt (r + 1) d) [
      | yes below ↦
          let one : (r + 1) / d ≡ 0 = div-eq_of_lt below in
          let two : (r + 1) % d ≡ r + 1 = mod-eq_of_lt below in
          inr (λ e. omega (arith, e, rest, two), quotient ∙ omega (arith, one))
      | no at ↦
          let whole : r + 1 ≡ d = omega arith in
          let one : (r + 1) / d ≡ 1 = ap (λ m. m / d) whole ∙ div_self h in
          let two : (r + 1) % d ≡ 0 = ap (λ m. m % d) whole ∙ mod_self d in
          inl (rest ∙ two, quotient ∙ omega (arith, one))
    ]

push_all-snoc :
    (xs ys : List Event) (y : Event)
    → Fifo.push_all 127 xs (ys ++ (y ∷ [])) ≡ Fifo.push 127 (Fifo.push_all 127 xs ys) y
unfolding Fifo.push_all
push_all-snoc xs [] y = refl
push_all-snoc xs (z ∷ ys) y = push_all-snoc (Fifo.push 127 xs z) ys y

replicate-snoc : (n : ℕ) (y : Event) → replicate n y ++ (y ∷ []) ≡ replicate (suc n) y
replicate-snoc zero y = refl
replicate-snoc (suc n) y = ap (λ ys. y ∷ ys) (replicate-snoc n y)

-- After `n` interrupts: the counter, and the queue.
pub record Passed (start : Timer) (n : ℕ) (t : Timer) : Type 0 where
  pub same_hz : t.hz ≡ start.hz
  pub counted : timer_ticks t ≡ n
  pub valid : IsValid t.events
  pub seconds :
      contents t.events
      ≡ Fifo.push_all 127 (contents start.events) (replicate (n / start.hz) tick_event)

module _ (start : Timer) (v : IsValid start.events) (hz : 1 ≤ start.hz)
    (zeroed : start.ticks ≡ 0) where
  timer_irq-Passed :
      (n : ℕ) (t : Timer) → suc n < 2 ^ 32 → Passed start n t → Passed start (suc n) (timer_irq t)
  unfolding timer_irq timer_ticks
  timer_irq-Passed n t h p =
      let now : u32 (t.ticks + 1) ≡ suc n = omega (arith, p.counted) in
      let nonzero : (t.hz == 0) ≡ false = ground (arith, p.same_hz) in
      elim (div-suc n start.hz hz) [
        | inl (multiple, more) ↦
            let test : (suc n % t.hz == 0) ≡ true = rw (p.same_hz, multiple) refl in
            let (c, w) = input_push_refines t.events tick_event p.valid in
            rw (now, nonzero, test)
              (record {
                same_hz = p.same_hz;
                counted = refl;
                valid = w;
                seconds =
                    c
                    ∙ (ap (λ xs. Fifo.push 127 xs tick_event) p.seconds
                        ∙ (sym (
                              push_all-snoc (contents start.events)
                                (replicate (n / start.hz) tick_event) tick_event)
                            ∙ ap (Fifo.push_all 127 (contents start.events)) (
                                replicate-snoc (n / start.hz) tick_event
                                ∙ ap (λ k. replicate k tick_event) (sym more))));
              })
        | inr (other, same) ↦
            let test : (suc n % t.hz == 0) ≡ false = rw p.same_hz (ground arith) in
            rw (now, nonzero, test)
              (record {
                same_hz = p.same_hz;
                counted = refl;
                valid = p.valid;
                seconds =
                    p.seconds
                    ∙ ap (λ k. Fifo.push_all 127 (contents start.events) (replicate k tick_event))
                        (sym same);
              })
      ]

  -- Fewer than 2^32 interrupts after the start the counter is their number, and the queue has been
  -- given exactly one event for each full second, `hz` interrupts.
  pub timer_irqs-Passed : (n : ℕ) → n < 2 ^ 32 → Passed start n (timer_irqs n start)
  unfolding timer_irqs timer_ticks Fifo.push_all
  timer_irqs-Passed zero h = record {
    same_hz = refl;
    counted = zeroed;
    valid = v;
    seconds = let z : 0 / start.hz ≡ 0 = zero-div start.hz in rw z refl;
  }
  timer_irqs-Passed (suc n) h =
      timer_irq-Passed n (timer_irqs n start) h (timer_irqs-Passed n (omega arith))
