-- ===== src/Interrupts/Gates.antt =====
-- kernel/idt.c: where the gates lead.
use red_panda_os.Prelude.{
  ℕ, zero, suc, ◌+◌, ◌*◌, ◌^◌, ◌≤◌, ◌<◌, ◌≡◌, refl, sym, ap, ◌∙◌, inl, inr, Bool, true, false, ◌&&◌,
  List, [], ◌∷◌, arith, ltb, leb, ◌==◌, if◌then◌else◌, Bool-cases, length, get_or, set, replicate,
  length-set,
}
use red_panda_os.Prelude.Bits.{bit_and_mask}
use red_panda_os.Interrupts.{Gate, empty_gate, gate_of, set_gate, set_gates, idt_init}

-- The handler that the processor finds in a gate.
abbrev pub address : Gate → ℕ
address g = g.base_low + 2 ^ 16 * g.base_high

address-gate_of : (h : ℕ) → h < 2 ^ 32 → address (gate_of h) ≡ h
unfolding gate_of
address-gate_of h small = omega (arith, small, bit_and_mask 16 h)

get_or-set :
    (idt : List Gate) (n i : ℕ) (g : Gate)
    → i < length idt
    → get_or (set idt i g) n empty_gate ≡ (if n == i then g else get_or idt n empty_gate)
get_or-set [] n i g h = absurd (omega (arith, h))
get_or-set (x ∷ idt) zero zero g h = refl
get_or-set (x ∷ idt) (suc n) zero g h = let e : (suc n == 0) ≡ false = ground arith in rw e refl
get_or-set (x ∷ idt) zero (suc i) g h = let e : (0 == suc i) ≡ false = ground arith in rw e refl
get_or-set (x ∷ idt) (suc n) (suc i) g h =
    let e : (suc n == suc i) ≡ (n == i) = ground arith in
    rw e (get_or-set idt n i g (omega (arith, h)))

set_gates_lem :
    (rounds i n : ℕ) (stubs : ℕ → ℕ) (idt : List Gate)
    → i + rounds ≤ length idt
    → get_or (set_gates rounds i stubs idt) n empty_gate
      ≡ (if leb i n && ltb n (i + rounds) then gate_of (stubs n) else get_or idt n empty_gate)
unfolding set_gates set_gate
set_gates_lem zero i n stubs idt h =
    let out : (leb i n && ltb n (i + 0)) ≡ false = ground arith in rw out refl
set_gates_lem (suc rounds) i n stubs idt h =
    let long : length (set idt i (gate_of (stubs i))) ≡ length idt =
      length-set idt i (gate_of (stubs i)) in
    let rest =
      set_gates_lem rounds (suc i) n stubs (set idt i (gate_of (stubs i)))
        (omega (arith, h, long)) in
    let here = get_or-set idt n i (gate_of (stubs i)) (omega (arith, h)) in
    elim (Bool-cases (n == i)) [
      | inl e ↦
          let q : n ≡ i = ground (arith, e) in
          let not_in : (leb (suc i) n && ltb n (suc i + rounds)) ≡ false = ground (arith, q) in
          let inside : (leb i n && ltb n (i + suc rounds)) ≡ true = ground (arith, q) in
          rw inside (rest ∙ (rw not_in (here ∙ (rw e (ap (λ t. gate_of (stubs t)) (sym q))))))
      | inr e ↦
          let same : (leb (suc i) n && ltb n (suc i + rounds))
              ≡ (leb i n && ltb n (i + suc rounds)) =
            ground (arith, e) in
          rest ∙ rw (same, here, e) refl
    ]

gate-lead :
    (g : Gate) (h : ℕ)
    → g ≡ gate_of h
    → h < 2 ^ 32
    → (address g ≡ h) × (g.flags ≡ 0x8E) × (g.selector ≡ 0x08)
unfolding gate_of
gate-lead g h e small =
    (ap address e ∙ address-gate_of h small, ap (λ t. t.flags) e, ap (λ t. t.selector) e)

from_zero : (n k : ℕ) → (leb 0 n && ltb n k) ≡ ltb n k
from_zero n k = let e : leb 0 n ≡ true = ground arith in rw e refl

get_or-replicate : (k n : ℕ) → get_or (replicate k empty_gate) n empty_gate ≡ empty_gate
get_or-replicate zero n = refl
get_or-replicate (suc k) zero = refl
get_or-replicate (suc k) (suc n) = get_or-replicate k n

-- From a table of 256 empty gates `idt_init` leaves each vector below 48 leading to its own stub, by
-- a gate that is present, and every other vector without a gate, for stubs at addresses of 32 bits.
pub idt_init_lem :
    (stubs : ℕ → ℕ) (n : ℕ)
    → ((i : ℕ) → stubs i < 2 ^ 32)
    → let g = get_or (idt_init stubs (replicate 256 empty_gate)) n empty_gate in
      (address g ≡ (if ltb n 48 then stubs n else 0))
      × (g.flags ≡ (if ltb n 48 then 0x8E else 0))
      × (g.selector ≡ (if ltb n 48 then 0x08 else 0))
unfolding idt_init
idt_init_lem stubs n small =
    let blank = replicate 256 empty_gate in
    let all = set_gates_lem 48 0 n stubs blank (omega arith) in
    let chosen : Bool → Gate = λ t. if t then gate_of (stubs n) else get_or blank n empty_gate in
    elim (Bool-cases (ltb n 48)) [
      | inl e ↦
          let test : (leb 0 n && ltb n 48) ≡ true = from_zero n 48 ∙ e in
          rw e (
            gate-lead (get_or (set_gates 48 0 stubs blank) n empty_gate) (stubs n)
              (all ∙ ap chosen test) (small n))
      | inr e ↦
          let test : (leb 0 n && ltb n 48) ≡ false = from_zero n 48 ∙ e in
          let none_there = all ∙ (ap chosen test ∙ get_or-replicate 256 n) in
          rw e
            (ap address none_there, ap (λ t. t.flags) none_there, ap (λ t. t.selector) none_there)
    ]
