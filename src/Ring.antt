-- ===== src/Ring.antt =====
-- The ring buffer of kernel/input.c (events) and of kernel/keyboard.c (characters): 128 slots,
-- with one left empty so that `head == tail` means empty. It is filled in interrupt context and
-- drained by the main thread with interrupts masked, so each call is one step.
pub mod Refine
use red_panda_os.Prelude.{
  ℕ, zero, suc, ◌+◌, ◌-◌, ◌*◌, ◌/◌, ◌%◌, ◌^◌, ◌≤◌, ◌<◌, min, max, bit_and, bit_or, bit_xor, ◌≡◌,
  refl, sym, ap, ap₂, ◌∙◌, fun_ext, subst, ◌≢◌, ◌↔◌, ◌⊎◌, inl, inr, Bool, true, false, not, ◌&&◌,
  ◌||◌, Option, none, some, List, [], ◌∷◌, ◌++◌, map, arith, ltb, leb, ◌==◌, if◌then◌else◌, ltb→lt,
  lt→ltb, leb→le, ==_iff, tests, Bool-cases, Option-cases, length, get_elem?, get_or, set, take,
  drop, replicate, length-append, length-set, length-take, length-drop, length-replicate,
  take-append-drop, get_elem?-set_self, get_elem?-set_ne, length-map, u8, u16, u32, u64, sub32, shr,
  shl,
}

abbrev pub queue_size : ℕ
queue_size = 128

pub record Ring {ℓ} (A : Type ℓ) : Type ℓ where
  pub slots : ℕ → A
  pub head : ℕ
  pub tail : ℕ

module _ {ℓ} {A : Type ℓ} where
  unfoldable pub store : (ℕ → A) → ℕ → A → ℕ → A
  store s i x j = if i == j then x else s j

  unfoldable pub push : Ring A → A → Ring A
  unfolding store
  push r x =
      let next = bit_and (u32 (r.head + 1)) (queue_size - 1) in
      if next == r.tail then r else record r { slots = store r.slots r.head x; head = next }

  unfoldable pub poll : Ring A → Option A × Ring A
  poll r =
      if r.head == r.tail
      then (none, r)
      else (some (r.slots r.tail), record r { tail = bit_and (u32 (r.tail + 1)) (queue_size - 1) })

  unfoldable pub flush : Ring A → Ring A
  flush r = record r { tail = r.head }
