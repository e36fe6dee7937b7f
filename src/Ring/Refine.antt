-- ===== src/Ring/Refine.antt =====
-- A ring in range behaves as the bounded queue of its contents.
use red_panda_os.Prelude.{
  ℕ, zero, suc, ◌+◌, ◌-◌, ◌%◌, ◌<◌, bit_and, ◌≡◌, refl, ap, ap₂, ◌≢◌, inl, inr, true, false, List,
  [], ◌∷◌, ◌++◌, arith, ltb, ◌==◌, ltb→lt, Bool-cases, length, u32,
}
use red_panda_os.Prelude.Bits.{bit_and_mask}
use red_panda_os.Fifo
use red_panda_os.Ring.{Ring, queue_size, store, push, poll, flush}

-- The index that the mask of the code computes.
next_index :
    (i : ℕ) → i < queue_size → bit_and (u32 (i + 1)) (queue_size - 1) ≡ (i + 1) % queue_size
next_index i h = omega (arith, bit_and_mask 7 (u32 (i + 1)))

module _ {ℓ} {A : Type ℓ} where
  pub record IsValid (r : Ring A) : Type 0 where
    pub head_in : r.head < queue_size
    pub tail_in : r.tail < queue_size

  abbrev pub count : Ring A → ℕ
  count r = (r.head + queue_size - r.tail) % queue_size

  -- the `n` entries from index `t` on
  abbrev pub window : (ℕ → A) → ℕ → ℕ → List A
  window s t zero = []
  window s t (suc n) = s t ∷ window s ((t + 1) % queue_size) n

  abbrev pub contents : Ring A → List A
  contents r = window r.slots r.tail (count r)

  length-window : (s : ℕ → A) (t n : ℕ) → length (window s t n) ≡ n
  length-window s t zero = refl
  length-window s t (suc n) = ap suc (length-window s ((t + 1) % queue_size) n)

  pub length-contents : (r : Ring A) → length (contents r) ≡ count r
  length-contents r = length-window r.slots r.tail (count r)

  window-store :
      (s : ℕ → A) (x : A) (t n i : ℕ)
      → t < queue_size
      → n < queue_size
      → i ≡ (t + n) % queue_size
      → window (store s i x) t (suc n) ≡ window s t n ++ (x ∷ [])
  unfolding store
  window-store s x t zero i ht hn at = let e : (i == t) ≡ true = ground arith in rw e
  window-store s x t (suc n) i ht hn at =
      let e : (i == t) ≡ false = ground arith in
      ap₂ ◌∷◌ (rw e)
        (window-store s x ((t + 1) % queue_size) n i (omega arith) (omega arith) (omega arith))

  window-suc :
      (s : ℕ → A) (t n : ℕ) → n ≢ 0 → window s t n ≡ s t ∷ window s ((t + 1) % queue_size) (n - 1)
  window-suc s t zero h = absurd (h refl)
  window-suc s t (suc n) h = ap (λ (k : ℕ). s t ∷ window s ((t + 1) % queue_size) k) (omega arith)

  push-full : (r : Ring A) (x : A) → IsValid r → count r ≡ 127 → push r x ≡ r
  unfolding push
  push-full r x v e =
      let full : (bit_and (u32 (r.head + 1)) (queue_size - 1) == r.tail) ≡ true =
        ground (arith, next_index r.head v.head_in, v.tail_in) in
      rw full

  push-room :
      (r : Ring A) (x : A)
      → IsValid r
      → count r < 127
      → (contents (push r x) ≡ contents r ++ (x ∷ [])) × IsValid (push r x)
  unfolding push
  push-room r x v h =
      let i = next_index r.head v.head_in in
      let room : (bit_and (u32 (r.head + 1)) (queue_size - 1) == r.tail) ≡ false =
        ground (arith, i, v.tail_in) in
      let at : r.head ≡ (r.tail + count r) % queue_size = omega (arith, v.head_in, v.tail_in) in
      let more : ((r.head + 1) % queue_size + queue_size - r.tail) % queue_size ≡ suc (count r) =
        omega (arith, v.head_in, v.tail_in) in
      rw (room, i)
        (
          rw more (window-store r.slots x r.tail (count r) r.head v.tail_in (omega arith) at),
          record { head_in = omega arith; tail_in = v.tail_in },
        )

  -- Storing an event refines the bounded queue: at most 127 wait, and a full queue drops the
  -- newest.
  pub push_refines :
      (r : Ring A) (x : A)
      → IsValid r
      → (contents (push r x) ≡ Fifo.push 127 (contents r) x) × IsValid (push r x)
  unfolding Fifo.push
  push_refines r x v = elim (Bool-cases (ltb (count r) 127)) [
    | inl room ↦
        let (c, w) = push-room r x v (ltb→lt _ _ room) in
        let l : ltb (length (contents r)) 127 ≡ true = rw (length-contents r) room in rw l (c, w)
    | inr full ↦
        let e = push-full r x v (ground arith) in
        let l : ltb (length (contents r)) 127 ≡ false = rw (length-contents r) full in
        rw (l, e) (refl, v)
  ]

  -- Taking an event is taking the oldest.
  pub poll_refines :
      (r : Ring A)
      → IsValid r
      → ((poll r).0 ≡ (Fifo.poll (contents r)).0)
        × (contents (poll r).1 ≡ (Fifo.poll (contents r)).1)
        × IsValid (poll r).1
  unfolding poll Fifo.poll
  poll_refines r v = elim (Bool-cases (r.head == r.tail)) [
    | inl empty ↦ let z : count r ≡ 0 = ground (arith, v.head_in) in rw (empty, z) (refl, refl, v)
    | inr some_left ↦
        let i = next_index r.tail v.tail_in in
        let w = window-suc r.slots r.tail (count r) (ground (arith, v.head_in, v.tail_in)) in
        let less : (r.head + queue_size - (r.tail + 1) % queue_size) % queue_size ≡ count r - 1 =
          ground (arith, v.head_in, v.tail_in) in
        rw (some_left, i, less, w)
          (refl, refl, record { head_in = v.head_in; tail_in = omega arith })
  ]

  pub flush_refines : (r : Ring A) → IsValid r → (contents (flush r) ≡ []) × IsValid (flush r)
  unfolding flush
  flush_refines r v =
      let z : (r.head + queue_size - r.head) % queue_size ≡ 0 = omega (arith, v.head_in) in
      rw z (refl, record { head_in = v.head_in; tail_in = v.head_in })
