-- ===== src/Fs/Space.antt =====
-- kernel/fs.c: the count of free blocks.
use red_panda_os.Prelude.{
  ℕ, zero, suc, ◌+◌, ◌^◌, ◌≤◌, ◌<◌, ◌≡◌, refl, ◌≢◌, inl, inr, true, ◌||◌, some, List, [], ◌∷◌,
  arith, ◌==◌, Bool-cases, length, u16,
}
use red_panda_os.Fs.{
  Dirent, is_used, store, find_slot, free_chain_from, alloc_from, fat_free, fat_end,
}
use red_panda_os.Fs.Ops.{count_free, count_used}

pub count_free-le :
    (n b : ℕ) (f g : ℕ → ℕ)
    → ((j : ℕ) → b ≤ j → f j ≡ 0 → g j ≡ 0)
    → count_free n b f ≤ count_free n b g
unfolding count_free
count_free-le zero b f g h = omega arith
count_free-le (suc n) b f g h =
    let ih = count_free-le n (suc b) f g (λ j q. h j (omega arith)) in
    elim (Bool-cases (f b == 0)) [
      | inl z ↦
          let z' : (g b == 0) ≡ true = ground (arith, h b (omega arith)) in
          rw (z, z') (omega (arith, ih))
      | inr t ↦ elim (Bool-cases (g b == 0)) [
        | inl z ↦ rw (t, z) (omega (arith, ih))
        | inr u ↦ rw (t, u) ih
      ]
    ]

-- One block that is taken is one free block less, or out of the range.
pub count_free-take :
    (n b c : ℕ) (f g : ℕ → ℕ)
    → ((j : ℕ) → b ≤ j → j ≢ c → f j ≡ 0 → g j ≡ 0)
    → count_free n b f ≤ suc (count_free n b g)
unfolding count_free
count_free-take zero b c f g h = omega arith
count_free-take (suc n) b c f g h = elim (Bool-cases (b == c)) [
  | inl e ↦
      let rest = count_free-le n (suc b) f g (λ j q. h j (omega arith) (λ k. ground arith)) in
      ground (arith, rest)
  | inr ne ↦
      let ih = count_free-take n (suc b) c f g (λ j q. h j (omega arith)) in
      elim (Bool-cases (f b == 0)) [
        | inl z ↦
            let g0 : g b ≡ 0 = h b (omega arith) (λ e. ground arith) (ground arith) in
            let z' : (g b == 0) ≡ true = ground arith in rw (z, z') (omega (arith, ih))
        | inr t ↦ elim (Bool-cases (g b == 0)) [
          | inl z ↦ rw (t, z) (omega (arith, ih))
          | inr u ↦ rw (t, u) ih
        ]
      ]
]

pub alloc_from-none :
    (n b : ℕ) (fat : ℕ → ℕ)
    → 1 ≤ b
    → b + n ≤ 2 ^ 16
    → alloc_from n b fat ≡ 0
    → count_free n b fat ≡ 0
unfolding alloc_from count_free
alloc_from-none zero b fat low high e = refl
alloc_from-none (suc n) b fat low high e = elim (Bool-cases (fat b == 0)) [
  | inl z ↦ let bad : u16 b ≡ 0 = rw z at e in absurd (omega arith)
  | inr t ↦ rw t (alloc_from-none n (suc b) fat (omega arith) (omega arith) (rw t at e))
]

pub free_chain_from-zero :
    (fuel : ℕ) (fat : ℕ → ℕ) (b j : ℕ) → fat j ≡ 0 → free_chain_from fuel fat b j ≡ 0
unfolding free_chain_from store
free_chain_from-zero zero fat b j h = h
free_chain_from-zero (suc fuel) fat b j h = elim (Bool-cases (b == 0 || b == fat_end)) [
  | inl stop ↦ rw stop h
  | inr go ↦ rw go (free_chain_from-zero fuel (store fat b fat_free) (fat b) j (ground arith))
]

pub find_slot_ok :
    (k : ℕ) (es : List Dirent) → count_used es < length es → (i : ℕ) × (find_slot k es ≡ some i)
unfolding count_used find_slot
find_slot_ok k [] h = absurd (omega arith)
find_slot_ok k (e ∷ es) h = elim (Bool-cases (is_used e)) [
  | inr free ↦ rw free (k, refl)
  | inl taken ↦ rw taken (find_slot_ok (suc k) es (ground arith))
]
