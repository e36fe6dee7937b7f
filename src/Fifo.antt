-- ===== src/Fifo.antt =====
-- What the event queue promises: a first-in first-out queue that keeps at most `cap` entries and
-- drops the newest one when it is full.
use red_panda_os.Prelude.{ℕ, Option, none, some, List, [], ◌∷◌, ◌++◌, ltb, if◌then◌else◌, length}

module _ {ℓ} {A : Type ℓ} where
  unfoldable pub push : ℕ → List A → A → List A
  push cap xs x = if ltb (length xs) cap then xs ++ (x ∷ []) else xs

  unfoldable pub poll : List A → Option A × List A
  poll [] = (none, [])
  poll (x ∷ xs) = (some x, xs)

  unfoldable pub push_all : ℕ → List A → List A → List A
  push_all cap xs [] = xs
  push_all cap xs (y ∷ ys) = push_all cap (push cap xs y) ys

  -- A reader that sleeps until there is an entry; each list is what arrives during one sleep.
  unfoldable pub wait : ℕ → List (List A) → List A → Option (A × List A)
  wait cap arrivals (x ∷ xs) = some (x, xs)
  wait cap [] [] = none
  wait cap (b ∷ arrivals) [] = wait cap arrivals (push_all cap [] b)
