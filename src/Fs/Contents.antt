-- ===== src/Fs/Contents.antt =====
-- kernel/fs.c: the chain of blocks that holds a text, and what `fs_read` makes of it.
use red_panda_os.Prelude.{
  ℕ, zero, suc, ◌+◌, ◌-◌, ◌≤◌, min, ◌≡◌, refl, sym, ap, ap₂, ◌∙◌, subst, ◌≢◌, inl, inr, Bool, true,
  false, ◌||◌, some, List, [], ◌∷◌, ◌++◌, arith, ◌==◌, Bool-cases, length, take, drop, length-drop,
}
use native.Mathlib.Decide.{dec_lt}
use red_panda_os.Fs.{Sector, Fs, Disk, block_lba, pad, block_size, fat_end}
use red_panda_os.Fs.Ops.{is_empty, read_from}

-- The loops on a chain stop at this block.
abbrev pub stop : ℕ → Bool
stop b = b == 0 || b == fat_end

-- The chain from `b` is the blocks `cs`, and they hold `bytes`, with the last block padded.
unfoldable pub Holds : (ℕ → ℕ) → (ℕ → Sector) → ℕ → List ℕ → List ℕ → Type 0
Holds fat block b [] bytes = (bytes ≡ []) × (stop b ≡ true)
Holds fat block b (c ∷ cs) bytes =
    (b ≡ c)
    × (stop c ≡ false)
    × (is_empty bytes ≡ false)
    × (block c ≡ pad block_size bytes)
    × Holds fat block (fat c) cs (drop block_size bytes)

-- A disk as the code relies on it: what was written successfully is what is read, every read
-- works, and an allocation leaves the sectors alone.
pub record Working {S : Type 0} (disk : Disk S) : Type 0 where
  pub view : S → ℕ → Sector
  pub reads : (s : S) (lba : ℕ) → (disk.ata_read lba s).0 ≡ some (view s lba)
  pub read_keeps : (s : S) (lba : ℕ) → view (disk.ata_read lba s).1 ≡ view s
  pub writes :
      (s : S) (lba : ℕ) (x : Sector)
      → (disk.ata_write lba x s).0 ≡ true
      → view (disk.ata_write lba x s).1 lba ≡ x
  pub write_keeps :
      (s : S) (lba : ℕ) (x : Sector) (other : ℕ)
      → lba ≢ other
      → view (disk.ata_write lba x s).1 other ≡ view s other

take-nil : (n : ℕ) → take {A = ℕ} n [] ≡ []
take-nil zero = refl
take-nil (suc n) = refl

pub take-pad : (n m : ℕ) (xs : List ℕ) → n ≤ m → n ≤ length xs → take n (pad m xs) ≡ take n xs
unfolding pad
take-pad zero m xs h k = refl
take-pad (suc n) zero xs h k = absurd (omega arith)
take-pad (suc n) (suc m) [] h k = absurd (omega arith)
take-pad (suc n) (suc m) (x ∷ xs) h k = rw (take-pad n m xs (omega arith) (omega arith)) refl

pub take-split : (m n : ℕ) (xs : List ℕ) → take m xs ++ take n (drop m xs) ≡ take (m + n) xs
take-split zero n xs = ap (λ k. take k xs) (omega arith)
take-split (suc m) n [] = let e : suc m + n ≡ suc (m + n) = omega arith in rw e (take-nil n)
take-split (suc m) n (x ∷ xs) =
    let e : suc m + n ≡ suc (m + n) = omega arith in rw e (ap (λ ys. x ∷ ys) (take-split m n xs))

append-nil : (xs : List ℕ) → xs ++ [] ≡ xs
append-nil [] = refl
append-nil (x ∷ xs) = ap (λ ys. x ∷ ys) (append-nil xs)

-- What one round stores, and what the rounds behind it store.
chunk :
    (r : ℕ) (bytes : List ℕ)
    → r ≤ length bytes
    → take (min r 512) (pad 512 bytes) ++ take (r - min r 512) (drop 512 bytes) ≡ take r bytes
chunk r bytes h =
    let head = take-pad (min r 512) 512 bytes (omega arith) (omega arith) in
    elim (dec_lt r 513) [
      | yes small ↦
          let n : min r 512 ≡ r = omega arith in
          let m : r - r ≡ 0 = omega arith in
          let head' = take-pad r 512 bytes (omega arith) h in
          rw (n, m, head') (append-nil (take r bytes))
      | no big ↦
          let n : min r 512 ≡ 512 = omega arith in
          let m : 512 + (r - 512) ≡ r = omega arith in
          let head' = take-pad 512 512 bytes (omega arith) (omega arith) in
          rw (n, head') (rw m at (take-split 512 (r - 512) bytes))
    ]

module _ {S : Type 0} (disk : Disk S) (w : Working disk) (fs : Fs) where
  -- The blocks, by number.
  abbrev pub blocks : S → ℕ → Sector
  blocks s b = w.view s (block_lba fs b)

  read_from-round :
      (fuel remaining b : ℕ) (s : S)
      → (remaining == 0 || stop b) ≡ false
      → let n = min remaining block_size in
        let s' = (disk.ata_read (block_lba fs b) s).1 in
        let r = read_from disk fuel fs (remaining - n) (fs.fat b) s' in
        read_from disk (suc fuel) fs remaining b s ≡ (r.0, take n (blocks s b) ++ r.1, r.2)
  unfolding read_from
  read_from-round fuel remaining b s h = rw (h, w.reads s (block_lba fs b)) refl

  -- The loop of `fs_read` stores the first bytes of what the chain holds.
  pub read_from-Holds :
      (fuel remaining b : ℕ) (cs bytes : List ℕ) (s : S)
      → remaining ≤ fuel
      → remaining ≤ length bytes
      → Holds fs.fat (blocks s) b cs bytes
      → (read_from disk fuel fs remaining b s).0 ≡ true
        × ((read_from disk fuel fs remaining b s).1 ≡ take remaining bytes)
  unfolding read_from Holds
  read_from-Holds zero remaining b cs bytes s f l h =
      let z : remaining ≡ 0 = omega arith in rw z (refl, refl)
  read_from-Holds (suc fuel) remaining b [] bytes s f l h =
      let l' : remaining ≤ length {A = ℕ} [] = rw h.0 at l in
      let z : remaining ≡ 0 = omega arith in rw z (refl, refl)
  read_from-Holds (suc fuel) remaining b (c ∷ cs) bytes s f l h =
      elim (Bool-cases (remaining == 0)) [
        | inl z ↦ let z' : remaining ≡ 0 = ground arith in rw z' (refl, refl)
        | inr more ↦
            let sb : stop b ≡ false = rw h.0 h.1 in
            let test : (remaining == 0 || stop b) ≡ false = rw more sb in
            let s' = (disk.ata_read (block_lba fs b) s).1 in
            let n = min remaining block_size in
            let kept : blocks s' ≡ blocks s =
              ap (λ v x. v (block_lba fs x)) (w.read_keeps s (block_lba fs b)) in
            let held : Holds fs.fat (blocks s') (fs.fat b) cs (drop block_size bytes) =
              subst (λ v. Holds fs.fat v (fs.fat b) cs (drop block_size bytes)) (sym kept)
                (subst (λ x. Holds fs.fat (blocks s) (fs.fat x) cs (drop block_size bytes))
                  (sym h.0) h.4) in
            let stored : blocks s b ≡ pad block_size bytes = rw h.0 h.3 in
            let ih =
              read_from-Holds fuel (remaining - n) (fs.fat b) cs (drop block_size bytes) s'
                (ground arith) (omega (arith, length-drop 512 bytes)) held in
            subst (λ r. (r.0 ≡ true) × (r.1 ≡ take remaining bytes))
              (sym (read_from-round fuel remaining b s test))
              (ih.0, ap₂ (λ x y. take n x ++ y) stored ih.1 ∙ chunk remaining bytes l)
      ]
