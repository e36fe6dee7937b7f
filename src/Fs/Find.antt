-- ===== src/Fs/Find.antt =====
-- kernel/fs.c: what `find` finds, also after a change of an entry.
use red_panda_os.Prelude.{
  ℕ, zero, suc, ◌+◌, ◌≤◌, ◌<◌, ◌≡◌, refl, ap, ◌∙◌, inl, inr, Bool, true, not, ◌&&◌, none, some,
  List, [], ◌∷◌, arith, ◌==◌, Bool-cases, length, get_or, set, take,
}
use red_panda_os.Prelude.Int.{pos}
use red_panda_os.Fs.{Dirent, Fs, blank_entry, is_used, is_zero, find_from, find, find_slot, pad}
use red_panda_os.Fs.Ops.{entry, name_field}
use red_panda_os.Strings.{strcmp, strlen}

-- The test of the loop of `find`.
abbrev pub matches : List ℕ → Dirent → Bool
matches name e = is_used e && is_zero (strcmp e.name name)

-- The same name and the same use.
abbrev pub SameKey : Dirent → Dirent → Type 0
SameKey d e = (d.name ≡ e.name) × (d.used ≡ e.used)

find_from-lt :
    (k i : ℕ) (es : List Dirent) (name : List ℕ)
    → find_from k es name ≡ some i
    → (k ≤ i) × (i < k + length es)
unfolding find_from
find_from-lt k i [] name h = absurd (cc)
find_from-lt k i (e ∷ es) name h = elim (Bool-cases (matches name e)) [
  | inl m ↦ let same : some k ≡ some i = rw m at h in let q : k ≡ i = cc in omega arith
  | inr m ↦ omega (arith, find_from-lt (suc k) i es name (rw m at h))
]

find_from-set :
    (k i : ℕ) (es : List Dirent) (d : Dirent) (name : List ℕ)
    → SameKey d (get_or es i blank_entry)
    → find_from k (set es i d) name ≡ find_from k es name
unfolding find_from is_used
find_from-set k i [] d name h = refl
find_from-set k zero (e ∷ es) d name h = rw (h.0, h.1) refl
find_from-set k (suc i) (e ∷ es) d name h = rw (find_from-set (suc k) i es d name h) refl

pub find_slot-lt :
    (k j : ℕ) (es : List Dirent) → find_slot k es ≡ some j → (k ≤ j) × (j < k + length es)
unfolding find_slot
find_slot-lt k j [] h = absurd (cc)
find_slot-lt k j (e ∷ es) h = elim (Bool-cases (is_used e)) [
  | inr m ↦ let same : some k ≡ some j = rw m at h in let q : k ≡ j = cc in omega arith
  | inl m ↦ omega (arith, find_slot-lt (suc k) j es (rw m at h))
]

find_from-claimed :
    (k i : ℕ) (es : List Dirent) (d : Dirent) (name : List ℕ)
    → i < length es
    → find_from k es name ≡ none
    → matches name d ≡ true
    → find_from k (set es i d) name ≡ some (k + i)
unfolding find_from
find_from-claimed k i [] d name lt h m = absurd (omega arith)
find_from-claimed k zero (e ∷ es) d name lt h m = rw m (ap some (omega arith))
find_from-claimed k (suc i) (e ∷ es) d name lt h m = elim (Bool-cases (matches name e)) [
  | inl n ↦ let bad : some k ≡ none = rw n at h in absurd (cc)
  | inr n ↦
      rw n
        (find_from-claimed (suc k) i es d name (omega arith) (rw n at h) m ∙ ap some (omega arith))
]

pub find-lt : (fs : Fs) (i : ℕ) (name : List ℕ) → find fs name ≡ some i → i < length fs.dir
unfolding find
find-lt fs i name h = omega (arith, find_from-lt 0 i fs.dir name h)

-- A change of an entry that keeps its name and its use is not seen by `find`.
pub find-set :
    (fs : Fs) (i : ℕ) (d : Dirent) (name : List ℕ)
    → SameKey d (entry fs i)
    → find (record fs { dir = set fs.dir i d }) name ≡ find fs name
unfolding find entry
find-set fs i d name h = find_from-set 0 i fs.dir d name h

pub find-claimed :
    (fs : Fs) (i : ℕ) (d : Dirent) (name : List ℕ)
    → i < length fs.dir
    → find fs name ≡ none
    → matches name d ≡ true
    → find (record fs { dir = set fs.dir i d }) name ≡ some i
unfolding find
find-claimed fs i d name lt h m = find_from-claimed 0 i fs.dir d name lt h m ∙ ap some (omega arith)

strcmp-pad : (n : ℕ) (xs : List ℕ) → strlen xs < n → strcmp (pad n (take (strlen xs) xs)) xs ≡ pos 0
unfolding strlen strcmp pad
strcmp-pad zero xs h = absurd (omega arith)
strcmp-pad (suc n) [] h = refl
strcmp-pad (suc n) (x ∷ xs) h = elim (Bool-cases (x == 0)) [
  | inl z ↦ let e : x ≡ 0 = ground arith in rw e refl
  | inr c ↦
      let one : strlen xs + 1 ≡ suc (strlen xs) = omega arith in
      let same : (not (x == 0) && (x == x)) ≡ true = ground arith in
      let shorter : strlen xs < n = ground arith in rw (c, one) (rw same (strcmp-pad n xs shorter))
]

-- A stored name is the name that was given.
pub strcmp-name_field : (name : List ℕ) → strlen name ≤ 21 → strcmp (name_field name) name ≡ pos 0
unfolding name_field
strcmp-name_field name h = strcmp-pad 22 name (omega arith)
