-- ===== src/Fs/Claim.antt =====
-- kernel/fs.c: the entry that `fs_write` finds or claims.
use red_panda_os.Prelude.{
  ℕ, ◌<◌, ◌≡◌, refl, inl, inr, true, false, none, some, List, arith, Option-cases, length,
  length-set,
}
use red_panda_os.Fs.{Fs, blank_entry, is_used, is_zero, find, find_slot}
use red_panda_os.Fs.Ops.{set_entry, bad_name, name_field, claim}
use red_panda_os.Fs.Find.{matches, find_slot-lt, find-lt, find-claimed, strcmp-name_field}
use red_panda_os.Fs.Ops.{count_used}
use red_panda_os.Fs.Space.{find_slot_ok}

-- What `claim` promises of the entry it returns.
pub record Claimed (fs : Fs) (name : List ℕ) (i : ℕ) (fs' : Fs) : Type 0 where
  pub same_sb : fs'.sb ≡ fs.sb
  pub same_mounted : fs'.mounted ≡ fs.mounted
  pub same_fat : fs'.fat ≡ fs.fat
  pub in_dir : i < length fs'.dir
  pub found : find fs' name ≡ some i

name_field-matches :
    (name : List ℕ)
    → bad_name name ≡ false
    → matches name (record blank_entry { name = name_field name; used = 1 }) ≡ true
unfolding is_used is_zero bad_name
name_field-matches name h = rw (strcmp-name_field name (ground arith)) refl

pub claim-Claimed :
    (fs : Fs) (name : List ℕ) (i : ℕ) (fs' : Fs)
    → bad_name name ≡ false
    → claim fs name ≡ some (i, fs')
    → Claimed fs name i fs'
unfolding claim set_entry
claim-Claimed fs name i fs' h c = elim (Option-cases (find fs name)) [
  | inr (k, found) ↦
      let q : some (k, fs) ≡ some (i, fs') = rw (found, claim) at c in
      let ek : k ≡ i = cc in
      let ef : fs ≡ fs' = cc in
      rw (← ef, ← ek)
        (record {
          same_sb = refl;
          same_mounted = refl;
          same_fat = refl;
          in_dir = find-lt fs k name found;
          found = found;
        })
  | inl missing ↦ elim (Option-cases (find_slot 0 fs.dir)) [
    | inl none_left ↦
        let q : none ≡ some (i, fs') = rw (missing, none_left, claim) at c in absurd (cc)
    | inr (k, slot) ↦
        let d = record blank_entry { name = name_field name; used = 1 } in
        let lt : k < length fs.dir = omega (arith, find_slot-lt 0 k fs.dir slot) in
        let q : some (k, set_entry k d fs) ≡ some (i, fs') = rw (missing, slot, claim) at c in
        let ek : k ≡ i = cc in
        let ef : set_entry k d fs ≡ fs' = cc in
        rw (← ef, ← ek)
          (record {
            same_sb = refl;
            same_mounted = refl;
            same_fat = refl;
            in_dir = rw (length-set fs.dir k d) lt;
            found = find-claimed fs k d name lt missing (name_field-matches name h);
          })
  ]
]

pub claim_ok :
    (fs : Fs) (name : List ℕ)
    → count_used fs.dir < length fs.dir
    → (r : ℕ × Fs) × (claim fs name ≡ some r)
unfolding claim
claim_ok fs name h = elim (Option-cases (find fs name)) [
  | inr (i, found) ↦ rw (found, claim) ((i, fs), refl)
  | inl missing ↦
      let (i, slot) = find_slot_ok 0 fs.dir h in
      rw (missing, slot, claim)
        ((i, set_entry i (record blank_entry { name = name_field name; used = 1 }) fs), refl)
]
