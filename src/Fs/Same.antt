-- ===== src/Fs/Same.antt =====
-- kernel/fs.c: a read depends on what the disk holds, and on nothing else.
use red_panda_os.Prelude.{
  ℕ, zero, suc, ◌-◌, min, ◌≡◌, refl, sym, ap, ap₂, ◌∙◌, inl, inr, Bool, ◌||◌, Option, none, some,
  List, ◌++◌, arith, ◌==◌, if◌then◌else◌, Bool-cases, Option-cases, take,
}
use red_panda_os.Fs.{Fs, Disk, block_lba, find, block_size, fat_end}
use red_panda_os.Fs.Ops.{entry, fs_read, read_from}
use red_panda_os.Fs.Contents.{Working}

-- What a read returns depends on the disk's contents alone, and leaves them.
module _ {S : Type 0} (disk : Disk S) (w : Working disk) where
  record Same (r r' : Bool × List ℕ × S) : Type 0 where
    status : r.0 ≡ r'.0
    bytes : r.1 ≡ r'.1
    keeps : w.view r.2 ≡ w.view r'.2

  read_from-Same :
      (fuel : ℕ) (fs : Fs) (remaining b : ℕ) (s t : S)
      → w.view s ≡ w.view t
      → Same (read_from disk fuel fs remaining b s) (read_from disk fuel fs remaining b t)
  unfolding read_from
  read_from-Same zero fs remaining b s t e = record { status = refl; bytes = refl; keeps = e }
  read_from-Same (suc fuel) fs remaining b s t e =
      elim (Bool-cases (remaining == 0 || (b == 0 || b == fat_end))) [
        | inl over ↦ rw (over, read_from) (record { status = refl; bytes = refl; keeps = e })
        | inr on ↦
            let lba = block_lba fs b in
            let n = min remaining block_size in
            let same : w.view (disk.ata_read lba s).1 ≡ w.view (disk.ata_read lba t).1 =
              w.read_keeps s lba ∙ (e ∙ sym (w.read_keeps t lba)) in
            let sector : w.view s lba ≡ w.view t lba = ap (λ v. v lba) e in
            let r =
              read_from-Same fuel fs (remaining - n) (fs.fat b) (disk.ata_read lba s).1
                (disk.ata_read lba t).1 same in
            rw (on, w.reads s lba, w.reads t lba, read_from)
              (record {
                status = r.status;
                bytes = ap₂ (λ x y. take n x ++ y) sector r.bytes;
                keeps = r.keeps;
              })
      ]

  pub record SameRead (r r' : Option ℕ × List ℕ × S) : Type 0 where
    pub size : r.0 ≡ r'.0
    pub bytes : r.1 ≡ r'.1
    pub keeps : w.view r.2 ≡ w.view r'.2

  pub fs_read-Same :
      (fs : Fs) (name : List ℕ) (maxlen : ℕ) (s t : S)
      → w.view s ≡ w.view t
      → SameRead (fs_read disk fs name maxlen s) (fs_read disk fs name maxlen t)
  unfolding fs_read
  fs_read-Same fs name maxlen s t e = elim (Bool-cases fs.mounted) [
    | inr off ↦ rw (off, fs_read) (record { size = refl; bytes = refl; keeps = e })
    | inl mounted ↦ elim (Option-cases (find fs name)) [
      | inl missing ↦
          rw (mounted, missing, fs_read) (record { size = refl; bytes = refl; keeps = e })
      | inr (i, found) ↦
          let n = min (entry fs i).size maxlen in
          let r = read_from-Same n fs n (entry fs i).first s t e in
          rw (mounted, found, fs_read)
            (record {
              size = ap (λ ok. if ok then some (entry fs i).size else none) r.status;
              bytes = r.bytes;
              keeps = r.keeps;
            })
    ]
  ]

  -- Asking for no byte does not touch the disk.
  pub fs_read-probe : (fs : Fs) (name : List ℕ) (s : S) → (fs_read disk fs name 0 s).2 ≡ s
  unfolding fs_read read_from
  fs_read-probe fs name s = elim (Bool-cases fs.mounted) [
    | inr off ↦ rw (off, fs_read) refl
    | inl mounted ↦ elim (Option-cases (find fs name)) [
      | inl missing ↦ rw (mounted, missing, fs_read) refl
      | inr (i, found) ↦
          let z : min (entry fs i).size 0 ≡ 0 = omega arith in
          rw (mounted, found, z, fs_read, read_from) refl
    ]
  ]
