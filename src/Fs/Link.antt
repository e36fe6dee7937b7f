-- ===== src/Fs/Link.antt =====
-- kernel/fs.c: free blocks, and how one is linked into a chain.
use red_panda_os.Prelude.{
  ℕ, zero, suc, ◌+◌, ◌*◌, ◌/◌, ◌^◌, ◌≤◌, ◌<◌, ◌≡◌, refl, ap, ◌∙◌, ◌≢◌, inl, inr, true, false, List,
  [], ◌∷◌, arith, ◌==◌, if◌then◌else◌, Bool-cases, length, get_or, set, drop, length-set, u16,
}
use red_panda_os.Fs.{
  Superblock, Dirent, Fs, Disk, blank_entry, store, block_lba, alloc_from, alloc_block, pad,
  block_size, fat_free, fat_end,
}
use red_panda_os.Fs.Ops.{entry, set_entry, link, is_empty, write_from}

-- The regions of the disk in order, as `fs_format` lays them out.
pub record Geometry (sb : Superblock) : Type 0 where
  pub few : sb.data_blocks ≤ 0xFFFE
  pub fat_before : sb.fat_start + sb.fat_sectors ≤ sb.dir_start
  pub dir_before : sb.dir_start + sb.dir_sectors ≤ sb.data_start
  pub on_disk : sb.data_start + sb.data_blocks ≤ 2 ^ 32
  pub fat_room : sb.data_blocks * 2 / 512 < sb.fat_sectors

abbrev pub IsBlock : Fs → ℕ → Type 0
IsBlock fs b = (1 ≤ b) × (b ≤ fs.sb.data_blocks)

alloc_from-free :
    (n b : ℕ) (fat : ℕ → ℕ)
    → 1 ≤ b
    → b + n ≤ 2 ^ 16
    → alloc_from n b fat ≢ 0
    → (b ≤ alloc_from n b fat) × (alloc_from n b fat < b + n) × (fat (alloc_from n b fat) ≡ 0)
unfolding alloc_from
alloc_from-free zero b fat low high ne = absurd (ne refl)
alloc_from-free (suc n) b fat low high ne = elim (Bool-cases (fat b == fat_free)) [
  | inl free ↦
      let e : u16 b ≡ b = omega arith in rw free (rw e (omega arith, omega arith, ground arith))
  | inr used ↦
      let ih = alloc_from-free n (suc b) fat (omega arith) (omega arith) (rw used at ne) in
      rw used (omega (arith, ih.0), omega (arith, ih.1), ih.2)
]

-- `alloc_block` returns 0 or a free block.
pub alloc_block-free :
    (fs : Fs)
    → Geometry fs.sb
    → alloc_block fs ≢ 0
    → IsBlock fs (alloc_block fs) × (fs.fat (alloc_block fs) ≡ 0)
unfolding alloc_block
alloc_block-free fs g ne =
    let r = alloc_from-free fs.sb.data_blocks 1 fs.fat (omega arith) (omega (arith, g.few)) ne in
    ((r.0, omega (arith, r.1)), r.2)

pub block_lba-ne :
    (fs : Fs) (b c : ℕ)
    → Geometry fs.sb
    → IsBlock fs b
    → IsBlock fs c
    → b ≢ c
    → block_lba fs b ≢ block_lba fs c
unfolding block_lba
block_lba-ne fs b c g hb hc ne =
    λ e. ne (omega (arith, g.on_disk, g.few, hb.0, hb.1, hc.0, hc.1, e))

-- Blocks of the data region.
unfoldable pub AllBlocks : ℕ → List ℕ → Type 0
AllBlocks n [] = Unit
AllBlocks n (c ∷ cs) = ((1 ≤ c) × (c ≤ n)) × AllBlocks n cs

-- Where the next block is hung: the entry's first block, or behind `prev`.
abbrev pub start : Fs → ℕ → ℕ → ℕ
start fs i prev = if prev == 0 then (entry fs i).first else fs.fat prev

pub get_or-set :
    (es : List Dirent) (i : ℕ) (d : Dirent) → i < length es → get_or (set es i d) i blank_entry ≡ d
get_or-set [] i d h = absurd (omega arith)
get_or-set (e ∷ es) zero d h = refl
get_or-set (e ∷ es) (suc i) d h = get_or-set es i d (omega arith)

pub set-get_or : (es : List Dirent) (i : ℕ) → set es i (get_or es i blank_entry) ≡ es
set-get_or [] i = refl
set-get_or (e ∷ es) zero = refl
set-get_or (e ∷ es) (suc i) = ap (λ xs. e ∷ xs) (set-get_or es i)

-- What `link` does, by its parts.
pub record Linked (fs : Fs) (i prev b : ℕ) (fs' : Fs) : Type 0 where
  pub same_sb : fs'.sb ≡ fs.sb
  pub same_mounted : fs'.mounted ≡ fs.mounted
  pub last : fs'.fat b ≡ fat_end
  pub behind : start fs' i prev ≡ b
  pub others : (j : ℕ) → j ≢ b → j ≢ prev → fs'.fat j ≡ fs.fat j
  pub dir_later : prev ≢ 0 → fs'.dir ≡ fs.dir
  pub dir_first : prev ≡ 0 → fs'.dir ≡ set fs.dir i (record (entry fs i) { first = b })

pub link-Linked :
    (fs : Fs) (i prev b : ℕ)
    → i < length fs.dir
    → b ≢ 0
    → prev ≢ b
    → Linked fs i prev b (link i prev b fs)
unfolding link entry set_entry store
link-Linked fs i prev b lt nz ne = elim (Bool-cases (prev == 0)) [
  | inl z ↦
      let z' : prev ≡ 0 = ground arith in
      rw (z, link)
        (record {
          same_sb = refl;
          same_mounted = refl;
          last = ground arith;
          behind =
              rw z (ap (λ e. e.first) (get_or-set fs.dir i (record (entry fs i) { first = b }) lt));
          others = λ j p q. ground arith;
          dir_later = λ p. absurd (p z');
          dir_first = λ _. refl;
        })
  | inr more ↦
      rw (more, link)
        (record {
          same_sb = refl;
          same_mounted = refl;
          last = ground arith;
          behind = rw more (ground arith);
          others = λ j p q. ground arith;
          dir_later = λ _. refl;
          dir_first = λ p. absurd (ground arith);
        })
]

pub Linked-length :
    (fs fs' : Fs) (i prev b : ℕ) → Linked fs i prev b fs' → length fs'.dir ≡ length fs.dir
Linked-length fs fs' i prev b l = elim (Bool-cases (prev == 0)) [
  | inl z ↦
      ap length (l.dir_first (ground arith))
      ∙ length-set fs.dir i (record (entry fs i) { first = b })
  | inr more ↦ ap length (l.dir_later (λ e. ground arith))
]

pub length-zero : (bytes : List ℕ) → length bytes ≤ 0 → is_empty bytes ≡ true
unfolding is_empty
length-zero [] h = refl
length-zero (x ∷ xs) h = absurd (omega arith)

pub length-more : (bytes : List ℕ) → is_empty bytes ≡ false → 1 ≤ length bytes
unfolding is_empty
length-more [] h = absurd (cc)
length-more (x ∷ xs) h = omega arith

-- One round of the loop of `fs_write`.
module _ {S : Type 0} (disk : Disk S) where
  pub write_from-next :
      (fuel i prev : ℕ) (bytes : List ℕ) (fs : Fs) (s : S)
      → let b = alloc_block fs in
        let fs' = link i prev b fs in
        let put = disk.ata_write (block_lba fs b) (pad block_size bytes) s in
        is_empty bytes ≡ false
        → (b == 0) ≡ false
        → put.0 ≡ true
        → write_from disk (suc fuel) i prev bytes (fs, s)
          ≡ write_from disk fuel i b (drop block_size bytes) (fs', put.1)
  unfolding write_from
  write_from-next fuel i prev bytes fs s e nz ok = rw (e, nz, ok) refl
