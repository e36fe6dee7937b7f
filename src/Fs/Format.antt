-- ===== src/Fs/Format.antt =====
-- kernel/fs.c: the layout that `fs_format` computes is fit for use.
use red_panda_os.Prelude.{
  ℕ, zero, suc, ◌+◌, ◌-◌, ◌*◌, ◌/◌, ◌^◌, ◌≤◌, ◌<◌, ◌≡◌, refl, true, false, some, arith, replicate,
  u32, sub32,
}
use red_panda_os.Fs.{Sector, Fs, Disk, blank_entry, is_used, pad, block_size, fs_start_lba}
use red_panda_os.Fs.Sectors.{
  flush_fat_range, flush_dir, flush_both, flush_from, fat_sector, dir_sector,
}
use red_panda_os.Fs.Mount.{
  fat_size, dir_size, layout, no_blocks, limit_blocks, formatted, fs_format,
}
use red_panda_os.Fs.Sectors.{superblock_bytes}
use red_panda_os.Fs.Ops.{fs_file_count, count_used}
use red_panda_os.Fs.Link.{Geometry}

-- A count that has not wrapped leaves room for the tables.
no_blocks-fits :
    (f fat : ℕ)
    → 1 ≤ f
    → f ≤ 2 ^ 28
    → fat ≤ f
    → no_blocks (sub32 (sub32 (sub32 f 1) fat) 4) ≡ false
    → (fat + 6 ≤ f) × (sub32 (sub32 (sub32 f 1) fat) 4 ≡ f - 5 - fat)
unfolding no_blocks
no_blocks-fits f fat low high le h = (ground arith, ground arith)

fat_size_lem : (f : ℕ) → f ≤ 2 ^ 28 → fat_size f ≡ (2 * f + 511) / 512
unfolding fat_size
fat_size_lem f h = omega arith

-- The layout that `fs_format` accepts has its regions in order and inside the disk, and at most
-- as many blocks as a FAT entry can name.
pub layout-Geometry :
    (sectors : ℕ)
    → 193 < sectors
    → sectors ≤ 2 ^ 28
    → no_blocks (layout sectors).data_blocks ≡ false
    → let sb = limit_blocks (layout sectors) in
      Geometry sb × (sb.data_start + sb.data_blocks ≤ sectors)
unfolding layout limit_blocks dir_size
layout-Geometry sectors low high h =
    let f = sectors - 193 in
    let fat = (2 * f + 511) / 512 in
    let ef : sub32 sectors 193 ≡ f = omega arith in
    let efat : fat_size f ≡ fat = fat_size_lem f (omega arith) in
    let fits =
      no_blocks-fits f fat (omega arith) (omega arith) (omega arith) (rw (ef, efat) at h) in
    let room : fat + 6 ≤ f = fits.0 in
    rw (ef, efat, fits.1)
      (
        record {
          few = ground arith;
          fat_before = omega arith;
          dir_before = omega arith;
          on_disk = ground arith;
          fat_room = ground arith;
        },
        ground arith,
      )

count_used-blank : (n : ℕ) → count_used (replicate n blank_entry) ≡ 0
unfolding count_used is_used
count_used-blank zero = refl
count_used-blank (suc n) = count_used-blank n

module _ {S : Type 0} (disk : Disk S) where
  pub flush_from_ok :
      (sector : ℕ → Sector) (first n i : ℕ) (s : S)
      → ((lba : ℕ) (x : Sector) (t : S) → (disk.ata_write lba x t).0 ≡ true)
      → (flush_from disk sector first n i s).0 ≡ true
  unfolding flush_from
  flush_from_ok sector first zero i s ok = refl
  flush_from_ok sector first (suc n) i s ok =
      rw (ok (u32 (first + i)) (sector i) s)
        (flush_from_ok sector first n (suc i) (disk.ata_write (u32 (first + i)) (sector i) s).1 ok)

  flush_fat_range_ok :
      (a b : ℕ) (fs : Fs) (s : S)
      → ((lba : ℕ) (x : Sector) (t : S) → (disk.ata_write lba x t).0 ≡ true)
      → (flush_fat_range disk a b fs s).0 ≡ true
  unfolding flush_fat_range
  flush_fat_range_ok a b fs s ok =
      let first = u32 (a * 2) / block_size in
      let last = u32 (b * 2) / block_size in
      flush_from_ok (fat_sector fs.fat) fs.sb.fat_start (suc last - first) first s ok

  flush_dir_ok :
      (fs : Fs) (s : S)
      → ((lba : ℕ) (x : Sector) (t : S) → (disk.ata_write lba x t).0 ≡ true)
      → (flush_dir disk fs s).0 ≡ true
  unfolding flush_dir
  flush_dir_ok fs s ok = flush_from_ok (dir_sector fs.dir) fs.sb.dir_start fs.sb.dir_sectors 0 s ok

  pub flush_both_ok :
      (fs : Fs) (s : S)
      → ((lba : ℕ) (x : Sector) (t : S) → (disk.ata_write lba x t).0 ≡ true)
      → (flush_both disk fs s).0 ≡ true
  unfolding flush_both
  flush_both_ok fs s ok =
      rw (flush_fat_range_ok 0 fs.sb.data_blocks fs s ok)
        (flush_dir_ok fs (flush_fat_range disk 0 fs.sb.data_blocks fs s).1 ok)

  has_blocks :
      (sectors : ℕ)
      → 193 + 16 < sectors
      → sectors ≤ 2 ^ 28
      → no_blocks (layout sectors).data_blocks ≡ false
  unfolding no_blocks layout dir_size
  has_blocks sectors low high =
      let f = sectors - 193 in
      let ef : sub32 sectors 193 ≡ f = omega arith in
      let efat : fat_size f ≡ (2 * f + 511) / 512 = fat_size_lem f (omega arith) in
      rw (ef, efat) (ground arith)

  -- On a disk of the size that `fs_mount` asks for, up to 2^28 sectors, whose writes succeed,
  -- `fs_format` succeeds; the regions it lays out lie in order, apart from each other and inside
  -- the disk, and the directory has no file.
  pub fs_format-Geometry :
      (s : S)
      → ((lba : ℕ) (x : Sector) (t : S) → (disk.ata_write lba x t).0 ≡ true)
      → 193 + 16 < disk.ata_sectors s
      → disk.ata_sectors s ≤ 2 ^ 28
      → let fs = formatted (disk.ata_sectors s) in
        ((fs_format disk s).0 ≡ some fs)
        × Geometry fs.sb
        × (fs.sb.data_start + fs.sb.data_blocks ≤ disk.ata_sectors s)
        × (fs_file_count fs ≡ 0)
  unfolding fs_format formatted fs_file_count
  fs_format-Geometry s ok low high =
      let blocks = has_blocks (disk.ata_sectors s) low high in
      let fs = formatted (disk.ata_sectors s) in
      let g = layout-Geometry (disk.ata_sectors s) (omega arith) high blocks in
      let one : (flush_fat_range disk 0 (sub32 fs.sb.fs_sectors 1) fs s).0 ≡ true =
        flush_fat_range_ok 0 (sub32 fs.sb.fs_sectors 1) fs s ok in
      let s1 = (flush_fat_range disk 0 (sub32 fs.sb.fs_sectors 1) fs s).1 in
      let two : (flush_dir disk fs s1).0 ≡ true = flush_dir_ok fs s1 ok in
      let s2 = (flush_dir disk fs s1).1 in
      (
        rw
            (
              blocks,
              one,
              two,
              ok fs_start_lba (pad block_size (superblock_bytes fs.sb)) s2,
              fs_format,
            )
            refl,
        g.0,
        g.1,
        count_used-blank 64,
      )
