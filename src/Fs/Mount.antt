-- ===== src/Fs/Mount.antt =====
-- kernel/fs.c: mounting and formatting. A mount that fails leaves `mounted` at 0, so that the other
-- static variables are not read any more: it is `none`.
use red_panda_os.Prelude.{
  ℕ, zero, suc, ◌+◌, ◌*◌, ◌/◌, ◌^◌, Bool, true, not, ◌||◌, Option, none, some, List, [], ◌∷◌, ◌++◌,
  ltb, leb, ◌==◌, if◌then◌else◌, get_or, take, drop, replicate, u32, sub32,
}
use red_panda_os.Fs.{
  Superblock, Dirent, Sector, Fs, Disk, blank_entry, pad, fs_dir_entries, block_size, fs_start_lba,
  fs_magic, fs_version,
}
use red_panda_os.Fs.Sectors.{flush_fat_range, flush_dir}
use red_panda_os.Fs.Sectors.{superblock_bytes}

unfoldable pub read16 : List ℕ → ℕ → ℕ
read16 xs i = get_or xs i 0 + 2 ^ 8 * get_or xs (i + 1) 0

unfoldable pub read32 : List ℕ → ℕ → ℕ
read32 xs i = read16 xs i + 2 ^ 16 * read16 xs (i + 2)

-- The fields of the first 36 bytes.
unfoldable pub superblock_of : Sector → Superblock
unfolding read32 read16
superblock_of xs = record {
  magic = read32 xs 0;
  version = read32 xs 4;
  fs_sectors = read32 xs 8;
  fat_start = read32 xs 12;
  fat_sectors = read32 xs 16;
  dir_start = read32 xs 20;
  dir_sectors = read32 xs 24;
  data_start = read32 xs 28;
  data_blocks = read32 xs 32;
}

-- The entry whose bytes are at `i`.
unfoldable pub dirent_of : List ℕ → ℕ → Dirent
unfolding read32 read16
dirent_of xs i = record {
  name = take 22 (drop i xs);
  used = get_or xs (i + 22) 0;
  flags = get_or xs (i + 23) 0;
  size = read32 xs (i + 24);
  first = read16 xs (i + 28);
  padding = read16 xs (i + 30);
}

-- The entries that the loops over the directory look at: `n` entries from byte `i` on.
unfoldable pub dir_of : ℕ → List ℕ → ℕ → List Dirent
unfolding dirent_of
dir_of zero xs i = []
dir_of (suc n) xs i = dirent_of xs i ∷ dir_of n xs (i + 32)

-- The first lines of `fs_mount` and `fs_format`: the sizes of the two tables.
unfoldable pub fat_size : ℕ → ℕ
fat_size fs_sectors = sub32 (u32 (u32 (fs_sectors * 2) + block_size)) 1 / block_size

unfoldable pub dir_size : ℕ
dir_size = fs_dir_entries * 32 / block_size

-- The layout that `fs_format` computes, before it looks at the number of blocks.
unfoldable pub layout : ℕ → Superblock
unfolding fat_size dir_size
layout sectors =
    let fs_sectors = sub32 sectors fs_start_lba in
    let fat_start = fs_start_lba + 1 in
    let dir_start = u32 (fat_start + fat_size fs_sectors) in
    record {
      magic = fs_magic;
      version = fs_version;
      fs_sectors = fs_sectors;
      fat_start = fat_start;
      fat_sectors = fat_size fs_sectors;
      dir_start = dir_start;
      dir_sectors = dir_size;
      data_start = u32 (dir_start + dir_size);
      data_blocks = sub32 (sub32 (sub32 fs_sectors 1) (fat_size fs_sectors)) dir_size;
    }

-- `(int32_t)data_blocks < 1`
unfoldable pub no_blocks : ℕ → Bool
no_blocks n = n == 0 || leb (2 ^ 31) n

-- The limit of 16-bit chain values.
unfoldable pub limit_blocks : Superblock → Superblock
limit_blocks sb = record sb {
  data_blocks = if ltb 0xFFFE sb.data_blocks then 0xFFFE else sb.data_blocks;
}

-- The file system with no file.
unfoldable pub formatted : ℕ → Fs
unfolding limit_blocks layout
formatted sectors = record {
  sb = limit_blocks (layout sectors);
  fat = λ _. 0;
  dir = replicate fs_dir_entries blank_entry;
  mounted = true;
}

module _ {S : Type 0} (disk : Disk S) where
  unfoldable pub fs_format : S → Option Fs × S
  unfolding no_blocks
  fs_format s =
      let fs = formatted (disk.ata_sectors s) in
      let (fat_ok, s1) = flush_fat_range disk 0 (sub32 fs.sb.fs_sectors 1) fs s in
      let (dir_ok, s2) = flush_dir disk fs s1 in
      let (ok, s3) = disk.ata_write fs_start_lba (pad block_size (superblock_bytes fs.sb)) s2 in
      if no_blocks (layout (disk.ata_sectors s)).data_blocks
      then (none, s)
      else if not fat_ok
      then (none, s1)
      else if not dir_ok
      then (none, s2)
      else (if ok then some fs else none, s3)

  -- The loop that reads `n` sectors from sector `i` on.
  unfoldable pub read_sectors : ℕ → ℕ → ℕ → S → Option (List ℕ) × S
  read_sectors zero start i s = (some [], s)
  read_sectors (suc n) start i s =
      let (got, s') = disk.ata_read (u32 (start + i)) s in
      let (rest, s'') = read_sectors n start (suc i) s' in
      elim got [
        | none ↦ (none, s')
        | some x ↦ (elim rest [ none ↦ none | some xs ↦ some (x ++ xs) ], s'')
      ]

  -- The cached tables of a disk that has a file system.
  unfoldable pub load : Superblock → S → Option Fs × S
  unfolding read_sectors dir_of read16
  load sb s =
      let (fat_read, s1) = read_sectors sb.fat_sectors sb.fat_start 0 s in
      let (dir_read, s2) = read_sectors sb.dir_sectors sb.dir_start 0 s1 in
      elim fat_read [
        | none ↦ (none, s1)
        | some fat ↦ (
          elim dir_read [
            | none ↦ none
            | some dir ↦ some (record {
              sb = sb;
              fat = λ j. read16 fat (2 * j);
              dir = dir_of fs_dir_entries dir 0;
              mounted = true;
            })
          ],
          s2,
        )
      ]

  unfoldable pub is_fresh : Superblock → Bool
  is_fresh sb = not (sb.magic == fs_magic) || not (sb.version == fs_version)

  -- The part of `fs_mount` behind the reading of the superblock.
  unfoldable pub prepare : Superblock → S → Option Fs × S
  unfolding is_fresh fat_size dir_size load fs_format
  prepare sb s =
      let fs_sectors = sub32 (disk.ata_sectors s) fs_start_lba in
      let fat_sectors = if is_fresh sb then fat_size fs_sectors else sb.fat_sectors in
      let dir_sectors = if is_fresh sb then dir_size else sb.dir_sectors in
      let (fat, s1) = disk.kmalloc (u32 (fat_sectors * block_size)) s in
      let (dir, s2) = disk.kmalloc (u32 (dir_sectors * block_size)) s1 in
      if not fat || not dir then (none, s2) else if is_fresh sb then fs_format s2 else load sb s2

  unfoldable pub fs_mount : S → Option Fs × S
  unfolding prepare superblock_of
  fs_mount s =
      let (ready, s1) = disk.ata_init s in
      let (got, s2) = disk.ata_read fs_start_lba s1 in
      if not ready || leb (disk.ata_sectors s1) (fs_start_lba + 16)
      then (none, s1)
      else elim got [ none ↦ (none, s2) | some sect ↦ prepare (superblock_of sect) s2 ]
