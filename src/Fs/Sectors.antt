-- ===== src/Fs/Sectors.antt =====
-- kernel/fs.c: the bytes of the cached structures, and the write-through helpers.
use red_panda_os.Prelude.{
  ℕ, zero, suc, ◌+◌, ◌-◌, ◌*◌, ◌/◌, ◌^◌, Bool, true, false, List, [], ◌∷◌, ◌++◌, if◌then◌else◌,
  take, drop, u8, u32,
}
use red_panda_os.Fs.{Superblock, Dirent, Sector, Fs, Disk, pad, block_size}

unfoldable pub le16 : ℕ → List ℕ
le16 n = u8 n ∷ u8 (n / 256) ∷ []

unfoldable pub le32 : ℕ → List ℕ
le32 n = u8 n ∷ u8 (n / 2 ^ 8) ∷ u8 (n / 2 ^ 16) ∷ u8 (n / 2 ^ 24) ∷ []

-- The bytes of `n` entries of the FAT from entry `i` on.
unfoldable pub fat_bytes : (ℕ → ℕ) → ℕ → ℕ → List ℕ
unfolding le16
fat_bytes fat zero i = []
fat_bytes fat (suc n) i = le16 (fat i) ++ fat_bytes fat n (suc i)

-- Sector `s` of the cached FAT.
unfoldable pub fat_sector : (ℕ → ℕ) → ℕ → Sector
fat_sector fat s = fat_bytes fat 256 (s * 256)

unfoldable pub dirent_bytes : Dirent → List ℕ
dirent_bytes e =
    pad 22 e.name ++ (u8 e.used ∷ u8 e.flags ∷ le32 e.size ++ (le16 e.first ++ le16 e.padding))

unfoldable pub dir_bytes : List Dirent → List ℕ
dir_bytes [] = []
dir_bytes (e ∷ es) = dirent_bytes e ++ dir_bytes es

-- Sector `s` of the cached directory.
unfoldable pub dir_sector : List Dirent → ℕ → Sector
dir_sector dir s = take block_size (drop (s * block_size) (dir_bytes dir))

unfoldable pub superblock_bytes : Superblock → List ℕ
superblock_bytes sb =
    le32 sb.magic
    ++ (le32 sb.version
        ++ (le32 sb.fs_sectors
            ++ (le32 sb.fat_start
                ++ (le32 sb.fat_sectors
                    ++ (le32 sb.dir_start
                        ++ (le32 sb.dir_sectors ++ (le32 sb.data_start ++ le32 sb.data_blocks)))))))

module _ {S : Type 0} (disk : Disk S) where
  -- A loop that writes the sectors that `sector` gives, from sector `i` on, `n` rounds are left.
  unfoldable pub flush_from : (ℕ → Sector) → ℕ → ℕ → ℕ → S → Bool × S
  flush_from sector start zero i s = (true, s)
  flush_from sector start (suc n) i s =
      let (ok, s') = disk.ata_write (u32 (start + i)) (sector i) s in
      let rest = flush_from sector start n (suc i) s' in if ok then rest else (false, s')

  -- The loop runs from sector `s0` to `s1`, both included.
  unfoldable pub flush_fat_range : ℕ → ℕ → Fs → S → Bool × S
  unfolding flush_from
  flush_fat_range first_entry last_entry fs s =
      let s0 = u32 (first_entry * 2) / block_size in
      let s1 = u32 (last_entry * 2) / block_size in
      flush_from (fat_sector fs.fat) fs.sb.fat_start (suc s1 - s0) s0 s

  unfoldable pub flush_dir : Fs → S → Bool × S
  unfolding flush_from
  flush_dir fs s = flush_from (dir_sector fs.dir) fs.sb.dir_start fs.sb.dir_sectors 0 s

  -- The last lines of an operation: the FAT, and then the directory if that went well.
  unfoldable pub flush_both : Fs → S → Bool × S
  unfolding flush_fat_range flush_dir
  flush_both fs s =
      let (ok, s') = flush_fat_range 0 fs.sb.data_blocks fs s in
      let rest = flush_dir fs s' in if ok then rest else (false, s')
