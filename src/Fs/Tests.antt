-- ===== src/Fs/Tests.antt =====
-- Runs of fs.c, and its theorems there.
use red_panda_os.Prelude.{
  ℕ, ◌+◌, ◌≤◌, ◌≡◌, refl, Bool, true, false, some, List, [], ◌∷◌, ◌++◌, arith, ◌==◌, if◌then◌else◌,
  take, replicate,
}
use red_panda_os.Fs.{
  Superblock, Sector, Fs, Disk, blank_entry, is_used, free_chain_from, fat_end, fs_magic,
  fs_version,
}
use red_panda_os.Fs.Ops.{bad_name, is_empty, fs_read, fs_write}
use red_panda_os.Strings.{strlen}
use red_panda_os.Fs.Contents.{Working}
use red_panda_os.Fs.Link.{Geometry}
use red_panda_os.Fs.Mount.{fs_format, formatted}
use red_panda_os.Fs.Ops.{fs_file_count, fs_free_bytes, count_used, count_free}
use red_panda_os.Fs.Format.{fs_format-Geometry}
use red_panda_os.Fs.Progress.{fs_write_ok}
use red_panda_os.Fs.RoundTrip.{fs_write-fs_read}

-- A disk on which everything works; its state is the sectors.
abbrev pub ram_disk : Disk (ℕ → Sector)
ram_disk = record {
  ata_init = λ s. (true, s);
  ata_sectors = λ s. 1000;
  ata_read = λ lba s. (some (s lba), s);
  ata_write = λ lba x s. (true, λ j. if lba == j then x else s j);
  kmalloc = λ n s. (true, s);
}

abbrev pub blank_disk : ℕ → Sector
blank_disk lba = replicate 512 0

pub ram_disk-Working : Working ram_disk
ram_disk-Working = record {
  view = λ s. s;
  reads = λ s lba. refl;
  read_keeps = λ s lba. refl;
  writes = λ s lba x e. ground arith;
  write_keeps = λ s lba x other h. ground arith;
}

abbrev pub small_sb : Superblock
small_sb = record {
  magic = fs_magic;
  version = fs_version;
  fs_sectors = 100;
  fat_start = 194;
  fat_sectors = 1;
  dir_start = 195;
  dir_sectors = 4;
  data_start = 199;
  data_blocks = 4;
}

pub small_sb-Geometry : Geometry small_sb
small_sb-Geometry = record {
  few = omega arith;
  fat_before = omega arith;
  dir_before = omega arith;
  on_disk = omega arith;
  fat_room = omega arith;
}

-- Block 2 is taken.
abbrev pub small : Fs
small = record {
  sb = small_sb;
  fat = λ j. if j == 2 then fat_end else 0;
  dir = blank_entry ∷ blank_entry ∷ [];
  mounted = true;
}

abbrev pub name : List ℕ
name = 97 ∷ 98 ∷ []

-- Two blocks are needed.
abbrev pub text : List ℕ
text = replicate 512 1 ++ (2 ∷ 3 ∷ [])

abbrev saved : Bool × Fs × (ℕ → Sector)
saved = fs_write ram_disk name text (small, blank_disk)

saved_well : saved.0 ≡ true
unfolding fs_write strlen is_empty free_chain_from
saved_well = refl

saved_chain : (saved.1.fat 1 ≡ 3) × (saved.1.fat 3 ≡ fat_end) × (saved.1.fat 2 ≡ fat_end)
unfolding fs_write strlen is_empty free_chain_from
saved_chain = (refl, refl, refl)

-- A text that does not fit leaves an empty file.
no_room : (fs_write ram_disk name (replicate 2000 1) (small, blank_disk)).0 ≡ false
unfolding fs_write strlen is_empty free_chain_from
no_room = refl

fs_write-fs_read_example :
    let got = fs_read ram_disk saved.1 name 513 saved.2 in
    (got.0 ≡ some 514) × (got.1 ≡ take 513 text)
fs_write-fs_read_example =
    fs_write-fs_read ram_disk ram_disk-Working small blank_disk name text 513 small_sb-Geometry
      (omega arith) saved_well

fs_write_ok_example : (fs_write ram_disk name text (small, blank_disk)).0 ≡ true
unfolding bad_name strlen fs_file_count count_used is_used fs_free_bytes count_free
fs_write_ok_example =
    fs_write_ok ram_disk (λ lba x t. refl) small blank_disk name text small_sb-Geometry refl refl
      (omega arith) (omega arith)

fs_format-Geometry_example :
    let fs = formatted 1000 in
    ((fs_format ram_disk blank_disk).0 ≡ some fs)
    × Geometry fs.sb
    × (fs.sb.data_start + fs.sb.data_blocks ≤ 1000)
    × (fs_file_count fs ≡ 0)
fs_format-Geometry_example =
    fs_format-Geometry ram_disk blank_disk (λ lba x t. refl) (omega arith) (omega arith)
