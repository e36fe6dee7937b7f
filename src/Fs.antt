-- ===== src/Fs.antt =====
-- kernel/fs.c and kernel/fs.h, the file system: the cached superblock, FAT and directory, and the
-- operations on them. The disk and the heap are behind the interface `Disk`. A status is `true`
-- for the code's 0 and `false` for its -1. The scratch buffer `sect` is no part of the state, since
-- each use fills it before it is read. The directory is a list of its entries; a name without a NUL in
-- its 22 bytes, which no operation stores, ends at the field's end.
pub mod Sectors
pub mod Ops
pub mod Mount
pub mod Format
pub mod Space
pub mod Progress
pub mod Find
pub mod Contents
pub mod Link
pub mod Write
pub mod Claim
pub mod RoundTrip
pub mod Same
pub mod Tests
use red_panda_os.Prelude.{
  not, ℕ, zero, suc, ◌+◌, ◌^◌, Bool, true, false, ◌&&◌, ◌||◌, Option, none, some, List, [], ◌∷◌,
  ◌==◌, if◌then◌else◌, replicate, u16, u32, sub32,
}
use red_panda_os.Prelude.Int.{ℤ, pos}
use red_panda_os.Strings.{strcmp}

abbrev pub fs_start_lba : ℕ
fs_start_lba = 193

abbrev pub fs_max_name : ℕ
fs_max_name = 21

abbrev pub fs_dir_entries : ℕ
fs_dir_entries = 64

abbrev pub fs_magic : ℕ
fs_magic = 0x53465052

abbrev pub fs_version : ℕ
fs_version = 1

abbrev pub block_size : ℕ
block_size = 512

abbrev pub fat_free : ℕ
fat_free = 0

abbrev pub fat_end : ℕ
fat_end = 0xFFFF

-- `superblock_t`
pub record Superblock : Type 0 where
  pub magic : ℕ
  pub version : ℕ
  pub fs_sectors : ℕ
  pub fat_start : ℕ
  pub fat_sectors : ℕ
  pub dir_start : ℕ
  pub dir_sectors : ℕ
  pub data_start : ℕ
  pub data_blocks : ℕ

-- `dirent_t`; the name is the field of 22 bytes.
pub record Dirent : Type 0 where
  pub name : List ℕ
  pub used : ℕ
  pub flags : ℕ
  pub size : ℕ
  pub first : ℕ
  pub padding : ℕ

-- `sizeof(dirent_t)`
abbrev pub dirent_size : ℕ
dirent_size = 32

-- 512 bytes
abbrev pub Sector : Type 0
Sector = List ℕ

-- The static variables of fs.c.
pub record Fs : Type 0 where
  pub sb : Superblock
  pub fat : ℕ → ℕ
  pub dir : List Dirent
  pub mounted : Bool

-- What fs.c calls of ata.c and heap.c, on their state `S`. A read that fails is `none`; a write,
-- an initialisation or an allocation that fails is `false`.
pub record Disk (S : Type 0) : Type 0 where
  pub ata_init : S → Bool × S
  pub ata_sectors : S → ℕ
  pub ata_read : ℕ → S → Option Sector × S
  pub ata_write : ℕ → Sector → S → Bool × S
  pub kmalloc : ℕ → S → Bool × S

abbrev pub blank_entry : Dirent
blank_entry = record {
  name = replicate 22 0;
  used = 0;
  flags = 0;
  size = 0;
  first = 0;
  padding = 0;
}

unfoldable pub is_used : Dirent → Bool
is_used e = not (e.used == 0)

unfoldable pub store : (ℕ → ℕ) → ℕ → ℕ → ℕ → ℕ
store fat i v j = if i == j then v else fat j

unfoldable pub block_lba : Fs → ℕ → ℕ
block_lba fs block = u32 (fs.sb.data_start + sub32 block 1)

-- `!x`
unfoldable pub is_zero : ℤ → Bool
is_zero (pos zero) = true
is_zero _ = false

-- The index of the entry; the loop at index `i`.
unfoldable pub find_from : ℕ → List Dirent → List ℕ → Option ℕ
unfolding is_zero is_used
find_from i [] name = none
find_from i (e ∷ es) name =
    if is_used e && is_zero (strcmp e.name name) then some i else find_from (suc i) es name

unfoldable pub find : Fs → List ℕ → Option ℕ
unfolding find_from
find fs name = find_from 0 fs.dir name

-- The first slot that is not used.
unfoldable pub find_slot : ℕ → List Dirent → Option ℕ
unfolding is_used
find_slot i [] = none
find_slot i (e ∷ es) = if is_used e then find_slot (suc i) es else some i

-- Each round clears an entry that is not clear, or is the last; the fuel counts 16-bit values.
unfoldable pub free_chain_from : ℕ → (ℕ → ℕ) → ℕ → ℕ → ℕ
unfolding store
free_chain_from zero fat b = fat
free_chain_from (suc fuel) fat b =
    let rest = free_chain_from fuel (store fat b fat_free) (fat b) in
    if b == 0 || b == fat_end then fat else rest

unfoldable pub free_chain : (ℕ → ℕ) → ℕ → ℕ → ℕ
free_chain fat first = free_chain_from (2 ^ 16) fat first

-- The loop from block `b` on, with the rounds left.
unfoldable pub alloc_from : ℕ → ℕ → (ℕ → ℕ) → ℕ
alloc_from zero b fat = 0
alloc_from (suc n) b fat = if fat b == fat_free then u16 b else alloc_from n (suc b) fat

unfoldable pub alloc_block : Fs → ℕ
unfolding alloc_from
alloc_block fs = alloc_from fs.sb.data_blocks 1 fs.fat

-- The blank bytes behind `xs` up to `n`.
unfoldable pub pad : ℕ → List ℕ → List ℕ
pad zero xs = []
pad (suc n) [] = 0 ∷ pad n []
pad (suc n) (x ∷ xs) = x ∷ pad n xs
