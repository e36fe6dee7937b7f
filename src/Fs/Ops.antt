-- ===== src/Fs/Ops.antt =====
-- kernel/fs.c: the public operations on a mounted file system.
use red_panda_os.Prelude.{
  ℕ, zero, suc, ◌-◌, ◌*◌, min, Bool, true, false, not, ◌||◌, Option, none, some, List, [], ◌∷◌,
  ◌++◌, ltb, leb, ◌==◌, if◌then◌else◌, length, get_or, set, take, drop, u32,
}
use red_panda_os.Fs.{
  Dirent, Fs, Disk, blank_entry, is_used, store, block_lba, find, find_slot, free_chain,
  alloc_block, pad, fs_max_name, fs_dir_entries, block_size, fat_free, fat_end,
}
use red_panda_os.Fs.Sectors.{flush_fat_range, flush_dir, flush_both}
use red_panda_os.Strings.{strlen}

-- The entry at index `i`; out of the directory a blank one.
unfoldable pub entry : Fs → ℕ → Dirent
entry fs i = get_or fs.dir i blank_entry

unfoldable pub set_entry : ℕ → Dirent → Fs → Fs
set_entry i e fs = record fs { dir = set fs.dir i e }

-- `name[0]` is NUL, or the name is longer than `FS_MAX_NAME`.
unfoldable pub bad_name : List ℕ → Bool
bad_name name = (strlen name == 0) || ltb fs_max_name (strlen name)

-- The field after the `memset` and the `memcpy` of a name.
unfoldable pub name_field : List ℕ → List ℕ
name_field name = pad 22 (take (strlen name) name)

-- The name, its last byte a NUL, and the size; an index below 0 gives what one past the end does.
unfoldable pub fs_dir_get : Fs → ℕ → Option (List ℕ × ℕ)
fs_dir_get fs idx =
    if not fs.mounted || leb fs_dir_entries idx || not (is_used (entry fs idx))
    then none
    else some (set (entry fs idx).name fs_max_name 0, (entry fs idx).size)

-- The entry of `name`, found or claimed.
unfoldable pub claim : Fs → List ℕ → Option (ℕ × Fs)
unfolding set_entry name_field find find_slot
claim fs name = elim (find fs name) [
  | some i ↦ some (i, fs)
  | none ↦ elim (find_slot 0 fs.dir) [
    | none ↦ none
    | some i ↦ some (i, set_entry i (record blank_entry { name = name_field name; used = 1 }) fs)
  ]
]

-- The chain of entry `i` is dropped, and its size set.
unfoldable pub reset : ℕ → ℕ → Fs → Fs
unfolding entry free_chain
reset i len fs = record fs {
  fat = free_chain fs.fat (entry fs i).first;
  dir = set fs.dir i (record (entry fs i) { first = 0; size = u32 len });
}

-- Block `b` becomes the last of the chain, behind `prev` or as the first.
unfoldable pub link : ℕ → ℕ → ℕ → Fs → Fs
unfolding store entry set_entry
link i prev b fs =
    let ended = record fs { fat = store fs.fat b fat_end } in
    if prev == 0
    then set_entry i (record (entry fs i) { first = b }) ended
    else record ended { fat = store ended.fat prev b }

unfoldable pub is_empty : List ℕ → Bool
is_empty [] = true
is_empty (_ ∷ _) = false

-- How the loop of `fs_write` ends.
pub data Outcome : Type 0 where
  done : Outcome
  full : Outcome
  failed : Outcome

unfoldable pub count_free : ℕ → ℕ → (ℕ → ℕ) → ℕ
count_free zero b fat = 0
count_free (suc n) b fat =
    let rest = count_free n (suc b) fat in if fat b == fat_free then suc rest else rest

unfoldable pub fs_free_bytes : Fs → ℕ
unfolding count_free
fs_free_bytes fs =
    if fs.mounted then u32 (count_free fs.sb.data_blocks 1 fs.fat * block_size) else 0

unfoldable pub fs_total_bytes : Fs → ℕ
fs_total_bytes fs = if fs.mounted then u32 (fs.sb.data_blocks * block_size) else 0

unfoldable pub count_used : List Dirent → ℕ
count_used [] = 0
count_used (e ∷ es) = if is_used e then suc (count_used es) else count_used es

unfoldable pub fs_file_count : Fs → ℕ
unfolding count_used
fs_file_count fs = if fs.mounted then count_used fs.dir else 0

module _ {S : Type 0} (disk : Disk S) where
  -- The loop of `fs_read` at block `b`: the status and the bytes stored. Each round that goes on
  -- takes at least one byte off `remaining`, which is fuel enough.
  unfoldable pub read_from : ℕ → Fs → ℕ → ℕ → S → Bool × List ℕ × S
  unfolding block_lba
  read_from zero fs remaining b s = (true, [], s)
  read_from (suc fuel) fs remaining b s =
      let (got, s') = disk.ata_read (block_lba fs b) s in
      let n = min remaining block_size in
      let (ok, out, s'') = read_from fuel fs (remaining - n) (fs.fat b) s' in
      if remaining == 0 || (b == 0 || b == fat_end)
      then (true, [], s)
      else elim got [ none ↦ (false, [], s') | some sect ↦ (ok, take n sect ++ out, s'') ]

  -- The value returned (`none` for -1, else the size, which the code casts to `int`), and the bytes
  -- stored in the buffer.
  unfoldable pub fs_read : Fs → List ℕ → ℕ → S → Option ℕ × List ℕ × S
  unfolding read_from entry find
  fs_read fs name maxlen s = if not fs.mounted then (none, [], s) else elim (find fs name) [
    | none ↦ (none, [], s)
    | some i ↦
        (let remaining = min (entry fs i).size maxlen in
          let (ok, out, s') = read_from remaining fs remaining (entry fs i).first s in
          (if ok then some (entry fs i).size else none, out, s'))
  ]

  -- The loop of `fs_write` on the bytes that are left; each round takes at least one.
  unfoldable pub write_from : ℕ → ℕ → ℕ → List ℕ → Fs × S → Outcome × Fs × S
  unfolding link block_lba alloc_block
  write_from zero i prev bytes (fs, s) = (done, fs, s)
  write_from (suc fuel) i prev bytes (fs, s) =
      let b = alloc_block fs in
      let fs' = link i prev b fs in
      let (ok, s') = disk.ata_write (block_lba fs b) (pad block_size bytes) s in
      let rest = write_from fuel i b (drop block_size bytes) (fs', s') in
      if is_empty bytes
      then (done, fs, s)
      else if b == 0
      then (full, fs, s)
      else if ok
      then rest
      else (failed, fs', s')

  -- What follows the loop: the flush, or the roll back to an empty file.
  unfoldable pub finish : ℕ → Outcome × Fs × S → Bool × Fs × S
  unfolding flush_both reset
  finish i (done, fs, s) = let (ok, s') = flush_both disk fs s in (ok, fs, s')
  finish i (full, fs, s) =
      let emptied = reset i 0 fs in
      let (_, s') = flush_fat_range disk 0 emptied.sb.data_blocks emptied s in
      let (_, s'') = flush_dir disk emptied s' in (false, emptied, s'')
  finish i (failed, fs, s) = (false, fs, s)

  unfoldable pub fs_write : List ℕ → List ℕ → Fs × S → Bool × Fs × S
  unfolding finish write_from reset claim bad_name
  fs_write name bytes (fs, s) =
      if not fs.mounted || bad_name name then (false, fs, s) else elim (claim fs name) [
        | none ↦ (false, fs, s)
        | some (i, claimed) ↦
            finish i (write_from (length bytes) i 0 bytes (reset i (length bytes) claimed, s))
      ]

  unfoldable pub fs_delete : List ℕ → Fs × S → Bool × Fs × S
  unfolding flush_both entry free_chain find
  fs_delete name (fs, s) = if not fs.mounted then (false, fs, s) else elim (find fs name) [
    | none ↦ (false, fs, s)
    | some i ↦
        (let cleared = record fs {
          fat = free_chain fs.fat (entry fs i).first;
          dir = set fs.dir i blank_entry;
        } in
          let (ok, s') = flush_both disk cleared s in (ok, cleared, s'))
  ]

  unfoldable pub fs_rename : List ℕ → List ℕ → Fs × S → Bool × Fs × S
  unfolding flush_dir entry set_entry name_field bad_name find
  fs_rename oldname newname (fs, s) =
      if not fs.mounted || bad_name newname then (false, fs, s) else elim (find fs oldname) [
        | none ↦ (false, fs, s)
        | some i ↦ elim (find fs newname) [
          | some _ ↦ (false, fs, s)
          | none ↦
              (let renamed = set_entry i (record (entry fs i) { name = name_field newname }) fs in
                let (ok, s') = flush_dir disk renamed s in (ok, renamed, s'))
        ]
      ]
