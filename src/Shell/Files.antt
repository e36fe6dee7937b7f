-- ===== src/Shell/Files.antt =====
-- kernel/shell.c: the commands on files. The state is the file system with that of the machine.
use red_panda_os.Prelude.{
  ℕ, zero, suc, ◌+◌, ◌/◌, ◌^◌, Option, none, some, List, [], ◌∷◌, ◌++◌, leb, ◌==◌, if◌then◌else◌,
  length, drop, u32,
}
use red_panda_os.Fs.{Fs}
use red_panda_os.Fs.Ops.{fs_dir_get, fs_free_bytes, fs_total_bytes, fs_read, fs_write, fs_delete}
use red_panda_os.Strings.{strlen}
use red_panda_os.Kprintf.{word, string}
use red_panda_os.Shell.{Machine, say, text_of}

-- The name in front of the first space, and what follows the space.
unfoldable pub split_name : List ℕ → List ℕ × Option (List ℕ)
split_name [] = ([], none)
split_name (c ∷ cs) =
    let (name, text) = split_name cs in
    if c == 0 then ([], none) else if c == 32 then ([], some cs) else (c ∷ name, text)

module _ {S : Type 0} (m : Machine S) where
  -- The loop of `cmd_ls` at index `i`, with `rounds` left and `n` files so far.
  unfoldable pub ls_from : ℕ → ℕ → ℕ → Fs → S → ℕ × S
  unfolding fs_dir_get say text_of
  ls_from zero i n fs s = (n, s)
  ls_from (suc rounds) i n fs s = elim (fs_dir_get fs i) [
    | none ↦ ls_from rounds (suc i) n fs s
    | some (name, size) ↦
        ls_from rounds (suc i) (suc n) fs
          (say m "  %6u  %s\n" (word size ∷ string (some (text_of name)) ∷ []) s)
  ]

  unfoldable pub cmd_ls : Fs × S → Fs × S
  unfolding ls_from say fs_free_bytes fs_total_bytes
  cmd_ls (fs, s) =
      let (n, s1) = ls_from 64 0 0 fs s in
      let s2 = if n == 0 then say m "  (no files)\n" [] s1 else s1 in
      (
        fs,
        say m "  %u of %u KB free\n"
            (word (fs_free_bytes fs / 1024) ∷ word (fs_total_bytes fs / 1024) ∷ []) s2,
      )

  -- The file into the buffer at `buf`, which keeps what it held where the read stores nothing.
  unfoldable pub cat_contents : List ℕ → ℕ → ℕ → Fs × S → Fs × S
  unfolding fs_read say text_of
  cat_contents name size buf (fs, s) =
      let (_, got, s1) = fs_read m.disk fs name size s in
      let held = got ++ drop (length got) (m.bytes_at buf size s1) in
      (fs, m.kfree buf (say m "%s\n" (string (some (text_of held)) ∷ []) s1))

  unfoldable pub no_such_file : List ℕ → S → S
  unfolding say
  no_such_file name s = say m "  no such file: %s\n" (string (some name) ∷ []) s

  -- What follows the probe; a size of 2^31 and more is negative as an `int`.
  unfoldable pub cat_probed : List ℕ → Option ℕ → Fs × S → Fs × S
  unfolding say no_such_file cat_contents
  cat_probed name none (fs, s) = (fs, no_such_file name s)
  cat_probed name (some size) (fs, s) =
      let (buf, s1) = m.kmalloc (u32 (size + 1)) s in
      if leb (2 ^ 31) size
      then (fs, no_such_file name s)
      else if size == 0
      then (fs, say m "  (empty)\n" [] s)
      else if buf == 0
      then (fs, say m "  out of memory\n" [] s1)
      else cat_contents name size buf (fs, s1)

  unfoldable pub cmd_cat : List ℕ → Fs × S → Fs × S
  unfolding fs_read cat_probed
  cmd_cat name (fs, s) =
      let (probe, _, s1) = fs_read m.disk fs name 0 s in cat_probed name probe (fs, s1)

  unfoldable pub write_file : List ℕ → List ℕ → Fs × S → Fs × S
  unfolding fs_write say
  write_file name text (fs, s) =
      let (ok, fs1, s1) = fs_write m.disk name text (fs, s) in
      if ok
      then (
        fs1,
        say m "  wrote %u bytes to %s\n" (word (u32 (strlen text)) ∷ string (some name) ∷ []) s1,
      )
      else (fs1, say m "  write failed (name too long? disk full?)\n" [] s1)

  unfoldable pub write_split : List ℕ × Option (List ℕ) → Fs × S → Fs × S
  unfolding say write_file text_of
  write_split (name, none) (fs, s) = (fs, say m "  usage: write <file> <text>\n" [] s)
  write_split (name, some text) (fs, s) = write_file name (text_of text) (fs, s)

  unfoldable pub cmd_write : List ℕ → Fs × S → Fs × S
  unfolding split_name write_split
  cmd_write args t = write_split (split_name args) t

  unfoldable pub cmd_rm : List ℕ → Fs × S → Fs × S
  unfolding fs_delete say no_such_file
  cmd_rm name (fs, s) =
      let (ok, fs1, s1) = fs_delete m.disk name (fs, s) in
      if ok
      then (fs1, say m "  deleted %s\n" (string (some name) ∷ []) s1)
      else (fs1, no_such_file name s1)
