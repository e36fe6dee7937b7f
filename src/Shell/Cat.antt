-- ===== src/Shell/Cat.antt =====
-- kernel/shell.c: `write` and then `cat` on the same file.
use red_panda_os.Prelude.{
  ℕ, zero, suc, ◌+◌, ◌^◌, ◌≤◌, ◌<◌, ◌≡◌, refl, sym, ap, ap₂, ◌∙◌, subst, ◌≢◌, Bool, true, false,
  not, ◌&&◌, some, List, [], ◌∷◌, ◌++◌, arith, leb, ◌==◌, length, take, drop, u32,
}
use red_panda_os.Strings.{strlen, strcmp, strncmp}
use red_panda_os.Prelude.Chars.{chars}
use red_panda_os.Kprintf.{word, string, kprintf}
use red_panda_os.Fs.{Fs, is_zero}
use red_panda_os.Fs.Ops.{fs_read, fs_write, is_empty}
use red_panda_os.Fs.Contents.{Working}
use red_panda_os.Fs.Link.{Geometry}
use red_panda_os.Fs.Same.{fs_read-Same, fs_read-probe}
use red_panda_os.Fs.RoundTrip.{fs_write-fs_read}
use red_panda_os.Shell.{Machine, say, shown, text_of}
use red_panda_os.Shell.Files.{
  split_name, cat_contents, cat_probed, cmd_cat, write_file, write_split, cmd_write,
}
use red_panda_os.Shell.Line.{append-nil}
use red_panda_os.Shell.Run.{execute, is_command, begins}

-- No character of the text is a NUL.
unfoldable pub no_nul : List ℕ → Bool
no_nul [] = true
no_nul (c ∷ cs) = not (c == 0) && no_nul cs

-- A word: characters that are neither a NUL nor a space.
unfoldable pub is_word : List ℕ → Bool
is_word [] = true
is_word (c ∷ cs) = (not (c == 0) && not (c == 32)) && is_word cs

text_of_lem : (cs : List ℕ) → no_nul cs ≡ true → text_of cs ≡ cs
unfolding text_of strlen no_nul
text_of_lem [] h = refl
text_of_lem (c ∷ cs) h =
    let head : (c == 0) ≡ false = ground (arith, h) in
    let tail : no_nul cs ≡ true = ground (arith, h) in
    let next : strlen cs + 1 ≡ suc (strlen cs) = omega arith in
    rw (head, next) (ap (λ t. c ∷ t) (text_of_lem cs tail))

split_name_lem :
    (name text : List ℕ)
    → is_word name ≡ true
    → split_name (name ++ (32 ∷ text)) ≡ (name, some text)
unfolding split_name is_word
split_name_lem [] text h = refl
split_name_lem (c ∷ name) text h =
    let nul : (c == 0) ≡ false = ground (arith, h) in
    let space : (c == 32) ≡ false = ground (arith, h) in
    let tail : is_word name ≡ true = ground (arith, h) in
    rw (nul, space, split_name_lem name text tail) refl

shown_line : (cs : List ℕ) → shown "%s\n" (string (some cs) ∷ []) ≡ cs ++ (10 ∷ [])
unfolding shown kprintf chars
shown_line cs = refl

take-all : (xs : List ℕ) → take (length xs) xs ≡ xs
take-all [] = refl
take-all (x ∷ xs) = ap (λ t. x ∷ t) (take-all xs)

drop-all : (n : ℕ) (xs : List ℕ) → length xs ≤ n → drop n xs ≡ []
drop-all zero [] h = refl
drop-all zero (x ∷ xs) h = absurd (omega (arith, h))
drop-all (suc n) [] h = refl
drop-all (suc n) (x ∷ xs) h = drop-all n xs (omega (arith, h))

-- What `cat` relies on of the machine: printing and allocating leave the disk as it was, and a buffer
-- has as many bytes as are asked for.
pub record Keeps {S : Type 0} (m : Machine S) (w : Working m.disk) : Type 0 where
  pub print_keeps : (cs : List ℕ) (s : S) → w.view (m.console_print cs s) ≡ w.view s
  pub kmalloc_keeps : (n : ℕ) (s : S) → w.view (m.kmalloc n s).1 ≡ w.view s
  pub bytes : (p n : ℕ) (s : S) → length (m.bytes_at p n s) ≡ n

-- What `write` leaves of the machine when the file system stores the text: the report is printed.
abbrev pub after_write : {S : Type 0} → Machine S → Fs → List ℕ → List ℕ → S → S
after_write m fs name text s =
    m.console_print
      (shown "  wrote %u bytes to %s\n" (word (u32 (strlen text)) ∷ string (some name) ∷ []))
      (fs_write m.disk name text (fs, s)).2

-- What `cat` leaves of the machine: with a buffer of `size` bytes from `kmalloc` the file is read and
-- printed, and that buffer is freed.
abbrev pub after_cat : {S : Type 0} → Machine S → Fs → List ℕ → List ℕ → ℕ → S → S
after_cat m fs name text size s =
    let (buf, s1) = m.kmalloc size s in
    m.kfree buf (m.console_print (text ++ (10 ∷ [])) (fs_read m.disk fs name (length text) s1).2)

module _ {S : Type 0} (m : Machine S) (w : Working m.disk) (r : Keeps m w) where
  -- The file `name` holds the text in every state with the contents of the disk in `s0`.
  Stored : Fs → S → List ℕ → List ℕ → Type 0
  Stored fs s0 name text =
      (maxlen : ℕ)
      → ((fs_read m.disk fs name maxlen s0).0 ≡ some (length text))
        × ((fs_read m.disk fs name maxlen s0).1 ≡ take maxlen text)

  cat_contents_lem :
      (fs : Fs) (name text : List ℕ) (s0 s : S) (buf : ℕ)
      → Stored fs s0 name text
      → no_nul text ≡ true
      → w.view s ≡ w.view s0
      → cat_contents m name (length text) buf (fs, s) ≡ (
        fs,
        m.kfree buf
            (m.console_print (text ++ (10 ∷ [])) (fs_read m.disk fs name (length text) s).2),
      )
  unfolding cat_contents say Stored
  cat_contents_lem fs name text s0 s buf stored plain e =
      let read = fs_read-Same m.disk w fs name (length text) s s0 e in
      let s1 = (fs_read m.disk fs name (length text) s).2 in
      let got : (fs_read m.disk fs name (length text) s).1 ≡ text =
        read.bytes ∙ ((stored (length text)).1 ∙ take-all text) in
      let none_left : drop (length text) (m.bytes_at buf (length text) s1) ≡ [] =
        drop-all (length text) (m.bytes_at buf (length text) s1)
          (omega (arith, r.bytes buf (length text) s1)) in
      let held : text_of (text ++ drop (length text) (m.bytes_at buf (length text) s1)) ≡ text =
        ap text_of (ap (λ b. text ++ b) none_left ∙ append-nil text) ∙ text_of_lem text plain in
      rw got (rw held (rw (shown_line text) refl))

  cmd_cat_lem :
      (fs : Fs) (name text : List ℕ) (s0 s : S)
      → Stored fs s0 name text
      → no_nul text ≡ true
      → 0 < length text
      → length text < 2 ^ 31
      → w.view s ≡ w.view s0
      → (m.kmalloc (length text + 1) s).0 ≢ 0
      → cmd_cat m name (fs, s) ≡ (fs, after_cat m fs name text (length text + 1) s)
  unfolding cmd_cat cat_probed Stored
  cmd_cat_lem fs name text s0 s stored plain more short e room =
      let probe : (fs_read m.disk fs name 0 s).0 ≡ some (length text) =
        (fs_read-Same m.disk w fs name 0 s s0 e).size ∙ (stored 0).0 in
      let after : (fs_read m.disk fs name 0 s).2 ≡ s = fs_read-probe m.disk w fs name s in
      let negative : leb (2 ^ 31) (length text) ≡ false = ground (arith, short) in
      let empty : (length text == 0) ≡ false = ground (arith, more) in
      let fits : u32 (length text + 1) ≡ length text + 1 = omega (arith, short) in
      let size = u32 (length text + 1) in
      let buf = m.kmalloc size s in
      let given : (m.kmalloc size s).0 ≢ 0 = subst (λ n. (m.kmalloc n s).0 ≢ 0) (sym fits) room in
      let ok : (buf.0 == 0) ≡ false = ground (arith, given) in
      let c =
        cat_contents_lem fs name text s0 buf.1 buf.0 stored plain (r.kmalloc_keeps size s ∙ e) in
      ap₂ (λ p u. cat_probed m name p (fs, u)) probe after
      ∙ (rw (negative, empty, ok) c ∙ ap (λ n. (fs, after_cat m fs name text n s)) fits)

  -- What `write name text` leaves, where the file system can store the text.
  write_file_lem :
      (fs : Fs) (s : S) (name text : List ℕ)
      → (fs_write m.disk name text (fs, s)).0 ≡ true
      → write_file m name text (fs, s)
        ≡ ((fs_write m.disk name text (fs, s)).1, after_write m fs name text s)
  unfolding write_file say
  write_file_lem fs s name text ok = rw (ok, write_file) refl

  cmd_write_lem :
      (fs : Fs) (s : S) (name text : List ℕ)
      → is_word name ≡ true
      → no_nul text ≡ true
      → cmd_write m (name ++ (32 ∷ text)) (fs, s) ≡ write_file m name text (fs, s)
  unfolding cmd_write write_split
  cmd_write_lem fs s name text h plain =
      ap (λ p. write_split m p (fs, s)) (split_name_lem name text h)
      ∙ ap (λ t. write_file m name t (fs, s)) (text_of_lem text plain)

-- On a working disk the command `write` with a word and a text that the file system stores reports
-- what it wrote, and then the command `cat` with the same word, where `kmalloc` has memory for the text
-- and a NUL, prints exactly that text and a newline, leaves the file system as it was, and as the last
-- thing frees the buffer that `kmalloc` gave it: for a text that is not empty, has no NUL and is
-- shorter than 2^31 bytes, on a layout whose regions do not overlap. Both commands end.
pub write-cat :
    {S : Type 0} (m : Machine S) (font_glyph : ℕ → ℕ → ℕ) (w : Working m.disk) (r : Keeps m w)
    (fuel : ℕ) (fs : Fs) (s : S) (name text : List ℕ)
    → Geometry fs.sb
    → is_word name ≡ true
    → no_nul text ≡ true
    → 0 < length text
    → length text < 2 ^ 31
    → (fs_write m.disk name text (fs, s)).0 ≡ true
    → (m.kmalloc (length text + 1) (after_write m fs name text s)).0 ≢ 0
    → let fs1 = (fs_write m.disk name text (fs, s)).1 in
      let t = after_write m fs name text s in
      (execute m font_glyph fuel (chars "write " ++ (name ++ (32 ∷ text))) (fs, s) ≡ some (fs1, t))
      × (execute m font_glyph fuel (chars "cat " ++ name) (fs1, t)
          ≡ some (fs1, after_cat m fs1 name text (length text + 1) t))
unfolding execute is_empty is_command begins is_zero strcmp strncmp chars Stored
write-cat m font_glyph w r fuel fs s name text g one_word plain more short ok room =
    let out = fs_write m.disk name text (fs, s) in
    let report =
      shown "  wrote %u bytes to %s\n" (word (u32 (strlen text)) ∷ string (some name) ∷ []) in
    let printed =
      cmd_cat_lem m w r out.1 name text out.2 (after_write m fs name text s)
        (λ maxlen. fs_write-fs_read m.disk w fs s name text maxlen g (omega (arith, short)) ok)
        plain more short (r.print_keeps report out.2) room in
    (
      ap some (
          cmd_write_lem m w r fs s name text one_word plain
          ∙ write_file_lem m w r fs s name text ok),
      ap some printed,
    )
