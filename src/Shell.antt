-- ===== src/Shell.antt =====
-- kernel/shell.c: what the shell uses of the other components, and the commands that report. The
-- state is the file system with that of the rest of the machine. `Machine` stands for the console, the
-- keyboard, the heap, the timer and the graphical interface, each by the functions that shell.c calls.
pub mod Files
pub mod Gfx
pub mod Paint
pub mod Run
pub mod Line
pub mod Read
pub mod Cat
mod Tests
use red_panda_os.Prelude.{
  ℕ, zero, suc, ◌+◌, ◌-◌, ◌*◌, ◌/◌, ◌%◌, ◌^◌, ◌≤◌, ◌<◌, min, max, bit_and, bit_or, bit_xor, ◌≡◌,
  refl, sym, ap, ap₂, ◌∙◌, fun_ext, subst, ◌≢◌, ◌↔◌, ◌⊎◌, inl, inr, Bool, true, false, not, ◌&&◌,
  ◌||◌, Option, none, some, List, [], ◌∷◌, ◌++◌, map, arith, ltb, leb, ◌==◌, if◌then◌else◌, ltb→lt,
  lt→ltb, leb→le, ==_iff, tests, Bool-cases, Option-cases, length, get_elem?, get_or, set, take,
  drop, replicate, length-append, length-set, length-take, length-drop, length-replicate,
  take-append-drop, get_elem?-set_self, get_elem?-set_ne, length-map, u8, u16, u32, u64, sub32, shr,
  shl,
}
use Prim.Native.String.{String}
use red_panda_os.Prelude.Chars.{chars}
use red_panda_os.Pmm.{E820Entry}
use red_panda_os.Heap.{heap_base}
use red_panda_os.Fb.{Fb}
use red_panda_os.Input.{Event}
use red_panda_os.Fs.{Fs, Disk}
use red_panda_os.Strings.{strlen}
use red_panda_os.Kprintf.{Arg, word, string, kprintf}

-- A pointer is an address, 0 the null pointer; `bytes_at` reads memory, and `input_wait` and
-- `keyboard_getchar` are `none` when nothing comes any more.
pub record Machine (S : Type 0) : Type 0 where
  pub disk : Disk S
  pub kmalloc : ℕ → S → ℕ × S
  pub kfree : ℕ → S → S
  pub memset : ℕ → ℕ → ℕ → S → S
  pub bytes_at : ℕ → ℕ → S → List ℕ
  pub heap_mapped_bytes : S → ℕ
  pub heap_used_bytes : S → ℕ
  pub pmm_free_kb : S → ℕ
  pub pmm_total_kb : S → ℕ
  pub memmap_entries : S → List E820Entry
  pub timer_ticks : S → ℕ
  pub timer_hz : S → ℕ
  pub keyboard_getchar : S → Option (ℕ × S)
  pub input_wait : S → Option (Event × S)
  pub input_flush : S → S
  pub console_print : List ℕ → S → S
  pub console_set_color : ℕ → ℕ → S → S
  pub console_clear : S → S
  pub screen : S → Fb
  pub set_screen : Fb → S → S
  pub gui_run : Fs × S → Fs × S
  pub gui_demo_windows : Fs × S → Fs × S
  pub invalid_opcode : S → S
  pub write_word : ℕ → ℕ → S → S

-- What `kprintf` puts out; a format that C leaves undefined puts out nothing here.
unfoldable pub shown : String → List Arg → List ℕ
unfolding chars kprintf
shown fmt args = elim (kprintf (chars fmt) args) [ none ↦ [] | some cs ↦ cs ]

-- The text of a buffer up to its NUL.
unfoldable pub text_of : List ℕ → List ℕ
unfolding strlen
text_of cs = take (strlen cs) cs

abbrev pub color_black : ℕ
color_black = 0

abbrev pub color_light_grey : ℕ
color_light_grey = 7

abbrev pub color_light_red : ℕ
color_light_red = 12

-- `memmap_type_name` of kernel/memmap.c
unfoldable pub memmap_type_name : ℕ → List ℕ
unfolding chars
memmap_type_name t =
    if t == 1
    then chars "usable"
    else if t == 2
    then chars "reserved"
    else if t == 3
    then chars "ACPI reclaimable"
    else if t == 4
    then chars "ACPI NVS"
    else if t == 5
    then chars "bad RAM"
    else chars "unknown"

module _ {S : Type 0} (m : Machine S) where
  unfoldable pub say : String → List Arg → S → S
  unfolding shown
  say fmt args s = m.console_print (shown fmt args) s

  unfoldable pub cmd_help : S → S
  unfolding say
  cmd_help s =
      let s1 = say "  gui             back to the desktop\n" [] s in
      let s2 = say "  demo            open the demo windows, then the desktop\n" [] s1 in
      let s3 = say "  help            this list\n" [] s2 in
      let s4 = say "  about           about RedPandaOS\n" [] s3 in
      let s5 = say "  uptime          time since boot\n" [] s4 in
      let s6 = say "  ls              list files\n" [] s5 in
      let s7 = say "  cat <file>      print a file\n" [] s6 in
      let s8 = say "  write <f> <txt> write text to a file\n" [] s7 in
      let s9 = say "  rm <file>       delete a file\n" [] s8 in
      let s10 = say "  mem             memory map and allocator stats\n" [] s9 in
      let s11 = say "  memtest         exercise kmalloc/kfree\n" [] s10 in
      let s12 = say "  gfx             graphics demo (any key returns)\n" [] s11 in
      let s13 = say "  paint           draw with the mouse (ESC exits)\n" [] s12 in
      let s14 = say "  echo <text>     print <text>\n" [] s13 in
      let s15 = say "  clear           clear the screen\n" [] s14 in
      let s16 = say "  crash           invalid opcode -> panic screen\n" [] s15 in
      say "  pagefault       touch unmapped memory -> page fault panic\n" [] s16

  unfoldable pub mem_line : E820Entry → S → S
  unfolding say memmap_type_name
  mem_line e s =
      say "    %08x%08x  %8u KB  %s\n"
        (word (u32 (shr e.base 32))
          ∷ word (u32 e.base)
          ∷ word (u32 (shr e.len 10))
          ∷ string (some (memmap_type_name e.type))
          ∷ [])
        s

  unfoldable pub mem_lines : List E820Entry → S → S
  unfolding mem_line
  mem_lines [] s = s
  mem_lines (e ∷ entries) s = mem_lines entries (mem_line e s)

  unfoldable pub cmd_mem : S → S
  unfolding say mem_lines
  cmd_mem s =
      let s1 = say "  BIOS E820 memory map:\n" [] s in
      let s2 = mem_lines (m.memmap_entries s1) s1 in
      let s3 =
        say "\n  physical : %u KB free of %u KB usable (4 KB frames)\n"
          (word (m.pmm_free_kb s2) ∷ word (m.pmm_total_kb s2) ∷ []) s2 in
      say "  heap     : %u KB mapped at %p, %u bytes in use\n"
        (word (m.heap_mapped_bytes s3 / 1024) ∷ word heap_base ∷ word (m.heap_used_bytes s3) ∷ [])
        s3

  unfoldable pub cmd_about : S → S
  unfolding say
  cmd_about s =
      let s1 = m.console_set_color color_light_red color_black s in
      let s2 = say "\n    (\\__/)\n" [] s1 in
      let s3 = say "    (o^.^)    RedPandaOS v11\n" [] s2 in
      let s4 = say "    z(_(\")(\")  " [] s3 in
      let s5 = m.console_set_color color_light_grey color_black s4 in
      say "own bootloader, own kernel, own everything.\n\n" [] s5

  -- The seconds with two places after the point.
  unfoldable pub cmd_uptime : S → S
  unfolding say
  cmd_uptime s =
      let t = m.timer_ticks s in
      let hz = m.timer_hz s in
      say "  up %u.%02u s  (%u ticks @ %u Hz)\n"
        (word (t / hz) ∷ word (u32 (t % hz * 100) / hz) ∷ word t ∷ word hz ∷ []) s

  -- The first of the `n` bytes at `p` that is not `v`.
  unfoldable pub first_bad : ℕ → ℕ → List ℕ → Option ℕ
  first_bad i v [] = none
  first_bad i v (b ∷ bytes) = if b == v then first_bad (suc i) v bytes else some i

  -- A loop that verifies a pattern, with the message where it fails.
  unfoldable pub verify : String → ℕ → ℕ → ℕ → S → Bool × S
  unfolding say first_bad
  verify message p v n s = elim (first_bad 0 v (m.bytes_at p n s)) [
    | none ↦ (true, s)
    | some i ↦ (false, say message (word i ∷ []) s)
  ]

  -- What follows the first two loops of `cmd_memtest`.
  unfoldable pub memtest_reuse : ℕ → ℕ → ℕ → S → S
  unfolding say verify
  memtest_reuse a b c s =
      let s1 = say "ok\n" [] s in
      let s2 = say "  free b, alloc d=32 KB (should reuse b's space) ... " [] s1 in
      let (d, s3) = m.kmalloc (32 * 1024) (m.kfree b s2) in
      let s4 = say "ok (d=%p)\n" (word d ∷ []) s3 in
      let s5 = say "  verifying a survived ... " [] s4 in
      let (ok, s6) = verify "FAILED at a[%d]\n" a 0xAA (8 * 1024) s5 in
      let s7 = m.kfree d (m.kfree c (m.kfree a (say "ok\n" [] s6))) in
      if ok
      then say "  all freed. heap: %u KB mapped, %u bytes in use\n"
          (word (m.heap_mapped_bytes s7 / 1024) ∷ word (m.heap_used_bytes s7) ∷ []) s7
      else s6

  unfoldable pub cmd_memtest : S → S
  unfolding say verify memtest_reuse
  cmd_memtest s =
      let s1 = say "  alloc a=8 KB, b=100 KB, c=16 B ... " [] s in
      let (a, s2) = m.kmalloc (8 * 1024) s1 in
      let (b, s3) = m.kmalloc (100 * 1024) s2 in
      let (c, s4) = m.kmalloc 16 s3 in
      let s5 = say "ok (a=%p b=%p c=%p)\n" (word a ∷ word b ∷ word c ∷ []) s4 in
      let s6 = say "  writing patterns, verifying ... " [] s5 in
      let s7 = m.memset a 0xAA (8 * 1024) s6 in
      let s8 = m.memset b 0x5B (100 * 1024) s7 in
      let s9 = m.memset c 0xC7 16 s8 in
      let (a_ok, s10) = verify "FAILED at a[%d]\n" a 0xAA (8 * 1024) s9 in
      let (b_ok, s11) = verify "FAILED at b[%d]\n" b 0x5B (100 * 1024) s10 in
      if ((a == 0) || (b == 0)) || (c == 0)
      then say "FAILED (out of memory?)\n" [] s4
      else if not a_ok
      then s10
      else if not b_ok
      then s11
      else memtest_reuse a b c s11
