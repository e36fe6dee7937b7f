-- ===== src/Shell/Tests.antt =====
-- Runs of shell.c on a small machine, and its theorems there.
use red_panda_os.Prelude.{
  ℕ, ◌≡◌, refl, true, false, Option, none, some, List, [], ◌∷◌, ◌++◌, arith, ◌==◌, if◌then◌else◌,
  replicate, length-replicate, length, ◌+◌,
}
use red_panda_os.Prelude.Chars.{chars}
use red_panda_os.Fs.{Sector}
use red_panda_os.Fs.Contents.{Working}
use red_panda_os.Fs.Ops.{fs_write, is_empty}
use red_panda_os.Fb.{Fb}
use red_panda_os.Prelude.Int.{pos}
use red_panda_os.Strings.{strlen}
use red_panda_os.Fs.{free_chain_from}
use red_panda_os.Shell.{Machine}
use red_panda_os.Shell.Run.{execute, shell_round}
use red_panda_os.Shell.Line.{display, IsLine, no_enter, typed_line}
use red_panda_os.Shell.Read.{Terminal, shell_round-reads}
use red_panda_os.Shell.Cat.{Keeps, after_write, after_cat, is_word, no_nul, write-cat}
use red_panda_os.Fs.Tests.{small, small_sb-Geometry}

-- The sectors, what is still typed, and what was printed.
record Small : Type 0 where
  sectors : ℕ → Sector
  keys : List ℕ
  shown : List ℕ

abbrev no_screen : Fb
no_screen = record {
  lfb = λ i. 0;
  backbuf = none;
  mode = record { width = 4; height = 3; pitch = 12; bypp = 3 };
  cur_sprite = none;
  cur_w = 0;
  cur_h = 0;
  cur_hx = pos 0;
  cur_hy = pos 0;
  cur_x = pos 0;
  cur_y = pos 0;
  cur_visible = false;
}

abbrev getchar : Small → Option (ℕ × Small)
getchar s = elim s.keys [ [] ↦ none | c ∷ cs ↦ some (c, record s { keys = cs }) ]

abbrev machine : Machine Small
machine = record {
  disk = record {
    ata_init = λ s. (true, s);
    ata_sectors = λ s. 1000;
    ata_read = λ lba s. (some (s.sectors lba), s);
    ata_write = λ lba x s. (true, record s { sectors = λ j. if lba == j then x else s.sectors j });
    kmalloc = λ n s. (true, s);
  };
  kmalloc = λ n s. (0xD0000010, s);
  kfree = λ p s. s;
  memset = λ p v n s. s;
  bytes_at = λ p n s. replicate n 0;
  heap_mapped_bytes = λ s. 0;
  heap_used_bytes = λ s. 0;
  pmm_free_kb = λ s. 0;
  pmm_total_kb = λ s. 0;
  memmap_entries = λ s. [];
  timer_ticks = λ s. 0;
  timer_hz = λ s. 100;
  keyboard_getchar = getchar;
  input_wait = λ s. none;
  input_flush = λ s. s;
  console_print = λ cs s. record s { shown = s.shown ++ cs };
  console_set_color = λ f b s. s;
  console_clear = λ s. s;
  screen = λ s. no_screen;
  set_screen = λ fb s. s;
  gui_run = λ t. t;
  gui_demo_windows = λ t. t;
  invalid_opcode = λ s. s;
  write_word = λ at v s. s;
}

abbrev machine-Working : Working machine.disk
machine-Working = record {
  view = λ s. s.sectors;
  reads = λ s lba. refl;
  read_keeps = λ s lba. refl;
  writes = λ s lba x e. ground arith;
  write_keeps = λ s lba x other h. ground arith;
}

machine-Keeps : Keeps machine machine-Working
machine-Keeps = record {
  print_keeps = λ cs s. refl;
  kmalloc_keeps = λ n s. refl;
  bytes = λ p n s. length-replicate n 0;
}

machine-Terminal : Terminal machine
machine-Terminal = record {
  typed = λ s. s.keys;
  printed = λ s. s.shown;
  gets = λ s c cs e. (record s { keys = cs }, rw e refl, refl, refl);
  prints = λ cs s. (refl, refl);
  colors = λ f b s. (refl, refl);
}

abbrev no_font : ℕ → ℕ → ℕ
no_font c row = 0

abbrev name : List ℕ
name = chars "ab"

abbrev text : List ℕ
text = chars "hello world"

-- `la`, a backspace, `s` and Enter.
abbrev typing : Small
typing = record {
  sectors = λ lba. replicate 512 0;
  keys = 108 ∷ 97 ∷ 8 ∷ 115 ∷ 10 ∷ [];
  shown = [];
}

stored : (fs_write machine.disk name text (small, typing)).0 ≡ true
unfolding chars fs_write strlen is_empty free_chain_from
stored = refl

write-cat_example :
    let fs1 = (fs_write machine.disk name text (small, typing)).1 in
    let t = after_write machine small name text typing in
    (execute machine no_font 1 (chars "write " ++ (name ++ (32 ∷ text))) (small, typing)
      ≡ some (fs1, t))
    × (execute machine no_font 1 (chars "cat " ++ name) (fs1, t)
        ≡ some (fs1, after_cat machine fs1 name text (length text + 1) t))
unfolding chars is_word no_nul
write-cat_example =
    write-cat machine no_font machine-Working machine-Keeps 1 small typing name text
      small_sb-Geometry refl refl (omega arith) (omega arith) stored (omega arith)

shell_round-reads_example :
    let line = typed_line (108 ∷ 97 ∷ 8 ∷ 115 ∷ []) in
    (s1 : Small) × (echo : List ℕ) × (shell_round machine no_font 5 (small, typing)
      ≡ execute machine no_font 5 line (small, s1))
    × (s1.keys ≡ [])
    × (s1.shown ≡ chars "redpanda> " ++ (echo ++ (10 ∷ [])))
    × (display [] echo ≡ line)
    × IsLine line
unfolding no_enter machine-Terminal
shell_round-reads_example =
    shell_round-reads machine no_font machine-Terminal small typing (108 ∷ 97 ∷ 8 ∷ 115 ∷ []) [] 5
      refl (omega arith) refl
