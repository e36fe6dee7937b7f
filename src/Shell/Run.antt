-- ===== src/Shell/Run.antt =====
-- kernel/shell.c: the line editor, the table of commands, and the shell's loop.
use red_panda_os.Prelude.{
  ℕ, zero, suc, ◌-◌, Bool, ◌&&◌, Option, none, some, List, [], ◌∷◌, ◌++◌, ltb, leb, ◌==◌,
  if◌then◌else◌, length, take, drop,
}
use red_panda_os.Fs.{Fs, is_zero}
use red_panda_os.Fs.Ops.{is_empty}
use red_panda_os.Prelude.Chars.{chars}
use red_panda_os.Strings.{strcmp, strncmp}
use red_panda_os.Kprintf.{string}
use Prim.Native.String.{String}
use red_panda_os.Shell.{
  Machine, say, cmd_help, cmd_about, cmd_uptime, cmd_mem, cmd_memtest, color_black,
  color_light_grey, color_light_red,
}
use red_panda_os.Shell.Files.{cmd_ls, cmd_cat, cmd_write, cmd_rm}
use red_panda_os.Shell.Gfx.{cmd_gfx}
use red_panda_os.Shell.Paint.{cmd_paint}

abbrev pub line_max : ℕ
line_max = 128

-- `!strcmp(line, verb)`
unfoldable pub is_command : List ℕ → String → Bool
unfolding is_zero strcmp chars
is_command line verb = is_zero (strcmp line (chars verb))

-- `!strncmp(line, verb, n)`
unfoldable pub begins : List ℕ → String → ℕ → Bool
unfolding is_zero strncmp chars
begins line verb n = is_zero (strncmp line (chars verb) n)

-- What a key does to the line: the new line, and what is put on the console.
unfoldable pub line_key : ℕ → List ℕ → List ℕ × List ℕ
line_key c buf =
    if c == 8
    then (take (length buf - 1) buf, if length buf == 0 then [] else 8 ∷ [])
    else if (leb 32 c && ltb c 128) && ltb (length buf) (line_max - 1)
    then (buf ++ (c ∷ []), c ∷ [])
    else (buf, [])

module _ {S : Type 0} (m : Machine S) (font_glyph : ℕ → ℕ → ℕ) where
  -- The loop of `read_line`, for at most `fuel` characters, on what the buffer holds; `none` while the
  -- line has no end.
  unfoldable pub line_from : ℕ → List ℕ → S → Option (List ℕ × S)
  unfolding line_key
  line_from zero buf s = none
  line_from (suc fuel) buf s = elim (m.keyboard_getchar s) [
    | none ↦ none
    | some (c, s1) ↦
        let (buf1, echo) = line_key c buf in
        if c == 10
        then some (buf, m.console_print (10 ∷ []) s1)
        else line_from fuel buf1 (m.console_print echo s1)
  ]

  unfoldable pub read_line : ℕ → S → Option (List ℕ × S)
  unfolding line_from
  read_line fuel s = line_from fuel [] s

  unfoldable pub back_in_console : S → S
  unfolding say
  back_in_console s =
      say m "Back in the console. 'gui' returns to the desktop.\n" [] (m.console_clear s)

  -- The tests from `help` on; `none` when `gfx` or `paint` waits for input that never comes.
  unfoldable pub execute_plain : ℕ → List ℕ → S → Option S
  unfolding is_command begins say cmd_help cmd_about cmd_uptime cmd_gfx cmd_paint cmd_mem
      cmd_memtest
  execute_plain fuel line s =
      if is_command line "help"
      then some (cmd_help m s)
      else if is_command line "about"
      then some (cmd_about m s)
      else if is_command line "uptime"
      then some (cmd_uptime m s)
      else if is_command line "clear"
      then some (m.console_clear s)
      else if begins line "echo " 5
      then some (say m "%s\n" (string (some (drop 5 line)) ∷ []) s)
      else if is_command line "echo"
      then some (say m "\n" [] s)
      else if is_command line "gfx"
      then cmd_gfx m font_glyph s
      else if is_command line "paint"
      then cmd_paint m font_glyph fuel s
      else if is_command line "mem"
      then some (cmd_mem m s)
      else if is_command line "memtest"
      then some (cmd_memtest m s)
      else if is_command line "crash"
      then some (m.invalid_opcode (say m "  executing an invalid opcode...\n" [] s))
      else if is_command line "pagefault"
      then some
          (m.write_word 0xE0000000 42 (say m "  writing to unmapped address 0xE0000000...\n" [] s))
      else some (say m "  unknown command: %s  (try 'help')\n" (string (some line) ∷ []) s)

  unfoldable pub after_gui : Fs × S → Fs × S
  unfolding back_in_console
  after_gui (fs, s) = (fs, back_in_console s)

  unfoldable pub execute : ℕ → List ℕ → Fs × S → Option (Fs × S)
  unfolding is_command begins is_empty after_gui cmd_ls cmd_cat cmd_write cmd_rm execute_plain
  execute fuel line (fs, s) =
      if is_empty line
      then some (fs, s)
      else if is_command line "gui"
      then some (after_gui (m.gui_run (fs, s)))
      else if is_command line "demo"
      then some (after_gui (m.gui_run (m.gui_demo_windows (fs, s))))
      else if is_command line "ls"
      then some (cmd_ls m (fs, s))
      else if begins line "cat " 4
      then some (cmd_cat m (drop 4 line) (fs, s))
      else if begins line "write " 6
      then some (cmd_write m (drop 6 line) (fs, s))
      else if begins line "rm " 3
      then some (cmd_rm m (drop 3 line) (fs, s))
      else elim (execute_plain fuel line s) [ none ↦ none | some s1 ↦ some (fs, s1) ]

  unfoldable pub prompt : S → S
  unfolding say
  prompt s =
      let s1 = say m "redpanda" [] (m.console_set_color color_light_red color_black s) in
      say m "> " [] (m.console_set_color color_light_grey color_black s1)

  unfoldable pub execute_read : ℕ → Fs → Option (List ℕ × S) → Option (Fs × S)
  unfolding execute
  execute_read fuel fs none = none
  execute_read fuel fs (some (line, s)) = execute fuel line (fs, s)

  -- A round of the shell's loop, for at most `fuel` characters of a line and events of a command.
  unfoldable pub shell_round : ℕ → Fs × S → Option (Fs × S)
  unfolding prompt read_line execute_read
  shell_round fuel (fs, s) = execute_read fuel fs (read_line fuel (prompt s))

  unfoldable pub shell_rounds : ℕ → ℕ → Fs × S → Option (Fs × S)
  unfolding shell_round
  shell_rounds zero fuel t = some t
  shell_rounds (suc n) fuel t = elim (shell_round fuel t) [
    | none ↦ none
    | some t1 ↦ shell_rounds n fuel t1
  ]

  -- The first `n` rounds of the shell.
  unfoldable pub shell_run : ℕ → ℕ → Fs × S → Option (Fs × S)
  unfolding say shell_rounds
  shell_run n fuel (fs, s) =
      shell_rounds n fuel (fs, say m "Type 'help' for a list of commands.\n\n" [] s)
