-- ===== src/Shell/Read.antt =====
-- kernel/shell.c: reading a line at the prompt, and executing it.
use red_panda_os.Prelude.{
  ℕ, zero, suc, ◌<◌, ◌≡◌, refl, sym, ap, ◌∙◌, subst, true, false, some, List, [], ◌∷◌, ◌++◌, arith,
  ◌==◌, length,
}
use red_panda_os.Fs.{Fs}
use red_panda_os.Prelude.Chars.{chars}
use red_panda_os.Kprintf.{kprintf}
use red_panda_os.Shell.{Machine, say, shown, color_black, color_light_grey, color_light_red}
use red_panda_os.Shell.Run.{
  line_key, line_from, read_line, prompt, execute, execute_read, shell_round,
}
use red_panda_os.Shell.Line.{
  display, no_enter, all_printable, IsLine, line_keys, line_keys-IsLine, typed_line,
  line_keys-typed_line,
}

-- What the shell relies on of the keyboard and the console: the characters that are typed come in
-- their order, and what is printed is added to what the console has been given.
pub record Terminal {S : Type 0} (m : Machine S) : Type 0 where
  pub typed : S → List ℕ
  pub printed : S → List ℕ
  pub gets :
      (s : S) (c : ℕ) (cs : List ℕ)
      → typed s ≡ c ∷ cs
      → (t : S) × (m.keyboard_getchar s ≡ some (c, t)) × (typed t ≡ cs) × (printed t ≡ printed s)
  pub prints :
      (cs : List ℕ) (s : S)
      → (typed (m.console_print cs s) ≡ typed s)
        × (printed (m.console_print cs s) ≡ printed s ++ cs)
  pub colors :
      (f b : ℕ) (s : S)
      → (typed (m.console_set_color f b s) ≡ typed s)
        × (printed (m.console_set_color f b s) ≡ printed s)

append_assoc : (xs ys zs : List ℕ) → (xs ++ ys) ++ zs ≡ xs ++ (ys ++ zs)
append_assoc [] ys zs = refl
append_assoc (x ∷ xs) ys zs = ap (λ t. x ∷ t) (append_assoc xs ys zs)

module _ {S : Type 0} (m : Machine S) (font_glyph : ℕ → ℕ → ℕ) (t : Terminal m) where
  -- How a line is read: the line, the state after it, and what was echoed.
  pub record Read (buf line echo rest : List ℕ) (fuel : ℕ) (s : S) : Type 0 where
    pub state : S
    pub result : line_from m font_glyph fuel buf s ≡ some (line, state)
    pub left : t.typed state ≡ rest
    pub seen : t.printed state ≡ t.printed s ++ (echo ++ (10 ∷ []))

  line_from-Read :
      (fuel : ℕ) (keys buf rest : List ℕ) (s : S)
      → no_enter keys ≡ true
      → length keys < fuel
      → t.typed s ≡ keys ++ (10 ∷ rest)
      → Read buf (line_keys keys buf).0 (line_keys keys buf).1 rest fuel s
  unfolding line_from no_enter line_keys
  line_from-Read zero keys buf rest s n f e = absurd (omega (arith, f))
  line_from-Read (suc fuel) [] buf rest s n f e =
      let (s1, got, left, same) = t.gets s 10 rest e in
      let (typed, printed) = t.prints (10 ∷ []) s1 in
      record {
        state = m.console_print (10 ∷ []) s1;
        result = rw (got, line_from) refl;
        left = typed ∙ left;
        seen = printed ∙ ap (λ p. p ++ (10 ∷ [])) same;
      }
  line_from-Read (suc fuel) (c ∷ keys) buf rest s n f e =
      let (s1, got, left, same) = t.gets s c (keys ++ (10 ∷ rest)) e in
      let (buf1, echo) = line_key c buf in
      let (typed, printed) = t.prints echo s1 in
      let other : (c == 10) ≡ false = ground (arith, n) in
      let more : no_enter keys ≡ true = ground (arith, n) in
      let r =
        line_from-Read fuel keys buf1 rest (m.console_print echo s1) more (omega (arith, f))
          (typed ∙ left) in
      record {
        state = r.state;
        result = rw (got, other, line_from) r.result;
        left = r.left;
        seen =
            r.seen
            ∙ (ap (λ p. p ++ ((line_keys keys buf1).1 ++ (10 ∷ [])))
                  (printed ∙ ap (λ p. p ++ echo) same)
                ∙ (append_assoc (t.printed s) echo ((line_keys keys buf1).1 ++ (10 ∷ []))
                    ∙ ap (λ x. t.printed s ++ x)
                        (sym (append_assoc echo (line_keys keys buf1).1 (10 ∷ [])))));
      }

  say_lem :
      (cs : List ℕ) (f b : ℕ) (s : S)
      → let s1 = m.console_print cs (m.console_set_color f b s) in
        (t.typed s1 ≡ t.typed s) × (t.printed s1 ≡ t.printed s ++ cs)
  say_lem cs f b s =
      let (typed, printed) = t.prints cs (m.console_set_color f b s) in
      let (typed', printed') = t.colors f b s in
      (typed ∙ typed', printed ∙ ap (λ p. p ++ cs) printed')

  prompt_lem :
      (s : S)
      → (t.typed (prompt m font_glyph s) ≡ t.typed s)
        × (t.printed (prompt m font_glyph s) ≡ t.printed s ++ chars "redpanda> ")
  unfolding prompt say shown kprintf chars
  prompt_lem s =
      let (typed, printed) = say_lem (chars "redpanda") color_light_red color_black s in
      let s1 =
        m.console_print (chars "redpanda") (m.console_set_color color_light_red color_black s) in
      let (typed', printed') = say_lem (chars "> ") color_light_grey color_black s1 in
      (
        typed' ∙ typed,
        printed'
            ∙ (ap (λ p. p ++ chars "> ") printed
                ∙ append_assoc (t.printed s) (chars "redpanda") (chars "> ")),
      )

  -- When the keys of a line and Enter are typed, a round of the shell shows the prompt and executes
  -- the line that the keys make: a character that can be shown is added while there are fewer than 127,
  -- a backspace takes the last one away, and any other key does nothing. The console shows that very
  -- line (the echo, with its backspaces carried out, is the line), and what is typed behind Enter is
  -- left for the next round. A character more of fuel than there are keys is enough.
  pub shell_round-reads :
      (fs : Fs) (s : S) (keys rest : List ℕ) (fuel : ℕ)
      → no_enter keys ≡ true
      → length keys < fuel
      → t.typed s ≡ keys ++ (10 ∷ rest)
      → let line = typed_line keys in
        (s1 : S) × (echo : List ℕ) × (shell_round m font_glyph fuel (fs, s)
          ≡ execute m font_glyph fuel line (fs, s1))
        × (t.typed s1 ≡ rest)
        × (t.printed s1 ≡ t.printed s ++ (chars "redpanda> " ++ (echo ++ (10 ∷ []))))
        × (display [] echo ≡ line)
        × IsLine line
  unfolding shell_round read_line execute_read all_printable
  shell_round-reads fs s keys rest fuel n f e =
      let (typed, printed) = prompt_lem s in
      let r = line_from-Read fuel keys [] rest (prompt m font_glyph s) n f (typed ∙ e) in
      let (good, same) =
        line_keys-IsLine keys [] (record { fits = omega arith; printable = refl }) in
      let echo = (line_keys keys []).1 in
      let line = line_keys-typed_line keys in
      (
        r.state,
        echo,
        ap (execute_read m font_glyph fuel fs) r.result
            ∙ ap (λ l. execute m font_glyph fuel l (fs, r.state)) line,
        r.left,
        r.seen
            ∙ (ap (λ p. p ++ (echo ++ (10 ∷ []))) printed
                ∙ append_assoc (t.printed s) (chars "redpanda> ") (echo ++ (10 ∷ []))),
        same ∙ line,
        subst IsLine line good,
      )
