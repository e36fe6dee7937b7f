-- ===== src/Editor/Lines.antt =====
-- kernel/gui.c, the text editor: byte positions, and lines with columns.
use red_panda_os.Prelude.{
  ℕ, zero, suc, ◌+◌, ◌≤◌, ◌<◌, ◌≡◌, refl, ap, ap₂, ◌∙◌, inl, inr, true, false, List, [], ◌∷◌, arith,
  ◌==◌, if◌then◌else◌, Bool-cases, length, drop, length-drop,
}
use red_panda_os.Editor.{
  ed_linecol, linecol_from, ed_line_start, line_start_from, ed_line_len, line_len_from,
  ed_line_count, line_count_from,
}

line_start_from-zero : (xs : List ℕ) (i : ℕ) → line_start_from xs 0 i ≡ i
unfolding line_start_from
line_start_from-zero [] i = refl
line_start_from-zero (x ∷ xs) i = refl

line_start_from-shift :
    (xs : List ℕ) (line i : ℕ) → line_start_from xs line i ≡ i + line_start_from xs line 0
unfolding line_start_from
line_start_from-shift [] line i = omega arith
line_start_from-shift (x ∷ xs) zero i = omega arith
line_start_from-shift (x ∷ xs) (suc line) i =
    let l = if x == 10 then line else suc line in
    omega (arith, line_start_from-shift xs l (suc i), line_start_from-shift xs l 1)

line_count_from-shift : (xs : List ℕ) (n : ℕ) → line_count_from xs n ≡ n + line_count_from xs 0
unfolding line_count_from
line_count_from-shift [] n = omega arith
line_count_from-shift (x ∷ xs) n = elim (Bool-cases (x == 10)) [
  | inl e ↦ rw e (omega (arith, line_count_from-shift xs (suc n), line_count_from-shift xs 1))
  | inr e ↦ rw e (line_count_from-shift xs n)
]

-- Line `k` of `xs`, counted from 0.
line_at : List ℕ → ℕ → List ℕ
line_at xs k = drop (line_start_from xs k 0) xs

-- The columns that line `k` has before the text: `c` on the first line only.
abbrev before : ℕ → ℕ → ℕ
before zero c = c
before (suc k) c = 0

before-zero : (k : ℕ) → before k 0 ≡ 0
before-zero zero = refl
before-zero (suc k) = refl

module _ (x : ℕ) (xs : List ℕ) (e : (x == 10) ≡ true) where
  start-newline : (k : ℕ) → line_start_from (x ∷ xs) (suc k) 0 ≡ suc (line_start_from xs k 0)
  unfolding line_start_from
  start-newline k = rw e (omega (arith, line_start_from-shift xs k 1))

  line_at-newline : (k : ℕ) → line_at (x ∷ xs) (suc k) ≡ line_at xs k
  unfolding line_at
  line_at-newline k = ap (λ i. drop i (x ∷ xs)) (start-newline k)

  count-newline : line_count_from (x ∷ xs) 0 ≡ suc (line_count_from xs 0)
  unfolding line_count_from
  count-newline = rw e (omega (arith, line_count_from-shift xs 1))

module _ (x : ℕ) (xs : List ℕ) (e : (x == 10) ≡ false) where
  start-other : (k : ℕ) → line_start_from (x ∷ xs) (suc k) 0 ≡ suc (line_start_from xs (suc k) 0)
  unfolding line_start_from
  start-other k = rw e (omega (arith, line_start_from-shift xs (suc k) 1))

  line_at-other : (k : ℕ) → line_at (x ∷ xs) (suc k) ≡ line_at xs (suc k)
  unfolding line_at
  line_at-other k = ap (λ i. drop i (x ∷ xs)) (start-other k)

  count-other : line_count_from (x ∷ xs) 0 ≡ line_count_from xs 0
  unfolding line_count_from
  count-other = rw e refl

  len-other : line_len_from (line_at (x ∷ xs) 0) ≡ suc (line_len_from (line_at xs 0))
  unfolding line_at line_len_from
  len-other = rw (line_start_from-zero (x ∷ xs) 0, line_start_from-zero xs 0) (rw e refl)

-- What the loop of `ed_linecol` has found: line `l + k`, and the column `col` of it.
record Found (xs : List ℕ) (n l c : ℕ) (r : ℕ × ℕ) : Type 0 where
  k : ℕ
  line : r.0 ≡ l + k
  place : line_start_from xs k 0 + r.1 ≡ n + before k c
  within : r.1 ≤ before k c + line_len_from (line_at xs k)
  counted : k ≤ line_count_from xs 0

Found-other :
    (x : ℕ) (xs : List ℕ) (n l c : ℕ) (r : ℕ × ℕ)
    → (x == 10) ≡ false
    → Found xs n l (suc c) r
    → Found (x ∷ xs) (suc n) l c r
Found-other x xs n l c r e f = go f.k f.line f.place f.within f.counted
  where
    go :
        (k : ℕ)
        → r.0 ≡ l + k
        → line_start_from xs k 0 + r.1 ≡ n + before k (suc c)
        → r.1 ≤ before k (suc c) + line_len_from (line_at xs k)
        → k ≤ line_count_from xs 0
        → Found (x ∷ xs) (suc n) l c r
    go zero line place within counted = record {
      k = 0;
      line = line;
      place = omega (arith, place, line_start_from-zero xs 0, line_start_from-zero (x ∷ xs) 0);
      within = omega (arith, within, len-other x xs e);
      counted = omega arith;
    }
    go (suc k) line place within counted = record {
      k = suc k;
      line = line;
      place = omega (arith, place, start-other x xs e k);
      within = rw (line_at-other x xs e k) within;
      counted = omega (arith, counted, count-other x xs e);
    }

linecol_from-Found :
    (xs : List ℕ) (n l c : ℕ) → n ≤ length xs → Found xs n l c (linecol_from xs n l c)
unfolding linecol_from
linecol_from-Found xs zero l c h = record {
  k = 0;
  line = omega arith;
  place = rw (line_start_from-zero xs 0) refl;
  within = omega arith;
  counted = omega arith;
}
linecol_from-Found [] (suc n) l c h = absurd (omega arith)
linecol_from-Found (x ∷ xs) (suc n) l c h = elim (Bool-cases (x == 10)) [
  | inl e ↦
      let f = linecol_from-Found xs n (suc l) 0 (omega arith) in
      rw e (record {
        k = suc f.k;
        line = omega (arith, f.line);
        place = omega (arith, f.place, start-newline x xs e f.k, before-zero f.k);
        within = rw (line_at-newline x xs e f.k) (omega (arith, f.within, before-zero f.k));
        counted = omega (arith, f.counted, count-newline x xs e);
      })
  | inr e ↦
      let f = linecol_from-Found xs n l (suc c) (omega arith) in
      rw e (Found-other x xs n l c (linecol_from xs n l (suc c)) e f)
]

linecol-newline :
    (x : ℕ) (xs : List ℕ) (n l c : ℕ)
    → (x == 10) ≡ true
    → linecol_from (x ∷ xs) (suc n) l c ≡ linecol_from xs n (suc l) 0
unfolding linecol_from
linecol-newline x xs n l c e = rw e refl

linecol-other :
    (x : ℕ) (xs : List ℕ) (n l c : ℕ)
    → (x == 10) ≡ false
    → linecol_from (x ∷ xs) (suc n) l c ≡ linecol_from xs n l (suc c)
unfolding linecol_from
linecol-other x xs n l c e = rw e refl

len-newline : (x : ℕ) (xs : List ℕ) → (x == 10) ≡ true → line_len_from (line_at (x ∷ xs) 0) ≡ 0
unfolding line_at line_len_from
len-newline x xs e = rw (line_start_from-zero (x ∷ xs) 0) (rw e refl)

both : {a b c d : ℕ} → a ≡ b → c ≡ d → ◌≡◌ {A = ℕ × ℕ} (a, c) (b, d)
both p q = ap₂ (λ u v. (u, v)) p q

linecol-zero : (xs : List ℕ) (l c : ℕ) → linecol_from xs 0 l c ≡ (l, c)
unfolding linecol_from
linecol-zero xs l c = refl

-- The position of a line and a column is found to be at that line and column.
linecol_from-line :
    (xs : List ℕ) (k col l c : ℕ)
    → k ≤ line_count_from xs 0
    → col ≤ line_len_from (line_at xs k)
    → linecol_from xs (line_start_from xs k 0 + col) l c ≡ (l + k, before k c + col)
unfolding line_count_from line_at line_start_from line_len_from
linecol_from-line [] zero col l c hk hc =
    let z : 0 + col ≡ 0 = omega arith in
    rw z (linecol-zero [] l c ∙ both (omega arith) (omega arith))
linecol_from-line [] (suc k) col l c hk hc = absurd (omega arith)
linecol_from-line (x ∷ xs) zero zero l c hk hc =
    let z : 0 + 0 ≡ 0 = omega arith in
    rw z (linecol-zero (x ∷ xs) l c ∙ both (omega arith) (omega arith))
linecol_from-line (x ∷ xs) zero (suc col) l c hk hc = elim (Bool-cases (x == 10)) [
  | inl e ↦ absurd (omega (arith, hc, len-newline x xs e))
  | inr e ↦
      let s : 0 + suc col ≡ suc (line_start_from xs 0 0 + col) =
        omega (arith, line_start_from-zero xs 0) in
      rw s (
        linecol-other x xs (line_start_from xs 0 0 + col) l c e
        ∙ (linecol_from-line xs zero col l (suc c) (omega arith)
              (omega (arith, hc, len-other x xs e))
            ∙ both refl (omega arith)))
]
linecol_from-line (x ∷ xs) (suc k) col l c hk hc = elim (Bool-cases (x == 10)) [
  | inl e ↦
      let s : line_start_from (x ∷ xs) (suc k) 0 + col ≡ suc (line_start_from xs k 0 + col) =
        omega (arith, start-newline x xs e k) in
      rw s (
        linecol-newline x xs (line_start_from xs k 0 + col) l c e
        ∙ (linecol_from-line xs k col (suc l) 0 (omega (arith, hk, count-newline x xs e))
              (rw (line_at-newline x xs e k) at hc)
            ∙ both (omega arith) (omega (arith, before-zero k))))
  | inr e ↦
      let s : line_start_from (x ∷ xs) (suc k) 0 + col ≡ suc (line_start_from xs (suc k) 0 + col) =
        omega (arith, start-other x xs e k) in
      rw s (
        linecol-other x xs (line_start_from xs (suc k) 0 + col) l c e
        ∙ linecol_from-line xs (suc k) col l (suc c) (omega (arith, hk, count-other x xs e))
            (rw (line_at-other x xs e k) at hc))
]

-- A position inside the text has a line of the text and a column of that line, and the line's
-- start and the column make up the position.
pub ed_linecol-inside :
    (buf : List ℕ) (at : ℕ)
    → at ≤ length buf
    → let (line, col) = ed_linecol buf at in
      (line < ed_line_count buf)
      × (col ≤ ed_line_len buf (ed_line_start buf line))
      × (ed_line_start buf line + col ≡ at)
unfolding ed_linecol ed_line_count ed_line_len ed_line_start line_at
ed_linecol-inside buf at h =
    let f = linecol_from-Found buf at 0 0 h in
    let e : (ed_linecol buf at).0 ≡ f.k = f.line ∙ omega arith in
    rw e (
      omega (arith, f.counted, line_count_from-shift buf 1),
      omega (arith, f.within, before-zero f.k),
      omega (arith, f.place, before-zero f.k),
    )

-- Of a line of the text and a column within it (or at its end), the position that the line's start
-- and the column make up is found to be at exactly that line and column.
pub ed_linecol-line :
    (buf : List ℕ) (line col : ℕ)
    → line < ed_line_count buf
    → col ≤ ed_line_len buf (ed_line_start buf line)
    → ed_linecol buf (ed_line_start buf line + col) ≡ (line, col)
unfolding ed_linecol ed_line_count ed_line_len ed_line_start line_at
ed_linecol-line buf line col hl hc =
    let p : 0 + line ≡ line = omega arith in
    let q : before line 0 + col ≡ col = omega (arith, before-zero line) in
    linecol_from-line buf line col 0 0 (omega (arith, hl, line_count_from-shift buf 1)) hc
    ∙ both p q

line_len_from-le : (xs : List ℕ) → line_len_from xs ≤ length xs
unfolding line_len_from
line_len_from-le [] = omega arith
line_len_from-le (x ∷ xs) = ground (arith, line_len_from-le xs)

line_start_from-le : (xs : List ℕ) (line : ℕ) → line_start_from xs line 0 ≤ length xs
unfolding line_start_from
line_start_from-le [] line = omega arith
line_start_from-le (x ∷ xs) zero = omega arith
line_start_from-le (x ∷ xs) (suc line) =
    let l = if x == 10 then line else suc line in
    omega (arith, line_start_from-shift xs l 1, line_start_from-le xs l)

pub line_start-le : (buf : List ℕ) (line : ℕ) → ed_line_start buf line ≤ length buf
unfolding ed_line_start
line_start-le buf line = line_start_from-le buf line

-- The end of every line lies inside the text.
pub line_end-le :
    (buf : List ℕ) (start : ℕ) → start ≤ length buf → start + ed_line_len buf start ≤ length buf
unfolding ed_line_len
line_end-le buf start h = omega (arith, h, line_len_from-le (drop start buf), length-drop start buf)
