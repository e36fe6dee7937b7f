-- ===== src/Shell/Line.antt =====
-- kernel/shell.c: the line editor, with what it shows on the console.
use red_panda_os.Prelude.{
  ℕ, zero, suc, ◌+◌, ◌-◌, ◌<◌, ◌≡◌, refl, ap, ◌∙◌, inl, inr, Bool, true, false, not, ◌&&◌, List, [],
  ◌∷◌, ◌++◌, arith, ltb, leb, ◌==◌, if◌then◌else◌, lt→ltb, Bool-cases, length, take, drop,
  length-append, length-take,
}
use red_panda_os.Shell.Run.{line_max, line_key}

-- What a console shows after it has put out some bytes: a backspace erases the last character.
unfoldable pub display : List ℕ → List ℕ → List ℕ
display seen [] = seen
display seen (c ∷ cs) =
    display (if c == 8 then take (length seen - 1) seen else seen ++ (c ∷ [])) cs

abbrev pub is_printable : ℕ → Bool
is_printable c = leb 32 c && ltb c 128

unfoldable pub all_printable : List ℕ → Bool
all_printable [] = true
all_printable (c ∷ cs) = is_printable c && all_printable cs

-- No key ends the line.
unfoldable pub no_enter : List ℕ → Bool
no_enter [] = true
no_enter (c ∷ cs) = not (c == 10) && no_enter cs

-- A line that fits its buffer, of characters that can be shown.
pub record IsLine (buf : List ℕ) : Type 0 where
  pub fits : length buf < line_max
  pub printable : all_printable buf ≡ true

all_printable-append :
    (xs ys : List ℕ) → all_printable (xs ++ ys) ≡ (all_printable xs && all_printable ys)
unfolding all_printable
all_printable-append [] ys = refl
all_printable-append (x ∷ xs) ys = elim (Bool-cases (is_printable x)) [
  | inl e ↦ rw e (all_printable-append xs ys)
  | inr e ↦ rw e refl
]

all_printable-take :
    (n : ℕ) (xs : List ℕ) → all_printable xs ≡ true → all_printable (take n xs) ≡ true
unfolding all_printable
all_printable-take zero xs h = refl
all_printable-take (suc n) [] h = refl
all_printable-take (suc n) (x ∷ xs) h = elim (Bool-cases (is_printable x)) [
  | inl e ↦ rw e (all_printable-take n xs (rw e at h))
  | inr e ↦ let bad : false ≡ true = rw e at h in absurd (cc)
]

display-append : (xs ys seen : List ℕ) → display seen (xs ++ ys) ≡ display (display seen xs) ys
unfolding display
display-append [] ys seen = refl
display-append (x ∷ xs) ys seen =
    display-append xs ys (if x == 8 then take (length seen - 1) seen else seen ++ (x ∷ []))

-- One key keeps the line a line, and the console shows it.
line_key-IsLine :
    (c : ℕ) (buf : List ℕ)
    → IsLine buf
    → IsLine (line_key c buf).0 × (display buf (line_key c buf).1 ≡ (line_key c buf).0)
unfolding line_key display all_printable
line_key-IsLine c buf h = elim (Bool-cases (c == 8)) [
  | inl back ↦ elim (Bool-cases (length buf == 0)) [
    | inl empty ↦
        let z : take (length buf - 1) buf ≡ buf = nothing buf (ground (arith, empty)) in
        rw (back, empty, z) (h, refl)
    | inr more ↦
        rw (back, more)
          (
            record {
              fits = omega (arith, length-take (length buf - 1) buf, h.fits);
              printable = all_printable-take (length buf - 1) buf h.printable;
            },
            refl,
          )
  ]
  | inr other ↦ elim (Bool-cases (is_printable c && ltb (length buf) (line_max - 1))) [
    | inl typed ↦
        let p : is_printable c ≡ true = ground (arith, typed) in
        let room : length buf < 127 = ground (arith, typed) in
        rw (other, typed)
          (
            record {
              fits = omega (arith, room, length-append buf (c ∷ []));
              printable = all_printable-append buf (c ∷ []) ∙ rw h.printable (one c p);
            },
            rw other refl,
          )
    | inr full ↦ rw (other, full) (h, refl)
  ]
]
  where
    nothing : (xs : List ℕ) → length xs ≡ 0 → take (length xs - 1) xs ≡ xs
    nothing [] e = refl
    nothing (x ∷ xs) e = absurd (omega (arith, e))

    one : (c : ℕ) → is_printable c ≡ true → all_printable (c ∷ []) ≡ true
    one c p = rw p refl

-- What the keys of a line leave in the buffer, and what they put on the console.
unfoldable pub line_keys : List ℕ → List ℕ → List ℕ × List ℕ
unfolding line_key
line_keys [] buf = (buf, [])
line_keys (c ∷ cs) buf =
    let (buf1, echo) = line_key c buf in
    let (buf2, rest) = line_keys cs buf1 in (buf2, echo ++ rest)

pub line_keys-IsLine :
    (cs buf : List ℕ)
    → IsLine buf
    → IsLine (line_keys cs buf).0 × (display buf (line_keys cs buf).1 ≡ (line_keys cs buf).0)
unfolding line_keys display
line_keys-IsLine [] buf h = (h, refl)
line_keys-IsLine (c ∷ cs) buf h =
    let (one, same) = line_key-IsLine c buf h in
    let (all, rest) = line_keys-IsLine cs (line_key c buf).0 one in
    (
      all,
      display-append (line_key c buf).1 (line_keys cs (line_key c buf).0).1 buf
          ∙ (ap (λ t. display t (line_keys cs (line_key c buf).0).1) same ∙ rest),
    )

-- The line after a key, the last character first: a backspace takes the last one away, a character
-- that can be shown is added while there are fewer than 127, and any other key does nothing.
unfoldable pub with_key : ℕ → List ℕ → List ℕ
with_key c back =
    if c == 8
    then drop 1 back
    else if is_printable c && ltb (length back) 127
    then c ∷ back
    else back

-- The line that keys make of an empty one.
unfoldable with_keys : List ℕ → List ℕ → List ℕ
unfolding with_key
with_keys [] back = back
with_keys (c ∷ cs) back = with_keys cs (with_key c back)

unfoldable reversed : List ℕ → List ℕ
reversed [] = []
reversed (c ∷ cs) = reversed cs ++ (c ∷ [])

unfoldable pub typed_line : List ℕ → List ℕ
unfolding with_keys reversed
typed_line keys = reversed (with_keys keys [])

length-reversed : (cs : List ℕ) → length (reversed cs) ≡ length cs
unfolding reversed
length-reversed [] = refl
length-reversed (c ∷ cs) = omega (arith, length-append (reversed cs) (c ∷ []), length-reversed cs)

take-length : (xs ys : List ℕ) → take (length xs) (xs ++ ys) ≡ xs
take-length [] ys = refl
take-length (x ∷ xs) ys = ap (λ t. x ∷ t) (take-length xs ys)

take-zero : (n : ℕ) → n ≡ 0 → take n (reversed []) ≡ []
unfolding reversed
take-zero zero e = refl
take-zero (suc n) e = refl

take_off :
    (back : List ℕ) → take (length (reversed back) - 1) (reversed back) ≡ reversed (drop 1 back)
unfolding reversed
take_off [] = take-zero (0 - 1) (omega arith)
take_off (x ∷ back) =
    let n : length (reversed back ++ (x ∷ [])) - 1 ≡ length (reversed back) =
      omega (arith, length-append (reversed back) (x ∷ [])) in
    rw n (take-length (reversed back) (x ∷ []))

line_key-with_key :
    (c : ℕ) (back : List ℕ) → (line_key c (reversed back)).0 ≡ reversed (with_key c back)
unfolding line_key with_key reversed
line_key-with_key c back = elim (Bool-cases (c == 8)) [
  | inl e ↦ rw (e, take_off back) refl
  | inr e ↦ elim (Bool-cases (is_printable c && ltb (length back) 127)) [
    | inl typed ↦ rw (e, length-reversed back, typed) refl
    | inr full ↦ rw (e, length-reversed back, full) refl
  ]
]

line_keys-with_keys :
    (cs back : List ℕ) → (line_keys cs (reversed back)).0 ≡ reversed (with_keys cs back)
unfolding line_keys with_keys
line_keys-with_keys [] back = refl
line_keys-with_keys (c ∷ cs) back =
    ap (λ b. (line_keys cs b).0) (line_key-with_key c back)
    ∙ line_keys-with_keys cs (with_key c back)

pub line_keys-typed_line : (keys : List ℕ) → (line_keys keys []).0 ≡ typed_line keys
unfolding typed_line reversed
line_keys-typed_line keys = line_keys-with_keys keys []

-- A key that can be shown is added to a line with room.
line_key-typed :
    (c : ℕ) (buf : List ℕ)
    → is_printable c ≡ true
    → length buf < line_max - 1
    → line_key c buf ≡ (buf ++ (c ∷ []), c ∷ [])
unfolding line_key
line_key-typed c buf p room =
    let other : (c == 8) ≡ false = ground (arith, p) in
    let fits : ltb (length buf) (line_max - 1) ≡ true = lt→ltb (length buf) 127 room in
    rw (other, p, fits) refl

append-step : (xs ys : List ℕ) (c : ℕ) → (xs ++ (c ∷ [])) ++ ys ≡ xs ++ (c ∷ ys)
append-step [] ys c = refl
append-step (x ∷ xs) ys c = ap (λ t. x ∷ t) (append-step xs ys c)

pub append-nil : (xs : List ℕ) → xs ++ [] ≡ xs
append-nil [] = refl
append-nil (x ∷ xs) = ap (λ t. x ∷ t) (append-nil xs)

-- Characters that can be shown make up the line as they were typed, as far as there is room.
pub line_keys-typed :
    (cs buf : List ℕ)
    → all_printable cs ≡ true
    → length buf + length cs < line_max
    → line_keys cs buf ≡ (buf ++ cs, cs)
unfolding line_keys all_printable
line_keys-typed [] buf p room = rw (append-nil buf) refl
line_keys-typed (c ∷ cs) buf p room =
    let head : is_printable c ≡ true = ground (arith, p) in
    let tail : all_printable cs ≡ true = ground (arith, p) in
    rw (line_key-typed c buf head (omega (arith, room))) (
      rw
        (line_keys-typed cs (buf ++ (c ∷ [])) tail
          (omega (arith, room, length-append buf (c ∷ []))))
        (rw (append-step buf cs c) refl))

pub typed-no_enter : (cs : List ℕ) → all_printable cs ≡ true → no_enter cs ≡ true
unfolding all_printable no_enter
typed-no_enter [] p = refl
typed-no_enter (c ∷ cs) p =
    let head : is_printable c ≡ true = ground (arith, p) in
    let tail : all_printable cs ≡ true = ground (arith, p) in
    let other : (c == 10) ≡ false = ground (arith, head) in rw other (typed-no_enter cs tail)
