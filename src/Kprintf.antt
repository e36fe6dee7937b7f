-- ===== src/Kprintf.antt =====
-- kernel/kprintf.c: the characters that are put on the console, in their order, are a list. The
-- arguments after the format are a list of words and strings; `none` stands for what C leaves
-- undefined: an argument that is missing or of the other kind, and a read behind the format's end.
pub mod Digits
mod Tests
use red_panda_os.Prelude.{
  ℕ, zero, suc, ◌+◌, ◌-◌, ◌*◌, ◌/◌, ◌%◌, ◌^◌, ◌≤◌, ◌<◌, min, max, bit_and, bit_or, bit_xor, ◌≡◌,
  refl, sym, ap, ap₂, ◌∙◌, fun_ext, subst, ◌≢◌, ◌↔◌, ◌⊎◌, inl, inr, Bool, true, false, not, ◌&&◌,
  ◌||◌, Option, none, some, List, [], ◌∷◌, ◌++◌, map, arith, ltb, leb, ◌==◌, if◌then◌else◌, ltb→lt,
  lt→ltb, leb→le, ==_iff, tests, Bool-cases, Option-cases, length, get_elem?, get_or, set, take,
  drop, replicate, length-append, length-set, length-take, length-drop, length-replicate,
  take-append-drop, get_elem?-set_self, get_elem?-set_ne, length-map, u8, u16, u32, u64, sub32, shr,
  shl,
}

pub data Arg : Type 0 where
  word : ℕ → Arg
  string : Option (List ℕ) → Arg

-- `digits[d]`
unfoldable pub digit_char : ℕ → ℕ
digit_char d = if ltb d 10 then 48 + d else 87 + d

-- The loop over a value that is not zero, the lowest digit first, with `fuel` rounds.
unfoldable pub low_digits : ℕ → ℕ → ℕ → List ℕ
unfolding digit_char
low_digits zero value base = []
low_digits (suc fuel) value base =
    let rest = low_digits fuel (value / base) base in
    if value == 0 then [] else digit_char (value % base) ∷ rest

-- `buf` before the padding; a 32-bit value has at most 32 digits.
unfoldable pub num_digits : ℕ → ℕ → List ℕ
unfolding low_digits
num_digits value base = if value == 0 then 48 ∷ [] else low_digits 32 value base

unfoldable pub reversed : List ℕ → List ℕ → List ℕ
reversed [] acc = acc
reversed (x ∷ xs) acc = reversed xs (x ∷ acc)

-- `buf` when it is full.
unfoldable pub num_buf : ℕ → ℕ → ℕ → ℕ → List ℕ
unfolding num_digits
num_buf value base width pad =
    let buf = num_digits value base in buf ++ replicate (min width 11 - length buf) pad

unfoldable pub print_num : ℕ → ℕ → ℕ → ℕ → List ℕ
unfolding num_buf reversed
print_num value base width pad = reversed (num_buf value base width pad) []

-- A word as an `int`: its sign is its top bit.
unfoldable pub print_int : ℕ → ℕ → ℕ → List ℕ
unfolding print_num
print_int v width pad =
    if ltb v (2 ^ 31) then print_num v 10 width pad else 45 ∷ print_num (sub32 0 v) 10 width pad

-- Where the loop stands in the format.
pub data Place : Type 0 where
  text : Place
  percent : Place
  spec : ℕ → ℕ → Place

abbrev pub Step : Type 0
Step = Option (List ℕ × Place × List Arg)

-- What a conversion does with a word.
unfoldable pub with_word : (ℕ → List ℕ) → List Arg → Step
with_word show (word v ∷ args) = some (show v, text, args)
with_word show (string s ∷ args) = none
with_word show [] = none

unfoldable pub with_string : List Arg → Step
with_string (string (some s) ∷ args) = some (s, text, args)
with_string (string none ∷ args) = some (40 ∷ 110 ∷ 117 ∷ 108 ∷ 108 ∷ 41 ∷ [], text, args)
with_string (word v ∷ args) = none
with_string [] = none

-- The `switch` on the conversion `c`.
unfoldable pub convert : ℕ → ℕ → ℕ → List Arg → Step
unfolding with_word with_string print_int print_num
convert pad width c args =
    if c == 99
    then with_word (λ v. u8 v ∷ []) args
    else if c == 115
    then with_string args
    else if (c == 100) || (c == 105)
    then with_word (λ v. print_int v width pad) args
    else if c == 117
    then with_word (λ v. print_num v 10 width pad) args
    else if c == 120
    then with_word (λ v. print_num v 16 width pad) args
    else if c == 112
    then with_word (λ v. 48 ∷ 120 ∷ print_num v 16 8 48) args
    else if c == 37
    then some (37 ∷ [], text, args)
    else some (37 ∷ c ∷ [], text, args)

-- A character of the width, or the conversion.
unfoldable pub spec_char : ℕ → ℕ → ℕ → List Arg → Step
unfolding convert
spec_char pad width c args =
    if leb 48 c && leb c 57
    then some ([], spec pad (width * 10 + (c - 48)), args)
    else convert pad width c args

-- What one character of the format does.
unfoldable pub format_char : Place → ℕ → List Arg → Step
unfolding spec_char
format_char text c args = if c == 37 then some ([], percent, args) else some (c ∷ [], text, args)
format_char percent c args = if c == 48 then some ([], spec 48 0, args) else spec_char 32 0 c args
format_char (spec pad width) c args = spec_char pad width c args

-- At the format's end a conversion that has begun is one too many: `%` and the NUL are put out,
-- and the loop goes on behind the end.
unfoldable pub format_end : Place → Option (List ℕ)
format_end text = some []
format_end percent = some []
format_end (spec pad width) = none

unfoldable pub format_from : Place → List ℕ → List Arg → Option (List ℕ)
unfolding format_char format_end
format_from p [] args = format_end p
format_from p (c ∷ fmt) args = elim (format_char p c args) [
  | none ↦ none
  | some (out, p', args') ↦ elim (format_from p' fmt args') [
    | none ↦ none
    | some rest ↦ some (out ++ rest)
  ]
]

unfoldable pub kvprintf : List ℕ → List Arg → Option (List ℕ)
unfolding format_from
kvprintf fmt args = format_from text fmt args

unfoldable pub kprintf : List ℕ → List Arg → Option (List ℕ)
unfolding kvprintf
kprintf fmt args = kvprintf fmt args
