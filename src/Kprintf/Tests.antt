-- ===== src/Kprintf/Tests.antt =====
-- Runs of kernel/kprintf.c, and its theorems there.
use red_panda_os.Prelude.{◌-◌, ◌^◌, ◌≤◌, min, ◌≡◌, refl, inl, none, some, [], ◌∷◌, arith, length}
use red_panda_os.Kprintf.{
  word, digit_char, low_digits, num_digits, reversed, num_buf, print_num, print_int, convert,
  with_word, format_char, spec_char, format_end, format_from, kvprintf, kprintf,
}
use red_panda_os.Kprintf.Digits.{value_from, print_num-reads}

-- "%05d" of -42.
signed :
    kprintf (37 ∷ 48 ∷ 53 ∷ 100 ∷ []) (word (2 ^ 32 - 42) ∷ [])
    ≡ some (45 ∷ 48 ∷ 48 ∷ 48 ∷ 52 ∷ 50 ∷ [])
unfolding kprintf kvprintf format_from format_char spec_char convert with_word print_int print_num
    num_buf num_digits low_digits digit_char reversed format_end
signed = refl

-- "%5" has no conversion.
unfinished : kprintf (37 ∷ 53 ∷ []) [] ≡ none
unfolding kprintf kvprintf format_from format_char spec_char format_end
unfinished = refl

print_num-reads_example :
    (value_from 16 0 (print_num 0xBEEF 16 8 48) ≡ 0xBEEF)
    × (length (print_num 0xBEEF 16 8 48) ≤ 11)
    × (min 8 11 ≤ length (print_num 0xBEEF 16 8 48))
print_num-reads_example =
    print_num-reads 0xBEEF 16 8 48 (omega arith) (omega arith) (omega arith) (inl refl)
