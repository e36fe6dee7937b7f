-- ===== src/Strings/Tests.antt =====
-- Runs of string.c, and its theorems there.
use red_panda_os.Prelude.{◌+◌, ◌-◌, ◌%◌, ◌≡◌, refl, inl, [], ◌∷◌, map, arith, if◌then◌else◌, u8}
use red_panda_os.Prelude.Int.{pos, negsuc}
use red_panda_os.Strings.{
  Memory, fill_bytes, fill_words, fill_head, memset, copy_bytes, copy_words, copy_head, memcpy,
  copy_down, memmove, strlen, strcmp, strncmp, memcmp,
}
use red_panda_os.Strings.Copy.{within, AllBytes, copies_lem}

abbrev ramp : Memory
ramp a = a % 256

ramp-AllBytes : AllBytes ramp
ramp-AllBytes a = omega arith

overlap_up :
    map (memmove ramp 12 10 4) (11 ∷ 12 ∷ 13 ∷ 14 ∷ 15 ∷ 16 ∷ []) ≡ 11 ∷ 10 ∷ 11 ∷ 12 ∷ 13 ∷ 16 ∷ []
unfolding memmove copy_down copy_bytes
overlap_up = refl

word_copy :
    map (memcpy ramp 101 201 9) (100 ∷ 101 ∷ 104 ∷ 109 ∷ 110 ∷ [])
    ≡ 100 ∷ 201 ∷ 204 ∷ 209 ∷ 110 ∷ []
unfolding memcpy copy_head copy_words copy_bytes
word_copy = refl

filled : map (memset ramp 3 0x1FF 7) (2 ∷ 3 ∷ 9 ∷ 10 ∷ []) ≡ 2 ∷ 255 ∷ 255 ∷ 10 ∷ []
unfolding memset fill_head fill_words fill_bytes
filled = refl

comparisons :
    (strcmp (97 ∷ 98 ∷ 0 ∷ 5 ∷ []) (97 ∷ 98 ∷ []) ≡ pos 0)
    × (strcmp (97 ∷ []) (98 ∷ []) ≡ negsuc 0)
    × (strncmp (97 ∷ 98 ∷ []) (97 ∷ 99 ∷ []) 1 ≡ pos 0)
    × (memcmp (1 ∷ 2 ∷ []) (1 ∷ 3 ∷ []) 2 ≡ negsuc 0)
    × (strlen (97 ∷ 98 ∷ 0 ∷ 1 ∷ []) ≡ 2)
unfolding strcmp strncmp memcmp strlen
comparisons = (refl, refl, refl, refl, refl)

copies_lem_example :
    (memset ramp 101 0x1FF 9 104 ≡ (if within 101 9 104 then u8 0x1FF else ramp 104))
    × (memcpy ramp 101 201 9 104
        ≡ (if within 101 9 104 then ramp (201 + (104 - 101)) else ramp 104))
    × (memmove ramp 101 99 9 104 ≡ (if within 101 9 104 then ramp (99 + (104 - 101)) else ramp 104))
copies_lem_example = copies_lem ramp 101 201 0x1FF 9 104 99 ramp-AllBytes (inl (omega arith))
