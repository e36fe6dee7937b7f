-- ===== src/Keyboard/Refine.antt =====
-- kernel/keyboard.c: what an interrupt may do, and which characters the shell can see.
use red_panda_os.Prelude.{
  ℕ, zero, suc, ◌+◌, ◌-◌, ◌<◌, bit_and, bit_or, bit_xor, ◌≡◌, refl, ap, inl, inr, Bool, true, false,
  not, ◌&&◌, ◌||◌, List, [], ◌∷◌, ◌++◌, arith, ltb, leb, ◌==◌, if◌then◌else◌, Bool-cases, length,
  u8,
}
use red_panda_os.Fifo
use red_panda_os.Ring.{push}
use red_panda_os.Ring.Refine.{IsValid, contents, push_refines}
use red_panda_os.Input.{key_event, input_push}
use red_panda_os.Keyboard.{
  Keyboard, keymap, keymap_shift, lookup, translate, push_special, extended_key, release_key,
  ctrl_char, is_letter, caps_char, type_char, plain_key, keyboard_irq, keyboard_irqs,
}

-- Backspace, tab, newline, escape, and the printable characters of ASCII.
unfoldable pub is_plain : ℕ → Bool
is_plain c = c == 8 || (c == 9 || (c == 10 || (c == 27 || (leb 32 c && leb c 126))))

-- What one interrupt does to the two queues: nothing, a special key for the events only, or a
-- character for both.
pub data Effect (k k' : Keyboard) : Type 0 where
  silent : k'.kb_buf ≡ k.kb_buf → k'.events ≡ k.events → Effect k k'
  special :
      (code : ℕ)
      → k'.kb_buf ≡ k.kb_buf
      → k'.events ≡ input_push k.events (key_event code)
      → Effect k k'
  typed :
      (c : ℕ)
      → is_plain c ≡ true
      → k'.kb_buf ≡ push k.kb_buf c
      → k'.events ≡ input_push k.events (key_event c)
      → Effect k k'

unfoldable all_known : List ℕ → Bool
all_known [] = true
all_known (c ∷ cs) = (c == 0 || is_plain c) && all_known cs

lookup-known :
    (table : List ℕ) (sc : ℕ)
    → all_known table ≡ true
    → (lookup table sc == 0) ≡ false
    → is_plain (lookup table sc) ≡ true
unfolding lookup all_known
lookup-known [] sc h ne = absurd (ground arith)
lookup-known (c ∷ cs) zero h ne = ground arith
lookup-known (c ∷ cs) (suc sc) h ne = lookup-known cs sc (ground arith) ne

keymap_known : all_known keymap ≡ true
unfolding all_known is_plain
keymap_known = refl

keymap_shift_known : all_known keymap_shift ≡ true
unfolding all_known is_plain
keymap_shift_known = refl

all_below : ℕ → (ℕ → Bool) → Bool
all_below zero p = true
all_below (suc n) p = p n && all_below n p

all_below-at : (n c : ℕ) (p : ℕ → Bool) → all_below n p ≡ true → c < n → p c ≡ true
unfolding all_below
all_below-at zero c p h lt = absurd (omega arith)
all_below-at (suc n) c p h lt = elim (Bool-cases (c == n)) [
  | inl e ↦ let e' : c ≡ n = ground arith in rw e' (ground arith)
  | inr ne ↦ all_below-at n c p (ground arith) (ground arith)
]

flip_plain : all_below 128 (λ c. not (is_letter c) || is_plain (bit_xor c 32)) ≡ true
unfolding all_below is_letter is_plain
flip_plain = refl

is_letter-lt : (c : ℕ) → is_letter c ≡ true → c < 128
unfolding is_letter
is_letter-lt c h = ground arith

caps_char-plain : (caps : Bool) (c : ℕ) → is_plain c ≡ true → is_plain (caps_char caps c) ≡ true
unfolding caps_char
caps_char-plain caps c h = elim (Bool-cases (caps && is_letter c)) [
  | inr same ↦ rw same h
  | inl flip ↦
      let letter : is_letter c ≡ true = ground arith in
      let small : c < 128 = is_letter-lt c letter in
      let f =
        all_below-at 128 c (λ c. not (is_letter c) || is_plain (bit_xor c 32)) flip_plain small in
      rw flip (rw letter at f)
]

Effect-if : {k x y : Keyboard} (b : Bool) → Effect k x → Effect k y → Effect k (if b then x else y)
Effect-if true p q = p
Effect-if false p q = q

extended_key-Effect :
    (sc : ℕ) (k k' : Keyboard)
    → k'.kb_buf ≡ k.kb_buf
    → k'.events ≡ k.events
    → Effect k (extended_key sc k')
unfolding extended_key push_special
extended_key-Effect sc k k' b e =
    let push_event : (code : ℕ)
        → input_push k'.events (key_event code) ≡ input_push k.events (key_event code) =
      λ code. ap (λ q. input_push q (key_event code)) e in
    Effect-if (sc == 0x1D) (silent b e) (
      Effect-if (sc == 0x9D) (silent b e) (
        Effect-if (sc == 0x48) (special 0x82 b (push_event 0x82)) (
          Effect-if (sc == 0x50) (special 0x83 b (push_event 0x83)) (
            Effect-if (sc == 0x4B) (special 0x80 b (push_event 0x80)) (
              Effect-if (sc == 0x4D) (special 0x81 b (push_event 0x81)) (
                Effect-if (sc == 0x47) (special 0x84 b (push_event 0x84)) (
                  Effect-if (sc == 0x4F) (special 0x85 b (push_event 0x85))
                    (Effect-if (sc == 0x53) (special 0x86 b (push_event 0x86)) (silent b e)))))))))

translate-plain :
    (shift : Bool) (sc : ℕ)
    → (translate shift sc == 0) ≡ false
    → is_plain (translate shift sc) ≡ true
unfolding translate
translate-plain true sc h = lookup-known keymap_shift sc keymap_shift_known h
translate-plain false sc h = lookup-known keymap sc keymap_known h

plain_key-Effect : (sc : ℕ) (k : Keyboard) → Effect k (plain_key sc k)
unfolding plain_key ctrl_char push_special type_char
plain_key-Effect sc k =
    let c = translate k.shift_down sc in
    let lo = bit_or c 0x20 in
    elim (Bool-cases (c == 0)) [
      | inl nothing ↦ rw (nothing, plain_key) (silent refl refl)
      | inr key_ok ↦
          let known = translate-plain k.shift_down sc key_ok in
          rw (key_ok, plain_key)
            (Effect-if k.ctrl_down
              (Effect-if (lo == 115 || (lo == 122 || lo == 121))
                (special (u8 (lo - 97 + 1)) refl refl) (silent refl refl))
              (typed (caps_char k.caps_on c) (caps_char-plain k.caps_on c known) refl refl))
    ]

keyboard_irq-Effect : (sc : ℕ) (k : Keyboard) → Effect k (keyboard_irq sc k)
unfolding keyboard_irq release_key push_special
keyboard_irq-Effect sc k = Effect-if (sc == 0xE0) (silent refl refl) (
    Effect-if k.extended (extended_key-Effect sc k (record k { extended = false }) refl refl) (
      Effect-if (not (bit_and sc 0x80 == 0)) (silent refl refl) (
        Effect-if (sc == 0x2A || sc == 0x36) (silent refl refl) (
          Effect-if (sc == 0x1D) (silent refl refl) (
            Effect-if (sc == 0x3A) (silent refl refl)
              (Effect-if (sc == 0x58) (special 0x05 refl refl) (plain_key-Effect sc k)))))))

unfoldable pub all_plain : List ℕ → Bool
all_plain [] = true
all_plain (c ∷ cs) = is_plain c && all_plain cs

-- The buffer of the shell in order, with plain characters only.
pub record OnlyPlain (k : Keyboard) : Type 0 where
  pub valid : IsValid k.kb_buf
  pub plain : all_plain (contents k.kb_buf) ≡ true

all_plain-snoc :
    (cs : List ℕ) (c : ℕ)
    → all_plain cs ≡ true
    → is_plain c ≡ true
    → all_plain (cs ++ (c ∷ [])) ≡ true
unfolding all_plain
all_plain-snoc [] c h p = rw p refl
all_plain-snoc (d ∷ cs) c h p = elim (Bool-cases (is_plain d)) [
  | inl q ↦ rw q (all_plain-snoc cs c (rw q at h) p)
  | inr q ↦ let bad : false ≡ true = rw q at h in absurd (cc)
]

all_plain-push :
    (cs : List ℕ) (c : ℕ)
    → all_plain cs ≡ true
    → is_plain c ≡ true
    → all_plain (Fifo.push 127 cs c) ≡ true
unfolding Fifo.push
all_plain-push cs c h p = elim (Bool-cases (ltb (length cs) 127)) [
  | inl room ↦ rw room (all_plain-snoc cs c h p)
  | inr full ↦ rw full h
]

keyboard_irq-OnlyPlain : (sc : ℕ) (k : Keyboard) → OnlyPlain k → OnlyPlain (keyboard_irq sc k)
keyboard_irq-OnlyPlain sc k o = elim (keyboard_irq-Effect sc k) [
  | silent b e ↦ record { valid = rw b o.valid; plain = rw b o.plain }
  | special code b e ↦ record { valid = rw b o.valid; plain = rw b o.plain }
  | typed c p b e ↦
      let (r, v) = push_refines k.kb_buf c o.valid in
      record { valid = rw b v; plain = rw (b, r) (all_plain-push (contents k.kb_buf) c o.plain p) }
]

pub keyboard_irqs-OnlyPlain :
    (scs : List ℕ) (k : Keyboard) → OnlyPlain k → OnlyPlain (keyboard_irqs scs k)
unfolding keyboard_irqs
keyboard_irqs-OnlyPlain [] k o = o
keyboard_irqs-OnlyPlain (sc ∷ scs) k o =
    keyboard_irqs-OnlyPlain scs (keyboard_irq sc k) (keyboard_irq-OnlyPlain sc k o)
