-- ===== src/Keyboard/Getchar.antt =====
-- kernel/keyboard.c: what `keyboard_getchar` returns.
use red_panda_os.Prelude.{
  ℕ, ◌≡◌, refl, sym, ◌∙◌, ◌⊎◌, inl, inr, true, false, ◌&&◌, none, some, List, [], ◌∷◌, Bool-cases,
}
use red_panda_os.Fifo
use red_panda_os.Ring.{poll}
use red_panda_os.Ring.Refine.{IsValid, contents, poll_refines}
use red_panda_os.Keyboard.{Keyboard, keyboard_irqs, keyboard_getchar}
use red_panda_os.Keyboard.Refine.{is_plain, all_plain, OnlyPlain, keyboard_irqs-OnlyPlain}

-- An empty buffer, or its oldest character and the rest.
abbrev Polled : Keyboard → Type 0
Polled k =
    ((poll k.kb_buf).0 ≡ none)
    ⊎ ((c : ℕ) × (cs : List ℕ) × (contents k.kb_buf ≡ c ∷ cs)
        × ((poll k.kb_buf).0 ≡ some c)
        × (contents (poll k.kb_buf).1 ≡ cs)
        × IsValid (poll k.kb_buf).1)

poll_cases : (k : Keyboard) → IsValid k.kb_buf → Polled k
unfolding Fifo.poll
poll_cases k v = go (contents k.kb_buf) refl
  where
    go : (cs : List ℕ) → contents k.kb_buf ≡ cs → Polled k
    go [] e = let (a, b, w) = poll_refines k.kb_buf v in inl (rw e at a)
    go (c ∷ cs) e =
        let (a, b, w) = poll_refines k.kb_buf v in inr (c, cs, e, rw e at a, rw e at b, w)

abbrev after : Keyboard → Keyboard
after k = record k { kb_buf = (poll k.kb_buf).1 }

keyboard_getchar-ready :
    (arrivals : List (List ℕ)) (k : Keyboard) (c : ℕ)
    → (poll k.kb_buf).0 ≡ some c
    → keyboard_getchar arrivals k ≡ some (c, after k)
unfolding keyboard_getchar
keyboard_getchar-ready [] k c e = rw (e, keyboard_getchar) refl
keyboard_getchar-ready (scs ∷ arrivals) k c e = rw (e, keyboard_getchar) refl

-- With characters waiting `keyboard_getchar` returns the oldest at once, and leaves the others in
-- order.
pub keyboard_getchar_oldest :
    (arrivals : List (List ℕ)) (k : Keyboard) (c : ℕ) (cs : List ℕ)
    → IsValid k.kb_buf
    → contents k.kb_buf ≡ c ∷ cs
    → (k' : Keyboard) × (keyboard_getchar arrivals k ≡ some (c, k')) × (contents k'.kb_buf ≡ cs)
unfolding Fifo.poll
keyboard_getchar_oldest arrivals k c cs v e =
    let (a, b, w) = poll_refines k.kb_buf v in
    (after k, keyboard_getchar-ready arrivals k c (rw e at a), rw e at b)

OnlyPlain-taken :
    (k : Keyboard) (c : ℕ) (cs : List ℕ)
    → OnlyPlain k
    → contents k.kb_buf ≡ c ∷ cs
    → contents (poll k.kb_buf).1 ≡ cs
    → IsValid (poll k.kb_buf).1
    → (is_plain c ≡ true) × OnlyPlain (after k)
unfolding all_plain
OnlyPlain-taken k c cs o e rest w =
    let p : (is_plain c && all_plain cs) ≡ true = rw e at o.plain in
    elim (Bool-cases (is_plain c)) [
      | inl q ↦ (q, record { valid = w; plain = rw rest (rw q at p) })
      | inr q ↦ let bad : false ≡ true = rw q at p in absurd (cc)
    ]

module _ (arrivals : List (List ℕ)) (k k' : Keyboard) (c : ℕ) (o : OnlyPlain k)
    (h : keyboard_getchar arrivals k ≡ some (c, k')) where
  ready-plain : Polled k → ((poll k.kb_buf).0 ≡ none) ⊎ ((is_plain c ≡ true) × OnlyPlain k')
  ready-plain (inl nothing) = inl nothing
  ready-plain (inr (d, cs, e, got, rest, w)) =
      let q : some (d, after k) ≡ some (c, k') =
        sym (keyboard_getchar-ready arrivals k d got) ∙ h in
      let ed : d ≡ c = cc q in
      let ek : after k ≡ k' = cc q in inr (rw (← ed, ← ek) (OnlyPlain-taken k d cs o e rest w))

-- Whatever the keyboard sends, the characters that `keyboard_getchar` returns are plain ones:
-- backspace, tab, newline, escape or printable ASCII, never a special key or a control code; and
-- those that are left are plain again.
pub keyboard_getchar-plain :
    (arrivals : List (List ℕ)) (k k' : Keyboard) (c : ℕ)
    → OnlyPlain k
    → keyboard_getchar arrivals k ≡ some (c, k')
    → (is_plain c ≡ true) × OnlyPlain k'
unfolding keyboard_getchar
keyboard_getchar-plain [] k k' c o h = elim (ready-plain [] k k' c o h (poll_cases k o.valid)) [
  | inr r ↦ r
  | inl e ↦ let bad : none ≡ some (c, k') = rw (e, keyboard_getchar) at h in absurd (cc)
]
keyboard_getchar-plain (scs ∷ arrivals) k k' c o h =
    elim (ready-plain (scs ∷ arrivals) k k' c o h (poll_cases k o.valid)) [
      | inr r ↦ r
      | inl e ↦
          keyboard_getchar-plain arrivals (keyboard_irqs scs k) k' c
            (keyboard_irqs-OnlyPlain scs k o) (rw (e, keyboard_getchar) at h)
    ]
