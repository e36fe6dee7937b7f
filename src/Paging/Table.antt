-- ===== src/Paging/Table.antt =====
-- kernel/paging.c: what making a table changes, for every address.
use red_panda_os.Prelude.{
  ℕ, ◌+◌, ◌*◌, ◌/◌, ◌%◌, ◌^◌, ◌≤◌, ◌<◌, bit_and, ◌≡◌, refl, sym, ap, ◌∙◌, subst, ◌≢◌, ◌⊎◌, inl, inr,
  true, false, none, arith, ltb, ◌==◌, Bool-cases,
}
use red_panda_os.Pmm.{Pmm, pmm_alloc_frame}
use red_panda_os.Pmm.Bitmap.{used}
use red_panda_os.Paging.{page_mask, Vm, store, clear_frame, entry_of, present, table_for}
use red_panda_os.Pmm.Inv
use red_panda_os.Pmm.Alloc.{pmm_alloc_frame-Allocated}
use red_panda_os.Paging.Entry.{entry_of_lem, entry_of-present, entry_of-frame}
use red_panda_os.Paging.Inv.{translate, IsTable, IsValid, missing, missing-store, missing-le}

pub entry_of-injective : (f g : ℕ) → entry_of (f * 4096) ≡ entry_of (g * 4096) → f ≡ g
entry_of-injective f g h = omega (arith, h, entry_of_lem f, entry_of_lem g)

pub table_frame :
    (vm : Vm) (d : ℕ) (t : IsTable vm d) → bit_and (vm.page_dir d) page_mask ≡ t.frame * 4096
table_frame vm d t = rw t.named (entry_of-frame t.frame t.in_range)

-- The table of directory entry `d` is at `pt`, every address is translated as before, and there are
-- still frames for the tables that are missing.
pub record Ready (vm : Vm) (d pt : ℕ) (vm' : Vm) : Type 0 where
  pub valid : IsValid vm'
  pub table : IsTable vm' d
  pub at : pt ≡ table.frame * 4096
  pub same : (v : ℕ) → v < 2 ^ 32 → translate vm' v ≡ translate vm v
  pub enough : missing vm'.page_dir 1024 ≤ vm'.pmm.free_frames

-- An address whose table entry is 0, or that has no table, is not translated.
none_at :
    (vm : Vm) (a : ℕ)
    → vm.mem (bit_and (vm.page_dir (a / 2 ^ 22)) page_mask + 4 * (a / 4096 % 1024)) ≡ 0
    → translate vm a ≡ none
unfolding present
none_at vm a h = rw h (elim (Bool-cases (present (vm.page_dir (a / 2 ^ 22)))) [
  | inl e ↦ rw e refl
  | inr e ↦ rw e refl
])

pub none_below :
    (vm : Vm) (a : ℕ) → present (vm.page_dir (a / 2 ^ 22)) ≡ false → translate vm a ≡ none
none_below vm a h = rw h refl

-- The same directory entry and the same table entry translate alike.
pub same_entry :
    (vm vm' : Vm) (a : ℕ)
    → vm'.page_dir (a / 2 ^ 22) ≡ vm.page_dir (a / 2 ^ 22)
    → vm'.mem (bit_and (vm.page_dir (a / 2 ^ 22)) page_mask + 4 * (a / 4096 % 1024))
      ≡ vm.mem (bit_and (vm.page_dir (a / 2 ^ 22)) page_mask + 4 * (a / 4096 % 1024))
    → translate vm' a ≡ translate vm a
same_entry vm vm' a same_dir same_mem = rw (same_dir, same_mem) refl

pub far_frames :
    (f g k : ℕ) → f ≢ g → k < 4096 → (f * 4096 + k < g * 4096) ⊎ (g * 4096 + 4096 ≤ f * 4096 + k)
far_frames f g k ne hk = elim (Bool-cases (ltb f g)) [
  | inl e ↦ inl (ground (arith, e, hk))
  | inr e ↦ inr (grind (arith, e, ne))
]

-- A state with a new table for `d` in the frame that the manager hands out.
module _ (vm : Vm) (v : IsValid vm) (d frame : ℕ) (q : Pmm) (hd : d < 1024)
    (gone : present (vm.page_dir d) ≡ false) (takes : Inv.Takes vm.pmm frame q)
    (after : Inv.IsValid q) where
  made : Vm
  made = record {
    pmm = q;
    page_dir = store d (entry_of (frame * 4096)) vm.page_dir;
    mem = clear_frame (frame * 4096) vm.mem;
  }

  made-here : made.page_dir d ≡ entry_of (frame * 4096)
  unfolding made store
  made-here = let e : (d == d) ≡ true = ground arith in rw e refl

  made-other : (e : ℕ) → (e == d) ≡ false → made.page_dir e ≡ vm.page_dir e
  unfolding made store
  made-other e ne = rw ne refl

  new_table : IsTable made d
  unfolding made
  new_table = record {
    frame = frame;
    in_range = takes.in_range;
    held = takes.now_used frame ∙ (let e : (frame == frame) ≡ true = ground arith in rw e refl);
    named = made-here;
  }

  kept_table : (e : ℕ) → (e == d) ≡ false → IsTable vm e → IsTable made e
  unfolding made
  kept_table e ne t = record {
    frame = t.frame;
    in_range = t.in_range;
    held = takes.now_used t.frame ∙ ground (arith, t.held);
    named = made-other e ne ∙ t.named;
  }

  -- No other table is in the new frame.
  fresh : (e : ℕ) (t : IsTable vm e) → t.frame ≢ frame
  fresh e t same =
      let f : used vm.pmm.bitmap t.frame ≡ 0 = ap (used vm.pmm.bitmap) same ∙ takes.was_free in
      absurd (omega (arith, f, t.held))

  made-tables : (e : ℕ) → e < 1024 → present (made.page_dir e) ≡ true → IsTable made e
  made-tables e he there = elim (Bool-cases (e == d)) [
    | inl here ↦ let s : d ≡ e = ground (arith, here) in subst (IsTable made) s new_table
    | inr other ↦
        kept_table e other
          (v.tables e he (subst (λ t. present t ≡ true) (made-other e other) there))
  ]

  clash :
      (e : ℕ)
      → (e == d) ≡ false
      → e < 1024
      → present (made.page_dir e) ≡ true
      → made.page_dir e ≢ made.page_dir d
  clash e other he there same =
      let t = v.tables e he (subst (λ t. present t ≡ true) (made-other e other) there) in
      let frames : entry_of (t.frame * 4096) ≡ entry_of (frame * 4096) =
        sym t.named ∙ (sym (made-other e other) ∙ (same ∙ made-here)) in
      fresh e t (entry_of-injective t.frame frame frames)

  made-apart :
      (i j : ℕ)
      → i < 1024
      → j < 1024
      → present (made.page_dir i) ≡ true
      → present (made.page_dir j) ≡ true
      → made.page_dir i ≡ made.page_dir j
      → i ≡ j
  made-apart i j hi hj pi pj same = elim (Bool-cases (i == d)) [
    | inl a ↦ elim (Bool-cases (j == d)) [
      | inl b ↦ ground (arith, a, b)
      | inr b ↦
          let s : d ≡ i = ground (arith, a) in
          absurd (clash j b hj pj (sym same ∙ ap made.page_dir (sym s)))
    ]
    | inr a ↦ elim (Bool-cases (j == d)) [
      | inl b ↦
          let s : d ≡ j = ground (arith, b) in
          absurd (clash i a hi pi (same ∙ ap made.page_dir (sym s)))
      | inr b ↦
          v.apart i j hi hj (subst (λ t. present t ≡ true) (made-other i a) pi)
            (subst (λ t. present t ≡ true) (made-other j b) pj)
            (sym (made-other i a) ∙ (same ∙ made-other j b))
    ]
  ]

  made-mem : (a : ℕ) → (a < frame * 4096) ⊎ (frame * 4096 + 4096 ≤ a) → made.mem a ≡ vm.mem a
  unfolding made clear_frame
  made-mem a out = ground (arith, out)

  made-cleared : (k : ℕ) → k < 1024 → made.mem (frame * 4096 + 4 * k) ≡ 0
  unfolding made clear_frame
  made-cleared k hk = ground (arith, hk)

  made-translate : (a : ℕ) → a < 2 ^ 32 → translate made a ≡ translate vm a
  made-translate a ha = elim (Bool-cases (a / 2 ^ 22 == d)) [
    | inl here ↦
        let s : a / 2 ^ 22 ≡ d = ground (arith, here) in
        let base : bit_and (made.page_dir (a / 2 ^ 22)) page_mask ≡ frame * 4096 =
          ap (λ t. bit_and (made.page_dir t) page_mask) s
          ∙ (ap (λ t. bit_and t page_mask) made-here ∙ entry_of-frame frame takes.in_range) in
        let zero_entry : made.mem
              (bit_and (made.page_dir (a / 2 ^ 22)) page_mask + 4 * (a / 4096 % 1024))
            ≡ 0 =
          ap (λ t. made.mem (t + 4 * (a / 4096 % 1024))) base
          ∙ made-cleared (a / 4096 % 1024) (omega arith) in
        let lost : present (vm.page_dir (a / 2 ^ 22)) ≡ false =
          ap (λ t. present (vm.page_dir t)) s ∙ gone in
        none_at made a zero_entry ∙ sym (none_below vm a lost)
    | inr other ↦
        let same = made-other (a / 2 ^ 22) other in
        elim (Bool-cases (present (vm.page_dir (a / 2 ^ 22)))) [
          | inl there ↦
              let t = v.tables (a / 2 ^ 22) (omega (arith, ha)) there in
              let base : bit_and (vm.page_dir (a / 2 ^ 22)) page_mask ≡ t.frame * 4096 =
                table_frame vm (a / 2 ^ 22) t in
              let away : t.frame ≢ frame = fresh (a / 2 ^ 22) t in
              same_entry vm made a same (
                made-mem (bit_and (vm.page_dir (a / 2 ^ 22)) page_mask + 4 * (a / 4096 % 1024))
                  (rw base (far_frames t.frame frame (4 * (a / 4096 % 1024)) away (omega arith))))
          | inr lost ↦ none_below made a (ap present same ∙ lost) ∙ sym (none_below vm a lost)
        ]
  ]

  made-IsValid : IsValid made
  unfolding made
  made-IsValid = record { frames = after; tables = made-tables; apart = made-apart }

  made-enough :
      missing vm.page_dir 1024 ≤ vm.pmm.free_frames
      → missing made.page_dir 1024 ≤ made.pmm.free_frames
  unfolding made
  made-enough h = omega (
    arith,
    h,
    takes.one_less,
    missing-store vm.page_dir d (entry_of (frame * 4096)) 1024 hd gone (entry_of-present frame),
  )

made-Ready :
    (vm : Vm) (v : IsValid vm) (d frame : ℕ) (q : Pmm) (hd : d < 1024)
    (gone : present (vm.page_dir d) ≡ false) (takes : Inv.Takes vm.pmm frame q)
    (after : Inv.IsValid q)
    → missing vm.page_dir 1024 ≤ vm.pmm.free_frames
    → Ready vm d (frame * 4096) (made vm v d frame q hd gone takes after)
unfolding new_table
made-Ready vm v d frame q hd gone takes after enough = record {
  valid = made-IsValid vm v d frame q hd gone takes after;
  table = new_table vm v d frame q hd gone takes after;
  at = refl;
  same = made-translate vm v d frame q hd gone takes after;
  enough = made-enough vm v d frame q hd gone takes after enough;
}

pub table_for-Ready :
    (vm : Vm) (d : ℕ)
    → IsValid vm
    → d < 1024
    → missing vm.page_dir 1024 ≤ vm.pmm.free_frames
    → Ready vm d (table_for d vm).0 (table_for d vm).1
unfolding table_for made
table_for-Ready vm d v hd enough = elim (Bool-cases (present (vm.page_dir d))) [
  | inl there ↦
      let t = v.tables d hd there in
      rw there (record {
        valid = v;
        table = t;
        at = table_frame vm d t;
        same = λ a ha. refl;
        enough = enough;
      })
  | inr gone ↦
      let some_free : 0 < vm.pmm.free_frames =
        omega (arith, enough, missing-le vm.page_dir 1024 d hd gone) in
      let (frame, at, high, takes, after) = pmm_alloc_frame-Allocated vm.pmm v.frames some_free in
      rw (gone, at) (made-Ready vm v d frame (pmm_alloc_frame vm.pmm).1 hd gone takes after enough)
]
