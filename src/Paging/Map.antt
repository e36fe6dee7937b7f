-- ===== src/Paging/Map.antt =====
-- kernel/paging.c: what mapping one page does to every address.
use red_panda_os.Prelude.{
  ℕ, ◌+◌, ◌*◌, ◌/◌, ◌%◌, ◌^◌, ◌≤◌, ◌<◌, bit_and, ◌≡◌, refl, sym, ap, ◌∙◌, ◌≢◌, inl, inr, true,
  false, Option, some, arith, ◌==◌, if◌then◌else◌, Bool-cases,
}
use red_panda_os.Paging.{page_mask, Vm, store, entry_of, present, table_for, paging_map}
use red_panda_os.Prelude.Bits.{bit_and_mask}
use red_panda_os.Paging.Entry.{bit_and-page_mask, entry_of-present, entry_of-frame}
use red_panda_os.Paging.Inv.{translate, IsTable, IsValid, missing}
use red_panda_os.Paging.Table.{table_frame, Ready, none_below, same_entry, table_for-Ready}

-- What the processor finds once the page of `virt` leads to the page of `phys`.
abbrev pub mapped : ℕ → ℕ → Vm → ℕ → Option ℕ
mapped virt phys vm v =
    if v / 4096 == virt / 4096 then some (phys / 4096 * 4096 + v % 4096) else translate vm v

same_word :
    (vm vm' : Vm) (a : ℕ)
    → vm'.page_dir (a / 2 ^ 22) ≡ vm.page_dir (a / 2 ^ 22)
    → (IsTable vm (a / 2 ^ 22)
        → vm'.mem (bit_and (vm.page_dir (a / 2 ^ 22)) page_mask + 4 * (a / 4096 % 1024))
          ≡ vm.mem (bit_and (vm.page_dir (a / 2 ^ 22)) page_mask + 4 * (a / 4096 % 1024)))
    → IsValid vm
    → a < 2 ^ 32
    → translate vm' a ≡ translate vm a
same_word vm vm' a same_dir same_mem v ha = elim (Bool-cases (present (vm.page_dir (a / 2 ^ 22)))) [
  | inl there ↦
      same_entry vm vm' a same_dir (same_mem (v.tables (a / 2 ^ 22) (omega (arith, ha)) there))
  | inr lost ↦ none_below vm' a (ap present same_dir ∙ lost) ∙ sym (none_below vm a lost)
]

-- Setting the entry of `virt` in its table.
module _ (vm : Vm) (v : IsValid vm) (virt phys : ℕ) (hv : virt < 2 ^ 32) (hp : phys < 2 ^ 32)
    (t : IsTable vm (virt / 2 ^ 22)) where
  place : ℕ
  place = t.frame * 4096 + 4 * (virt / 4096 % 1024)

  entered : Vm
  entered = record vm { mem = store place (entry_of (phys / 4096 * 4096)) vm.mem }

  entered-here : entered.mem place ≡ entry_of (phys / 4096 * 4096)
  unfolding entered store
  entered-here = let e : (place == place) ≡ true = ground arith in rw e refl

  entered-else : (a : ℕ) → a ≢ place → entered.mem a ≡ vm.mem a
  unfolding entered store
  entered-else a ne = let e : (a == place) ≡ false = ground (arith, ne) in rw e refl

  entered-page :
      (a : ℕ) → a / 4096 ≡ virt / 4096 → translate entered a ≡ some (phys / 4096 * 4096 + a % 4096)
  unfolding place entered
  entered-page a same =
      let dir : entered.page_dir (a / 2 ^ 22) ≡ entry_of (t.frame * 4096) =
        ap vm.page_dir (omega (arith, same)) ∙ t.named in
      let slot : t.frame * 4096 + 4 * (a / 4096 % 1024) ≡ place = omega (arith, same) in
      let frame : bit_and (entry_of (phys / 4096 * 4096)) page_mask ≡ phys / 4096 * 4096 =
        entry_of-frame (phys / 4096) (omega (arith, hp)) in
      rw
        (
          dir,
          entry_of-present t.frame,
          entry_of-frame t.frame t.in_range,
          slot,
          entered-here,
          entry_of-present (phys / 4096),
          frame,
        )
        refl

  -- The word belongs to no other page.
  place-apart :
      (a : ℕ)
      → a < 2 ^ 32
      → IsTable vm (a / 2 ^ 22)
      → bit_and (vm.page_dir (a / 2 ^ 22)) page_mask + 4 * (a / 4096 % 1024) ≡ place
      → a / 4096 ≡ virt / 4096
  unfolding place
  place-apart a ha u hit =
      let base = table_frame vm (a / 2 ^ 22) u in
      let frames : u.frame ≡ t.frame = omega (arith, hit, base) in
      let entries : vm.page_dir (a / 2 ^ 22) ≡ vm.page_dir (virt / 2 ^ 22) =
        u.named ∙ (ap (λ f. entry_of (f * 4096)) frames ∙ sym t.named) in
      let there : (d : ℕ) (w : IsTable vm d) → present (vm.page_dir d) ≡ true =
        λ d w. ap present w.named ∙ entry_of-present w.frame in
      let dirs =
        v.apart (a / 2 ^ 22) (virt / 2 ^ 22) (omega (arith, ha)) (omega (arith, hv))
          (there (a / 2 ^ 22) u) (there (virt / 2 ^ 22) t) entries in
      omega (arith, hit, base, frames, dirs)

  entered-away :
      (a : ℕ) → a < 2 ^ 32 → a / 4096 ≢ virt / 4096 → translate entered a ≡ translate vm a
  unfolding entered
  entered-away a ha ne =
      same_word vm entered a refl
        (λ u.
          entered-else (bit_and (vm.page_dir (a / 2 ^ 22)) page_mask + 4 * (a / 4096 % 1024))
            (λ hit. ne (place-apart a ha u hit)))
        v ha

  entered-mapped : (a : ℕ) → a < 2 ^ 32 → translate entered a ≡ mapped virt phys vm a
  entered-mapped a ha = elim (Bool-cases (a / 4096 == virt / 4096)) [
    | inl e ↦ rw e (entered-page a (ground (arith, e)))
    | inr e ↦ rw e (entered-away a ha (ground (arith, e)))
  ]

  entered-IsValid : IsValid entered
  unfolding entered
  entered-IsValid = record {
    frames = v.frames;
    tables = λ d hd there.
        let w = v.tables d hd there in
        record { frame = w.frame; in_range = w.in_range; held = w.held; named = w.named };
    apart = v.apart;
  }

-- What holds before and after each page: the tables are in order, and there are frames for the rest.
pub record Supplied (vm : Vm) : Type 0 where
  pub valid : IsValid vm
  pub enough : missing vm.page_dir 1024 ≤ vm.pmm.free_frames

entered-Supplied :
    (vm : Vm) (virt phys : ℕ) (hv : virt < 2 ^ 32) (hp : phys < 2 ^ 32) (pt : ℕ) (vm' : Vm)
    → (r : Ready vm (virt / 2 ^ 22) pt vm')
    → Supplied (record vm' {
      mem =
          store (pt + 4 * bit_and (virt / 4096) 0x3FF) (entry_of (bit_and phys page_mask)) vm'.mem;
    })
      × ((a : ℕ)
          → a < 2 ^ 32
          → translate
              (record vm' {
                mem =
                    store
                      (pt + 4 * bit_and (virt / 4096) 0x3FF)
                      (entry_of (bit_and phys page_mask))
                      vm'.mem;
              })
              a
            ≡ mapped virt phys vm a)
unfolding entered place
entered-Supplied vm virt phys hv hp pt vm' r =
    rw (bit_and_mask 10 (virt / 4096), bit_and-page_mask phys hp, r.at)
      (
        record { valid = entered-IsValid vm' r.valid virt phys hv hp r.table; enough = r.enough },
        λ a ha. entered-mapped vm' r.valid virt phys hv hp r.table a ha ∙ rw (r.same a ha) refl,
      )

-- Mapping a page, from tables in order and with frames for the tables that are missing, leads the
-- page of `virt` to the page of `phys`, leaves what every other address leads to, and keeps both.
pub paging_map-Supplied :
    (vm : Vm) (virt phys : ℕ)
    → Supplied vm
    → virt < 2 ^ 32
    → phys < 2 ^ 32
    → Supplied (paging_map virt phys vm)
      × ((a : ℕ) → a < 2 ^ 32 → translate (paging_map virt phys vm) a ≡ mapped virt phys vm a)
unfolding paging_map
paging_map-Supplied vm virt phys s hv hp =
    entered-Supplied vm virt phys hv hp (table_for (virt / 2 ^ 22) vm).0
      (table_for (virt / 2 ^ 22) vm).1
      (table_for-Ready vm (virt / 2 ^ 22) s.valid (omega (arith, hv)) s.enough)
