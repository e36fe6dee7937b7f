-- ===== src/Paging/Range.antt =====
-- kernel/paging.c: the ranges that are mapped to themselves.
use red_panda_os.Prelude.{
  ℕ, zero, suc, ◌+◌, ◌-◌, ◌*◌, ◌/◌, ◌%◌, ◌^◌, ◌≤◌, ◌<◌, min, ◌≡◌, refl, ap, ◌∙◌, subst, inl, inr,
  Bool, true, false, not, ◌&&◌, ◌||◌, Option, none, some, List, [], ◌∷◌, arith, ltb, leb, ◌==◌,
  if◌then◌else◌, ltb→lt, Bool-cases, u32, u64, shr,
}
use red_panda_os.Pmm.{E820Entry, e820_usable}
use red_panda_os.Paging.{
  Vm, present, paging_map, map_from, identity_map_range, map_region, map_regions, paging_init,
}
use red_panda_os.Paging.Entry.{bit_and-page_mask}
use red_panda_os.Paging.Inv.{translate, IsValid, missing}
use red_panda_os.Paging.Map.{Supplied, paging_map-Supplied}
use red_panda_os.Pmm.Inv

-- Whether the address is on a page of the range: from the one that `start` is in to the last that
-- starts below `end`.
abbrev pub covers : ℕ → ℕ → ℕ → Bool
covers start end a = leb (start / 4096) (a / 4096) && ltb (a / 4096 * 4096) end

-- An address leads to itself where `on` holds, and as before elsewhere.
abbrev pub Identity : (ℕ → Bool) → Vm → Vm → Type 0
Identity on vm vm' =
    Supplied vm'
    × ((a : ℕ) → a < 2 ^ 32 → translate vm' a ≡ (if on a then some a else translate vm a))

covers-next :
    (p end a : ℕ) (o : Option ℕ)
    → p % 4096 ≡ 0
    → p < end
    → (if covers (p + 4096) end a
        then some a
        else if a / 4096 == p / 4096
        then some (p / 4096 * 4096 + a % 4096)
        else o)
      ≡ (if covers p end a then some a else o)
covers-next p end a o hp h = elim (Bool-cases (a / 4096 == p / 4096)) [
  | inl e ↦
      let q : p / 4096 * 4096 + a % 4096 ≡ a = ground (arith, e) in
      let c : covers p end a ≡ true = ground (arith, e, h, hp) in
      let d : leb ((p + 4096) / 4096) (a / 4096) ≡ false = ground (arith, e) in rw (c, d, e, q) refl
  | inr e ↦
      let c : leb ((p + 4096) / 4096) (a / 4096) ≡ leb (p / 4096) (a / 4096) = ground (arith, e) in
      rw (c, e) refl
]

covers-done :
    (p end a : ℕ) (o : Option ℕ)
    → p % 4096 ≡ 0
    → end ≤ p
    → o ≡ (if covers p end a then some a else o)
covers-done p end a o hp h = let c : covers p end a ≡ false = ground (arith, h, hp) in rw c refl

map_from-Identity :
    (n p end : ℕ) (vm : Vm)
    → Supplied vm
    → p % 4096 ≡ 0
    → p ≤ 0xFFFFF000
    → end ≤ 0xFFFFF000
    → end ≤ p + 4096 * n
    → Identity (covers p end) vm (map_from n p end vm)
unfolding map_from
map_from-Identity zero p end vm s hp hl he h =
    (s, λ a ha. covers-done p end a (translate vm a) hp (omega (arith, h)))
map_from-Identity (suc n) p end vm s hp hl he h = elim (Bool-cases (ltb p end)) [
  | inl e ↦
      let small : p < 2 ^ 32 = omega (arith, hl) in
      let below = ltb→lt p end e in
      let next : u32 (p + 4096) ≡ p + 4096 = omega (arith, below, hp, he) in
      let (s', same) = paging_map-Supplied vm p p s small small in
      let (s'', rest) =
        map_from-Identity n (p + 4096) end (paging_map p p vm) s' (omega (arith, hp))
          (omega (arith, below, hp, he)) he (omega (arith, h)) in
      rw (e, next)
        (s'', λ a ha. rest a ha ∙ (rw (same a ha) (covers-next p end a (translate vm a) hp below)))
  | inr e ↦ rw e (s, λ a ha. covers-done p end a (translate vm a) hp (ground (arith, e)))
]

-- Mapping a range to itself, from tables in order and with frames for the tables that are missing,
-- ends with every page of the range leading to itself and every other address leading to what it
-- did, provided that the range ends below the last page.
pub identity_map_range-Identity :
    (start end : ℕ) (vm : Vm)
    → Supplied vm
    → start < 2 ^ 32
    → end ≤ 0xFFFFF000
    → Identity (covers start end) vm (identity_map_range start end vm)
unfolding identity_map_range
identity_map_range-Identity start end vm s hs he =
    let page : start / 4096 * 4096 / 4096 ≡ start / 4096 = omega arith in
    let r =
      map_from-Identity ((end + 4095) / 4096 - start / 4096) (start / 4096 * 4096) end vm s
        (omega arith) (omega (arith, hs)) he (omega arith) in
    rw (bit_and-page_mask start hs) (
      subst
        (λ t.
          Identity (λ a. leb t (a / 4096) && ltb (a / 4096 * 4096) end) vm
            (map_from ((end + 4095) / 4096 - start / 4096) (start / 4096 * 4096) end vm))
        page r)

-- Whether the address is on a page of a usable region of the memory map that begins below 4 GB, cut
-- off where the last page starts.
abbrev pub in_region : E820Entry → ℕ → Bool
in_region e a =
    (e.type == e820_usable)
    && (shr e.base 32 == 0)
    && covers e.base (min (u64 (e.base + e.len)) 0xFFFFF000) a

abbrev pub in_regions : List E820Entry → ℕ → Bool
in_regions [] a = false
in_regions (e ∷ entries) a = in_region e a || in_regions entries a

map_region-Identity :
    (e : E820Entry) (vm : Vm) → Supplied vm → Identity (in_region e) vm (map_region e vm)
unfolding map_region
map_region-Identity e vm s = elim (Bool-cases (e.type == e820_usable)) [
  | inl t ↦ elim (Bool-cases (shr e.base 32 == 0)) [
    | inl b ↦
        let low : e.base < 2 ^ 32 = ground (arith, b) in
        let same : u32 e.base ≡ e.base = omega (arith, low) in
        rw (t, b, same)
          (identity_map_range-Identity e.base (min (u64 (e.base + e.len)) 0xFFFFF000) vm s low
            (omega arith))
    | inr b ↦ rw (t, b) (s, λ a ha. refl)
  ]
  | inr t ↦ rw t (s, λ a ha. refl)
]

first_of :
    (a : ℕ) (b c : Bool) (o : Option ℕ)
    → (if c then some a else if b then some a else o) ≡ (if b || c then some a else o)
first_of a true true o = refl
first_of a true false o = refl
first_of a false true o = refl
first_of a false false o = refl

both :
    (f g : ℕ → Bool) (vm vm' vm'' : Vm)
    → Identity f vm vm'
    → Identity g vm' vm''
    → Identity (λ a. f a || g a) vm vm''
both f g vm vm' vm'' (s', one) (s'', two) =
    (s'', λ a ha. two a ha ∙ rw (one a ha) (first_of a (f a) (g a) (translate vm a)))

map_regions-Identity :
    (entries : List E820Entry) (vm : Vm)
    → Supplied vm
    → Identity (in_regions entries) vm (map_regions entries vm)
unfolding map_regions
map_regions-Identity [] vm s = (s, λ a ha. refl)
map_regions-Identity (e ∷ entries) vm s =
    let r = map_region-Identity e vm s in
    both (in_region e) (in_regions entries) vm (map_region e vm)
      (map_regions entries (map_region e vm)) r (map_regions-Identity entries (map_region e vm) r.0)

-- The addresses on the pages that `paging_init` maps.
abbrev pub in_memory : List E820Entry → ℕ → ℕ → ℕ → ℕ → Bool
in_memory entries lfb pitch height a =
    (covers 0 0x100000 a || in_regions entries a)
    || (not (lfb == 0) && covers lfb (u32 (lfb + u32 (pitch * height))) a)

or_false : (b : Bool) → b ≡ (b || false)
or_false true = refl
or_false false = refl

paging_init-Identity :
    (entries : List E820Entry) (lfb pitch height : ℕ) (vm : Vm)
    → Supplied vm
    → lfb < 2 ^ 32
    → u32 (lfb + u32 (pitch * height)) ≤ 0xFFFFF000
    → Identity (in_memory entries lfb pitch height) vm (paging_init entries lfb pitch height vm)
unfolding paging_init
paging_init-Identity entries lfb pitch height vm s hl he =
    let first = identity_map_range-Identity 0 0x100000 vm s (omega arith) (omega arith) in
    let vm1 = identity_map_range 0 0x100000 vm in
    let vm2 = map_regions entries vm1 in
    let regions = map_regions-Identity entries vm1 first.0 in
    let ram = both (covers 0 0x100000) (in_regions entries) vm vm1 vm2 first regions in
    elim (Bool-cases (lfb == 0)) [
      | inl z ↦ rw z (
        ram.0,
        λ a ha.
            ram.1 a ha
            ∙ ap (λ t. if t then some a else translate vm a)
                (or_false (covers 0 0x100000 a || in_regions entries a)),
      )
      | inr z ↦ rw z (
          both (λ a. covers 0 0x100000 a || in_regions entries a)
            (covers lfb (u32 (lfb + u32 (pitch * height)))) vm vm2
            (identity_map_range lfb (u32 (lfb + u32 (pitch * height))) vm2) ram
            (identity_map_range-Identity lfb (u32 (lfb + u32 (pitch * height))) vm2 ram.0 hl he))
    ]

missing_all : (dir : ℕ → ℕ) (n : ℕ) → missing dir n ≤ n
unfolding missing
missing_all dir zero = omega arith
missing_all dir (suc n) = elim (Bool-cases (present (dir n))) [
  | inl e ↦ rw e (omega (arith, missing_all dir n))
  | inr e ↦ rw e (omega (arith, missing_all dir n))
]

pub empty-Supplied :
    (vm : Vm)
    → Inv.IsValid vm.pmm
    → 1024 ≤ vm.pmm.free_frames
    → ((d : ℕ) → vm.page_dir d ≡ 0)
    → Supplied vm
unfolding present
empty-Supplied vm v free empty =
    let gone : (d : ℕ) → present (vm.page_dir d) ≡ false = λ d. rw (empty d) refl in
    record {
      valid = record {
        frames = v;
        tables = λ d hd there. absurd (cc (gone d, there));
        apart = λ d e hd hf there. absurd (cc (gone d, there));
      };
      enough = omega (arith, free, missing_all vm.page_dir 1024);
    }

-- From an empty page directory and a frame manager in order that has 1,024 frames free, for a
-- framebuffer that begins below 4 GB and whose end, a 32-bit sum, is at the start of the last page or
-- below, `paging_init` leaves tables that lead
-- every address of these pages to itself and no address of any other page anywhere: the pages of the
-- first megabyte, of each usable region that begins below 4 GB, cut off where the last page starts,
-- and of the framebuffer, where a range has the pages from the one that its start is in up to the last
-- that starts below its end. The tables are in order and each lies in a frame of its own that is in
-- use.
pub paging_init-IsIdentity :
    (entries : List E820Entry) (lfb pitch height : ℕ) (vm : Vm)
    → Inv.IsValid vm.pmm
    → 1024 ≤ vm.pmm.free_frames
    → ((d : ℕ) → vm.page_dir d ≡ 0)
    → lfb < 2 ^ 32
    → u32 (lfb + u32 (pitch * height)) ≤ 0xFFFFF000
    → IsValid (paging_init entries lfb pitch height vm)
      × ((a : ℕ)
          → a < 2 ^ 32
          → translate (paging_init entries lfb pitch height vm) a
            ≡ (if in_memory entries lfb pitch height a then some a else none))
unfolding present
paging_init-IsIdentity entries lfb pitch height vm v free empty hl he =
    let gone : (d : ℕ) → present (vm.page_dir d) ≡ false = λ d. rw (empty d) refl in
    let (s, all) =
      paging_init-Identity entries lfb pitch height vm (empty-Supplied vm v free empty) hl he in
    (
      s.valid,
      λ a ha.
          all a ha
          ∙ ap (λ t. if in_memory entries lfb pitch height a then some a else t)
              (rw (gone (a / 2 ^ 22)) refl),
    )
