-- ===== src/Paging.antt =====
-- kernel/paging.c: the page directory, the page tables in physical memory, and the mapping of ranges
-- to themselves. Memory is a function from the addresses of 32-bit words to words. Frames come from
-- kernel/pmm.c; the tables are entered in the processor by instructions that are not modelled.
pub mod Entry
pub mod Inv
pub mod Table
pub mod Map
pub mod Range
mod Tests
use red_panda_os.Prelude.{
  ℕ, zero, suc, ◌+◌, ◌-◌, ◌*◌, ◌/◌, ◌%◌, ◌^◌, ◌≤◌, ◌<◌, min, max, bit_and, bit_or, bit_xor, ◌≡◌,
  refl, sym, ap, ap₂, ◌∙◌, fun_ext, subst, ◌≢◌, ◌↔◌, ◌⊎◌, inl, inr, Bool, true, false, not, ◌&&◌,
  ◌||◌, Option, none, some, List, [], ◌∷◌, ◌++◌, map, arith, ltb, leb, ◌==◌, if◌then◌else◌, ltb→lt,
  lt→ltb, leb→le, ==_iff, tests, Bool-cases, Option-cases, length, get_elem?, get_or, set, take,
  drop, replicate, length-append, length-set, length-take, length-drop, length-replicate,
  take-append-drop, get_elem?-set_self, get_elem?-set_ne, length-map, u8, u16, u32, u64, sub32, shr,
  shl,
}
use red_panda_os.Pmm.{Pmm, E820Entry, e820_usable, pmm_alloc_frame}

abbrev pub pte_present : ℕ
pte_present = 1

abbrev pub pte_write : ℕ
pte_write = 2

abbrev pub page_mask : ℕ
page_mask = 0xFFFFF000

-- `page_dir`, and what paging.c shares with the rest of the machine.
pub record Vm : Type 0 where
  pub pmm : Pmm
  pub page_dir : ℕ → ℕ
  pub mem : ℕ → ℕ

unfoldable pub store : ℕ → ℕ → (ℕ → ℕ) → ℕ → ℕ
store at v m = λ a. if a == at then v else m a

-- The `memset` of a frame.
unfoldable pub clear_frame : ℕ → (ℕ → ℕ) → ℕ → ℕ
clear_frame pt m = λ a. if leb pt a && ltb a (pt + 4096) then 0 else m a

-- The entry of an address: the frame with the two flags.
unfoldable pub entry_of : ℕ → ℕ
entry_of frame = bit_or (bit_or frame pte_present) pte_write

unfoldable pub present : ℕ → Bool
present entry = not (bit_and entry pte_present == 0)

-- The table of a directory entry, where a missing one is made.
unfoldable pub table_for : ℕ → Vm → ℕ × Vm
unfolding present entry_of store clear_frame
table_for d vm =
    let (pt, pmm') = pmm_alloc_frame vm.pmm in
    if present (vm.page_dir d) then (bit_and (vm.page_dir d) page_mask, vm) else (
      pt,
      record {
        pmm = pmm';
        page_dir = store d (entry_of pt) vm.page_dir;
        mem = clear_frame pt vm.mem;
      },
    )

unfoldable pub paging_map : ℕ → ℕ → Vm → Vm
unfolding table_for store entry_of
paging_map virt phys vm =
    let d = shr virt 22 in
    let t = bit_and (shr virt 12) 0x3FF in
    let (pt, vm') = table_for d vm in
    record vm' { mem = store (pt + 4 * t) (entry_of (bit_and phys page_mask)) vm'.mem }

-- The loop from `p` on, with `n` rounds.
unfoldable pub map_from : ℕ → ℕ → ℕ → Vm → Vm
unfolding paging_map
map_from zero p end vm = vm
map_from (suc n) p end vm =
    let rest = map_from n (u32 (p + 4096)) end (paging_map p p vm) in if ltb p end then rest else vm

unfoldable pub identity_map_range : ℕ → ℕ → Vm → Vm
unfolding map_from
identity_map_range start end vm =
    map_from ((end + 4095) / 4096 - start / 4096) (bit_and start page_mask) end vm

-- The range of an entry of the memory map, cut off below the last page.
unfoldable pub map_region : E820Entry → Vm → Vm
unfolding identity_map_range
map_region e vm =
    let end = min (u64 (e.base + e.len)) 0xFFFFF000 in
    if not (e.type == e820_usable) || not (shr e.base 32 == 0)
    then vm
    else identity_map_range (u32 e.base) end vm

unfoldable pub map_regions : List E820Entry → Vm → Vm
unfolding map_region
map_regions [] vm = vm
map_regions (e ∷ entries) vm = map_regions entries (map_region e vm)

-- Up to the loading of CR3; `lfb`, `pitch` and `height` are those of the video mode.
unfoldable pub paging_init : List E820Entry → ℕ → ℕ → ℕ → Vm → Vm
unfolding map_regions identity_map_range
paging_init entries lfb pitch height vm =
    let vm' = map_regions entries (identity_map_range 0 0x100000 vm) in
    if lfb == 0 then vm' else identity_map_range lfb (u32 (lfb + u32 (pitch * height))) vm'
