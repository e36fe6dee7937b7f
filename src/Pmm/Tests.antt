-- ===== src/Pmm/Tests.antt =====
-- Runs of pmm.c on a small map, and its theorems there.
use red_panda_os.Prelude.{◌≡◌, refl, ◌⊎◌, List, [], ◌∷◌, arith}
use red_panda_os.Pmm.{
  E820Entry, pmm_init, pmm_alloc_frame, pmm_free_frame, open_region, open_regions, open_frames,
  open_frame, reserve_frames, reserve_frame, is_used, mark_used, mark_free, update, blank,
  alloc_within, scan_words, first_clear, take_frame, pmm_total_kb, pmm_free_kb,
}
use red_panda_os.Pmm.Inv.{IsValid}
use red_panda_os.Pmm.Alloc.{Allocated, pmm_alloc_frame-Allocated, pmm_alloc_frame-none}
use red_panda_os.Pmm.Free.{Frees, Undone, pmm_free_frame_lem}
use red_panda_os.Pmm.Init.{AllFit, pmm_init-IsValid}

-- Two usable frames at 1 MB, and a reserved region.
abbrev map2 : List E820Entry
map2 =
    record { base = 0x100000; len = 0x2000; type = 1; attr = 0 }
    ∷ record { base = 0x200000; len = 0x1000; type = 2; attr = 0 }
    ∷ []

map2-AllFit : AllFit map2
map2-AllFit = omega arith

two_free :
    ((pmm_init map2).free_frames ≡ 2)
    × (pmm_free_kb (pmm_init map2) ≡ 8)
    × (pmm_total_kb (pmm_init map2) ≡ 8)
unfolding pmm_init open_regions open_region open_frames open_frame reserve_frames reserve_frame
    is_used mark_free mark_used update blank pmm_free_kb pmm_total_kb
two_free = (refl, refl, refl)

first_address : (pmm_alloc_frame (pmm_init map2)).0 ≡ 0x100000
unfolding pmm_init open_regions open_region open_frames open_frame reserve_frames reserve_frame
    is_used mark_free mark_used update blank pmm_alloc_frame alloc_within scan_words first_clear
    take_frame
first_address = refl

map2-IsValid : IsValid (pmm_init map2)
map2-IsValid = (pmm_init-IsValid map2 map2-AllFit).0

pmm_alloc_frame-Allocated_example : Allocated (pmm_init map2) (pmm_alloc_frame (pmm_init map2))
pmm_alloc_frame-Allocated_example =
    pmm_alloc_frame-Allocated (pmm_init map2) map2-IsValid (omega (arith, two_free))

pmm_alloc_frame-none_example : pmm_alloc_frame blank ≡ (0, blank)
unfolding blank
pmm_alloc_frame-none_example = pmm_alloc_frame-none blank refl

pmm_free_frame_lem_example :
    Frees (pmm_init map2) 257 (pmm_free_frame (pmm_init map2) 0x101000)
    × (((pmm_init map2).free_frames ≡ 0) ⊎ Undone (pmm_init map2))
pmm_free_frame_lem_example =
    pmm_free_frame_lem (pmm_init map2) 0x101000 map2-IsValid (omega arith) (omega arith)

-- Five megabytes of usable memory from 1 MB on.
abbrev pub ram : List E820Entry
ram = record { base = 0x100000; len = 0x500000; type = 1; attr = 0 } ∷ []

pub ram-AllFit : AllFit ram
ram-AllFit = omega arith

pub ram_free : (pmm_init ram).free_frames ≡ 1280
unfolding pmm_init open_regions open_region open_frames open_frame reserve_frames reserve_frame
    is_used mark_free mark_used update blank
ram_free = refl
