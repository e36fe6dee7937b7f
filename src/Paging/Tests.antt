-- ===== src/Paging/Tests.antt =====
-- Runs of paging.c, and its theorems there.
use red_panda_os.Prelude.{ℕ, ◌^◌, ◌<◌, ◌≡◌, refl, arith, if◌then◌else◌, some, none}
use red_panda_os.Pmm.{pmm_init}
use red_panda_os.Pmm.Tests.{ram, ram-AllFit, ram_free}
use red_panda_os.Pmm.Init.{pmm_init-IsValid}
use red_panda_os.Paging.{Vm, paging_init, paging_map}
use red_panda_os.Paging.Inv.{translate, IsValid}
use red_panda_os.Paging.Map.{mapped, Supplied, paging_map-Supplied}
use red_panda_os.Paging.Range.{in_memory, empty-Supplied, paging_init-IsIdentity}

abbrev start : Vm
start = record { pmm = pmm_init ram; page_dir = λ d. 0; mem = λ a. 0 }

-- `paging_init` with a framebuffer of 1,280 by 800 pixels at 0xFD000000.
paging_init-IsIdentity_example :
    IsValid (paging_init ram 0xFD000000 5120 800 start)
    × ((a : ℕ)
        → a < 2 ^ 32
        → translate (paging_init ram 0xFD000000 5120 800 start) a
          ≡ (if in_memory ram 0xFD000000 5120 800 a then some a else none))
paging_init-IsIdentity_example =
    paging_init-IsIdentity ram 0xFD000000 5120 800 start (pmm_init-IsValid ram ram-AllFit).0
      (omega (arith, ram_free)) (λ d. refl) (omega arith) (omega arith)

start-Supplied : Supplied start
start-Supplied =
    empty-Supplied start (pmm_init-IsValid ram ram-AllFit).0 (omega (arith, ram_free)) (λ d. refl)

paging_map-Supplied_example :
    Supplied (paging_map 0xFD000123 0x101FFF start)
    × ((a : ℕ)
        → a < 2 ^ 32
        → translate (paging_map 0xFD000123 0x101FFF start) a ≡ mapped 0xFD000123 0x101FFF start a)
paging_map-Supplied_example =
    paging_map-Supplied start 0xFD000123 0x101FFF start-Supplied (omega arith) (omega arith)
