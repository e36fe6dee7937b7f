-- ===== src/Heap/Tests.antt =====
-- Runs of heap.c, and its theorems there.
use red_panda_os.Prelude.{
  ℕ, ◌+◌, ◌-◌, ◌*◌, ◌≤◌, ◌<◌, ◌≡◌, refl, ◌≢◌, true, false, some, [], ◌∷◌, arith, ◌==◌,
  if◌then◌else◌,
}
use red_panda_os.Heap.{
  Heap, FrameSource, header, mark_free, kfree, kmalloc, used_sum, heap_used_bytes, coalesce,
  expand_pages, align8, heap_init, expand, grow, attempts, fit, heap_mapped_bytes,
}
use red_panda_os.Heap.Blocks.{IsValid, live}
use red_panda_os.Heap.Alloc.{Allocates, has_room, kmalloc-Allocates, kmalloc_reuse, kmalloc_huge}
use red_panda_os.Heap.Free.{total, Freed, kfree-Freed, kfree-kmalloc, heap_init-heap_used_bytes}

-- A source that hands out `n` frames, one address after the other.
abbrev frames : FrameSource ℕ
frames = record {
  pmm_alloc_frame = λ n. if n == 0 then (0, 0) else (n * 4096, n - 1);
  paging_map = λ _ _ n. n;
}

abbrev empty : Heap
empty = record { blocks = []; mapped = 0 }

-- One allocated block of 16 bytes, and the free rest of four pages.
abbrev started : Heap
started = record {
  blocks =
      record { addr = 0xD0000000; size = 16; free = false }
      ∷ record { addr = 0xD000001C; size = 16344; free = true }
      ∷ [];
  mapped = 16384;
}

init_then_malloc : kmalloc frames 10 (heap_init frames (empty, 8)) ≡ (0xD000000C, started, 4)
unfolding kmalloc heap_init expand expand_pages grow attempts fit coalesce align8
init_then_malloc = refl

free_again :
    kfree 0xD000000C started
    ≡ some (record {
      blocks = record { addr = 0xD0000000; size = 16372; free = true } ∷ [];
      mapped = 16384;
    })
unfolding kfree mark_free coalesce
free_again = refl

counters : (heap_mapped_bytes started ≡ 16384) × (heap_used_bytes started ≡ 16)
unfolding heap_mapped_bytes heap_used_bytes used_sum
counters = (refl, refl)

empty-IsValid : IsValid empty
empty-IsValid = record { tiles = refl; in_memory = omega arith }

started-IsValid : IsValid started
started-IsValid = record { tiles = (refl, (refl, refl)); in_memory = omega arith }

kmalloc-Allocates_example : Allocates started 100 (kmalloc frames 100 (started, 4))
unfolding expand_pages align8
kmalloc-Allocates_example =
    kmalloc-Allocates frames 100 started 4 started-IsValid (omega arith) (omega arith) (omega arith)

kmalloc_reuse_example :
    let r = kmalloc frames 100 (started, 4) in (header < r.0) × (r.1.mapped ≡ 16384) × (r.2 ≡ 4)
unfolding has_room align8
kmalloc_reuse_example =
    kmalloc_reuse frames 100 started 4 (omega arith) (omega arith) started-IsValid refl

kmalloc_huge_example :
    (header < (kmalloc frames 0xFFFFFFFF (started, 4)).0) × (started.mapped < 0xFFFFFFFF)
unfolding has_room
kmalloc_huge_example =
    kmalloc_huge frames 0xFFFFFFFF started 4 (omega arith) (omega arith) started-IsValid refl

kfree-Freed_example : Freed started [] [] (kfree (0xD0000000 + header) started)
kfree-Freed_example = kfree-Freed started 0xD0000000 16 [] [] started-IsValid refl

given : (kmalloc frames 100 (started, 4)).0 ≢ 0
given = omega (arith, kmalloc_reuse_example)

kfree-kmalloc_example :
    let r = kmalloc frames 100 (started, 4) in
    (out : Heap) × (kfree r.0 r.1 ≡ some out)
    × (live out.blocks ≡ live started.blocks)
    × IsValid out
unfolding expand_pages align8
kfree-kmalloc_example =
    kfree-kmalloc frames 100 started 4 started-IsValid (omega arith) (omega arith) (omega arith)
      given

heap_init-heap_used_bytes_example :
    let h = (heap_init frames (record { blocks = []; mapped = 0 }, 8)).0 in
    (IsValid h × (live h.blocks ≡ []))
    × (heap_used_bytes started ≡ total (live started.blocks))
    × (heap_used_bytes started ≤ started.mapped)
heap_init-heap_used_bytes_example = heap_init-heap_used_bytes frames 8 started started-IsValid
