-- ===== src/Pmm/Inv.antt =====
-- The invariant of the physical memory manager.
use red_panda_os.Prelude.{ℕ, ◌+◌, ◌*◌, ◌/◌, ◌<◌, ◌≡◌, ◌==◌, if◌then◌else◌}
use red_panda_os.Pmm.{Pmm, max_frames}
use red_panda_os.Pmm.Bitmap.{used, AllWords}
use red_panda_os.Pmm.Count.{free_count}

pub record IsValid (p : Pmm) : Type 0 where
  pub words : AllWords p.bitmap
  pub counted : p.free_frames ≡ free_count p.bitmap max_frames
  pub hint_in : p.search_hint < max_frames / 32
  pub full_below : (f : ℕ) → f < p.search_hint * 32 → used p.bitmap f ≡ 1
  pub low_reserved : (f : ℕ) → f < 256 → used p.bitmap f ≡ 1

-- What an allocation does: it takes the lowest free frame and nothing else.
pub record Takes (p : Pmm) (frame : ℕ) (q : Pmm) : Type 0 where
  pub in_range : frame < max_frames
  pub was_free : used p.bitmap frame ≡ 0
  pub lowest : (g : ℕ) → g < frame → used p.bitmap g ≡ 1
  pub now_used : (g : ℕ) → used q.bitmap g ≡ (if frame == g then 1 else used p.bitmap g)
  pub one_less : q.free_frames + 1 ≡ p.free_frames
  pub same_usable : q.usable_frames ≡ p.usable_frames
