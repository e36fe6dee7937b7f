-- ===== src/Pmm.antt =====
-- kernel/pmm.c, the physical memory manager, and the map of kernel/memmap.h that it reads.
-- The bitmap is the function from a word's index to the word; no index leaves the array, since a
-- frame number is below 2^20. `1u << k` is `2 ^ k`, since the code shifts by less than 32.
pub mod Bitmap
pub mod Count
pub mod Inv
pub mod Alloc
pub mod Free
pub mod Init
pub mod Tests
use red_panda_os.Prelude.{
  ℕ, zero, suc, ◌+◌, ◌-◌, ◌*◌, ◌/◌, ◌%◌, ◌^◌, bit_and, bit_or, Bool, not, Option, none, some, List,
  [], ◌∷◌, ltb, ◌==◌, if◌then◌else◌, u32, u64, sub32, shr,
}

abbrev pub frame_size : ℕ
frame_size = 4096

abbrev pub max_frames : ℕ
max_frames = 2 ^ 20

-- `e820_entry_t`
pub record E820Entry : Type 0 where
  pub base : ℕ
  pub len : ℕ
  pub type : ℕ
  pub attr : ℕ

abbrev pub e820_usable : ℕ
e820_usable = 1

-- the static variables of pmm.c
pub record Pmm : Type 0 where
  pub bitmap : ℕ → ℕ
  pub usable_frames : ℕ
  pub free_frames : ℕ
  pub search_hint : ℕ

pub update : (ℕ → ℕ) → ℕ → ℕ → ℕ → ℕ
update f i v j = if i == j then v else f j

pub mark_used : (ℕ → ℕ) → ℕ → ℕ → ℕ
mark_used bitmap frame =
    update bitmap (frame / 32) (bit_or (bitmap (frame / 32)) (2 ^ (frame % 32)))

pub mark_free : (ℕ → ℕ) → ℕ → ℕ → ℕ
mark_free bitmap frame =
    update bitmap (frame / 32) (bit_and (bitmap (frame / 32)) (2 ^ 32 - 1 - 2 ^ (frame % 32)))

pub is_used : (ℕ → ℕ) → ℕ → ℕ
is_used bitmap frame = bit_and (shr (bitmap (frame / 32)) (frame % 32)) 1

-- One round of the loop of `pmm_init` that opens up the frames of a usable region.
pub open_frame : Pmm → ℕ → Pmm
open_frame p f = if is_used p.bitmap f == 0 then p else record p {
  bitmap = mark_free p.bitmap f;
  usable_frames = u32 (p.usable_frames + 1);
  free_frames = u32 (p.free_frames + 1);
}

-- `for (f = first; f < last; f++)`, with the rounds left
pub open_frames : ℕ → ℕ → Pmm → Pmm
open_frames zero f p = p
open_frames (suc n) f p = open_frames n (f + 1) (open_frame p f)

-- Only whole frames inside the region count, and only up to the last page below 4 GB.
abbrev pub region_end : E820Entry → ℕ
region_end e =
    let end64 = u64 (e.base + e.len) in if ltb 0xFFFFF000 end64 then 0xFFFFF000 else end64

abbrev pub region_first : E820Entry → ℕ
region_first e = sub32 (u32 (u32 e.base + frame_size)) 1 / frame_size

abbrev pub region_last : E820Entry → ℕ
region_last e = u32 (region_end e / frame_size)

pub open_region : Pmm → E820Entry → Pmm
open_region p e =
    if not (e.type == e820_usable)
    then p
    else if not (shr e.base 32 == 0)
    then p
    else open_frames (region_last e - region_first e) (region_first e) p

pub open_regions : List E820Entry → Pmm → Pmm
open_regions [] p = p
open_regions (e ∷ es) p = open_regions es (open_region p e)

-- One round of the loop that takes the first megabyte back.
pub reserve_frame : Pmm → ℕ → Pmm
reserve_frame p f =
    if is_used p.bitmap f == 0
    then record p { bitmap = mark_used p.bitmap f; free_frames = sub32 p.free_frames 1 }
    else p

pub reserve_frames : ℕ → ℕ → Pmm → Pmm
reserve_frames zero f p = p
reserve_frames (suc n) f p = reserve_frames n (f + 1) (reserve_frame p f)

-- The statics are zero when the kernel starts; `memset` fills the bitmap with ones.
pub blank : Pmm
blank = record { bitmap = λ _. 0xFFFFFFFF; usable_frames = 0; free_frames = 0; search_hint = 0 }

pub pmm_init : List E820Entry → Pmm
pmm_init map = reserve_frames (0x100000 / frame_size) 0 (open_regions map blank)

-- The first bit from `b` on that is clear, among the `n` that are left.
pub first_clear : ℕ → ℕ → ℕ → Option ℕ
first_clear zero b word = none
first_clear (suc n) b word =
    let rest = first_clear n (b + 1) word in if bit_and word (2 ^ b) == 0 then some b else rest

pub take_frame : Pmm → ℕ → ℕ → ℕ × Pmm
take_frame p w b =
    let frame = w * 32 + b in
    (
      u32 (frame * frame_size),
      record p {
        bitmap = mark_used p.bitmap frame;
        free_frames = sub32 p.free_frames 1;
        search_hint = w;
      },
    )

-- The loop over the words from `w` on, with the rounds left.
pub scan_words : ℕ → ℕ → Pmm → Option (ℕ × Pmm)
scan_words zero w p = none
scan_words (suc n) w p =
    let rest = scan_words n (w + 1) p in
    if p.bitmap w == 0xFFFFFFFF
    then rest
    else elim (first_clear 32 0 (p.bitmap w)) [ some b ↦ some (take_frame p w b) | none ↦ rest ]

-- The function calls itself once, with the hint reset; the first argument bounds the calls.
pub alloc_within : ℕ → Pmm → ℕ × Pmm
alloc_within zero p = (0, p)
alloc_within (suc n) p =
    let again = alloc_within n (record p { search_hint = 0 }) in
    if p.free_frames == 0
    then (0, p)
    else elim (scan_words (max_frames / 32 - p.search_hint) p.search_hint p) [
      | some r ↦ r
      | none ↦ if p.search_hint == 0 then (0, p) else again
    ]

pub pmm_alloc_frame : Pmm → ℕ × Pmm
pmm_alloc_frame p = alloc_within 2 p

pub pmm_free_frame : Pmm → ℕ → Pmm
pmm_free_frame p addr =
    let frame = addr / frame_size in
    if is_used p.bitmap frame == 0 then p else record p {
      bitmap = mark_free p.bitmap frame;
      free_frames = u32 (p.free_frames + 1);
      search_hint = if ltb (frame / 32) p.search_hint then frame / 32 else p.search_hint;
    }

pub pmm_total_kb : Pmm → ℕ
pmm_total_kb p = u32 (p.usable_frames * (frame_size / 1024))

pub pmm_free_kb : Pmm → ℕ
pmm_free_kb p = u32 (p.free_frames * (frame_size / 1024))
