-- ===== src/Heap.antt =====
-- kernel/heap.c, the kernel heap. The linked list of blocks is the list of its headers, each with
-- its address; a header is 12 bytes. The frames and mappings that `expand` asks for come through
-- the interface `FrameSource`, since the heap uses nothing else of the two managers.
pub mod Blocks
pub mod Expand
pub mod Alloc
pub mod Free
mod Tests
use red_panda_os.Prelude.{
  ℕ, zero, suc, ◌+◌, ◌-◌, ◌*◌, ◌/◌, ◌%◌, ◌^◌, ◌≤◌, ◌<◌, min, max, bit_and, bit_or, bit_xor, ◌≡◌,
  refl, sym, ap, ap₂, ◌∙◌, fun_ext, subst, ◌≢◌, ◌↔◌, ◌⊎◌, inl, inr, Bool, true, false, not, ◌&&◌,
  ◌||◌, Option, none, some, List, [], ◌∷◌, ◌++◌, map, arith, ltb, leb, ◌==◌, if◌then◌else◌, ltb→lt,
  lt→ltb, leb→le, ==_iff, tests, Bool-cases, Option-cases, length, get_elem?, get_or, set, take,
  drop, replicate, length-append, length-set, length-take, length-drop, length-replicate,
  take-append-drop, get_elem?-set_self, get_elem?-set_ne, length-map, u8, u16, u32, u64, sub32, shr,
  shl,
}

abbrev pub heap_base : ℕ
heap_base = 0xD0000000

abbrev pub frame_size : ℕ
frame_size = 4096

-- `sizeof(block_t)`
abbrev pub header : ℕ
header = 12

abbrev pub min_expand_pages : ℕ
min_expand_pages = 4

-- `block_t`, and where it lies
pub record Block : Type 0 where
  pub addr : ℕ
  pub size : ℕ
  pub free : Bool

pub record Heap : Type 0 where
  pub blocks : List Block
  pub mapped : ℕ

-- `pmm_alloc_frame` and `paging_map` on the state `S` that they share.
pub record FrameSource (S : Type 0) : Type 0 where
  pub pmm_alloc_frame : S → ℕ × S
  pub paging_map : ℕ → ℕ → S → S

unfoldable pub block_end : Block → ℕ
block_end b = u32 (b.addr + header + b.size)

unfoldable pub mergeable : Block → Block → Bool
unfolding block_end
mergeable b c = b.free && c.free && (block_end b == c.addr)

unfoldable pub merge : Block → Block → Block
merge b c = record b { size = u32 (b.size + (header + c.size)) }

-- The loop at block `b`, with the blocks behind it.
unfoldable pub coalesce_from : Block → List Block → List Block
unfolding mergeable merge
coalesce_from b [] = b ∷ []
coalesce_from b (c ∷ rest) = elim (mergeable b c) [
  | true ↦ coalesce_from (merge b c) rest
  | false ↦ b ∷ coalesce_from c rest
]

unfoldable pub coalesce : List Block → List Block
unfolding coalesce_from
coalesce [] = []
coalesce (b ∷ rest) = coalesce_from b rest

unfoldable pub align8 : ℕ → ℕ
align8 n = bit_and (u32 (n + 7)) (2 ^ 32 - 1 - 7)

unfoldable pub expand_pages : ℕ → ℕ
expand_pages min_bytes =
    let pages = u32 (min_bytes + header + frame_size - 1) / frame_size in
    if ltb pages min_expand_pages then min_expand_pages else pages

-- The block that is used, with its split off rest behind it.
unfoldable pub split : ℕ → Block → List Block
split want b =
    if leb (u32 (want + header + 8)) b.size
    then record b { size = want; free = false }
      ∷ record {
        addr = u32 (b.addr + header + want);
        size = sub32 (sub32 b.size want) header;
        free = true;
      }
      ∷ []
    else record b { free = false } ∷ []

-- The inner loop of `kmalloc`: the pointer returned, and the list after it.
unfoldable pub fit : ℕ → List Block → Option (ℕ × List Block)
unfolding split
fit want [] = none
fit want (b ∷ rest) =
    let later = fit want rest in
    if not b.free || ltb b.size want
    then elim later [ none ↦ none | some (p, rest') ↦ some (p, b ∷ rest') ]
    else some (u32 (b.addr + header), split want b ++ rest)

module _ {S : Type 0} (source : FrameSource S) where
  -- The loop of `expand`: `n` rounds are left, `grown` bytes are mapped.
  unfoldable pub grow : ℕ → ℕ → ℕ → S → ℕ × S
  grow zero mapped grown s = (grown, s)
  grow (suc n) mapped grown s =
      let (frame, s') = source.pmm_alloc_frame s in
      let rest =
        grow n mapped (u32 (grown + frame_size))
          (source.paging_map (u32 (heap_base + mapped + grown)) frame s') in
      if frame == 0 then (grown, s') else rest

  unfoldable pub expand : ℕ → Heap × S → Bool × Heap × S
  expand min_bytes (h, s) =
      let (grown, s') = grow (expand_pages min_bytes) h.mapped 0 s in
      let b : Block = record {
        addr = u32 (heap_base + h.mapped);
        size = sub32 grown header;
        free = true;
      } in
      if grown == 0 then (false, h, s') else (
        true,
        record { blocks = coalesce (h.blocks ++ (b ∷ [])); mapped = u32 (h.mapped + grown) },
        s',
      )

  unfoldable pub heap_init : Heap × S → Heap × S
  heap_init hs = let (_, h, s) = expand 1 hs in (h, s)

  -- The attempts that are left; 0 is the null pointer.
  unfoldable pub attempts : ℕ → ℕ → Heap × S → ℕ × Heap × S
  attempts zero want (h, s) = (0, h, s)
  attempts (suc n) want (h, s) =
      let (grew, h', s') = expand want (h, s) in
      let again = attempts n want (h', s') in
      elim (fit want h.blocks) [
        | some (p, blocks) ↦ (p, record h { blocks = blocks }, s)
        | none ↦ if grew then again else (0, h', s')
      ]

  unfoldable pub kmalloc : ℕ → Heap × S → ℕ × Heap × S
  kmalloc size (h, s) = if size == 0 then (0, h, s) else attempts 2 (align8 (u32 size)) (h, s)

-- `b->free = 1` at the header at `addr`; `none` where no header lies there, which is a write into
-- memory that the heap does not own.
unfoldable pub mark_free : ℕ → List Block → Option (List Block)
mark_free addr [] = none
mark_free addr (b ∷ rest) =
    let later = mark_free addr rest in
    if b.addr == addr
    then some (record b { free = true } ∷ rest)
    else elim later [ none ↦ none | some rest' ↦ some (b ∷ rest') ]

unfoldable pub kfree : ℕ → Heap → Option Heap
kfree ptr h = if ptr == 0 then some h else elim (mark_free (sub32 ptr header) h.blocks) [
  | none ↦ none
  | some blocks ↦ some (record h { blocks = coalesce blocks })
]

unfoldable pub heap_mapped_bytes : Heap → ℕ
heap_mapped_bytes h = h.mapped

unfoldable pub used_sum : List Block → ℕ → ℕ
used_sum [] used = used
used_sum (b ∷ rest) used = used_sum rest (if b.free then used else u32 (used + b.size))

unfoldable pub heap_used_bytes : Heap → ℕ
unfolding used_sum
heap_used_bytes h = used_sum h.blocks 0
