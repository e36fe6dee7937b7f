-- ===== src/Ata.antt =====
-- kernel/ata.c: the disk by programmed I/O, over the machine's ports, an interface. Both polling
-- loops have the code's own 1000000 rounds.
pub mod Lba
mod Tests
use red_panda_os.Prelude.{
  ℕ, zero, suc, ◌+◌, ◌-◌, ◌*◌, ◌/◌, ◌%◌, ◌^◌, ◌≤◌, ◌<◌, min, max, bit_and, bit_or, bit_xor, ◌≡◌,
  refl, sym, ap, ap₂, ◌∙◌, fun_ext, subst, ◌≢◌, ◌↔◌, ◌⊎◌, inl, inr, Bool, true, false, not, ◌&&◌,
  ◌||◌, Option, none, some, List, [], ◌∷◌, ◌++◌, map, arith, ltb, leb, ◌==◌, if◌then◌else◌, ltb→lt,
  lt→ltb, leb→le, ==_iff, tests, Bool-cases, Option-cases, length, get_elem?, get_or, set, take,
  drop, replicate, length-append, length-set, length-take, length-drop, length-replicate,
  take-append-drop, get_elem?-set_self, get_elem?-set_ne, length-map, u8, u16, u32, u64, sub32, shr,
  shl,
}
use red_panda_os.Fs.{Disk, Sector}

-- kernel/io.h's port accesses, on the state `S` of the machine; `insw` reads 16-bit words.
pub record Ports (S : Type 0) : Type 0 where
  pub inb : ℕ → S → ℕ × S
  pub outb : ℕ → ℕ → S → S
  pub insw : ℕ → ℕ → S → List ℕ × S
  pub outsw : ℕ → List ℕ → S → S

abbrev pub ata_data : ℕ
ata_data = 0x1F0

abbrev pub ata_seccount : ℕ
ata_seccount = 0x1F2

abbrev pub ata_lba_lo : ℕ
ata_lba_lo = 0x1F3

abbrev pub ata_lba_mid : ℕ
ata_lba_mid = 0x1F4

abbrev pub ata_lba_hi : ℕ
ata_lba_hi = 0x1F5

abbrev pub ata_drive : ℕ
ata_drive = 0x1F6

abbrev pub ata_status : ℕ
ata_status = 0x1F7

abbrev pub ata_alt_status : ℕ
ata_alt_status = 0x3F6

-- The test of a bit of the status.
abbrev pub has_bit : ℕ → ℕ → Bool
has_bit status mask = not (bit_and status mask == 0)

-- The value of the drive register: the master, in LBA mode, with the highest four bits.
unfoldable pub drive_byte : ℕ → ℕ
drive_byte lba = bit_or 0xE0 (bit_and (shr lba 24) 0x0F)

-- A sector's bytes from its words, the low byte first, and back.
unfoldable pub bytes_of : List ℕ → List ℕ
bytes_of [] = []
bytes_of (w ∷ words) = u8 w ∷ (u8 (shr w 8) ∷ bytes_of words)

unfoldable pub words_of : List ℕ → List ℕ
words_of [] = []
words_of (b ∷ []) = b ∷ []
words_of (b ∷ c ∷ bytes) = (b + 256 * c) ∷ words_of bytes

module _ {S : Type 0} (p : Ports S) where
  unfoldable pub io_delay : S → S
  io_delay s =
      (p.inb ata_alt_status
        (p.inb ata_alt_status (p.inb ata_alt_status (p.inb ata_alt_status s).1).1).1).1

  -- `true` for the result 0, with `n` rounds left.
  unfoldable pub not_busy_within : ℕ → S → Bool × S
  not_busy_within zero s = (false, s)
  not_busy_within (suc n) s =
      let (status, s') = p.inb ata_status s in
      elim (has_bit status 0x80) [ false ↦ (true, s') | true ↦ not_busy_within n s' ]

  unfoldable pub wait_not_busy : S → Bool × S
  unfolding not_busy_within
  wait_not_busy s = not_busy_within 1000000 s

  unfoldable pub drq_within : ℕ → S → Bool × S
  drq_within zero s = (false, s)
  drq_within (suc n) s =
      let (status, s') = p.inb ata_status s in
      elim (has_bit status 0x01) [
        | true ↦ (false, s')
        | false ↦ elim (not (has_bit status 0x80) && has_bit status 0x08) [
          | true ↦ (true, s')
          | false ↦ drq_within n s'
        ]
      ]

  unfoldable pub wait_drq : S → Bool × S
  unfolding drq_within
  wait_drq s = drq_within 1000000 s

  -- The registers, for one sector.
  unfoldable pub program : ℕ → S → S
  unfolding drive_byte io_delay
  program lba s =
      let s1 = io_delay (p.outb ata_drive (drive_byte lba) s) in
      let s2 = p.outb ata_seccount 1 s1 in
      let s3 = p.outb ata_lba_lo (u8 lba) s2 in
      let s4 = p.outb ata_lba_mid (u8 (shr lba 8)) s3 in p.outb ata_lba_hi (u8 (shr lba 16)) s4

  unfoldable pub setup : ℕ → S → Bool × S
  unfolding wait_not_busy program
  setup lba s = let (ok, s') = wait_not_busy s in if ok then (true, program lba s') else (false, s')

  -- The commands that `ata_init` gives before it reads the status.
  unfoldable pub identify : S → S
  unfolding io_delay
  identify s =
      let s1 = io_delay (p.outb ata_drive 0xE0 s) in
      p.outb ata_status 0xEC (
        p.outb ata_lba_hi 0 (p.outb ata_lba_mid 0 (p.outb ata_lba_lo 0 (p.outb ata_seccount 0 s1))))

  -- With the count of sectors that it stores; `ids` is what the drive says of itself.
  unfoldable pub ata_init : ℕ → S → Bool × ℕ × S
  unfolding wait_not_busy identify wait_drq
  ata_init total s =
      let (free, s1) = wait_not_busy s in
      let (status, s2) = p.inb ata_status (identify s1) in
      let (ready, s3) = wait_drq s2 in
      let (ids, s4) = p.insw ata_data 256 s3 in
      let sectors = bit_or (get_or ids 60 0) (shl (get_or ids 61 0) 16) in
      if not free
      then (false, total, s1)
      else if status == 0
      then (false, total, s2)
      else if ready
      then (not (sectors == 0), sectors, s4)
      else (false, total, s3)

  unfoldable pub ata_read : ℕ → S → Option (List ℕ) × S
  unfolding setup wait_drq bytes_of
  ata_read lba s =
      let (set_up, s1) = setup lba s in
      let (ready, s2) = wait_drq (p.outb ata_status 0x20 s1) in
      let (words, s3) = p.insw ata_data 256 s2 in
      if not set_up then (none, s1) else if ready then (some (bytes_of words), s3) else (none, s2)

  unfoldable pub ata_write : ℕ → List ℕ → S → Bool × S
  unfolding setup wait_drq wait_not_busy words_of
  ata_write lba buf s =
      let (set_up, s1) = setup lba s in
      let (ready, s2) = wait_drq (p.outb ata_status 0x30 s1) in
      let flushed = wait_not_busy (p.outb ata_status 0xE7 (p.outsw ata_data (words_of buf) s2)) in
      if not set_up then (false, s1) else if ready then flushed else (false, s2)

-- The disk that kernel/fs.c runs on, with `total_sectors` beside the machine.
unfoldable pub ata_disk : {S : Type 0} → Ports S → (ℕ → S → Bool × S) → Disk (ℕ × S)
unfolding ata_init ata_read ata_write
ata_disk p kmalloc = record {
  ata_init = λ (total, s). let (ok, total', s') = ata_init p total s in (ok, (total', s'));
  ata_sectors = λ (total, s). total;
  ata_read = λ lba (total, s). let (got, s') = ata_read p lba s in (got, (total, s'));
  ata_write = λ lba buf (total, s). let (ok, s') = ata_write p lba buf s in (ok, (total, s'));
  kmalloc = λ n (total, s). let (ok, s') = kmalloc n s in (ok, (total, s'));
}
