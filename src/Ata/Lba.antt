-- ===== src/Ata/Lba.antt =====
-- kernel/ata.c: the sector that the registers address.
use red_panda_os.Prelude.{
  ℕ, ◌+◌, ◌*◌, ◌/◌, ◌%◌, ◌^◌, ◌<◌, bit_and, bit_or, ◌≡◌, refl, true, List, [], ◌∷◌, arith, ◌==◌,
  if◌then◌else◌, replicate, shr,
}
use red_panda_os.Prelude.Bits.{bit_or_step, bit_and_mask}
use red_panda_os.Ata.{
  Ports, ata_seccount, ata_lba_lo, ata_lba_mid, ata_lba_hi, ata_drive, drive_byte, io_delay,
  not_busy_within, wait_not_busy, program, setup,
}

-- A drive that is never busy, with what was written to its ports, the last first.
abbrev pub ready_drive : Ports (List (ℕ × ℕ))
ready_drive = record {
  inb = λ port log. (0x48, log);
  outb = λ port value log. (port, value) ∷ log;
  insw = λ port n log. (replicate n 0, log);
  outsw = λ port words log. log;
}

-- What was written to a port last, 0 if nothing was.
abbrev pub register : ℕ → List (ℕ × ℕ) → ℕ
register port [] = 0
register port ((q, value) ∷ log) = if q == port then value else register port log

-- The sector that a drive reads off its four registers.
abbrev pub addressed : List (ℕ × ℕ) → ℕ
addressed log =
    register ata_lba_lo log
    + 2 ^ 8 * register ata_lba_mid log
    + 2 ^ 16 * register ata_lba_hi log
    + 2 ^ 24 * (register ata_drive log % 16)

zero_top : (k : ℕ) → k < 16 → k / 2 / 2 / 2 / 2 ≡ 0
zero_top k h = omega (arith, h)

or_high : (k : ℕ) → k < 16 → bit_or 224 k ≡ 224 + k
or_high k h =
    let top : bit_or 14 (k / 2 / 2 / 2 / 2) ≡ 14 = rw (zero_top k h) refl in
    omega (
      arith,
      h,
      top,
      bit_or_step 224 k,
      bit_or_step 112 (k / 2),
      bit_or_step 56 (k / 2 / 2),
      bit_or_step 28 (k / 2 / 2 / 2),
    )

drive_byte_lem : (lba : ℕ) → drive_byte lba ≡ 224 + shr lba 24 % 16
unfolding drive_byte
drive_byte_lem lba =
    let masked : bit_and (shr lba 24) 15 ≡ shr lba 24 % 16 = bit_and_mask 4 (shr lba 24) in
    rw masked (or_high (shr lba 24 % 16) (omega arith))

-- For a drive that is never busy, `setup` succeeds, asks for one sector, and leaves in the registers
-- the address that it was given, if it has at most 28 bits.
pub setup-addressed :
    (lba : ℕ) (log : List (ℕ × ℕ))
    → lba < 2 ^ 28
    → let (ok, log') = setup ready_drive lba log in
      (ok ≡ true) × (register ata_seccount log' ≡ 1) × (addressed log' ≡ lba)
unfolding setup wait_not_busy not_busy_within program io_delay
setup-addressed lba log h = (refl, refl, omega (arith, h, drive_byte_lem lba))
