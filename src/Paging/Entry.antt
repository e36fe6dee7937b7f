-- ===== src/Paging/Entry.antt =====
-- kernel/paging.c: the fields of an entry.
use red_panda_os.Prelude.{
  ℕ, zero, suc, ◌+◌, ◌*◌, ◌/◌, ◌^◌, ◌≤◌, ◌<◌, bit_and, bit_or, ◌≡◌, refl, true, arith,
}
use red_panda_os.Prelude.Bits.{bit_or_step, bit_and_step, bit_and_mask, bit_and-one}
use red_panda_os.Paging.{page_mask, entry_of, present}

bit_or-zero_upto : (bound a : ℕ) → a ≤ bound → bit_or a 0 ≡ a
bit_or-zero_upto bound zero h = refl
bit_or-zero_upto zero (suc a) h = absurd (omega arith)
bit_or-zero_upto (suc bound) (suc a) h =
    let half = bit_or-zero_upto bound (suc a / 2) (omega arith) in
    omega (arith, bit_or_step (suc a) 0, half)

bit_or-zero : (a : ℕ) → bit_or a 0 ≡ a
bit_or-zero a = bit_or-zero_upto a a (omega arith)

bit_and-double : (a m : ℕ) → bit_and a (2 * m) ≡ 2 * bit_and (a / 2) m
bit_and-double a m =
    let e : 2 * m / 2 ≡ m = omega arith in
    let q : bit_and (a / 2) (2 * m / 2) ≡ bit_and (a / 2) m = rw e refl in
    omega (arith, bit_and_step a (2 * m), q)

-- A mask without its lowest twelve bits rounds down to a page.
pub bit_and-page_mask : (a : ℕ) → a < 2 ^ 32 → bit_and a page_mask ≡ a / 4096 * 4096
bit_and-page_mask a h = omega (
  arith,
  h,
  bit_and-double a 0x7FFFF800,
  bit_and-double (a / 2) 0x3FFFFC00,
  bit_and-double (a / 2 / 2) 0x1FFFFE00,
  bit_and-double (a / 2 / 2 / 2) 0xFFFFF00,
  bit_and-double (a / 2 / 2 / 2 / 2) 0x7FFFF80,
  bit_and-double (a / 2 / 2 / 2 / 2 / 2) 0x3FFFFC0,
  bit_and-double (a / 2 / 2 / 2 / 2 / 2 / 2) 0x1FFFFE0,
  bit_and-double (a / 2 / 2 / 2 / 2 / 2 / 2 / 2) 0xFFFFF0,
  bit_and-double (a / 2 / 2 / 2 / 2 / 2 / 2 / 2 / 2) 0x7FFFF8,
  bit_and-double (a / 2 / 2 / 2 / 2 / 2 / 2 / 2 / 2 / 2) 0x3FFFFC,
  bit_and-double (a / 2 / 2 / 2 / 2 / 2 / 2 / 2 / 2 / 2 / 2) 0x1FFFFE,
  bit_and-double (a / 2 / 2 / 2 / 2 / 2 / 2 / 2 / 2 / 2 / 2 / 2) 0xFFFFF,
  bit_and_mask 20 (a / 2 / 2 / 2 / 2 / 2 / 2 / 2 / 2 / 2 / 2 / 2 / 2),
)

pub entry_of_lem : (frame : ℕ) → entry_of (frame * 4096) ≡ frame * 4096 + 3
unfolding entry_of
entry_of_lem frame =
    let low : bit_or (frame * 4096) 1 ≡ frame * 4096 + 1 =
      omega (arith, bit_or_step (frame * 4096) 1, bit_or-zero (frame * 4096 / 2)) in
    let high : bit_or (frame * 4096 + 1) 2 ≡ frame * 4096 + 3 = omega (
      arith,
      bit_or_step (frame * 4096 + 1) 2,
      bit_or_step ((frame * 4096 + 1) / 2) 1,
      bit_or-zero ((frame * 4096 + 1) / 2 / 2),
    ) in
    rw low high

pub entry_of-present : (frame : ℕ) → present (entry_of (frame * 4096)) ≡ true
unfolding present
entry_of-present frame =
    let one : bit_and (frame * 4096 + 3) 1 ≡ 1 = omega (arith, bit_and-one (frame * 4096 + 3)) in
    rw (entry_of_lem frame) (rw one refl)

pub entry_of-frame :
    (frame : ℕ) → frame < 2 ^ 20 → bit_and (entry_of (frame * 4096)) page_mask ≡ frame * 4096
entry_of-frame frame h =
    rw (entry_of_lem frame)
      (omega (arith, h, bit_and-page_mask (frame * 4096 + 3) (omega (arith, h))))
