-- ===== src/Rtc.antt =====
-- kernel/rtc.c: the time of day from the CMOS clock. The registers are read through `Cmos`.
pub mod Decode
mod Tests
use red_panda_os.Prelude.{
  ℕ, zero, suc, ◌+◌, ◌-◌, ◌*◌, ◌/◌, ◌%◌, ◌^◌, ◌≤◌, ◌<◌, min, max, bit_and, bit_or, bit_xor, ◌≡◌,
  refl, sym, ap, ap₂, ◌∙◌, fun_ext, subst, ◌≢◌, ◌↔◌, ◌⊎◌, inl, inr, Bool, true, false, not, ◌&&◌,
  ◌||◌, Option, none, some, List, [], ◌∷◌, ◌++◌, map, arith, ltb, leb, ◌==◌, if◌then◌else◌, ltb→lt,
  lt→ltb, leb→le, ==_iff, tests, Bool-cases, Option-cases, length, get_elem?, get_or, set, take,
  drop, replicate, length-append, length-set, length-take, length-drop, length-replicate,
  take-append-drop, get_elem?-set_self, get_elem?-set_ne, length-map, u8, u16, u32, u64, sub32, shr,
  shl,
}

-- `cmos_read` on the state `S` of the device.
pub record Cmos (S : Type 0) : Type 0 where
  pub cmos_read : ℕ → S → ℕ × S

unfoldable pub from_bcd : ℕ → ℕ
from_bcd v = bit_and v 0x0F + shr v 4 * 10

-- `n` readings of the status are left.
module _ {S : Type 0} (cmos : Cmos S) where
  unfoldable pub await : ℕ → S → S
  await zero t = t
  await (suc n) t =
      let (status, t') = cmos.cmos_read 0x0A t in
      let rest = await n t' in if bit_and status 0x80 == 0 then t' else rest

-- The hour of `hh & 0x7F`, by the encoding and the mode that `status_b` tells.
unfoldable pub decode : ℕ → ℕ → ℕ
unfolding from_bcd
decode status_b v = if bit_and status_b 0x04 == 0 then from_bcd v else v

unfoldable pub decode_hour : ℕ → ℕ → ℕ
unfolding decode
decode_hour status_b hh =
    let h = decode status_b (bit_and hh 0x7F) in
    if bit_and status_b 0x02 == 0 then if bit_and hh 0x80 == 0 then h % 12 else h % 12 + 12 else h

module _ {S : Type 0} (cmos : Cmos S) where
  -- Hours, minutes and seconds.
  unfoldable pub rtc_time : S → ℕ × ℕ × ℕ × S
  unfolding await decode_hour decode
  rtc_time t =
      let (ss, t1) = cmos.cmos_read 0x00 (await cmos 100000 t) in
      let (mm, t2) = cmos.cmos_read 0x02 t1 in
      let (hh, t3) = cmos.cmos_read 0x04 t2 in
      let (status_b, t4) = cmos.cmos_read 0x0B t3 in
      (decode_hour status_b hh, decode status_b mm, decode status_b ss, t4)
