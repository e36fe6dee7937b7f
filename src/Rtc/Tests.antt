-- ===== src/Rtc/Tests.antt =====
-- A run of rtc.c, and its theorem.
use red_panda_os.Prelude.{ℕ, ◌≡◌, refl, false, arith, ◌==◌, if◌then◌else◌}
use red_panda_os.Rtc.{Cmos, from_bcd, rtc_time}
use red_panda_os.Rtc.Decode.{Mode, encode, encode_hour, Shows, rtc_time_lem}

-- 23:59:08 in BCD and the 12-hour mode.
abbrev late : Cmos ℕ
late = record {
  cmos_read = λ reg t.
      (if reg == 0 then 0x08 else if reg == 2 then 0x59 else if reg == 4 then 0x91 else 0, t);
}

abbrev bcd_halves : Mode
bcd_halves = record { binary = false; full_day = false }

from_bcd_lem : from_bcd 0x59 ≡ 59
unfolding from_bcd
from_bcd_lem = refl

late-Shows : Shows late bcd_halves 23 59 8
unfolding encode encode_hour
late-Shows = record {
  seconds = λ t. refl;
  minutes = λ t. refl;
  hours = λ t. refl;
  modes = λ t. refl;
}

rtc_time_lem_example : let r = rtc_time late 0 in (r.0 ≡ 23) × (r.1 ≡ 59) × (r.2 ≡ 8)
rtc_time_lem_example =
    rtc_time_lem late bcd_halves 23 59 8 0 late-Shows (omega arith) (omega arith) (omega arith)
