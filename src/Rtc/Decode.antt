-- ===== src/Rtc/Decode.antt =====
-- kernel/rtc.c: every way of storing a time is decoded to that time.
use red_panda_os.Prelude.{
  ℕ, zero, suc, ◌+◌, ◌*◌, ◌/◌, ◌%◌, ◌<◌, ◌≡◌, refl, ap₂, ◌∙◌, inl, inr, Bool, true, false, ◌&&◌,
  arith, ltb, ◌==◌, if◌then◌else◌, Bool-cases,
}
use red_panda_os.Rtc.{Cmos, await, decode, decode_hour, rtc_time}

-- How the clock stores numbers and hours: the two mode bits.
pub record Mode : Type 0 where
  pub binary : Bool
  pub full_day : Bool

abbrev pub status : Mode → ℕ
status mode = (if mode.binary then 4 else 0) + (if mode.full_day then 2 else 0)

-- Two decimal digits in one byte, or the number itself.
unfoldable pub encode : Bool → ℕ → ℕ
encode binary n = if binary then n else n / 10 * 16 + n % 10

-- In the 12-hour mode midnight and noon are 12, and the highest bit tells the afternoon.
unfoldable pub encode_hour : Mode → ℕ → ℕ
unfolding encode
encode_hour mode h =
    if mode.full_day
    then encode mode.binary h
    else encode mode.binary (if h % 12 == 0 then 12 else h % 12) + (if ltb h 12 then 0 else 128)

unfoldable all_below : ℕ → (ℕ → Bool) → Bool
all_below zero p = true
all_below (suc n) p = p n && all_below n p

all_below-at : (n c : ℕ) (p : ℕ → Bool) → all_below n p ≡ true → c < n → p c ≡ true
unfolding all_below
all_below-at zero c p h lt = absurd (omega arith)
all_below-at (suc n) c p h lt = elim (Bool-cases (c == n)) [
  | inl e ↦ let e' : c ≡ n = ground arith in rw e' (ground arith)
  | inr ne ↦ all_below-at n c p (ground arith) (ground arith)
]

abbrev decodes : Mode → ℕ → Bool
decodes mode n = decode (status mode) (encode mode.binary n) == n

abbrev decodes_hour : Mode → ℕ → Bool
decodes_hour mode n = decode_hour (status mode) (encode_hour mode n) == n

all_decoded : (b f : Bool) → all_below 60 (decodes (record { binary = b; full_day = f })) ≡ true
unfolding all_below decode encode
all_decoded true true = refl
all_decoded true false = refl
all_decoded false true = refl
all_decoded false false = refl

all_hours : (b f : Bool) → all_below 24 (decodes_hour (record { binary = b; full_day = f })) ≡ true
unfolding all_below decode_hour encode_hour
all_hours true true = refl
all_hours true false = refl
all_hours false true = refl
all_hours false false = refl

decode-encode : (mode : Mode) (n : ℕ) → n < 60 → decode (status mode) (encode mode.binary n) ≡ n
decode-encode mode n h =
    let t = all_below-at 60 n (decodes mode) (all_decoded mode.binary mode.full_day) h in
    ground arith

decode_hour-encode_hour :
    (mode : Mode) (n : ℕ) → n < 24 → decode_hour (status mode) (encode_hour mode n) ≡ n
decode_hour-encode_hour mode n h =
    let t = all_below-at 24 n (decodes_hour mode) (all_hours mode.binary mode.full_day) h in
    ground arith

module _ {S : Type 0} (cmos : Cmos S) where
  -- A clock that shows the time `h`:`m`:`s` while it is read.
  pub record Shows (mode : Mode) (h m s : ℕ) : Type 0 where
    pub seconds : (t : S) → (cmos.cmos_read 0x00 t).0 ≡ encode mode.binary s
    pub minutes : (t : S) → (cmos.cmos_read 0x02 t).0 ≡ encode mode.binary m
    pub hours : (t : S) → (cmos.cmos_read 0x04 t).0 ≡ encode_hour mode h
    pub modes : (t : S) → (cmos.cmos_read 0x0B t).0 ≡ status mode

  -- Whether the clock counts in BCD or binary, in the 12-hour or the 24-hour mode, `rtc_time`
  -- returns the time of day that the clock shows, in 24 hours.
  pub rtc_time_lem :
      (mode : Mode) (h m s : ℕ) (t : S)
      → Shows mode h m s
      → h < 24
      → m < 60
      → s < 60
      → let r = rtc_time cmos t in (r.0 ≡ h) × (r.1 ≡ m) × (r.2 ≡ s)
  unfolding rtc_time
  rtc_time_lem mode h m s t shows hh hm hs =
      let t1 = cmos.cmos_read 0x00 (await cmos 100000 t) in
      let t2 = cmos.cmos_read 0x02 t1.1 in
      let t3 = cmos.cmos_read 0x04 t2.1 in
      (
        ap₂ decode_hour (shows.modes t3.1) (shows.hours t2.1) ∙ decode_hour-encode_hour mode h hh,
        ap₂ decode (shows.modes t3.1) (shows.minutes t1.1) ∙ decode-encode mode m hm,
        ap₂ decode (shows.modes t3.1) (shows.seconds (await cmos 100000 t))
            ∙ decode-encode mode s hs,
      )
