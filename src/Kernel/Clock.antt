-- ===== src/Kernel/Clock.antt =====
-- arona_kernel/src/rtc.rs: the clock's digits. The registers are read through ports; their bytes are
-- arguments.
mod Examples
use arona_os.Prelude.{ℕ, ◌+◌, ◌*◌, ◌/◌, ◌%◌, ◌^◌, ◌<◌, ◌≤◌, ◌≡◌, ap, ◌∙◌, arith}

-- `year` is a `u16`, the others are `u8`.
pub record DateTime : Type 0 where
  pub year : ℕ
  pub month : ℕ
  pub day : ℕ
  pub hour : ℕ
  pub minute : ℕ
  pub second : ℕ

-- In `u8`; `& 0x0F` keeps the low four bits.
unfoldable pub bcd_to_binary : ℕ → ℕ
bcd_to_binary bcd = (bcd % 16 + bcd / 16 * 10 % 256) % 256

-- What `now` makes of the bytes of the registers.
unfoldable pub now : (ℕ → ℕ) → DateTime
now read_cmos_register = record {
  year = (2000 + bcd_to_binary (read_cmos_register 0x09)) % 2 ^ 16;
  month = bcd_to_binary (read_cmos_register 0x08);
  day = bcd_to_binary (read_cmos_register 0x07);
  hour = bcd_to_binary (read_cmos_register 0x04);
  minute = bcd_to_binary (read_cmos_register 0x02);
  second = bcd_to_binary (read_cmos_register 0x00);
}

-- The byte with the two decimal digits of a number below 100.
abbrev pub to_bcd : ℕ → ℕ
to_bcd n = n / 10 * 16 + n % 10

bcd_to_binary-to_bcd : (n : ℕ) → n < 100 → bcd_to_binary (to_bcd n) ≡ n
unfolding bcd_to_binary
bcd_to_binary-to_bcd n h = ground arith

-- Where the registers of the clock hold the two decimal digits of the parts of a date of the years
-- 2000 to 2099, `now` is that date.
pub now-to_bcd :
    (date : DateTime) (read_cmos_register : ℕ → ℕ)
    → 2000 ≤ date.year
    → date.year < 2100
    → date.month < 100
    → date.day < 100
    → date.hour < 100
    → date.minute < 100
    → date.second < 100
    → read_cmos_register 0x09 ≡ to_bcd (date.year % 100)
    → read_cmos_register 0x08 ≡ to_bcd date.month
    → read_cmos_register 0x07 ≡ to_bcd date.day
    → read_cmos_register 0x04 ≡ to_bcd date.hour
    → read_cmos_register 0x02 ≡ to_bcd date.minute
    → read_cmos_register 0x00 ≡ to_bcd date.second
    → now read_cmos_register ≡ date
unfolding now
now-to_bcd date read low high mo da ho mi se y m d h n s =
    let part : (b v : ℕ) → v < 100 → b ≡ to_bcd v → bcd_to_binary b ≡ v =
      λ b v small e. ap bcd_to_binary e ∙ bcd_to_binary-to_bcd v small in
    let year : (2000 + bcd_to_binary (read 0x09)) % 2 ^ 16 ≡ date.year =
      omega (arith, low, high, part (read 0x09) (date.year % 100) (omega arith) y) in
    cc (
      year,
      part (read 0x08) date.month mo m,
      part (read 0x07) date.day da d,
      part (read 0x04) date.hour ho h,
      part (read 0x02) date.minute mi n,
      part (read 0x00) date.second se s,
    )
