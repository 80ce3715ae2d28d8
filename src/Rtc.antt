-- ===== src/Rtc.antt =====
-- drivers/RTC.c: the calendar registers in BCD, and their setting and reading. The clock runs while
-- it is read. RTCCON, which is 1 during the accesses and 0 after them, is left out.
pub mod Consistency
use mine_os.Prelude.{ℕ, ◌+◌, ◌*◌, ◌/◌, ◌%◌, ◌^◌, ◌==◌, if◌then◌else◌, bit_and, bit_or}

-- The registers, of 8 bits.
pub record Rtc : Type 0 where
  pub bcdyear : ℕ
  pub bcdmon : ℕ
  pub bcdday : ℕ
  pub bcddate : ℕ
  pub bcdhour : ℕ
  pub bcdmin : ℕ
  pub bcdsec : ℕ

-- What RTC_Set takes and RTC_Read gives, without the second.
pub record Date : Type 0 where
  pub year : ℕ
  pub month : ℕ
  pub date : ℕ
  pub week : ℕ
  pub hour : ℕ
  pub min : ℕ

pub record Moment : Type 0 where
  pub day : Date
  pub sec : ℕ

-- ((x / 10) << 4) | (x % 10) in a register of 8 bits
unfoldable pub bcd : ℕ → ℕ
bcd x = bit_or (x / 10 * 2 ^ 4) (x % 10) % 2 ^ 8

-- (REG >> 4) * 10 + (REG & 0x0f) in a char, where the two accesses read hi and lo
unfoldable pub from_bcd : ℕ → ℕ → ℕ
from_bcd hi lo = (hi / 2 ^ 4 * 10 + bit_and lo 0x0f) % 2 ^ 8

unfoldable pub rtc_set : Moment → Rtc
rtc_set t = record {
  bcdyear = t.day.year;
  bcdmon = bcd t.day.month;
  bcdday = t.day.week;
  bcddate = bcd t.day.date;
  bcdhour = bcd t.day.hour;
  bcdmin = bcd t.day.min;
  bcdsec = bcd t.sec;
}

-- The registers at each access: access n of the reading sees `clock n`.
abbrev pub Clock : Type 0
Clock = ℕ → Rtc

-- The ten accesses from n on.
unfoldable pub read_date : Clock → ℕ → Date
read_date clock n = record {
  year = (clock n).bcdyear;
  month = from_bcd (clock (n + 1)).bcdmon (clock (n + 2)).bcdmon;
  week = (clock (n + 3)).bcdday;
  date = from_bcd (clock (n + 4)).bcddate (clock (n + 5)).bcddate;
  hour = from_bcd (clock (n + 6)).bcdhour (clock (n + 7)).bcdhour;
  min = from_bcd (clock (n + 8)).bcdmin (clock (n + 9)).bcdmin;
}

unfoldable pub rtc_read : Clock → Moment
rtc_read clock =
    if (clock 10).bcdsec == 0
    then record { day = read_date clock 11; sec = from_bcd (clock 21).bcdsec (clock 22).bcdsec }
    else record { day = read_date clock 0; sec = from_bcd (clock 11).bcdsec (clock 12).bcdsec }
