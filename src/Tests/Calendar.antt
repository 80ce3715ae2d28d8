-- ===== src/Tests/Calendar.antt =====
-- The theorems on drivers/RTC.c: 59 seconds and the next minute, and a whole setting.
use mine_os.Prelude.{◌≡◌, refl, arith, leb, if◌then◌else◌}
use mine_os.Rtc.{Rtc, Moment, rtc_read, from_bcd}
use mine_os.Rtc.Consistency.{IsMoment, changes, shown, rtc_read_change}

-- The last second of 23:59 on the last day of a year, and the next one.
abbrev late : Rtc
late = record {
  bcdyear = 0x13;
  bcdmon = 0x12;
  bcdday = 2;
  bcddate = 0x31;
  bcdhour = 0x23;
  bcdmin = 0x59;
  bcdsec = 0x59;
}

abbrev new_year : Rtc
new_year = record {
  bcdyear = 0x14;
  bcdmon = 1;
  bcdday = 3;
  bcddate = 1;
  bcdhour = 0;
  bcdmin = 0;
  bcdsec = 0;
}

-- The change falls between the two accesses to the second: the old tens and the new units.
rtc_read_change_example : rtc_read (changes late new_year 12) ≡ (
    if leb 12 10 then record { day = shown new_year; sec = 0 } else record {
      day = shown late;
      sec = from_bcd (changes late new_year 12 11).bcdsec (changes late new_year 12 12).bcdsec;
    })
rtc_read_change_example = rtc_read_change late new_year 12 (omega arith) refl

abbrev noon : Moment
noon = record {
  day = record { year = 0x13; month = 11; date = 24; week = 7; hour = 12; min = 30 };
  sec = 45;
}

noon-IsMoment : IsMoment noon
noon-IsMoment = record {
  month = omega arith;
  date = omega arith;
  hour = omega arith;
  min = omega arith;
  sec = omega arith;
}
