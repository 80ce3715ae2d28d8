-- ===== src/Rtc/Consistency.antt =====
-- drivers/RTC.c: what a reading gives after a setting, and while the clock changes.
use mine_os.Prelude.{
  ℕ, ◌+◌, ◌*◌, ◌/◌, ◌%◌, ◌^◌, ◌<◌, ◌≤◌, ◌==◌, ◌≡◌, ◌≢◌, refl, arith, if◌then◌else◌, Bool-cases, inl,
  inr, ltb, leb, ==_false, lt→ltb, le→ltb_false, bit_or,
}
use mine_os.Bits.Clear.{bit_and_mask, or_digits}
use mine_os.Rtc.{Rtc, Date, Moment, bcd, from_bcd, rtc_set, Clock, read_date, rtc_read}

from_bcd-bcd : (x : ℕ) → x < 100 → from_bcd (bcd x) (bcd x) ≡ x
unfolding from_bcd bcd
from_bcd-bcd x h =
    rw
      (
        bit_and_mask (bit_or (x / 10 * 2 ^ 4) (x % 10) % 2 ^ 8) 4,
        or_digits 4 (x / 10) (x % 10) (omega arith),
      )
      (omega arith)

-- The clock that shows a until access k, and b from there on.
abbrev pub changes : Rtc → Rtc → ℕ → Clock
changes a b k n = if ltb n k then a else b

-- What a still clock gives.
abbrev pub shown : Rtc → Date
shown r = record {
  year = r.bcdyear;
  month = from_bcd r.bcdmon r.bcdmon;
  week = r.bcdday;
  date = from_bcd r.bcddate r.bcddate;
  hour = from_bcd r.bcdhour r.bcdhour;
  min = from_bcd r.bcdmin r.bcdmin;
}

-- The ten accesses all before the change, or all from it on.
before : (a b : Rtc) (k n : ℕ) → n + 9 < k → read_date (changes a b k) n ≡ shown a
unfolding read_date
before a b k n h = rw (
  lt→ltb n k (omega arith),
  lt→ltb (n + 1) k (omega arith),
  lt→ltb (n + 2) k (omega arith),
  lt→ltb (n + 3) k (omega arith),
  lt→ltb (n + 4) k (omega arith),
  lt→ltb (n + 5) k (omega arith),
  lt→ltb (n + 6) k (omega arith),
  lt→ltb (n + 7) k (omega arith),
  lt→ltb (n + 8) k (omega arith),
  lt→ltb (n + 9) k (omega arith),
)

from : (a b : Rtc) (k n : ℕ) → k ≤ n → read_date (changes a b k) n ≡ shown b
unfolding read_date
from a b k n h = rw (
  le→ltb_false n k h,
  le→ltb_false (n + 1) k (omega arith),
  le→ltb_false (n + 2) k (omega arith),
  le→ltb_false (n + 3) k (omega arith),
  le→ltb_false (n + 4) k (omega arith),
  le→ltb_false (n + 5) k (omega arith),
  le→ltb_false (n + 6) k (omega arith),
  le→ltb_false (n + 7) k (omega arith),
  le→ltb_false (n + 8) k (omega arith),
  le→ltb_false (n + 9) k (omega arith),
)

-- What RTC_Read gives where the clock goes to second 0 at access k, from another second: before
-- the test of the second, all is of the new minute; after it, the date and the time are of the old
-- minute, but the second, which is read again, is what the clock shows at each of its two accesses.
pub rtc_read_change :
    (a b : Rtc) (k : ℕ)
    → a.bcdsec ≢ 0
    → b.bcdsec ≡ 0
    → rtc_read (changes a b k) ≡ (
        if leb k 10 then record { day = shown b; sec = 0 } else record {
          day = shown a;
          sec = from_bcd (changes a b k 11).bcdsec (changes a b k 12).bcdsec;
        })
unfolding rtc_read from_bcd
rtc_read_change a b k ha hb = elim (Bool-cases (leb k 10)) [
  | inl c ↦
      rw
        (
          c,
          le→ltb_false 10 k (ground arith),
          le→ltb_false 21 k (ground arith),
          le→ltb_false 22 k (ground arith),
          from a b k 11 (ground arith),
          hb,
        )
        refl
  | inr c ↦
      rw (c, lt→ltb 10 k (ground arith), ==_false a.bcdsec 0 ha, before a b k 0 (ground arith))
]

pub record IsMoment (t : Moment) : Type 0 where
  pub month : t.day.month < 100
  pub date : t.day.date < 100
  pub hour : t.day.hour < 100
  pub min : t.day.min < 100
  pub sec : t.sec < 100

-- RTC_Read gives what RTC_Set was given, for numbers of two digits, while the clock stands.
rtc_read-set : (t : Moment) → IsMoment t → rtc_read (λ _. rtc_set t) ≡ t
unfolding rtc_read rtc_set read_date
rtc_read-set t h = elim (Bool-cases (bcd t.sec == 0)) [
  | inl c ↦ rw (
    c,
    from_bcd-bcd t.day.month h.month,
    from_bcd-bcd t.day.date h.date,
    from_bcd-bcd t.day.hour h.hour,
    from_bcd-bcd t.day.min h.min,
    from_bcd-bcd t.sec h.sec,
  )
  | inr c ↦ rw (
    c,
    from_bcd-bcd t.day.month h.month,
    from_bcd-bcd t.day.date h.date,
    from_bcd-bcd t.day.hour h.hour,
    from_bcd-bcd t.day.min h.min,
    from_bcd-bcd t.sec h.sec,
  )
]
