-- ===== src/DateTime/Unix/RoundTrip.antt =====
-- A datetime and its seconds.
use mtp_rs.Prelude.{
  ℕ, ◌+◌, ◌*◌, ◌/◌, ◌%◌, ◌≤◌, ◌<◌, ◌≡◌, refl, ap, subst, sym, true, ◌&&◌, some, leb, Bool-cases,
  inl, inr, arith,
}
use mtp_rs.Prelude.Int.{
  ℤ, pos, negsuc, pos_part, neg_part, ◌+ℤ◌, ◌-ℤ◌, ◌*ℤ◌, +ℤ_parts, -ℤ_parts, *ℤ_parts, eq_of_parts,
  one_part, div_euclid, rem_euclid, leb_ℤ,
}
use mtp_rs.DateTime.{UtcOffset, DateTime, is_valid, days_in_month}
use mtp_rs.DateTime.Unix.{
  days_from_civil, from_unix_seconds, to_unix_seconds, to_unix_seconds_with_fallback, wall_clock,
  checked_add, seconds, day_of_era, min_unix_seconds, max_unix_seconds, fits_i64,
}
use mtp_rs.DateTime.Unix.Euclid.{division_400, divide_86400, division_86400}
use mtp_rs.DateTime.Unix.Days.{civil_from_days-Dated}
use mtp_rs.DateTime.Unix.Civil.{
  InCalendar, march_day, march_day-le, civil_from_days-days_from_civil,
}

module _ (year month day : ℕ) (date : InCalendar year month day) where
  march_day_late : 3 ≤ month → march_day month day ≤ 305
  unfolding days_in_month
  march_day_late h = ground (arith, date.day_to)

  march_day_early : month ≤ 2 → 306 ≤ march_day month day
  march_day_early h = ground (arith, date.month_from, date.day_from)

  -- The days of the years 0 to 9999.
  days_range :
      year ≤ 9999
      → (neg_part (days_from_civil year month day) ≤ 719528)
        × (pos_part (days_from_civil year month day) ≤ 2932896)
  unfolding days_from_civil
  days_range in_range = elim (Bool-cases (leb month 2)) [
    | inl early ↦
        let y = pos year -ℤ pos 1 in
        let era = div_euclid y 400 in
        let doe = day_of_era (rem_euclid y 400) (march_day month day) in
        rw early (
          omega (
            arith,
            one_part y,
            one_part era,
            one_part (era *ℤ 146097),
            one_part (era *ℤ 146097 +ℤ pos doe),
            one_part (era *ℤ 146097 +ℤ pos doe -ℤ pos 719468),
            -ℤ_parts (pos year) (pos 1),
            division_400 y,
            *ℤ_parts era 146097,
            +ℤ_parts (era *ℤ 146097) (pos doe),
            -ℤ_parts (era *ℤ 146097 +ℤ pos doe) (pos 719468),
            march_day-le year month day date,
            march_day_early (ground arith),
          ))
    | inr late ↦
        let y = pos year in
        let era = div_euclid y 400 in
        let doe = day_of_era (rem_euclid y 400) (march_day month day) in
        rw late (
          omega (
            arith,
            one_part era,
            one_part (era *ℤ 146097),
            one_part (era *ℤ 146097 +ℤ pos doe),
            one_part (era *ℤ 146097 +ℤ pos doe -ℤ pos 719468),
            division_400 y,
            *ℤ_parts era 146097,
            +ℤ_parts (era *ℤ 146097) (pos doe),
            -ℤ_parts (era *ℤ 146097 +ℤ pos doe) (pos 719468),
            march_day_late (ground arith),
          ))
  ]

-- What a valid datetime has.
record Fields (dt : DateTime) : Type 0 where
  year_in : dt.year ≤ 9999
  hour_in : dt.hour ≤ 23
  minute_in : dt.minute ≤ 59
  second_in : dt.second ≤ 59
  date : InCalendar dt.year dt.month dt.day

is_valid-Fields : (dt : DateTime) → is_valid dt ≡ true → Fields dt
unfolding is_valid days_in_month
is_valid-Fields dt v = record {
  year_in = ground arith;
  hour_in = ground arith;
  minute_in = ground arith;
  second_in = ground arith;
  date = record {
    month_from = ground arith;
    month_to = ground arith;
    day_from = ground arith;
    day_to = ground arith;
  };
}

-- The wall-clock time of a day and a second of the day.
wall_clock_lem :
    (dt : DateTime) (o : UtcOffset)
    → Fields dt
    → dt.offset ≡ some o
    → wall_clock
        (days_from_civil dt.year dt.month dt.day *ℤ 86400
          +ℤ pos (dt.hour * 3600 + dt.minute * 60 + dt.second))
        o
      ≡ dt
unfolding wall_clock
wall_clock_lem dt o f zoned =
    let days = days_from_civil dt.year dt.month dt.day in
    let time = dt.hour * 3600 + dt.minute * 60 + dt.second in
    let local = days *ℤ 86400 +ℤ pos time in
    let (days_again, time_again) =
      divide_86400 local days time (omega (arith, f.hour_in, f.minute_in, f.second_in))
        (omega (arith, *ℤ_parts days 86400, +ℤ_parts (days *ℤ 86400) (pos time))) in
    let civil = civil_from_days-days_from_civil dt.year dt.month dt.day f.date in
    let hour : time / 3600 ≡ dt.hour = omega (arith, f.minute_in, f.second_in) in
    let minute : time / 60 % 60 ≡ dt.minute = omega (arith, f.minute_in, f.second_in) in
    let second : time % 60 ≡ dt.second = omega (arith, f.second_in) in
    rw (days_again, time_again, civil, hour, minute, second, sym zoned) refl

local_again : (local off : ℤ) → local -ℤ off +ℤ off ≡ local
local_again local off =
    eq_of_parts _ _ (omega (arith, -ℤ_parts local off, +ℤ_parts (local -ℤ off) off))

in_range :
    (local : ℤ)
    → neg_part local ≤ 62167219200
    → pos_part local ≤ 253402300799
    → (fits_i64 local ≡ true)
      × (leb_ℤ min_unix_seconds local ≡ true)
      × (leb_ℤ local max_unix_seconds ≡ true)
in_range (pos n) a b = (ground arith, ground arith, ground arith)
in_range (negsuc n) a b = (ground arith, ground arith, ground arith)

-- A valid datetime with an offset has seconds since the Unix epoch, and at these seconds and this
-- offset `from_unix_seconds` gives the datetime again.
pub from_unix_seconds-to_unix_seconds :
    (dt : DateTime) (o : UtcOffset)
    → is_valid dt ≡ true
    → dt.offset ≡ some o
    → (secs : ℤ) × (to_unix_seconds dt ≡ some secs) × (from_unix_seconds secs o ≡ some dt)
unfolding to_unix_seconds to_unix_seconds_with_fallback from_unix_seconds checked_add
from_unix_seconds-to_unix_seconds dt o v zoned =
    let f = is_valid-Fields dt v in
    let days = days_from_civil dt.year dt.month dt.day in
    let time = dt.hour * 3600 + dt.minute * 60 + dt.second in
    let local = days *ℤ 86400 +ℤ pos time in
    let again = local_again local (seconds o) in
    let range = days_range dt.year dt.month dt.day f.date f.year_in in
    let in_day : time < 86400 = omega (arith, f.hour_in, f.minute_in, f.second_in) in
    let (fits, above, below) =
      in_range local
        (omega (
          arith,
          one_part days,
          one_part (days *ℤ 86400),
          one_part local,
          *ℤ_parts days 86400,
          +ℤ_parts (days *ℤ 86400) (pos time),
        ))
        (omega (
          arith,
          one_part days,
          one_part (days *ℤ 86400),
          one_part local,
          *ℤ_parts days 86400,
          +ℤ_parts (days *ℤ 86400) (pos time),
        )) in
    (
      local -ℤ seconds o,
      rw (v, zoned) refl,
      rw (again, fits, above, below) (ap some (wall_clock_lem dt o f zoned)),
    )

in_range_inv :
    (local : ℤ)
    → (leb_ℤ min_unix_seconds local && leb_ℤ local max_unix_seconds) ≡ true
    → (neg_part local ≤ 62167219200) × (pos_part local ≤ 253402300799)
in_range_inv (pos n) e = (omega arith, ground arith)
in_range_inv (negsuc n) e = (ground arith, omega arith)

-- The fields that `wall_clock` fills in.
abbrev clock : (year month day time : ℕ) → UtcOffset → DateTime
clock year month day time o = record {
  year = year;
  month = month;
  day = day;
  hour = time / 3600;
  minute = time / 60 % 60;
  second = time % 60;
  offset = some o;
}

clock-is_valid :
    (year month day time : ℕ) (o : UtcOffset)
    → year ≤ 9999
    → InCalendar year month day
    → time < 86400
    → is_valid (clock year month day time o) ≡ true
unfolding is_valid
clock-is_valid year month day time o y date t = ground (arith, date.day_from, date.day_to)

-- A valid datetime at `o` that reads as `local` seconds on the wall clock.
record Reads (local : ℤ) (o : UtcOffset) (dt : DateTime) : Type 0 where
  valid : is_valid dt ≡ true
  zoned : dt.offset ≡ some o
  again :
      days_from_civil dt.year dt.month dt.day *ℤ 86400
        +ℤ pos (dt.hour * 3600 + dt.minute * 60 + dt.second)
      ≡ local

wall_clock-Reads :
    (local : ℤ) (o : UtcOffset)
    → neg_part local ≤ 62167219200
    → pos_part local ≤ 253402300799
    → Reads local o (wall_clock local o)
wall_clock-Reads local o low high =
    let days = div_euclid local 86400 in
    let time = rem_euclid local 86400 in
    let (in_day, split) = division_86400 local in
    let c =
      civil_from_days-Dated days (omega (arith, one_part local, one_part days, split))
        (omega (arith, one_part local, one_part days, split)) in
    let made : wall_clock local o ≡ clock c.year c.month c.day time o =
      unfold wall_clock in rw c.is refl in
    let whole : time / 3600 * 3600 + time / 60 % 60 * 60 + time % 60 ≡ time = omega arith in
    subst (Reads local o) (sym made) (record {
      valid = clock-is_valid c.year c.month c.day time o c.year-le c.date in_day;
      zoned = refl;
      again =
          rw (c.back, whole)
            (eq_of_parts _ _
              (omega (arith, split, *ℤ_parts days 86400, +ℤ_parts (days *ℤ 86400) (pos time))));
    })

from_unix_seconds_inv :
    (secs : ℤ) (o : UtcOffset) (dt : DateTime)
    → from_unix_seconds secs o ≡ some dt
    → ((leb_ℤ min_unix_seconds (secs +ℤ seconds o) && leb_ℤ (secs +ℤ seconds o) max_unix_seconds)
        ≡ true)
      × (wall_clock (secs +ℤ seconds o) o ≡ dt)
unfolding from_unix_seconds checked_add
from_unix_seconds_inv secs o dt e =
    let local = secs +ℤ seconds o in
    elim (Bool-cases (fits_i64 local)) [
      | inl fits ↦
          elim (Bool-cases (leb_ℤ min_unix_seconds local && leb_ℤ local max_unix_seconds)) [
            | inl range ↦ let e' = rw (fits, range) at e in (range, cc)
            | inr outside ↦ let e' = rw (fits, outside) at e in absurd (cc)
          ]
      | inr overflow ↦ let e' = rw overflow at e in absurd (cc)
    ]

-- The datetime that `from_unix_seconds` makes of a number of seconds and an offset, when it makes
-- one, is valid, and its seconds since the Unix epoch are these.
pub to_unix_seconds-from_unix_seconds :
    (secs : ℤ) (o : UtcOffset) (dt : DateTime)
    → from_unix_seconds secs o ≡ some dt
    → (is_valid dt ≡ true) × (to_unix_seconds dt ≡ some secs)
unfolding to_unix_seconds to_unix_seconds_with_fallback
to_unix_seconds-from_unix_seconds secs o dt e =
    let local = secs +ℤ seconds o in
    let (range, is) = from_unix_seconds_inv secs o dt e in
    let (low, high) = in_range_inv local range in
    let r : Reads local o dt = subst (Reads local o) is (wall_clock-Reads local o low high) in
    let back : local -ℤ seconds o ≡ secs =
      eq_of_parts _ _ (omega (arith, +ℤ_parts secs (seconds o), -ℤ_parts local (seconds o))) in
    (r.valid, rw (r.valid, r.again, r.zoned) (ap some back))
