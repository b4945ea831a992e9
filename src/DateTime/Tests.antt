-- ===== src/DateTime/Tests.antt =====
-- Concrete runs of the datetime code, and its theorems at concrete inputs.
use mtp_rs.DateTime.Unix.{
  from_unix_seconds, to_unix_seconds, checked_add, wall_clock, civil_from_days,
}
use mtp_rs.DateTime.Unix.RoundTrip.{
  from_unix_seconds-to_unix_seconds, to_unix_seconds-from_unix_seconds,
}
use mtp_rs.Prelude.Int.{ℤ, negsuc, div_euclid, rem_euclid, ◌+ℤ◌, ◌*ℤ◌}
use mtp_rs.Prelude.{◌≡◌, refl, true, some, arith}
use mtp_rs.Prelude.Int.{negsuc}
use mtp_rs.Pack.Utf16.{Str}
use mtp_rs.DateTime.{utc, DateTime, is_valid, days_in_month, is_leap_year, format, parse}
use mtp_rs.DateTime.Valid.{FieldsInRange, OffsetInRange, parse_sound}
use mtp_rs.DateTime.RoundTrip.{parse-format}

-- 29 February 2024, 23:59:59, at -0530.
abbrev leap_day : DateTime
leap_day = record {
  year = 2024;
  month = 2;
  day = 29;
  hour = 23;
  minute = 59;
  second = 59;
  offset = some (record { minutes = negsuc 329 });
}

leap_day-is_valid : is_valid leap_day ≡ true
unfolding is_valid days_in_month is_leap_year
leap_day-is_valid = refl

parse-format_example : (s : Str) × (format leap_day ≡ some s) × (parse s ≡ some leap_day)
parse-format_example = parse-format leap_day leap_day-is_valid (omega arith)

abbrev text : Str
text = (parse-format leap_day leap_day-is_valid (omega arith)).0

leap_day-parse : parse text ≡ some leap_day
leap_day-parse = (parse-format leap_day leap_day-is_valid (omega arith)).2

parse_sound_example : FieldsInRange leap_day × OffsetInRange leap_day.offset
parse_sound_example = parse_sound text leap_day leap_day-parse

abbrev leap_noon : DateTime
leap_noon = record {
  year = 2024;
  month = 2;
  day = 29;
  hour = 12;
  minute = 30;
  second = 15;
  offset = some (record { minutes = negsuc 299 });
}

leap_noon-is_valid : is_valid leap_noon ≡ true
unfolding is_valid days_in_month is_leap_year
leap_noon-is_valid = refl

from_unix_seconds-to_unix_seconds_example :
    (secs : ℤ) × (to_unix_seconds leap_noon ≡ some secs)
    × (from_unix_seconds secs (record { minutes = negsuc 299 }) ≡ some leap_noon)
from_unix_seconds-to_unix_seconds_example =
    from_unix_seconds-to_unix_seconds leap_noon (record { minutes = negsuc 299 }) leap_noon-is_valid
      refl

-- The first instant of the year 0, 62167219200 seconds before 1970.
abbrev year_zero : DateTime
year_zero = record {
  year = 0;
  month = 1;
  day = 1;
  hour = 0;
  minute = 0;
  second = 0;
  offset = some utc;
}

from_unix_seconds-year_zero : from_unix_seconds (negsuc 62167219199) utc ≡ some year_zero
unfolding from_unix_seconds checked_add wall_clock civil_from_days div_euclid rem_euclid ◌+ℤ◌ ◌*ℤ◌
from_unix_seconds-year_zero = refl

to_unix_seconds-from_unix_seconds_example :
    (is_valid year_zero ≡ true) × (to_unix_seconds year_zero ≡ some (negsuc 62167219199))
to_unix_seconds-from_unix_seconds_example =
    to_unix_seconds-from_unix_seconds (negsuc 62167219199) utc year_zero from_unix_seconds-year_zero
