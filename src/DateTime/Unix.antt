-- ===== src/DateTime/Unix.antt =====
-- The instants of crates/mtp-rs/src/ptp/pack/datetime.rs: seconds since the Unix epoch.
pub mod Euclid
pub mod Civil
pub mod Days
pub mod RoundTrip
use mtp_rs.Prelude.{
  ℕ, ◌+◌, ◌-◌, ◌*◌, ◌/◌, ◌%◌, ◌^◌, Bool, true, not, ◌&&◌, Option, none, some, ltb, leb,
  if◌then◌else◌,
}
use mtp_rs.Prelude.Int.{ℤ, pos, negsuc, pos_part, ◌+ℤ◌, ◌-ℤ◌, ◌*ℤ◌, leb_ℤ, div_euclid, rem_euclid}
use mtp_rs.DateTime.{UtcOffset, DateTime, is_valid, ◌>>=◌}

abbrev pub min_unix_seconds : ℤ
min_unix_seconds = negsuc 62167219199

abbrev pub max_unix_seconds : ℤ
max_unix_seconds = pos 253402300799

abbrev pub seconds_per_day : ℕ
seconds_per_day = 86400

-- The year that begins in March.
abbrev pub shifted_year : (year month : ℕ) → ℤ
shifted_year year month = if leb month 2 then pos year -ℤ pos 1 else pos year

-- The day of a year that begins in March.
abbrev pub day_of_year : (mp day : ℕ) → ℕ
day_of_year mp day = (153 * mp + 2) / 5 + day - 1

abbrev pub day_of_era : (yoe doy : ℕ) → ℕ
day_of_era yoe doy = yoe * 365 + yoe / 4 - yoe / 100 + doy

-- `days_from_civil`; `y - era * 400` is the Euclidean remainder.
unfoldable pub days_from_civil : (year month day : ℕ) → ℤ
days_from_civil year month day =
    let y = shifted_year year month in
    let era = div_euclid y 400 in
    let yoe = rem_euclid y 400 in
    let mp = (month + 9) % 12 in
    let doe = day_of_era yoe (day_of_year mp day) in era *ℤ 146097 +ℤ pos doe -ℤ pos 719468

abbrev pub year_of_era : (doe : ℕ) → ℕ
year_of_era doe = (doe - doe / 1460 + doe / 36524 - doe / 146096) / 365

abbrev pub month_of : (mp : ℕ) → ℕ
month_of mp = if ltb mp 10 then mp + 3 else mp - 9

-- `civil_from_days`; `z - era * 146_097` is the Euclidean remainder.
unfoldable pub civil_from_days : ℤ → ℤ × ℕ × ℕ
civil_from_days days =
    let z = days +ℤ pos 719468 in
    let era = div_euclid z 146097 in
    let doe = rem_euclid z 146097 in
    let yoe = year_of_era doe in
    let doy = doe - (365 * yoe + yoe / 4 - yoe / 100) in
    let mp = (5 * doy + 2) / 153 in
    let day = doy - (153 * mp + 2) / 5 + 1 in
    let month = month_of mp in
    (pos yoe +ℤ era *ℤ 400 +ℤ pos (if leb month 2 then 1 else 0), month, day)

-- `UtcOffset::seconds`
abbrev pub seconds : UtcOffset → ℤ
seconds offset = offset.minutes *ℤ 60

-- `i64::checked_add`
abbrev pub fits_i64 : ℤ → Bool
fits_i64 (pos n) = ltb n (2 ^ 63)
fits_i64 (negsuc n) = ltb n (2 ^ 63)

unfoldable pub checked_add : ℤ → ℤ → Option ℤ
checked_add a b = if fits_i64 (a +ℤ b) then some (a +ℤ b) else none

-- The wall-clock time at `local` seconds; the year of an instant in range is not negative.
unfoldable pub wall_clock : ℤ → UtcOffset → DateTime
wall_clock local offset =
    let (year, month, day) = civil_from_days (div_euclid local seconds_per_day) in
    let time = rem_euclid local seconds_per_day in
    record {
      year = pos_part year;
      month = month;
      day = day;
      hour = time / 3600;
      minute = time / 60 % 60;
      second = time % 60;
      offset = some offset;
    }

-- `DateTime::from_unix_seconds`
unfoldable pub from_unix_seconds : ℤ → UtcOffset → Option DateTime
from_unix_seconds secs offset = do
  local ← checked_add secs (seconds offset)
  if not (leb_ℤ min_unix_seconds local && leb_ℤ local max_unix_seconds)
      then none
      else some (wall_clock local offset)

abbrev pub unwrap_or {ℓ} : {A : Type ℓ} → Option A → A → A
unwrap_or none a = a
unwrap_or (some b) a = b

-- `DateTime::to_unix_seconds_with_fallback`
unfoldable pub to_unix_seconds_with_fallback : DateTime → UtcOffset → Option ℤ
to_unix_seconds_with_fallback dt fallback =
    let days = days_from_civil dt.year dt.month dt.day in
    let time = dt.hour * 3600 + dt.minute * 60 + dt.second in
    if not (is_valid dt)
    then none
    else some (days *ℤ seconds_per_day +ℤ pos time -ℤ seconds (unwrap_or dt.offset fallback))

-- `DateTime::to_unix_seconds`
unfoldable pub to_unix_seconds : DateTime → Option ℤ
to_unix_seconds dt = dt.offset >>= λ o. to_unix_seconds_with_fallback dt o
