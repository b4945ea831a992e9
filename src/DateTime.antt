-- ===== src/DateTime.antt =====
-- crates/mtp-rs/src/ptp/pack/datetime.rs: `UtcOffset`, `DateTime`, its parser and its printer.
pub mod Digits
pub mod Valid
pub mod RoundTrip
pub mod Wire
pub mod Unix
mod Tests
use mtp_rs.Prelude.{
  ℕ, zero, suc, ◌+◌, ◌-◌, ◌*◌, ◌/◌, ◌%◌, Bool, true, false, not, ◌&&◌, ◌||◌, List, [], ◌∷◌, ◌++◌,
  Option, none, some, length, take, drop, ltb, leb, ◌==◌, if◌then◌else◌,
}
use mtp_rs.Prelude.Int.{ℤ, pos, negsuc}
use mtp_rs.Pack.Slice.{Bytes}
use mtp_rs.Pack.Utf16.{Str}
use mtp_rs.Pack.Utf8.{as_bytes}

-- `?` on an `Option`.
infixl 5 ◌>>=◌
abbrev pub ◌>>=◌ {ℓ κ} : {A : Type ℓ} {B : Type κ} → Option A → (A → Option B) → Option B
none >>= f = none
some a >>= f = f a

pub record UtcOffset : Type 0 where
  pub minutes : ℤ

abbrev pub utc : UtcOffset
utc = record { minutes = pos 0 }

-- `UtcOffset::from_minutes`
unfoldable pub from_minutes : ℤ → Option UtcOffset
from_minutes (pos n) = if ltb n 1440 then some (record { minutes = pos n }) else none
from_minutes (negsuc n) = if ltb (n + 1) 1440 then some (record { minutes = negsuc n }) else none

pub record DateTime : Type 0 where
  pub year : ℕ
  pub month : ℕ
  pub day : ℕ
  pub hour : ℕ
  pub minute : ℕ
  pub second : ℕ
  pub offset : Option UtcOffset

unfoldable pub is_leap_year : ℕ → Bool
is_leap_year year = (year % 4 == 0 && not (year % 100 == 0)) || year % 400 == 0

unfoldable pub days_in_month : (year month : ℕ) → ℕ
unfolding is_leap_year
days_in_month year month =
    if month == 1
      || month == 3
      || month == 5
      || month == 7
      || month == 8
      || month == 10
      || month == 12
    then 31
    else if month == 4 || month == 6 || month == 9 || month == 11
    then 30
    else if month == 2 && is_leap_year year
    then 29
    else if month == 2
    then 28
    else 0

-- `DateTime::with_offset`
unfoldable pub with_offset : DateTime → UtcOffset → DateTime
with_offset dt offset = record dt { offset = some offset }

-- `DateTime::is_valid`
unfoldable pub is_valid : DateTime → Bool
is_valid dt =
    leb dt.year 9999
    && (leb 1 dt.day && leb dt.day (days_in_month dt.year dt.month))
    && leb dt.hour 23
    && leb dt.minute 59
    && leb dt.second 59

-- `u8::is_ascii_digit`
abbrev pub is_digit : ℕ → Bool
is_digit b = leb b'0' b && leb b b'9'

abbrev pub all_digits : Bytes → Bool
all_digits [] = true
all_digits (b ∷ bs) = is_digit b && all_digits bs

abbrev pub fold_digits : ℕ → Bytes → ℕ
fold_digits acc [] = acc
fold_digits acc (b ∷ bs) = fold_digits (acc * 10 + (b - b'0')) bs

-- `parse_digits::<N>`: the callers' `N` is 2 or 4, so the `u16` does not overflow.
unfoldable pub parse_digits : ℕ → Bytes → Option ℕ
parse_digits n bytes =
    if not (length bytes == n) || not (all_digits bytes) then none else some (fold_digits 0 bytes)

abbrev pub drop_digits : Bytes → Bytes
drop_digits [] = []
drop_digits (b ∷ bs) = let rest = drop_digits bs in if is_digit b then rest else b ∷ bs

-- The tenths of a second: dropped, but there has to be a digit behind the point.
unfoldable pub skip_tenths : Bytes → Option Bytes
skip_tenths [] = some []
skip_tenths (b ∷ []) = if b == b'.' then none else some (b ∷ [])
skip_tenths (b ∷ d ∷ rest) =
    if b == b'.'
    then (if is_digit d then some (drop_digits rest) else none)
    else some (b ∷ d ∷ rest)

-- `-total`
abbrev pub negated : ℕ → ℤ
negated zero = pos 0
negated (suc n) = negsuc n

-- `[sign @ (b'+' | b'-'), hhmm @ ..]`
unfoldable pub parse_offset : (sign : ℕ) → Bytes → Option UtcOffset
unfolding parse_digits from_minutes
parse_offset sign hhmm = if ltb (length hhmm) 2 then none else do
  hours ← parse_digits 2 (take 2 hhmm)
  minutes ← parse_digits 2 (drop 2 hhmm)
  if ltb 23 hours || ltb 59 minutes then none else do
    let total = hours * 60 + minutes
    from_minutes (if sign == b'-' then negated total else pos total)

-- The `match tail` behind the tenths.
unfoldable pub parse_zone : Bytes → Option (Option UtcOffset)
parse_zone [] = some none
parse_zone (sign ∷ hhmm) =
    if length hhmm == 0 && sign == b'Z'
    then some (some utc)
    else if sign == b'+' || sign == b'-'
    then (do o ← parse_offset sign hhmm; some (some o))
    else none

unfoldable pub parse_suffix : Bytes → Option (Option UtcOffset)
unfolding skip_tenths parse_zone
parse_suffix tail = do rest ← skip_tenths tail; parse_zone rest

-- `DateTime::new`
unfoldable pub new : (year month day hour minute second : ℕ) → Option DateTime
new year month day hour minute second =
    let dt : DateTime = record {
      year = year;
      month = month;
      day = day;
      hour = hour;
      minute = minute;
      second = second;
      offset = none;
    } in
    if is_valid dt then some dt else none

-- `u8::try_from(v).ok()`
abbrev pub narrow : ℕ → Option ℕ
narrow v = if ltb v 256 then some v else none

-- `&b[from..to]`, within the 15 bytes that `parse` has checked.
abbrev pub part : Bytes → ℕ → ℕ → Bytes
part b from to = take (to - from) (drop from b)

-- `b[8] != b'T'`
abbrev pub has_separator : Bytes → Bool
has_separator [] = false
has_separator (b ∷ bs) = b == b'T'

-- `DateTime::parse` on the bytes of its argument.
unfoldable pub parse_bytes : Bytes → Option DateTime
parse_bytes b = if ltb (length b) 15 || not (has_separator (drop 8 b)) then none else do
  year ← parse_digits 4 (part b 0 4)
  month ← parse_digits 2 (part b 4 6) >>= narrow
  day ← parse_digits 2 (part b 6 8) >>= narrow
  hour ← parse_digits 2 (part b 9 11) >>= narrow
  minute ← parse_digits 2 (part b 11 13) >>= narrow
  second ← parse_digits 2 (part b 13 15) >>= narrow
  dt ← new year month day hour minute second
  offset ← parse_suffix (drop 15 b)
  some (record dt { offset = offset })

-- `DateTime::parse`
unfoldable pub parse : Str → Option DateTime
parse s = parse_bytes (as_bytes s)

-- The decimal digits of a number below 10 ^ fuel; a `u16` has at most five.
unfoldable pub decimal : ℕ → ℕ → Str
decimal zero n = []
decimal (suc fuel) n =
    let more = decimal fuel (n / 10) in
    if ltb n 10 then (b'0' + n) ∷ [] else more ++ ((b'0' + n % 10) ∷ [])

abbrev pub zeros : ℕ → Str
zeros zero = []
zeros (suc n) = b'0' ∷ zeros n

-- `{:0width}` of a `u16`.
unfoldable pub padded : ℕ → ℕ → Str
unfolding decimal
padded width n = let digits = decimal 5 n in zeros (width - length digits) ++ digits

-- `unsigned_abs` of the minutes, and the sign.
abbrev pub magnitude : ℤ → ℕ
magnitude (pos n) = n
magnitude (negsuc n) = n + 1

abbrev pub sign_char : ℤ → ℕ
sign_char (pos n) = b'+'
sign_char (negsuc n) = b'-'

-- The printed offset: `Z` for UTC itself.
unfoldable pub format_offset : Option UtcOffset → Str
unfolding padded
format_offset none = []
format_offset (some o) =
    let abs = magnitude o.minutes in
    if abs == 0
    then b'Z' ∷ []
    else sign_char o.minutes ∷ (padded 2 (abs / 60) ++ padded 2 (abs % 60))

-- The printed fields, each padded to its width.
unfoldable pub format_fields : DateTime → Str
unfolding padded
format_fields dt =
    padded 4 dt.year
    ++ (padded 2 dt.month
        ++ (padded 2 dt.day
            ++ (b'T' ∷ (padded 2 dt.hour ++ (padded 2 dt.minute ++ padded 2 dt.second)))))

-- `DateTime::format`
unfoldable pub format : DateTime → Option Str
format dt = if not (is_valid dt) then none else some (format_fields dt ++ format_offset dt.offset)
