-- ===== src/DateTime/RoundTrip.antt =====
-- Parsing a printed datetime.
use mtp_rs.Prelude.{
  ℕ, zero, suc, ◌+◌, ◌*◌, ◌/◌, ◌%◌, ◌≤◌, ◌<◌, ◌≡◌, refl, true, [], ◌∷◌, ◌++◌, Option, none, some,
  arith, All, All-append, length, length-append,
}
use mtp_rs.Prelude.Int.{ℤ, pos, negsuc}
use mtp_rs.Pack.Slice.{Bytes}
use mtp_rs.Pack.Utf16.{Str}
use mtp_rs.Pack.Utf8.{as_bytes}
use mtp_rs.DateTime.{
  UtcOffset, DateTime, is_valid, parse_offset, parse_suffix, from_minutes, new, parse_bytes, parse,
  magnitude, format_offset, format_fields, format,
}
use mtp_rs.DateTime.Valid.{
  OffsetInRange, FieldsInRange, days_in_month_bounds, FieldsInRange-is_valid,
  is_valid-FieldsInRange,
}
use mtp_rs.DateTime.Digits.{
  two_digits, four_digits, padded-two_digits, padded-four_digits, parse_digits-two_digits,
  parse_digits-four_digits,
}

parse_offset_east :
    (n : ℕ)
    → n < 1440
    → parse_offset b'+' (two_digits (n / 60) ++ two_digits (n % 60))
      ≡ some (record { minutes = pos n })
unfolding parse_offset from_minutes
parse_offset_east n h =
    rw (parse_digits-two_digits (n / 60) (omega arith))
      (rw (parse_digits-two_digits (n % 60) (omega arith)) (ground arith))

parse_offset_west :
    (n : ℕ)
    → n + 1 < 1440
    → parse_offset b'-' (two_digits ((n + 1) / 60) ++ two_digits ((n + 1) % 60))
      ≡ some (record { minutes = negsuc n })
unfolding parse_offset from_minutes
parse_offset_west n h =
    let total : (n + 1) / 60 * 60 + (n + 1) % 60 ≡ suc n = omega arith in
    rw (parse_digits-two_digits ((n + 1) / 60) (omega arith))
      (rw (parse_digits-two_digits ((n + 1) % 60) (omega arith)) (rw total (ground arith)))

parse_suffix-format_offset :
    (offset : Option UtcOffset)
    → OffsetInRange offset
    → parse_suffix (format_offset offset) ≡ some offset
unfolding parse_suffix format_offset
parse_suffix-format_offset none h = refl
parse_suffix-format_offset (some o) h = at_minutes o.minutes h
  where
    at_minutes :
        (m : ℤ)
        → magnitude m < 1440
        → parse_suffix (format_offset (some (record { minutes = m })))
          ≡ some (some (record { minutes = m }))
    at_minutes (pos zero) h = refl
    at_minutes (pos (suc n)) h = rw (padded-two_digits (suc n / 60) (omega arith)) (
        rw (padded-two_digits (suc n % 60) (omega arith))
          (ground (arith, parse_offset_east (suc n) h)))
    at_minutes (negsuc n) h = rw (padded-two_digits ((n + 1) / 60) (omega arith)) (
        rw (padded-two_digits ((n + 1) % 60) (omega arith)) (ground (arith, parse_offset_west n h)))

abbrev fields_bytes : DateTime → Bytes
fields_bytes dt =
    four_digits dt.year
    ++ (two_digits dt.month
        ++ (two_digits dt.day
            ++ (b'T' ∷ (two_digits dt.hour ++ (two_digits dt.minute ++ two_digits dt.second)))))

format_fields-fields_bytes : (dt : DateTime) → FieldsInRange dt → format_fields dt ≡ fields_bytes dt
unfolding format_fields
format_fields-fields_bytes dt v =
    let (_, _, _, most) = days_in_month_bounds dt.year dt.month (omega arith) in
    cc (
      padded-four_digits dt.year (omega arith),
      padded-two_digits dt.month (omega arith),
      padded-two_digits dt.day (omega arith),
      padded-two_digits dt.hour (omega arith),
      padded-two_digits dt.minute (omega arith),
      padded-two_digits dt.second (omega arith),
    )

new-valid :
    (dt : DateTime)
    → FieldsInRange dt
    → new dt.year dt.month dt.day dt.hour dt.minute dt.second ≡ some (record dt { offset = none })
unfolding new
new-valid dt v =
    let zoneless : FieldsInRange (record dt { offset = none }) = assumption in
    rw (FieldsInRange-is_valid (record dt { offset = none }) zoneless)

parse_bytes-fields_bytes :
    (dt : DateTime) (tail : Bytes)
    → FieldsInRange dt
    → parse_suffix tail ≡ some dt.offset
    → parse_bytes (fields_bytes dt ++ tail) ≡ some dt
unfolding parse_bytes
parse_bytes-fields_bytes dt tail v e =
    let (_, _, _, most) = days_in_month_bounds dt.year dt.month (omega arith) in
    ground (
      arith,
      parse_digits-four_digits dt.year (omega arith),
      parse_digits-two_digits dt.month (omega arith),
      parse_digits-two_digits dt.day (omega arith),
      parse_digits-two_digits dt.hour (omega arith),
      parse_digits-two_digits dt.minute (omega arith),
      parse_digits-two_digits dt.second (omega arith),
      new-valid dt v,
    )

-- An ASCII character that is printed.
abbrev pub IsPrinted : ℕ → Type 0
IsPrinted c = (0x20 < c) × (c < 0x80)

fields_bytes-IsPrinted : (dt : DateTime) → FieldsInRange dt → All IsPrinted (fields_bytes dt)
fields_bytes-IsPrinted dt v =
    let (_, _, _, most) = days_in_month_bounds dt.year dt.month (omega arith) in omega arith

as_bytes_printed : (s : Str) → All IsPrinted s → as_bytes s ≡ s
unfolding as_bytes
as_bytes_printed [] h = refl
as_bytes_printed (c ∷ s) h = ground (arith, as_bytes_printed s)

-- What is printed for a valid datetime.
unfoldable pub format_text : DateTime → Str
format_text dt = fields_bytes dt ++ format_offset dt.offset

pub format-format_text : (dt : DateTime) → is_valid dt ≡ true → format dt ≡ some (format_text dt)
unfolding format format_text
format-format_text dt h = rw (h, format_fields-fields_bytes dt (is_valid-FieldsInRange dt h))

format_offset_ascii :
    (offset : Option UtcOffset)
    → OffsetInRange offset
    → All IsPrinted (format_offset offset) × (length (format_offset offset) ≤ 5)
unfolding format_offset
format_offset_ascii none h = (tt, omega arith)
format_offset_ascii (some o) h = at_minutes o.minutes h
  where
    at_minutes :
        (m : ℤ)
        → magnitude m < 1440
        → All IsPrinted (format_offset (some (record { minutes = m })))
          × (length (format_offset (some (record { minutes = m }))) ≤ 5)
    at_minutes (pos zero) h = omega arith
    at_minutes (pos (suc n)) h =
        rw (padded-two_digits (suc n / 60) (omega arith))
          (rw (padded-two_digits (suc n % 60) (omega arith)) (ground arith))
    at_minutes (negsuc n) h =
        rw (padded-two_digits ((n + 1) / 60) (omega arith))
          (rw (padded-two_digits ((n + 1) % 60) (omega arith)) (ground arith))

-- It is short, and made of printed ASCII characters.
pub format_text-IsPrinted :
    (dt : DateTime)
    → is_valid dt ≡ true
    → OffsetInRange dt.offset
    → All IsPrinted (format_text dt) × (length (format_text dt) ≤ 20)
unfolding format_text
format_text-IsPrinted dt h o =
    let v = is_valid-FieldsInRange dt h in
    let (printed, short) = format_offset_ascii dt.offset o in
    (
      All-append _ (fields_bytes dt) (format_offset dt.offset) (fields_bytes-IsPrinted dt v)
          printed,
      omega (arith, length-append (fields_bytes dt) (format_offset dt.offset)),
    )

-- Parsing what was printed gives the datetime back, its offset included.
pub parse-format_text :
    (dt : DateTime)
    → is_valid dt ≡ true
    → OffsetInRange dt.offset
    → parse (format_text dt) ≡ some dt
unfolding parse
parse-format_text dt h o = rw (as_bytes_printed (format_text dt) (format_text-IsPrinted dt h o).0) (
    unfold format_text in
    parse_bytes-fields_bytes dt (format_offset dt.offset) (is_valid-FieldsInRange dt h)
      (parse_suffix-format_offset dt.offset o))

-- A valid datetime whose offset is within 23:59 is printed, and parsing what was printed gives it
-- back, its offset included.
pub parse-format :
    (dt : DateTime)
    → is_valid dt ≡ true
    → OffsetInRange dt.offset
    → (s : Str) × (format dt ≡ some s) × (parse s ≡ some dt)
parse-format dt h o = (format_text dt, format-format_text dt h, parse-format_text dt h o)
