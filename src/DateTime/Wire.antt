-- ===== src/DateTime/Wire.antt =====
-- `pack_datetime` and `unpack_datetime` of crates/mtp-rs/src/ptp/pack/datetime.rs.
use mtp_rs.Prelude.{
  ℕ, ◌≤◌, ◌<◌, ◌≡◌, refl, true, [], ◌∷◌, ◌++◌, Option, none, some, length, All, arith,
}
use mtp_rs.Error.{Result, ok, err, invalid_data, invalid_datetime, ◌>>=◌}
use mtp_rs.Error.Ensures.{returns, Ensures-bind}
use mtp_rs.Pack.Slice.{Bytes}
use mtp_rs.Pack.Utf16.{Str, IsChar, encode_utf16}
use mtp_rs.Pack.Text.{
  pack_string, unpack_string, string_bytes, FitsString, pack_string-string_bytes,
  unpack_string-string_bytes, unpack_string-Ensures,
}
use mtp_rs.Pack.Cursor.{StaysWithin}
use mtp_rs.DateTime.{DateTime, is_valid, format, parse}
use mtp_rs.DateTime.Valid.{OffsetInRange}
use mtp_rs.DateTime.RoundTrip.{
  IsPrinted, format_text, format-format_text, format_text-IsPrinted, parse-format_text,
}

pack_formatted : Option Str → Result Bytes
pack_formatted none = err (invalid_data invalid_datetime)
pack_formatted (some s) = pack_string s

unfoldable pub pack_datetime : DateTime → Result Bytes
unfolding pack_formatted
pack_datetime dt = pack_formatted (format dt)

-- A string that is no datetime is an absent one.
unfoldable pub unpack_datetime : Bytes → Result (Option DateTime × ℕ)
unpack_datetime buf = do (s, consumed) ← unpack_string buf; ok (parse s, consumed)

pub unpack_datetime-Ensures : StaysWithin unpack_datetime
unfolding unpack_datetime
unpack_datetime-Ensures buf =
    Ensures-bind (unpack_string-Ensures buf) λ r k. let (s, consumed) = r in returns k

encode_utf16_printed : (s : Str) → All IsPrinted s → encode_utf16 s ≡ s
unfolding encode_utf16
encode_utf16_printed [] h = refl
encode_utf16_printed (c ∷ s) h = ground (arith, encode_utf16_printed s)

printed_chars : (s : Str) → All IsPrinted s → All IsChar s × All (λ c. 0 < c) s
printed_chars [] h = (tt, tt)
printed_chars (c ∷ s) h = ground (arith, printed_chars s)

-- A short printed string fits a PTP string.
printed-FitsString : (s : Str) → All IsPrinted s → length s ≤ 254 → FitsString s
printed-FitsString s h k =
    let (chars, no_nul) = printed_chars s h in
    record { chars = chars; no_nul = no_nul; units_fit = rw (encode_utf16_printed s h) k }

module _ (dt : DateTime) (h : is_valid dt ≡ true) (o : OffsetInRange dt.offset) where
  format_text-FitsString : FitsString (format_text dt)
  format_text-FitsString =
      let (printed, short) = format_text-IsPrinted dt h o in
      printed-FitsString (format_text dt) printed (omega arith)

  pub pack_datetime-format_text : pack_datetime dt ≡ ok (string_bytes (format_text dt))
  unfolding pack_datetime
  pack_datetime-format_text =
      rw (format-format_text dt h)
        (pack_string-string_bytes (format_text dt) format_text-FitsString.units_fit)

  -- Reading back a datetime, whatever follows it.
  pub unpack_datetime-format_text :
      (rest : Bytes)
      → unpack_datetime (string_bytes (format_text dt) ++ rest)
        ≡ ok (some dt, length (string_bytes (format_text dt)))
  unfolding unpack_datetime
  unpack_datetime-format_text rest =
      rw (unpack_string-string_bytes (format_text dt) rest format_text-FitsString)
        (rw (parse-format_text dt h o))
