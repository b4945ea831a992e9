-- ===== src/Property/RoundTrip.antt =====
-- Parsing a property value or a range that was serialized.
use mtp_rs.Prelude.{
  ℕ, ◌+◌, ◌*◌, ◌^◌, ◌<◌, ◌≡◌, refl, ◌++◌, length, length-append, append_assoc, arith,
}
use mtp_rs.Prelude.Int.{ℤ, IsSigned, to_pattern, of_pattern, to_pattern-lt, of_pattern-to_pattern}
use mtp_rs.Codes.DataType.{PropertyDataType}
use mtp_rs.Error.{ok, ◌>>=◌}
use mtp_rs.Pack.Slice.{Bytes, At, At-zero}
use mtp_rs.Pack.Text.{
  string_bytes, FitsString, pack_string-string_bytes, unpack_string-string_bytes,
}
use mtp_rs.Pack.Cursor.{read_sized-At}
use mtp_rs.Pack.Word.{le_bytes, length-le_bytes, unpack_word, unpack_word-le_bytes}
use mtp_rs.Property.{
  PropertyValue, int8, int16, int32, int64, uint8, uint16, uint32, uint64, string, value_bytes,
  parse_value, data_type, read_value, PropertyRange, parse_range, range_bytes,
}

-- A value of its Rust type; a string that PTP can carry.
abbrev pub FitsValue : PropertyValue → Type 0
FitsValue (int8 v) = IsSigned (2 ^ 7) v
FitsValue (uint8 v) = v < 2 ^ 8
FitsValue (int16 v) = IsSigned (2 ^ 15) v
FitsValue (uint16 v) = v < 2 ^ 16
FitsValue (int32 v) = IsSigned (2 ^ 31) v
FitsValue (uint32 v) = v < 2 ^ 32
FitsValue (int64 v) = IsSigned (2 ^ 63) v
FitsValue (uint64 v) = v < 2 ^ 64
FitsValue (string s) = FitsString s

-- The bytes of a value.
abbrev pub value_wire : PropertyValue → Bytes
value_wire (int8 v) = le_bytes 1 (to_pattern (2 ^ 7) v)
value_wire (uint8 v) = le_bytes 1 v
value_wire (int16 v) = le_bytes 2 (to_pattern (2 ^ 15) v)
value_wire (uint16 v) = le_bytes 2 v
value_wire (int32 v) = le_bytes 4 (to_pattern (2 ^ 31) v)
value_wire (uint32 v) = le_bytes 4 v
value_wire (int64 v) = le_bytes 8 (to_pattern (2 ^ 63) v)
value_wire (uint64 v) = le_bytes 8 v
value_wire (string s) = string_bytes s

pub value_bytes-value_wire : (v : PropertyValue) → FitsValue v → value_bytes v ≡ ok (value_wire v)
unfolding value_bytes
value_bytes-value_wire (string s) h = pack_string-string_bytes s h.units_fit
value_bytes-value_wire (int8 v) h = refl
value_bytes-value_wire _ h = refl

-- A signed word is read back.
unpack_signed :
    (width half : ℕ) (v : ℤ) (rest : Bytes)
    → 2 * half ≡ 256 ^ width
    → IsSigned half v
    → (unpack_word width (le_bytes width (to_pattern half v) ++ rest) >>= λ w.
        ok (of_pattern half w))
      ≡ ok v
unpack_signed width half v rest e h = rw (
  unpack_word-le_bytes width (to_pattern half v) rest (rw e at (to_pattern-lt half v h)),
  of_pattern-to_pattern half v h,
)

-- Reading back a value, whatever follows it.
pub parse_value-value_wire :
    (v : PropertyValue) (rest : Bytes)
    → FitsValue v
    → parse_value (value_wire v ++ rest) (data_type v) ≡ ok (v, length (value_wire v))
unfolding parse_value
parse_value-value_wire (int8 v) rest h = rw (unpack_signed 1 (2 ^ 7) v rest refl h, length-le_bytes)
parse_value-value_wire (int16 v) rest h =
    rw (unpack_signed 2 (2 ^ 15) v rest refl h, length-le_bytes)
parse_value-value_wire (int32 v) rest h =
    rw (unpack_signed 4 (2 ^ 31) v rest refl h, length-le_bytes)
parse_value-value_wire (int64 v) rest h =
    rw (unpack_signed 8 (2 ^ 63) v rest refl h, length-le_bytes)
parse_value-value_wire (uint8 v) rest h = rw (unpack_word-le_bytes 1 v rest h, length-le_bytes)
parse_value-value_wire (uint16 v) rest h = rw (unpack_word-le_bytes 2 v rest h, length-le_bytes)
parse_value-value_wire (uint32 v) rest h = rw (unpack_word-le_bytes 4 v rest h, length-le_bytes)
parse_value-value_wire (uint64 v) rest h = rw (unpack_word-le_bytes 8 v rest h, length-le_bytes)
parse_value-value_wire (string s) rest h = rw (unpack_string-string_bytes s rest h)

-- Any value that fits its type is serialized, and parsing the bytes with the value's data type gives
-- the value back and takes exactly them, whatever follows.
pub parse_value-value_bytes :
    (v : PropertyValue) (rest : Bytes)
    → FitsValue v
    → (bytes : Bytes) × (value_bytes v ≡ ok bytes)
      × (parse_value (bytes ++ rest) (data_type v) ≡ ok (v, length bytes))
parse_value-value_bytes v rest h =
    (value_wire v, value_bytes-value_wire v h, parse_value-value_wire v rest h)

pub read_value-At :
    {buf : Bytes} {offset : ℕ} (t : PropertyDataType) (v : PropertyValue) (rest : Bytes)
    → data_type v ≡ t
    → FitsValue v
    → At buf offset (value_wire v ++ rest)
    → (read_value t buf offset ≡ ok (v, offset + length (value_wire v)))
      × At buf (offset + length (value_wire v)) rest
read_value-At t v rest e h at =
    read_sized-At (λ bytes. parse_value bytes t) v (value_wire v) rest
      (rw (← e) (parse_value-value_wire v rest h)) at

-- The bounds of a range: values that fit, all of one type.
pub record FitsRange (r : PropertyRange) (t : PropertyDataType) : Type 0 where
  pub min_fits : FitsValue r.min
  pub max_fits : FitsValue r.max
  pub step_fits : FitsValue r.step
  pub min_type : data_type r.min ≡ t
  pub max_type : data_type r.max ≡ t
  pub step_type : data_type r.step ≡ t

parse_range-At :
    (buf : Bytes) (r : PropertyRange) (t : PropertyDataType) (rest : Bytes)
    → FitsRange r t
    → At buf 0 (value_wire r.min ++ (value_wire r.max ++ (value_wire r.step ++ rest)))
    → parse_range buf t
      ≡ ok (
        r,
        0 + length (value_wire r.min) + length (value_wire r.max) + length (value_wire r.step),
      )
unfolding parse_range
parse_range-At buf r t rest fits at =
    let (e1, at1) =
      read_value-At t r.min (value_wire r.max ++ (value_wire r.step ++ rest)) fits.min_type
        fits.min_fits at in
    let (e2, at2) =
      read_value-At t r.max (value_wire r.step ++ rest) fits.max_type fits.max_fits at1 in
    let (e3, at3) = read_value-At t r.step rest fits.step_type fits.step_fits at2 in
    rw e1 (rw e2 (rw e3))

-- A range of three values that fit, all of one type, is serialized, and parsing the bytes with
-- that type gives the range back and takes exactly them, whatever follows.
pub parse_range-range_bytes :
    (r : PropertyRange) (t : PropertyDataType) (rest : Bytes)
    → FitsRange r t
    → (bytes : Bytes) × (range_bytes r ≡ ok bytes)
      × (parse_range (bytes ++ rest) t ≡ ok (r, length bytes))
unfolding range_bytes
parse_range-range_bytes r t rest fits = (
  value_wire r.min ++ (value_wire r.max ++ value_wire r.step),
  rw (
    value_bytes-value_wire r.min fits.min_fits,
    value_bytes-value_wire r.max fits.max_fits,
    value_bytes-value_wire r.step fits.step_fits,
  ),
  rw (append_assoc, append_assoc, length-append, length-append)
      (rw (parse_range-At _ r t rest fits (At-zero _)) (ground arith)),
)
