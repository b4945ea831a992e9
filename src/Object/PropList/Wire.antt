-- ===== src/Object/PropList/Wire.antt =====
-- The values of a property list on the wire, and reading one of them.
use mtp_rs.Prelude.{
  ℕ, zero, suc, ◌+◌, ◌*◌, ◌%◌, ◌^◌, ◌≤◌, ◌<◌, ◌≡◌, refl, ◌∙◌, ap, Bool, true, false, Option, none,
  some, [], ◌∷◌, ◌++◌, append_assoc, length, length-append, drop, leb, ◌&&◌, lt→ltb, arith,
}
use native.Mathlib.Nat.{mul-le-mul_left}
use mtp_rs.Codes.DataType
use mtp_rs.Codes.DataType.{PropertyDataType, byte_size}
use mtp_rs.Error.{ok}
use mtp_rs.Pack.Slice.{Bytes, slice_from, At}
use mtp_rs.Pack.Word.{length-le_bytes, unpack_word-le_bytes, pack_u32}
use mtp_rs.Property.{
  PropertyValue, data_type, int8, int16, int32, int64, uint8, uint16, uint32, uint64, string,
}
use mtp_rs.Property.RoundTrip.{FitsValue, value_wire, parse_value-value_wire}
use mtp_rs.Object.PropList.{read_listed, read_single, skip_array, or_invalid, array_bytes, checked}

-- What a device can send as a value: a value, nothing, 16 bytes, or an array of a base type.
pub data WireValue : Type 0 where
  plain : PropertyValue → WireValue
  absent : WireValue
  wide : (signed : Bool) → Bytes → WireValue
  array : (base count : ℕ) → Bytes → WireValue

abbrev pub type_code : WireValue → ℕ
type_code (plain v) = DataType.to_code (data_type v)
type_code absent = 0
type_code (wide true bytes) = 0x0009
type_code (wide false bytes) = 0x000A
type_code (array base count bytes) = 0x4000 + base

abbrev pub wire : WireValue → Bytes
wire (plain v) = value_wire v
wire absent = []
wire (wide signed bytes) = bytes
wire (array base count bytes) = pack_u32 count ++ bytes

-- Only a plain value is decoded.
abbrev pub decoded : WireValue → Option PropertyValue
decoded (plain v) = some v
decoded _ = none

abbrev pub FitsWire : WireValue → Type 0
FitsWire (plain v) = FitsValue v
FitsWire absent = Unit
FitsWire (wide signed bytes) = length bytes ≡ 16
FitsWire (array base count bytes) =
    (size : ℕ) × (1 ≤ base)
    × (base ≤ 10)
    × (byte_size (DataType.from_code base) ≡ some size)
    × (count < 2 ^ 32)
    × (size ≤ 16)
    × (length bytes ≡ count * size)

pub At-drop : {buf rest : Bytes} (offset : ℕ) → At buf offset rest → drop offset buf ≡ rest
unfolding slice_from
At-drop offset at = suffix _ offset at.suffix
  where
    suffix :
        {rest : Bytes} (buf : Bytes) (offset : ℕ)
        → slice_from buf offset ≡ ok rest
        → drop offset buf ≡ rest
    suffix buf zero e = cc
    suffix [] (suc offset) e = cc
    suffix (b ∷ bs) (suc offset) e = suffix bs offset e

checked-lt : (n : ℕ) → n < 2 ^ 64 → checked n ≡ some n
checked-lt n h = rw (lt→ltb n (2 ^ 64) h)

array_bytes-fits :
    (count size : ℕ) → count < 2 ^ 32 → size ≤ 16 → array_bytes count size ≡ some (count * size + 4)
array_bytes-fits count size h k =
    let bound : count * size ≤ count * 16 = mul-le-mul_left count k in
    let first = checked-lt (count * size) (omega (arith, bound)) in
    let second = checked-lt (count * size + 4) (omega (arith, bound)) in cc (first, second)

skip_array-At :
    (base count size : ℕ) (bytes rest : Bytes)
    → base ≤ 10
    → byte_size (DataType.from_code base) ≡ some size
    → count < 2 ^ 32
    → size ≤ 16
    → length bytes ≡ count * size
    → skip_array (0x4000 + base) ((pack_u32 count ++ bytes) ++ rest)
      ≡ ok (none, length (pack_u32 count ++ bytes))
unfolding skip_array or_invalid
skip_array-At base count size bytes rest small sized h k e =
    let low : (0x4000 + base) % 256 ≡ base = omega arith in
    rw
      (
        low,
        sized,
        append_assoc (pack_u32 count) bytes rest,
        unpack_word-le_bytes 4 count (bytes ++ rest) h,
        array_bytes-fits count size h k,
        length-append (pack_u32 count) bytes,
        length-le_bytes 4 count,
        e,
      )
      (ap (λ n. ok (none, n)) (omega arith))

read_listed-plain :
    (v : PropertyValue) (rest : Bytes)
    → FitsValue v
    → read_listed (DataType.to_code (data_type v)) (value_wire v ++ rest)
      ≡ ok (some v, length (value_wire v))
unfolding read_listed read_single DataType.to_code DataType.from_code
read_listed-plain (int8 v) rest h = rw (parse_value-value_wire (int8 v) rest h)
read_listed-plain (int16 v) rest h = rw (parse_value-value_wire (int16 v) rest h)
read_listed-plain (int32 v) rest h = rw (parse_value-value_wire (int32 v) rest h)
read_listed-plain (int64 v) rest h = rw (parse_value-value_wire (int64 v) rest h)
read_listed-plain (uint8 v) rest h = rw (parse_value-value_wire (uint8 v) rest h)
read_listed-plain (uint16 v) rest h = rw (parse_value-value_wire (uint16 v) rest h)
read_listed-plain (uint32 v) rest h = rw (parse_value-value_wire (uint32 v) rest h)
read_listed-plain (uint64 v) rest h = rw (parse_value-value_wire (uint64 v) rest h)
read_listed-plain (string s) rest h = rw (parse_value-value_wire (string s) rest h)

read_listed-array :
    (base : ℕ) (bytes : Bytes)
    → 1 ≤ base
    → base ≤ 10
    → read_listed (0x4000 + base) bytes ≡ skip_array (0x4000 + base) bytes
unfolding read_listed
read_listed-array base bytes lo hi =
    let in_range : (leb 0x4001 (0x4000 + base) && leb (0x4000 + base) 0x400A) ≡ true =
      ground arith in
    rw in_range

pub read_listed-wire :
    (w : WireValue) (rest : Bytes)
    → FitsWire w
    → read_listed (type_code w) (wire w ++ rest) ≡ ok (decoded w, length (wire w))
unfolding read_listed read_single DataType.from_code
read_listed-wire (plain v) rest h = read_listed-plain v rest h
read_listed-wire absent rest h = refl
read_listed-wire (wide true bytes) rest h = rw h
read_listed-wire (wide false bytes) rest h = rw h
read_listed-wire (array base count bytes) rest h =
    let (size, lo, hi, sized, few, small, e) = h in
    read_listed-array base _ lo hi ∙ skip_array-At base count size bytes rest hi sized few small e

pub type_code-lt : (w : WireValue) → FitsWire w → type_code w < 2 ^ 16
type_code-lt (plain v) h = value_code-lt v
  where
    value_code-lt : (v : PropertyValue) → DataType.to_code (data_type v) < 2 ^ 16
    value_code-lt (int8 v) = DataType.to_code-lt _ refl
    value_code-lt (int16 v) = DataType.to_code-lt _ refl
    value_code-lt (int32 v) = DataType.to_code-lt _ refl
    value_code-lt (int64 v) = DataType.to_code-lt _ refl
    value_code-lt (uint8 v) = DataType.to_code-lt _ refl
    value_code-lt (uint16 v) = DataType.to_code-lt _ refl
    value_code-lt (uint32 v) = DataType.to_code-lt _ refl
    value_code-lt (uint64 v) = DataType.to_code-lt _ refl
    value_code-lt (string s) = DataType.to_code-lt _ refl
type_code-lt absent h = omega arith
type_code-lt (wide true bytes) h = omega arith
type_code-lt (wide false bytes) h = omega arith
type_code-lt (array base count bytes) h = let (size, lo, hi, _, _, _, _) = h in omega arith
