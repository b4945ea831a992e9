-- ===== src/Object/PropList.antt =====
-- `ObjectPropListElement::list_from_bytes` of crates/mtp-rs/src/ptp/types/objects.rs. A `usize` has
-- 64 bits.
pub mod Wire
pub mod RoundTrip
pub mod Safety
use mtp_rs.Prelude.{
  ℕ, zero, suc, ◌+◌, ◌*◌, ◌%◌, ◌^◌, Bool, ◌&&◌, List, [], ◌∷◌, Option, none, some, length, drop,
  ltb, leb, if◌then◌else◌,
}
use mtp_rs.Codes.ObjectProperty
use mtp_rs.Codes.ObjectProperty.{ObjectPropertyCode}
use mtp_rs.Codes.DataType
use mtp_rs.Codes.DataType.{PropertyDataType, undefined, int128, uint128, byte_size}
use mtp_rs.Error.{
  Result, ok, err, invalid_data, Message, unsupported_array_type, array_too_long,
  truncated_property, reject_if, ◌>>=◌, ◌>>◌,
}
use mtp_rs.Pack.Slice.{Bytes}
use mtp_rs.Pack.Word.{unpack_u16, unpack_u32}
use mtp_rs.Property.{PropertyValue, parse_value}

pub record ObjectPropListElement : Type 0 where
  pub handle : ℕ
  pub property : ObjectPropertyCode
  pub data_type : PropertyDataType
  pub value : Option PropertyValue

-- `checked_mul` and `checked_add` on `usize`
abbrev pub checked : ℕ → Option ℕ
checked n = if ltb n (2 ^ 64) then some n else none

-- `n.checked_mul(size).and_then(|n| n.checked_add(4))`
abbrev pub array_bytes : ℕ → ℕ → Option ℕ
array_bytes n size = elim (checked (n * size)) [ none ↦ none | some m ↦ checked (m + 4) ]

-- `ok_or_else(|| PtpError::invalid_data(…))`
unfoldable pub or_invalid : Option ℕ → Message → Result ℕ
or_invalid (some n) m = ok n
or_invalid none m = err (invalid_data m)

-- An array: skipped over, by its count and the size of its elements.
unfoldable pub skip_array : (type_code : ℕ) → Bytes → Result (Option PropertyValue × ℕ)
skip_array type_code rest = do
  size ←
      or_invalid (byte_size (DataType.from_code (type_code % 256)))
        (unsupported_array_type type_code)
  n ← unpack_u32 rest
  len ← or_invalid (array_bytes n size) array_too_long
  ok (none, len)

-- Anything else: skipped over, or decoded.
unfoldable pub read_single : PropertyDataType → Bytes → Result (Option PropertyValue × ℕ)
read_single int128 rest = ok (none, 16)
read_single uint128 rest = ok (none, 16)
read_single undefined rest = ok (none, 0)
read_single t rest = do (value, consumed) ← parse_value rest t; ok (some value, consumed)

-- The value at the start of `rest`, if it is decoded, and its length.
unfoldable pub read_listed : (type_code : ℕ) → Bytes → Result (Option PropertyValue × ℕ)
read_listed type_code rest =
    if leb 0x4001 type_code && leb type_code 0x400A
    then skip_array type_code rest
    else read_single (DataType.from_code type_code) rest

-- The loop over the elements; `drop` is `buf.get(offset..).unwrap_or_default()`.
unfoldable pub parse_elements : Bytes → (left offset : ℕ) → Result (List ObjectPropListElement)
parse_elements buf zero offset = ok []
parse_elements buf (suc left) offset = do
  let rest = drop offset buf
  handle ← unpack_u32 rest
  property ← unpack_u16 (drop 4 rest)
  type_code ← unpack_u16 (drop 6 rest)
  let value_rest = drop (offset + 8) buf
  (value, consumed) ← read_listed type_code value_rest
  reject_if (ltb (length value_rest) consumed) truncated_property
  elements ← parse_elements buf left (offset + 8 + consumed)
  ok (
      record {
        handle = handle;
        property = ObjectProperty.from_code property;
        data_type = DataType.from_code type_code;
        value = value;
      }
      ∷ elements)

-- `ObjectPropListElement::list_from_bytes`
unfoldable pub list_from_bytes : Bytes → Result (List ObjectPropListElement)
list_from_bytes buf = do count ← unpack_u32 buf; parse_elements buf count 4
