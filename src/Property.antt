-- ===== src/Property.antt =====
-- crates/mtp-rs/src/ptp/types/properties.rs: property values, ranges and descriptors.
pub mod RoundTrip
pub mod Safety
mod Tests
use mtp_rs.Prelude.{
  ℕ, zero, suc, ◌+◌, ◌<◌, ◌^◌, Bool, not, List, [], ◌∷◌, ◌++◌, Option, none, some, length, leb,
  ◌==◌, if◌then◌else◌,
}
use mtp_rs.Prelude.Int.{ℤ, IsSigned}
use mtp_rs.Codes.DataType.{PropertyDataType}
use mtp_rs.Codes.DeviceProperty
use mtp_rs.Codes.DeviceProperty.{DevicePropertyCode}
use mtp_rs.Codes.DataType
use mtp_rs.Error.{
  Result, ok, err, invalid_data, Message, unsupported_data_type, missing_get_set, missing_form_flag,
  reject_if, ◌>>=◌, ◌>>◌,
}
use mtp_rs.Pack.Slice.{Bytes, slice_from, index}
use mtp_rs.Pack.Utf16.{Str}
use mtp_rs.Pack.Text.{pack_string, unpack_string}
use mtp_rs.Pack.Cursor.{read_word, read_sized}
use mtp_rs.Pack.Word.{
  pack_u8, pack_u16, pack_u32, pack_u64, pack_i8, pack_i16, pack_i32, pack_i64, unpack_u8,
  unpack_u16, unpack_u32, unpack_u64, unpack_i8, unpack_i16, unpack_i32, unpack_i64,
}

pub data PropertyValue : Type 0 where
  int8 int16 int32 int64 : ℤ → PropertyValue
  uint8 uint16 uint32 uint64 : ℕ → PropertyValue
  string : Str → PropertyValue

-- `PropertyValue::to_bytes`
unfoldable pub value_bytes : PropertyValue → Result Bytes
value_bytes (int8 v) = ok (pack_i8 v)
value_bytes (uint8 v) = ok (pack_u8 v)
value_bytes (int16 v) = ok (pack_i16 v)
value_bytes (uint16 v) = ok (pack_u16 v)
value_bytes (int32 v) = ok (pack_i32 v)
value_bytes (uint32 v) = ok (pack_u32 v)
value_bytes (int64 v) = ok (pack_i64 v)
value_bytes (uint64 v) = ok (pack_u64 v)
value_bytes (string v) = pack_string v

-- `PropertyValue::from_bytes`: the value and the number of bytes that it took.
unfoldable pub parse_value : Bytes → PropertyDataType → Result (PropertyValue × ℕ)
parse_value buf PropertyDataType.int8 = do v ← unpack_i8 buf; ok (int8 v, 1)
parse_value buf PropertyDataType.uint8 = do v ← unpack_u8 buf; ok (uint8 v, 1)
parse_value buf PropertyDataType.int16 = do v ← unpack_i16 buf; ok (int16 v, 2)
parse_value buf PropertyDataType.uint16 = do v ← unpack_u16 buf; ok (uint16 v, 2)
parse_value buf PropertyDataType.int32 = do v ← unpack_i32 buf; ok (int32 v, 4)
parse_value buf PropertyDataType.uint32 = do v ← unpack_u32 buf; ok (uint32 v, 4)
parse_value buf PropertyDataType.int64 = do v ← unpack_i64 buf; ok (int64 v, 8)
parse_value buf PropertyDataType.uint64 = do v ← unpack_u64 buf; ok (uint64 v, 8)
parse_value buf PropertyDataType.string = do
  (v, consumed) ← unpack_string buf
  ok (string v, consumed)
parse_value buf _ = err (invalid_data unsupported_data_type)

-- `PropertyValue::data_type`
abbrev pub data_type : PropertyValue → PropertyDataType
data_type (int8 v) = PropertyDataType.int8
data_type (uint8 v) = PropertyDataType.uint8
data_type (int16 v) = PropertyDataType.int16
data_type (uint16 v) = PropertyDataType.uint16
data_type (int32 v) = PropertyDataType.int32
data_type (uint32 v) = PropertyDataType.uint32
data_type (int64 v) = PropertyDataType.int64
data_type (uint64 v) = PropertyDataType.uint64
data_type (string v) = PropertyDataType.string

pub data PropertyFormType : Type 0 where
  no_form range enumeration : PropertyFormType
  unknown : ℕ → PropertyFormType

-- `PropertyFormType::from_code`
unfoldable pub form_of_code : ℕ → PropertyFormType
form_of_code code =
    if code == 0
    then no_form
    else if code == 1
    then range
    else if code == 2
    then enumeration
    else unknown code

-- `PropertyFormType::to_code`
unfoldable pub form_code : PropertyFormType → ℕ
form_code no_form = 0
form_code range = 1
form_code enumeration = 2
form_code (unknown code) = code

pub record PropertyRange : Type 0 where
  pub min : PropertyValue
  pub max : PropertyValue
  pub step : PropertyValue

-- `PropertyValue::from_bytes(&buf[offset..], data_type)?` and `offset += consumed`.
abbrev pub read_value : PropertyDataType → Bytes → ℕ → Result (PropertyValue × ℕ)
read_value t = read_sized (λ rest. parse_value rest t)

-- `PropertyRange::from_bytes`
unfoldable pub parse_range : Bytes → PropertyDataType → Result (PropertyRange × ℕ)
parse_range buf t = do
  (min, o1) ← read_value t buf 0
  (max, o2) ← read_value t buf o1
  (step, o3) ← read_value t buf o2
  ok (record { min = min; max = max; step = step }, o3)

-- `PropertyRange::to_bytes`
unfoldable pub range_bytes : PropertyRange → Result Bytes
range_bytes r = do
  min ← value_bytes r.min
  max ← value_bytes r.max
  step ← value_bytes r.step
  ok (min ++ (max ++ step))

pub record DevicePropDesc : Type 0 where
  pub property_code : DevicePropertyCode
  pub data_type : PropertyDataType
  pub writable : Bool
  pub default_value : PropertyValue
  pub current_value : PropertyValue
  pub form_type : PropertyFormType
  pub enum_values : Option (List PropertyValue)
  pub range : Option PropertyRange

-- `for _ in 0..count { values.push(…); offset += consumed; }`, with `left` rounds to go.
unfoldable pub parse_values :
    PropertyDataType → Bytes → (left offset : ℕ) → Result (List PropertyValue)
parse_values t buf zero offset = ok []
parse_values t buf (suc left) offset = do
  (v, offset') ← read_value t buf offset
  vs ← parse_values t buf left offset'
  ok (v ∷ vs)

-- The form data: the enumerated values and the range.
unfoldable pub parse_form :
    PropertyFormType
    → PropertyDataType
    → Bytes
    → ℕ
    → Result (Option (List PropertyValue) × Option PropertyRange)
parse_form no_form t buf offset = ok (none, none)
parse_form (unknown code) t buf offset = ok (none, none)
parse_form PropertyFormType.range t buf offset = do
  rest ← slice_from buf offset
  (r, _) ← parse_range rest t
  ok (none, some r)
parse_form enumeration t buf offset = do
  (count, offset') ← read_word 2 buf offset
  values ← parse_values t buf count offset'
  ok (some values, none)

-- `if buf.len() <= offset { return Err(…) }`, then `buf[offset]`.
unfoldable pub read_byte : Message → Bytes → ℕ → Result (ℕ × ℕ)
read_byte missing buf offset = do
  reject_if (leb (length buf) offset) missing
  b ← index buf offset
  ok (b, offset + 1)

-- `DevicePropDesc::from_bytes`
unfoldable pub parse_desc : Bytes → Result DevicePropDesc
parse_desc buf = do
  (property, o1) ← read_word 2 buf 0
  (type_code, o2) ← read_word 2 buf o1
  let t = DataType.from_code type_code
  (get_set, o3) ← read_byte missing_get_set buf o2
  (default_value, o4) ← read_value t buf o3
  (current_value, o5) ← read_value t buf o4
  (form_flag, o6) ← read_byte missing_form_flag buf o5
  let form = form_of_code form_flag
  (enum_values, limits) ← parse_form form t buf o6
  ok (record {
    property_code = DeviceProperty.from_code property;
    data_type = t;
    writable = not (get_set == 0);
    default_value = default_value;
    current_value = current_value;
    form_type = form;
    enum_values = enum_values;
    range = limits;
  })
