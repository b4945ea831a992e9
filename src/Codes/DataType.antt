-- ===== src/Codes/DataType.antt =====
-- `PropertyDataType` of crates/mtp-rs/src/ptp/codes.rs.
use mtp_rs.Prelude.{
  ℕ, Option, none, some, ◌<◌, ◌^◌, ◌≡◌, refl, ap, Bool, true, false, List, [], ◌∷◌, arith,
}
use mtp_rs.Codes.NumEnum.{from_primitive, into-from_primitive, IsCode}

pub data PropertyDataType : Type 0 where
  undefined int8 uint8 int16 uint16 int32 uint32 int64 uint64 int128 uint128 : PropertyDataType
  string : PropertyDataType
  unknown : ℕ → PropertyDataType

-- The declared discriminants.
unfoldable pub to_code : PropertyDataType → ℕ
to_code undefined = 0x0000
to_code int8 = 0x0001
to_code uint8 = 0x0002
to_code int16 = 0x0003
to_code uint16 = 0x0004
to_code int32 = 0x0005
to_code uint32 = 0x0006
to_code int64 = 0x0007
to_code uint64 = 0x0008
to_code int128 = 0x0009
to_code uint128 = 0x000A
to_code string = 0xFFFF
to_code (unknown code) = code

variants : List PropertyDataType
variants =
    undefined ∷ int8 ∷ uint8 ∷ int16 ∷ uint16 ∷ int32 ∷ uint32 ∷ int64 ∷ uint64 ∷ int128 ∷ uint128
    ∷ string ∷ []

unfoldable pub from_code : ℕ → PropertyDataType
unfolding variants to_code
from_code = from_primitive to_code unknown variants

abbrev pub is_named : PropertyDataType → Bool
is_named (unknown code) = false
is_named _ = true

pub to_code-from_code : (code : ℕ) → to_code (from_code code) ≡ code
unfolding from_code
to_code-from_code = into-from_primitive to_code unknown (λ code. refl) variants

pub from_code-to_code : (v : PropertyDataType) → is_named v ≡ true → from_code (to_code v) ≡ v
unfolding from_code
from_code-to_code (unknown code) h = cc
from_code-to_code _ h = refl

pub to_code-lt : (v : PropertyDataType) → is_named v ≡ true → to_code v < 2 ^ 16
unfolding to_code
to_code-lt (unknown code) h = cc
to_code-lt _ h = omega arith

pub from_code-IsCode : (code : ℕ) → code < 2 ^ 16 → IsCode to_code from_code (from_code code)
from_code-IsCode code h = record {
  in_range = rw (to_code-from_code code) h;
  decodes = ap from_code (to_code-from_code code);
}

-- `PropertyDataType::byte_size`
unfoldable pub byte_size : PropertyDataType → Option ℕ
byte_size int8 = some 1
byte_size uint8 = some 1
byte_size int16 = some 2
byte_size uint16 = some 2
byte_size int32 = some 4
byte_size uint32 = some 4
byte_size int64 = some 8
byte_size uint64 = some 8
byte_size int128 = some 16
byte_size uint128 = some 16
byte_size _ = none
