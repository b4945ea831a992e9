-- ===== src/Property/Tests.antt =====
-- The theorems on property values at concrete inputs.
use mtp_rs.Prelude.{◌≡◌, refl, ◌≢◌, [], ◌∷◌, ◌++◌, length, arith}
use mtp_rs.Prelude.Int.{negsuc}
use mtp_rs.Codes.DataType.{PropertyDataType}
use mtp_rs.Error.{ok, panic}
use mtp_rs.Pack.Slice.{Bytes}
use mtp_rs.Property.{
  PropertyValue, int32, uint8, value_bytes, parse_value, PropertyRange, parse_range, range_bytes,
  parse_desc,
}
use mtp_rs.Property.RoundTrip.{FitsRange, parse_value-value_bytes, parse_range-range_bytes}
use mtp_rs.Property.Safety.{parse_desc-ne-panic}

abbrev lowest : PropertyValue
lowest = int32 (negsuc 0x7FFFFFFF)

parse_value-value_bytes_example :
    (bytes : Bytes) × (value_bytes lowest ≡ ok bytes)
    × (parse_value (bytes ++ 9 ∷ []) PropertyDataType.int32 ≡ ok (lowest, length bytes))
parse_value-value_bytes_example = parse_value-value_bytes lowest (9 ∷ []) (omega arith)

abbrev battery : PropertyRange
battery = record { min = uint8 0; max = uint8 100; step = uint8 1 }

battery-FitsRange : FitsRange battery PropertyDataType.uint8
battery-FitsRange = record {
  min_fits = omega arith;
  max_fits = omega arith;
  step_fits = omega arith;
  min_type = refl;
  max_type = refl;
  step_type = refl;
}

parse_range-range_bytes_example :
    (bytes : Bytes) × (range_bytes battery ≡ ok bytes)
    × (parse_range (bytes ++ 9 ∷ []) PropertyDataType.uint8 ≡ ok (battery, length bytes))
parse_range-range_bytes_example =
    parse_range-range_bytes battery PropertyDataType.uint8 (9 ∷ []) battery-FitsRange

-- A descriptor cut off after its data type.
parse_desc-ne-panic_example : parse_desc (1 ∷ 0x50 ∷ 2 ∷ 0 ∷ []) ≢ panic
parse_desc-ne-panic_example = parse_desc-ne-panic (1 ∷ 0x50 ∷ 2 ∷ 0 ∷ [])
