-- ===== src/Object/Tests.antt =====
-- The theorems on object datasets and property lists at concrete inputs.
use mtp_rs.Prelude.{
  ◌+◌, ◌*◌, ◌≤◌, ◌≡◌, refl, ◌≢◌, true, some, none, List, [], ◌∷◌, ◌++◌, map, flat, All, length,
  arith,
}
use mtp_rs.Prelude.Int.{negsuc}
use mtp_rs.Codes.Format
use mtp_rs.Codes.Storage.Protection
use mtp_rs.Codes.Storage.Association
use mtp_rs.Error.{ok, panic}
use mtp_rs.Error.Ensures.{Ensures}
use mtp_rs.Pack.Slice.{Bytes}
use mtp_rs.Pack.Word.{pack_u32}
use mtp_rs.Pack.Samples.{text, text-FitsString, empty-FitsString}
use mtp_rs.DateTime.{DateTime, is_valid, days_in_month, is_leap_year}
use mtp_rs.Property.{uint32, string}
use mtp_rs.Object.{ObjectInfo, parse_object_info, object_info_bytes}
use mtp_rs.Object.RoundTrip.{FitsObjectInfo, parse_object_info-object_info_bytes}
use mtp_rs.Object.Safety.{parse_object_info-ne-panic}
use mtp_rs.Object.PropList.{list_from_bytes}
use mtp_rs.Object.PropList.Wire.{plain, array}
use mtp_rs.Object.PropList.RoundTrip.{
  WireElement, FitsElement, element_wire, received, list_from_bytes-flat,
}
use mtp_rs.Object.PropList.Safety.{list_from_bytes-Ensures}

abbrev noon : DateTime
noon = record {
  year = 2024;
  month = 2;
  day = 29;
  hour = 12;
  minute = 0;
  second = 0;
  offset = some (record { minutes = negsuc 299 });
}

noon-is_valid : is_valid noon ≡ true
unfolding is_valid days_in_month is_leap_year
noon-is_valid = refl

-- A photo of more than 4 GiB.
abbrev photo : ObjectInfo
photo = record {
  handle = 3;
  storage_id = 0x10001;
  format = Format.from_code 0x3801;
  protection_status = Protection.from_code 0;
  size = 5000000000;
  thumb_format = Format.from_code 0x3808;
  thumb_size = 10;
  thumb_width = 160;
  thumb_height = 120;
  image_width = 4000;
  image_height = 3000;
  image_bit_depth = 24;
  parent = 0xFFFFFFFF;
  association_type = Association.from_code 0;
  association_desc = 0;
  sequence_number = 1;
  filename = text;
  created = some noon;
  modified = none;
  keywords = [];
}

photo-FitsObjectInfo : FitsObjectInfo photo
photo-FitsObjectInfo = record {
  storage_id = omega arith;
  format = Format.from_code-IsCode 0x3801 (omega arith);
  protection_status = Protection.from_code-IsCode 0 (omega arith);
  thumb_format = Format.from_code-IsCode 0x3808 (omega arith);
  thumb_size = omega arith;
  thumb_width = omega arith;
  thumb_height = omega arith;
  image_width = omega arith;
  image_height = omega arith;
  image_bit_depth = omega arith;
  parent = omega arith;
  association_type = Association.from_code-IsCode 0 (omega arith);
  association_desc = omega arith;
  sequence_number = omega arith;
  filename = text-FitsString;
  created = (noon-is_valid, omega arith);
  modified = tt;
  keywords = empty-FitsString;
}

parse_object_info-object_info_bytes_example :
    (bytes : Bytes) × (object_info_bytes photo ≡ ok bytes)
    × (parse_object_info bytes ≡ ok (record photo { handle = 0; size = 0xFFFFFFFF }))
parse_object_info-object_info_bytes_example =
    parse_object_info-object_info_bytes photo photo-FitsObjectInfo

parse_object_info-ne-panic_example : parse_object_info (1 ∷ 0 ∷ 1 ∷ 0 ∷ 1 ∷ []) ≢ panic
parse_object_info-ne-panic_example = parse_object_info-ne-panic (1 ∷ 0 ∷ 1 ∷ 0 ∷ 1 ∷ [])

abbrev elements : List WireElement
elements =
    record { handle = 3; property = 0xDC0B; value = plain (uint32 9) }
    ∷ record { handle = 3; property = 0xDC41; value = array 4 2 (1 ∷ 0 ∷ 2 ∷ 0 ∷ []) }
    ∷ record { handle = 3; property = 0xDC07; value = plain (string text) }
    ∷ []

elements-Fit : All FitsElement elements
unfolding mtp_rs.Codes.DataType.byte_size mtp_rs.Codes.DataType.from_code
elements-Fit = (
  record { handle = omega arith; property = omega arith; value = omega arith },
  (
    record {
      handle = omega arith;
      property = omega arith;
      value = (2, omega arith, omega arith, refl, omega arith, omega arith, refl);
    },
    (record { handle = omega arith; property = omega arith; value = text-FitsString }, tt),
  ),
)

list_from_bytes-flat_example :
    list_from_bytes (pack_u32 3 ++ (flat element_wire elements ++ 9 ∷ []))
    ≡ ok (map received elements)
list_from_bytes-flat_example = list_from_bytes-flat elements (9 ∷ []) elements-Fit (omega arith)

-- A list that announces 2^32 - 1 elements and holds none.
list_from_bytes-Ensures_example :
    Ensures (λ es. 4 + 8 * length es ≤ 4) (list_from_bytes (255 ∷ 255 ∷ 255 ∷ 255 ∷ []))
list_from_bytes-Ensures_example = list_from_bytes-Ensures (255 ∷ 255 ∷ 255 ∷ 255 ∷ [])
