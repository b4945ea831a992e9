-- ===== src/Device/RoundTrip.antt =====
-- Parsing the DeviceInfo and StorageInfo datasets that a device serialized.
use mtp_rs.Prelude.{ℕ, ◌+◌, ◌^◌, ◌<◌, ◌≡◌, refl, ap, All, List, [], ◌∷◌, ◌++◌, map, length}
use mtp_rs.Codes.NumEnum.{IsCode}
use mtp_rs.Codes.Operation
use mtp_rs.Codes.Event
use mtp_rs.Codes.Format
use mtp_rs.Codes.Storage.Kind
use mtp_rs.Codes.Storage.Filesystem
use mtp_rs.Codes.Storage.Access
use mtp_rs.Error.{ok}
use mtp_rs.Pack.Slice.{Bytes, At, At-zero}
use mtp_rs.Pack.Utf16.{Str}
use mtp_rs.Pack.Text.{string_bytes, FitsString, unpack_string, unpack_string-string_bytes}
use mtp_rs.Pack.Word.{pack_u16, pack_u32, pack_u64}
use mtp_rs.Pack.Array.{pack_u16_array, unpack_array, FitsArray, unpack_array-pack_array}
use mtp_rs.Pack.Cursor.{read_sized, read_word-At, read_sized-At}
use mtp_rs.Device.{DeviceInfo, parse_device_info, StorageInfo, parse_storage_info}

-- A list of codes that fits its array.
pub record FitsCodes {A : Type 0} (to_code : A → ℕ) (from_code : ℕ → A) (xs : List A) : Type 0 where
  pub array : FitsArray 2 (map to_code xs)
  pub codes : All (IsCode to_code from_code) xs

decoded_codes :
    {A : Type 0} (to_code : A → ℕ) (from_code : ℕ → A) (xs : List A)
    → All (IsCode to_code from_code) xs
    → map from_code (map to_code xs) ≡ xs
decoded_codes to_code from_code [] h = refl
decoded_codes to_code from_code (x ∷ xs) h =
    rw (h.0.decodes, decoded_codes to_code from_code xs h.1)

-- Every field holds a value of its Rust type, the strings and arrays fit.
pub record FitsDeviceInfo (d : DeviceInfo) : Type 0 where
  pub standard_version : d.standard_version < 2 ^ 16
  pub vendor_extension_id : d.vendor_extension_id < 2 ^ 32
  pub vendor_extension_version : d.vendor_extension_version < 2 ^ 16
  pub vendor_extension_desc : FitsString d.vendor_extension_desc
  pub functional_mode : d.functional_mode < 2 ^ 16
  pub operations : FitsCodes Operation.to_code Operation.from_code d.operations_supported
  pub events : FitsCodes Event.to_code Event.from_code d.events_supported
  pub device_properties : FitsArray 2 d.device_properties_supported
  pub capture : FitsCodes Format.to_code Format.from_code d.capture_formats
  pub playback : FitsCodes Format.to_code Format.from_code d.playback_formats
  pub manufacturer : FitsString d.manufacturer
  pub model : FitsString d.model
  pub device_version : FitsString d.device_version
  pub serial_number : FitsString d.serial_number

-- The dataset as PTP lays it out.
unfoldable pub device_info_wire : DeviceInfo → Bytes → Bytes
device_info_wire d rest =
    pack_u16 d.standard_version
    ++ (pack_u32 d.vendor_extension_id
        ++ (pack_u16 d.vendor_extension_version
            ++ (string_bytes d.vendor_extension_desc
                ++ (pack_u16 d.functional_mode
                    ++ (pack_u16_array (map Operation.to_code d.operations_supported)
                        ++ (pack_u16_array (map Event.to_code d.events_supported)
                            ++ (pack_u16_array d.device_properties_supported
                                ++ (pack_u16_array (map Format.to_code d.capture_formats)
                                    ++ (pack_u16_array (map Format.to_code d.playback_formats)
                                        ++ (string_bytes d.manufacturer
                                            ++ (string_bytes d.model
                                                ++ (string_bytes d.device_version
                                                    ++ (string_bytes d.serial_number
                                                        ++ rest)))))))))))))

string_At :
    (s : Str) {buf : Bytes} {offset : ℕ} (rest : Bytes)
    → FitsString s
    → At buf offset (string_bytes s ++ rest)
    → (read_sized unpack_string buf offset ≡ ok (s, offset + length (string_bytes s)))
      × At buf (offset + length (string_bytes s)) rest
string_At s rest f at =
    read_sized-At unpack_string s (string_bytes s) rest (unpack_string-string_bytes s rest f) at

array_At :
    (arr : List ℕ) {buf : Bytes} {offset : ℕ} (rest : Bytes)
    → FitsArray 2 arr
    → At buf offset (pack_u16_array arr ++ rest)
    → (read_sized (unpack_array 2) buf offset ≡ ok (arr, offset + length (pack_u16_array arr)))
      × At buf (offset + length (pack_u16_array arr)) rest
array_At arr rest f at =
    read_sized-At (unpack_array 2) arr (pack_u16_array arr) rest
      (unpack_array-pack_array 2 arr rest f) at

parse_device_info-At :
    (d : DeviceInfo) (buf rest : Bytes)
    → FitsDeviceInfo d
    → At buf 0 (device_info_wire d rest)
    → parse_device_info buf ≡ ok d
unfolding parse_device_info device_info_wire
parse_device_info-At d buf rest f at =
    let (e1, at1) = read_word-At 2 d.standard_version _ f.standard_version at in
    let (e2, at2) = read_word-At 4 d.vendor_extension_id _ f.vendor_extension_id at1 in
    let (e3, at3) = read_word-At 2 d.vendor_extension_version _ f.vendor_extension_version at2 in
    let (e4, at4) = string_At d.vendor_extension_desc _ f.vendor_extension_desc at3 in
    let (e5, at5) = read_word-At 2 d.functional_mode _ f.functional_mode at4 in
    let (e6, at6) =
      array_At (map Operation.to_code d.operations_supported) _ f.operations.array at5 in
    let (e7, at7) = array_At (map Event.to_code d.events_supported) _ f.events.array at6 in
    let (e8, at8) = array_At d.device_properties_supported _ f.device_properties at7 in
    let (e9, at9) = array_At (map Format.to_code d.capture_formats) _ f.capture.array at8 in
    let (e10, at10) = array_At (map Format.to_code d.playback_formats) _ f.playback.array at9 in
    let (e11, at11) = string_At d.manufacturer _ f.manufacturer at10 in
    let (e12, at12) = string_At d.model _ f.model at11 in
    let (e13, at13) = string_At d.device_version _ f.device_version at12 in
    let (e14, at14) = string_At d.serial_number rest f.serial_number at13 in
    let operations =
      decoded_codes Operation.to_code Operation.from_code d.operations_supported
        f.operations.codes in
    let events = decoded_codes Event.to_code Event.from_code d.events_supported f.events.codes in
    let capture = decoded_codes Format.to_code Format.from_code d.capture_formats f.capture.codes in
    let playback =
      decoded_codes Format.to_code Format.from_code d.playback_formats f.playback.codes in
    rw e1 (
      rw e2 (
        rw e3 (
          rw e4 (
            rw e5 (
              rw e6 (
                rw e7 (
                  rw e8 (
                    rw e9 (
                      rw e10 (
                        rw e11 (
                          rw e12 (
                            rw e13 (
                              rw e14
                                (ap ok (rw (operations, events, capture, playback))))))))))))))))

-- A DeviceInfo dataset whose fields, strings and arrays fit is parsed to what it was written from,
-- whatever follows it.
pub parse_device_info-device_info_wire :
    (d : DeviceInfo) (rest : Bytes)
    → FitsDeviceInfo d
    → parse_device_info (device_info_wire d rest) ≡ ok d
parse_device_info-device_info_wire d rest f = parse_device_info-At d _ rest f (At-zero _)

pub record FitsStorageInfo (s : StorageInfo) : Type 0 where
  pub storage_type : IsCode Kind.to_code Kind.from_code s.storage_type
  pub filesystem_type : IsCode Filesystem.to_code Filesystem.from_code s.filesystem_type
  pub access_capability : IsCode Access.to_code Access.from_code s.access_capability
  pub max_capacity : s.max_capacity < 2 ^ 64
  pub free_space_bytes : s.free_space_bytes < 2 ^ 64
  pub free_space_objects : s.free_space_objects < 2 ^ 32
  pub description : FitsString s.description
  pub volume_identifier : FitsString s.volume_identifier

-- The dataset as PTP lays it out.
unfoldable pub storage_info_wire : StorageInfo → Bytes → Bytes
storage_info_wire s rest =
    pack_u16 (Kind.to_code s.storage_type)
    ++ (pack_u16 (Filesystem.to_code s.filesystem_type)
        ++ (pack_u16 (Access.to_code s.access_capability)
            ++ (pack_u64 s.max_capacity
                ++ (pack_u64 s.free_space_bytes
                    ++ (pack_u32 s.free_space_objects
                        ++ (string_bytes s.description
                            ++ (string_bytes s.volume_identifier ++ rest)))))))

parse_storage_info-At :
    (s : StorageInfo) (buf rest : Bytes)
    → FitsStorageInfo s
    → At buf 0 (storage_info_wire s rest)
    → parse_storage_info buf ≡ ok s
unfolding parse_storage_info storage_info_wire
parse_storage_info-At s buf rest f at =
    let (e1, at1) = read_word-At 2 (Kind.to_code s.storage_type) _ f.storage_type.in_range at in
    let (e2, at2) =
      read_word-At 2 (Filesystem.to_code s.filesystem_type) _ f.filesystem_type.in_range at1 in
    let (e3, at3) =
      read_word-At 2 (Access.to_code s.access_capability) _ f.access_capability.in_range at2 in
    let (e4, at4) = read_word-At 8 s.max_capacity _ f.max_capacity at3 in
    let (e5, at5) = read_word-At 8 s.free_space_bytes _ f.free_space_bytes at4 in
    let (e6, at6) = read_word-At 4 s.free_space_objects _ f.free_space_objects at5 in
    let (e7, at7) = string_At s.description _ f.description at6 in
    let (e8, at8) = string_At s.volume_identifier rest f.volume_identifier at7 in
    rw e1 (
      rw e2 (
        rw e3 (
          rw e4 (
            rw e5 (
              rw e6 (
                rw e7 (
                  rw e8 (
                    rw (
                      f.storage_type.decodes, f.filesystem_type.decodes,
                      f.access_capability.decodes,
                    )))))))))

-- A StorageInfo dataset whose fields and strings fit is parsed to what it was written from,
-- whatever follows it.
pub parse_storage_info-storage_info_wire :
    (s : StorageInfo) (rest : Bytes)
    → FitsStorageInfo s
    → parse_storage_info (storage_info_wire s rest) ≡ ok s
parse_storage_info-storage_info_wire s rest f = parse_storage_info-At s _ rest f (At-zero _)
