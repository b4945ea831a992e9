-- ===== src/Device.antt =====
-- crates/mtp-rs/src/ptp/types/device.rs: the DeviceInfo and StorageInfo datasets.
pub mod Safety
pub mod Capability
pub mod RoundTrip
mod Tests
use mtp_rs.Prelude.{
  ℕ, zero, suc, ◌+◌, Bool, true, false, ◌&&◌, ◌||◌, List, [], ◌∷◌, map, ltb, leb, ◌==◌,
  if◌then◌else◌,
}
use mtp_rs.Codes.Operation
use mtp_rs.Codes.Operation.{
  OperationCode, OperationCode-discrete, set_object_prop_value, send_object_info, send_object,
}
use mtp_rs.Codes.Event
use mtp_rs.Codes.Event.{EventCode}
use mtp_rs.Codes.Format
use mtp_rs.Codes.Format.{ObjectFormatCode}
use mtp_rs.Codes.Storage.Kind
use mtp_rs.Codes.Storage.Kind.{StorageType}
use mtp_rs.Codes.Storage.Filesystem
use mtp_rs.Codes.Storage.Filesystem.{FilesystemType}
use mtp_rs.Codes.Storage.Access
use mtp_rs.Codes.Storage.Access.{AccessCapability}
use mtp_rs.Error.{Result, ok, ◌>>=◌}
use mtp_rs.Pack.Slice.{Bytes}
use mtp_rs.Pack.Utf16.{Str}
use mtp_rs.Pack.Text.{unpack_string}
use mtp_rs.Pack.Array.{unpack_array}
use mtp_rs.Pack.Cursor.{read_word, read_sized}

pub record DeviceInfo : Type 0 where
  pub standard_version : ℕ
  pub vendor_extension_id : ℕ
  pub vendor_extension_version : ℕ
  pub vendor_extension_desc : Str
  pub functional_mode : ℕ
  pub operations_supported : List OperationCode
  pub events_supported : List EventCode
  pub device_properties_supported : List ℕ
  pub capture_formats : List ObjectFormatCode
  pub playback_formats : List ObjectFormatCode
  pub manufacturer : Str
  pub model : Str
  pub device_version : Str
  pub serial_number : Str

-- `DeviceInfo::from_bytes`
unfoldable pub parse_device_info : Bytes → Result DeviceInfo
parse_device_info buf = do
  (standard_version, o1) ← read_word 2 buf 0
  (vendor_extension_id, o2) ← read_word 4 buf o1
  (vendor_extension_version, o3) ← read_word 2 buf o2
  (vendor_extension_desc, o4) ← read_sized unpack_string buf o3
  (functional_mode, o5) ← read_word 2 buf o4
  (operations, o6) ← read_sized (unpack_array 2) buf o5
  (events, o7) ← read_sized (unpack_array 2) buf o6
  (device_properties, o8) ← read_sized (unpack_array 2) buf o7
  (capture, o9) ← read_sized (unpack_array 2) buf o8
  (playback, o10) ← read_sized (unpack_array 2) buf o9
  (manufacturer, o11) ← read_sized unpack_string buf o10
  (model, o12) ← read_sized unpack_string buf o11
  (device_version, o13) ← read_sized unpack_string buf o12
  (serial_number, _) ← read_sized unpack_string buf o13
  ok (record {
    standard_version = standard_version;
    vendor_extension_id = vendor_extension_id;
    vendor_extension_version = vendor_extension_version;
    vendor_extension_desc = vendor_extension_desc;
    functional_mode = functional_mode;
    operations_supported = map Operation.from_code operations;
    events_supported = map Event.from_code events;
    device_properties_supported = device_properties;
    capture_formats = map Format.from_code capture;
    playback_formats = map Format.from_code playback;
    manufacturer = manufacturer;
    model = model;
    device_version = device_version;
    serial_number = serial_number;
  })

-- `Iterator::any`
abbrev pub any {ℓ} : {A : Type ℓ} → (A → Bool) → List A → Bool
any p [] = false
any p (x ∷ xs) = p x || any p xs

unfoldable pub is_operation : OperationCode → OperationCode → Bool
is_operation a b = elim (OperationCode-discrete a b) [ yes _ ↦ true | no _ ↦ false ]

-- `DeviceInfo::supports_operation`
unfoldable pub supports_operation : DeviceInfo → OperationCode → Bool
unfolding is_operation
supports_operation d operation = any (λ op. is_operation op operation) d.operations_supported

-- `DeviceInfo::supports_rename`
unfoldable pub supports_rename : DeviceInfo → Bool
supports_rename d = supports_operation d set_object_prop_value

-- `DeviceInfo::supports_upload`
unfoldable pub supports_upload : DeviceInfo → Bool
supports_upload d = supports_operation d send_object_info && supports_operation d send_object

-- `char::to_ascii_lowercase`
abbrev pub to_ascii_lowercase : ℕ → ℕ
to_ascii_lowercase c = if leb 65 c && leb c 90 then c + 32 else c

abbrev pub starts_with : Str → Str → Bool
starts_with [] s = true
starts_with (c ∷ cs) [] = false
starts_with (c ∷ cs) (d ∷ s) = c == d && starts_with cs s

-- `str::contains`
unfoldable pub contains : (pattern : Str) → Str → Bool
contains needle [] = starts_with needle []
contains needle (c ∷ s) = starts_with needle (c ∷ s) || contains needle s

-- "android.com"
abbrev pub android_com : Str
android_com = 97 ∷ 110 ∷ 100 ∷ 114 ∷ 111 ∷ 105 ∷ 100 ∷ 46 ∷ 99 ∷ 111 ∷ 109 ∷ []

-- `DeviceInfo::runs_android_mtp_server`
unfoldable pub runs_android_mtp_server : DeviceInfo → Bool
runs_android_mtp_server d =
    let lists = λ (code : ℕ). any (λ op. Operation.to_code op == code) d.operations_supported in
    contains android_com (map to_ascii_lowercase d.vendor_extension_desc)
    || (lists 0x95C3 && (lists 0x95C4 && lists 0x95C5))

pub record StorageInfo : Type 0 where
  pub storage_type : StorageType
  pub filesystem_type : FilesystemType
  pub access_capability : AccessCapability
  pub max_capacity : ℕ
  pub free_space_bytes : ℕ
  pub free_space_objects : ℕ
  pub description : Str
  pub volume_identifier : Str

-- `StorageInfo::from_bytes`
unfoldable pub parse_storage_info : Bytes → Result StorageInfo
parse_storage_info buf = do
  (storage_type, o1) ← read_word 2 buf 0
  (filesystem_type, o2) ← read_word 2 buf o1
  (access_capability, o3) ← read_word 2 buf o2
  (max_capacity, o4) ← read_word 8 buf o3
  (free_space_bytes, o5) ← read_word 8 buf o4
  (free_space_objects, o6) ← read_word 4 buf o5
  (description, o7) ← read_sized unpack_string buf o6
  (volume_identifier, _) ← read_sized unpack_string buf o7
  ok (record {
    storage_type = Kind.from_code storage_type;
    filesystem_type = Filesystem.from_code filesystem_type;
    access_capability = Access.from_code access_capability;
    max_capacity = max_capacity;
    free_space_bytes = free_space_bytes;
    free_space_objects = free_space_objects;
    description = description;
    volume_identifier = volume_identifier;
  })
