-- ===== src/Device/Tests.antt =====
-- The theorems on the device and storage datasets at concrete inputs.
use mtp_rs.Prelude.{◌≡◌, refl, ◌≢◌, [], ◌∷◌, arith}
use mtp_rs.Codes.NumEnum.{IsCode}
use mtp_rs.Codes.Operation
use mtp_rs.Codes.Operation.{send_object}
use mtp_rs.Codes.Storage.Kind
use mtp_rs.Codes.Storage.Filesystem
use mtp_rs.Codes.Storage.Access
use mtp_rs.Error.{ok, panic}
use mtp_rs.Pack.Samples.{text, text-FitsString, empty-FitsString, empty-FitsArray}
use mtp_rs.Device.{DeviceInfo, parse_device_info, StorageInfo, parse_storage_info}
use mtp_rs.Device.RoundTrip.{
  FitsDeviceInfo, device_info_wire, parse_device_info-device_info_wire, FitsStorageInfo,
  storage_info_wire, parse_storage_info-storage_info_wire,
}
use mtp_rs.Codes.Operation.{send_object_info}
use mtp_rs.Device.Safety.{datasets-ne-panic}

abbrev phone : DeviceInfo
phone = record {
  standard_version = 100;
  vendor_extension_id = 6;
  vendor_extension_version = 100;
  vendor_extension_desc = text;
  functional_mode = 0;
  operations_supported = send_object ∷ [];
  events_supported = [];
  device_properties_supported = 0x5001 ∷ [];
  capture_formats = [];
  playback_formats = [];
  manufacturer = text;
  model = text;
  device_version = [];
  serial_number = text;
}

send_object-IsCode : IsCode Operation.to_code Operation.from_code send_object
send_object-IsCode = record {
  in_range = Operation.to_code-lt send_object refl;
  decodes = Operation.from_code-to_code send_object refl;
}

phone-FitsDeviceInfo : FitsDeviceInfo phone
phone-FitsDeviceInfo = record {
  standard_version = omega arith;
  vendor_extension_id = omega arith;
  vendor_extension_version = omega arith;
  vendor_extension_desc = text-FitsString;
  functional_mode = omega arith;
  operations = record {
    array = record {
      count_fits = omega arith;
      elements_fit = (Operation.to_code-lt send_object refl, tt);
    };
    codes = (send_object-IsCode, tt);
  };
  events = record { array = empty-FitsArray; codes = tt };
  device_properties = record { count_fits = omega arith; elements_fit = (omega arith, tt) };
  capture = record { array = empty-FitsArray; codes = tt };
  playback = record { array = empty-FitsArray; codes = tt };
  manufacturer = text-FitsString;
  model = text-FitsString;
  device_version = empty-FitsString;
  serial_number = text-FitsString;
}

parse_device_info-device_info_wire_example :
    parse_device_info (device_info_wire phone (9 ∷ [])) ≡ ok phone
parse_device_info-device_info_wire_example =
    parse_device_info-device_info_wire phone (9 ∷ []) phone-FitsDeviceInfo

abbrev storage : StorageInfo
storage = record {
  storage_type = Kind.from_code 3;
  filesystem_type = Filesystem.from_code 2;
  access_capability = Access.from_code 0;
  max_capacity = 2000000000;
  free_space_bytes = 5;
  free_space_objects = 0xFFFFFFFF;
  description = text;
  volume_identifier = [];
}

storage-FitsStorageInfo : FitsStorageInfo storage
storage-FitsStorageInfo = record {
  storage_type = Kind.from_code-IsCode 3 (omega arith);
  filesystem_type = Filesystem.from_code-IsCode 2 (omega arith);
  access_capability = Access.from_code-IsCode 0 (omega arith);
  max_capacity = omega arith;
  free_space_bytes = omega arith;
  free_space_objects = omega arith;
  description = text-FitsString;
  volume_identifier = empty-FitsString;
}

parse_storage_info-storage_info_wire_example :
    parse_storage_info (storage_info_wire storage (9 ∷ [])) ≡ ok storage
parse_storage_info-storage_info_wire_example =
    parse_storage_info-storage_info_wire storage (9 ∷ []) storage-FitsStorageInfo

datasets-ne-panic_example :
    (parse_device_info (100 ∷ 0 ∷ 6 ∷ []) ≢ panic) × (parse_storage_info (100 ∷ 0 ∷ 6 ∷ []) ≢ panic)
datasets-ne-panic_example = datasets-ne-panic (100 ∷ 0 ∷ 6 ∷ [])
