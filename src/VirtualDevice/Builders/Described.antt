-- ===== src/VirtualDevice/Builders/Described.antt =====
-- The host reads of the virtual device what its configuration says.
use mtp_rs.Prelude.{◌≡◌, refl, [], arith, append-nil}
use mtp_rs.Codes.Event
use mtp_rs.Codes.Event.{EventCode}
use mtp_rs.Codes.Format
use mtp_rs.Codes.Format.{ObjectFormatCode}
use mtp_rs.Error.{ok, ◌>>=◌}
use mtp_rs.Pack.Text.{string_bytes}
use mtp_rs.Device.{DeviceInfo, parse_device_info}
use mtp_rs.Device.RoundTrip.{FitsDeviceInfo, device_info_wire, parse_device_info-device_info_wire}
use mtp_rs.VirtualDevice.Builders.{
  VirtualDeviceConfig, cut, operations, events, playback, vendor_extension, version,
  build_device_info,
}
use mtp_rs.Codes.Operation
use mtp_rs.Codes.Operation.{OperationCode}
use mtp_rs.Device.{supports_rename, supports_upload}
use mtp_rs.VirtualDevice.Builders.Reported.{Reports, cut-IsCut, supports_operation-serves}
use mtp_rs.VirtualDevice.Builders.Strings.{
  IsText, cut-FitsString, is_ascii_text-IsText, pack_device_string-string_bytes,
}
use mtp_rs.VirtualDevice.Builders.Supported.{codes-FitsCodes, event, format, operations-FitsCodes}

-- What the configuration says, with each string cut to what PTP carries.
unfoldable pub described : VirtualDeviceConfig → DeviceInfo
described c = record {
  standard_version = 100;
  vendor_extension_id = 6;
  vendor_extension_version = 100;
  vendor_extension_desc = vendor_extension;
  functional_mode = 0;
  operations_supported = operations c;
  events_supported = events;
  device_properties_supported = [];
  capture_formats = [];
  playback_formats = playback;
  manufacturer = cut 0 c.manufacturer;
  model = cut 0 c.model;
  device_version = version;
  serial_number = cut 0 c.serial;
}

-- The strings of a configuration can stand in a dataset.
pub record IsNamed (c : VirtualDeviceConfig) : Type 0 where
  pub manufacturer : IsText c.manufacturer
  pub model : IsText c.model
  pub serial : IsText c.serial

described-FitsDeviceInfo : (c : VirtualDeviceConfig) → IsNamed c → FitsDeviceInfo (described c)
unfolding described cut
described-FitsDeviceInfo c t = record {
  standard_version = omega arith;
  vendor_extension_id = omega arith;
  vendor_extension_version = omega arith;
  vendor_extension_desc =
      cut-FitsString vendor_extension (is_ascii_text-IsText vendor_extension refl);
  functional_mode = omega arith;
  operations = operations-FitsCodes c;
  events =
      codes-FitsCodes Event.to_code Event.from_code events
        (
          event Event.object_added refl,
          (event Event.object_removed refl, (event Event.storage_info_changed refl, tt)),
        )
        (omega arith);
  device_properties = record { count_fits = omega arith; elements_fit = tt };
  capture = codes-FitsCodes Format.to_code Format.from_code [] tt (omega arith);
  playback =
      codes-FitsCodes Format.to_code Format.from_code playback
        (
          format Format.undefined refl,
          (
            format Format.association refl,
            (
              format Format.text refl,
              (
                format Format.jpeg refl,
                (
                  format Format.png refl,
                  (format Format.mp3 refl, (format Format.mp4_container refl, tt)),
                ),
              ),
            ),
          ),
        )
        (omega arith);
  manufacturer = cut-FitsString c.manufacturer t.manufacturer;
  model = cut-FitsString c.model t.model;
  device_version = cut-FitsString version (is_ascii_text-IsText version refl);
  serial_number = cut-FitsString c.serial t.serial;
}

build_device_info-device_info_wire :
    (c : VirtualDeviceConfig) → build_device_info c ≡ ok (device_info_wire (described c) [])
unfolding build_device_info device_info_wire described cut
build_device_info-device_info_wire c =
    rw
      (
        pack_device_string-string_bytes vendor_extension,
        pack_device_string-string_bytes c.manufacturer,
        pack_device_string-string_bytes c.model,
        pack_device_string-string_bytes version,
        pack_device_string-string_bytes c.serial,
        append-nil (string_bytes (cut 0 c.serial)),
      )
      refl

described-Reports : (c : VirtualDeviceConfig) → Reports c (described c)
unfolding described supports_rename supports_upload
described-Reports c =
    let operation = λ (op : OperationCode). supports_operation-serves c (described c) op refl in
    record {
      standard_version = refl;
      vendor_extension_id = refl;
      serves_operations = operation;
      renames = operation Operation.set_object_prop_value;
      uploads = rw (operation Operation.send_object_info, operation Operation.send_object) refl;
      announces = refl;
      manufacturer = cut-IsCut c.manufacturer;
      model = cut-IsCut c.model;
      serial = cut-IsCut c.serial;
    }

-- A host can parse the DeviceInfo dataset that the virtual device builds from a configuration whose
-- strings hold no NUL. Of every operation code it then knows that the device supports it exactly
-- when it is one of the 15 operations of every virtual device, or one of the four optional ones and
-- the configuration's flag for it is up; so it can rename exactly if the configuration says so, and
-- upload. It knows the three events, and it reads of each of the configuration's strings the longest
-- beginning within 254 UTF-16 units.
pub parse_device_info-build_device_info :
    (c : VirtualDeviceConfig)
    → IsNamed c
    → (d : DeviceInfo) × ((build_device_info c >>= parse_device_info) ≡ ok d) × Reports c d
parse_device_info-build_device_info c t = (
  described c,
  rw (build_device_info-device_info_wire c)
      (parse_device_info-device_info_wire (described c) [] (described-FitsDeviceInfo c t)),
  described-Reports c,
)
