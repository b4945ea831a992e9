-- ===== src/VirtualDevice/Builders.antt =====
-- The DeviceInfo dataset of crates/mtp-rs/src/transport/virtual_device/builders.rs.
pub mod Strings
pub mod Supported
pub mod Reported
pub mod Described
use mtp_rs.Prelude.{ℕ, ◌+◌, Bool, List, [], ◌∷◌, ◌++◌, map, ltb, if◌then◌else◌}
use mtp_rs.Codes.Operation
use mtp_rs.Codes.Operation.{OperationCode}
use mtp_rs.Codes.Event
use mtp_rs.Codes.Event.{EventCode}
use mtp_rs.Codes.Format
use mtp_rs.Codes.Format.{ObjectFormatCode}
use mtp_rs.Error.{Result, ok, err, panic, ◌>>=◌}
use mtp_rs.Pack.Slice.{Bytes}
use mtp_rs.Pack.Utf16.{Str}
use mtp_rs.Pack.Word.{pack_u16, pack_u32}
use mtp_rs.Pack.Text.{pack_string, max_string_units}
use mtp_rs.Pack.Array.{pack_u16_array}

-- What `build_device_info` reads of the configuration.
pub record VirtualDeviceConfig : Type 0 where
  pub manufacturer : Str
  pub model : Str
  pub serial : Str
  pub supports_rename : Bool
  pub supports_partial_object_64 : Bool
  pub supports_partial_object : Bool
  pub supports_object_prop_list : Bool

-- `char::len_utf16`
abbrev pub len_utf16 : ℕ → ℕ
len_utf16 c = if ltb c 0x10000 then 1 else 2

-- The search of `pack_device_string`: the characters before the first one that is too much, when
-- `units` are used up.
unfoldable pub cut : (units : ℕ) → Str → Str
cut units [] = []
cut units (c ∷ s) =
    let used = units + len_utf16 c in
    let rest = cut used s in if ltb max_string_units used then [] else c ∷ rest

-- `Result::expect`
abbrev pub expect : Result Bytes → Result Bytes
expect (ok bytes) = ok bytes
expect (err e) = panic
expect panic = panic

unfoldable pub pack_device_string : Str → Result Bytes
pack_device_string s = expect (pack_string (cut 0 s))

-- "microsoft.com: 1.0"
abbrev pub vendor_extension : Str
vendor_extension =
    109 ∷ 105 ∷ 99 ∷ 114 ∷ 111 ∷ 115 ∷ 111 ∷ 102 ∷ 116 ∷ 46 ∷ 99 ∷ 111 ∷ 109 ∷ 58 ∷ 32 ∷ 49 ∷ 46
    ∷ 48 ∷ []

-- "1.0.0"
abbrev pub version : Str
version = 49 ∷ 46 ∷ 48 ∷ 46 ∷ 48 ∷ []

-- `if supported { ops.push(op); }`
abbrev pub push_if : Bool → OperationCode → List OperationCode
push_if supported op = if supported then op ∷ [] else []

unfoldable pub operations : VirtualDeviceConfig → List OperationCode
operations c =
    Operation.get_device_info
    ∷ Operation.open_session
    ∷ Operation.close_session
    ∷ Operation.get_storage_ids
    ∷ Operation.get_storage_info
    ∷ Operation.get_object_handles
    ∷ Operation.get_object_info
    ∷ Operation.get_object
    ∷ Operation.get_thumb
    ∷ Operation.send_object_info
    ∷ Operation.send_object
    ∷ Operation.delete_object
    ∷ Operation.move_object
    ∷ Operation.copy_object
    ∷ Operation.get_object_prop_value
    ∷ (push_if c.supports_partial_object Operation.get_partial_object
        ++ (push_if c.supports_partial_object_64 Operation.get_partial_object64
            ++ (push_if c.supports_rename Operation.set_object_prop_value
                ++ push_if c.supports_object_prop_list Operation.get_object_prop_list)))

abbrev pub events : List EventCode
events = Event.object_added ∷ Event.object_removed ∷ Event.storage_info_changed ∷ []

abbrev pub playback : List ObjectFormatCode
playback =
    Format.undefined ∷ Format.association ∷ Format.text ∷ Format.jpeg ∷ Format.png ∷ Format.mp3
    ∷ Format.mp4_container ∷ []

unfoldable pub build_device_info : VirtualDeviceConfig → Result Bytes
build_device_info c = do
  vendor ← pack_device_string vendor_extension
  manufacturer ← pack_device_string c.manufacturer
  model ← pack_device_string c.model
  device_version ← pack_device_string version
  serial ← pack_device_string c.serial
  ok (
      pack_u16 100
      ++ (pack_u32 6
          ++ (pack_u16 100
              ++ (vendor
                  ++ (pack_u16 0
                      ++ (pack_u16_array (map Operation.to_code (operations c))
                          ++ (pack_u16_array (map Event.to_code events)
                              ++ (pack_u16_array []
                                  ++ (pack_u16_array []
                                      ++ (pack_u16_array (map Format.to_code playback)
                                          ++ (manufacturer
                                              ++ (model ++ (device_version ++ serial)))))))))))))
