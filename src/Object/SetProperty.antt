-- ===== src/Object/SetProperty.antt =====
-- `ObjectInfo::set_property` of crates/mtp-rs/src/ptp/types/objects.rs.
pub mod Frame
pub mod Shown
pub mod Meaning
use mtp_rs.Prelude.{ℕ, ◌-◌, ◌^◌, Bool, true, false, Option, none, some, ltb, leb, if◌then◌else◌}
use mtp_rs.Codes.ObjectProperty.{
  ObjectPropertyCode, object_file_name, date_created, date_modified, object_size, storage_id,
  parent_object, object_format, protection_status,
}
use mtp_rs.Codes.Format
use mtp_rs.Codes.Storage.Protection
use mtp_rs.Pack.Utf16.{Str}
use mtp_rs.Property.{PropertyValue, uint8, uint16, uint32, uint64, string}
use mtp_rs.DateTime.{parse}
use mtp_rs.Object.{ObjectInfo, u32_max}

abbrev pub u16_max : ℕ
u16_max = 2 ^ 16 - 1

-- The arms for a string: the object, and whether the property was set.
unfoldable pub set_string : ObjectPropertyCode → Str → ObjectInfo → ObjectInfo × Bool
set_string object_file_name s o = (record o { filename = s }, true)
set_string date_created s o = (record o { created = parse s }, true)
set_string date_modified s o = (record o { modified = parse s }, true)
set_string _ s o = (o, false)

-- The unsigned value of any width.
unfoldable pub unsigned : PropertyValue → Option ℕ
unsigned (uint8 n) = some n
unsigned (uint16 n) = some n
unsigned (uint32 n) = some n
unsigned (uint64 n) = some n
unsigned _ = none

-- The arms for a number.
unfoldable pub set_number : ObjectPropertyCode → ℕ → ObjectInfo → ObjectInfo × Bool
set_number object_size n o = (record o { size = n }, true)
set_number storage_id n o =
    if leb n u32_max then (record o { storage_id = n }, true) else (o, false)
set_number parent_object n o = if leb n u32_max then (record o { parent = n }, true) else (o, false)
set_number object_format n o =
    if leb n u16_max then (record o { format = Format.from_code n }, true) else (o, false)
set_number protection_status n o =
    if leb n u16_max
    then (record o { protection_status = Protection.from_code n }, true)
    else (o, false)
set_number _ n o = (o, false)

set_unsigned : ObjectPropertyCode → Option ℕ → ObjectInfo → ObjectInfo × Bool
set_unsigned property (some n) o = set_number property n o
set_unsigned property none o = (o, false)

-- `ObjectInfo::set_property`
unfoldable pub set_property : ObjectPropertyCode → PropertyValue → ObjectInfo → ObjectInfo × Bool
unfolding set_unsigned
set_property property (string s) o = set_string property s o
set_property property value o = set_unsigned property (unsigned value) o
