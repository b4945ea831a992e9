-- ===== src/Session/Operations/Property.antt =====
-- The operations on device properties of crates/mtp-rs/src/ptp/session/properties.rs.
use mtp_rs.Prelude.{ℕ, [], ◌∷◌}
use mtp_rs.Codes.Operation.{OperationCode}
use mtp_rs.Codes.DataType.{PropertyDataType}
use mtp_rs.Codes.DeviceProperty
use mtp_rs.Codes.DeviceProperty.{DevicePropertyCode}
use mtp_rs.Pack.Slice.{Bytes}
use mtp_rs.Property.{PropertyValue, value_bytes, parse_value, DevicePropDesc, parse_desc}
use mtp_rs.Session.{Session}
use mtp_rs.Session.Io.{Transport, Io, ◌>>=◌, pure, lift}
use mtp_rs.Session.Operations.{ask, store, fetch}

module _ {S : Type 0} (t : Transport S) where
  unfoldable pub get_device_prop_desc :
      (fuel : ℕ) → DevicePropertyCode → Io (Session S) DevicePropDesc
  get_device_prop_desc fuel property = do
    bytes ← fetch t fuel OperationCode.get_device_prop_desc (DeviceProperty.to_code property ∷ [])
    lift (parse_desc bytes)

  unfoldable pub get_device_prop_value : (fuel : ℕ) → DevicePropertyCode → Io (Session S) Bytes
  get_device_prop_value fuel property =
      fetch t fuel OperationCode.get_device_prop_value (DeviceProperty.to_code property ∷ [])

  unfoldable pub get_device_prop_value_typed :
      (fuel : ℕ) → DevicePropertyCode → PropertyDataType → Io (Session S) PropertyValue
  get_device_prop_value_typed fuel property data_type = do
    bytes ← get_device_prop_value fuel property
    read ← lift (parse_value bytes data_type)
    pure (read.0)

  unfoldable pub set_device_prop_value : DevicePropertyCode → Bytes → Io (Session S) (Unit {0})
  set_device_prop_value property value = do
    _ ← store t OperationCode.set_device_prop_value (DeviceProperty.to_code property ∷ []) value
    pure tt

  unfoldable pub set_device_prop_value_typed :
      DevicePropertyCode → PropertyValue → Io (Session S) (Unit {0})
  set_device_prop_value_typed property value = do
    bytes ← lift (value_bytes value)
    set_device_prop_value property bytes

  unfoldable pub reset_device_prop_value : DevicePropertyCode → Io (Session S) (Unit {0})
  reset_device_prop_value property = do
    _ ← ask t OperationCode.reset_device_prop_value (DeviceProperty.to_code property ∷ [])
    pure tt
