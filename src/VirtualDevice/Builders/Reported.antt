-- ===== src/VirtualDevice/Builders/Reported.antt =====
-- What the host reads of the virtual device's DeviceInfo, said without the builder.
use mtp_rs.Prelude.{
  ℕ, ◌+◌, ◌≤◌, ◌<◌, ◌≡◌, refl, Bool, true, false, [], ◌∷◌, ◌++◌, length, flat, ltb, ap, Bool-cases,
  inl, inr, length-append, arith,
}
use mtp_rs.Codes.Operation
use mtp_rs.Codes.Operation.{OperationCode, OperationCode-discrete}
use mtp_rs.Codes.Event
use mtp_rs.Pack.Utf16.{Str, encode_char, encode_utf16}
use mtp_rs.Device.{
  DeviceInfo, supports_operation, supports_rename, supports_upload, is_operation, any,
}
use mtp_rs.VirtualDevice.Builders.{VirtualDeviceConfig, operations, cut, len_utf16}
use mtp_rs.VirtualDevice.Builders.Strings.{length-encode_char, cut_units_fit}

-- The operations that a device with this configuration serves.
abbrev pub serves : (partial partial_64 rename prop_list : Bool) → OperationCode → Bool
serves partial partial_64 rename prop_list Operation.get_device_info = true
serves partial partial_64 rename prop_list Operation.open_session = true
serves partial partial_64 rename prop_list Operation.close_session = true
serves partial partial_64 rename prop_list Operation.get_storage_ids = true
serves partial partial_64 rename prop_list Operation.get_storage_info = true
serves partial partial_64 rename prop_list Operation.get_object_handles = true
serves partial partial_64 rename prop_list Operation.get_object_info = true
serves partial partial_64 rename prop_list Operation.get_object = true
serves partial partial_64 rename prop_list Operation.get_thumb = true
serves partial partial_64 rename prop_list Operation.send_object_info = true
serves partial partial_64 rename prop_list Operation.send_object = true
serves partial partial_64 rename prop_list Operation.delete_object = true
serves partial partial_64 rename prop_list Operation.move_object = true
serves partial partial_64 rename prop_list Operation.copy_object = true
serves partial partial_64 rename prop_list Operation.get_object_prop_value = true
serves partial partial_64 rename prop_list Operation.get_partial_object = partial
serves partial partial_64 rename prop_list Operation.get_partial_object64 = partial_64
serves partial partial_64 rename prop_list Operation.set_object_prop_value = rename
serves partial partial_64 rename prop_list Operation.get_object_prop_list = prop_list
serves partial partial_64 rename prop_list _ = false

abbrev config : Str → Str → Str → (partial partial_64 rename prop_list : Bool) → VirtualDeviceConfig
config manufacturer model serial partial partial_64 rename prop_list = record {
  manufacturer = manufacturer;
  model = model;
  serial = serial;
  supports_rename = rename;
  supports_partial_object_64 = partial_64;
  supports_partial_object = partial;
  supports_object_prop_list = prop_list;
}

operations-serves :
    (m n k : Str) (a b c d : Bool) (op : OperationCode)
    → any (λ x. is_operation x op) (operations (config m n k a b c d)) ≡ serves a b c d op
unfolding operations is_operation OperationCode-discrete
operations-serves m n k true true true true (Operation.unknown code) = refl
operations-serves m n k true true true true _ = refl
operations-serves m n k true true true false (Operation.unknown code) = refl
operations-serves m n k true true true false _ = refl
operations-serves m n k true true false true (Operation.unknown code) = refl
operations-serves m n k true true false true _ = refl
operations-serves m n k true true false false (Operation.unknown code) = refl
operations-serves m n k true true false false _ = refl
operations-serves m n k true false true true (Operation.unknown code) = refl
operations-serves m n k true false true true _ = refl
operations-serves m n k true false true false (Operation.unknown code) = refl
operations-serves m n k true false true false _ = refl
operations-serves m n k true false false true (Operation.unknown code) = refl
operations-serves m n k true false false true _ = refl
operations-serves m n k true false false false (Operation.unknown code) = refl
operations-serves m n k true false false false _ = refl
operations-serves m n k false true true true (Operation.unknown code) = refl
operations-serves m n k false true true true _ = refl
operations-serves m n k false true true false (Operation.unknown code) = refl
operations-serves m n k false true true false _ = refl
operations-serves m n k false true false true (Operation.unknown code) = refl
operations-serves m n k false true false true _ = refl
operations-serves m n k false true false false (Operation.unknown code) = refl
operations-serves m n k false true false false _ = refl
operations-serves m n k false false true true (Operation.unknown code) = refl
operations-serves m n k false false true true _ = refl
operations-serves m n k false false true false (Operation.unknown code) = refl
operations-serves m n k false false true false _ = refl
operations-serves m n k false false false true (Operation.unknown code) = refl
operations-serves m n k false false false true _ = refl
operations-serves m n k false false false false (Operation.unknown code) = refl
operations-serves m n k false false false false _ = refl

pub supports_operation-serves :
    (c : VirtualDeviceConfig) (d : DeviceInfo) (op : OperationCode)
    → d.operations_supported ≡ operations c
    → supports_operation d op
      ≡ serves c.supports_partial_object c.supports_partial_object_64 c.supports_rename
          c.supports_object_prop_list op
unfolding supports_operation
supports_operation-serves c d op e = rw e (
    operations-serves c.manufacturer c.model c.serial c.supports_partial_object
      c.supports_partial_object_64 c.supports_rename c.supports_object_prop_list op)

-- `t` is the longest beginning of `s` whose characters take at most 254 UTF-16 units.
pub record IsCut (s t : Str) : Type 0 where
  pub rest : Str
  pub whole : s ≡ t ++ rest
  pub fits : length (encode_utf16 t) ≤ 254
  pub longest :
      (c : ℕ) (later : Str) → rest ≡ c ∷ later → 254 < length (encode_utf16 (t ++ (c ∷ [])))

record CutFrom (units : ℕ) (s t : Str) : Type 0 where
  rest : Str
  whole : s ≡ t ++ rest
  longest :
      (c : ℕ) (later : Str) → rest ≡ c ∷ later → 254 < units + length (encode_utf16 (t ++ (c ∷ [])))

cut-CutFrom : (units : ℕ) (s : Str) → CutFrom units s (cut units s)
unfolding cut encode_utf16
cut-CutFrom units [] = record { rest = []; whole = refl; longest = λ c later e. absurd cc }
cut-CutFrom units (c ∷ s) = elim (Bool-cases (ltb 254 (units + len_utf16 c))) [
  | inl full ↦ rw full (record {
    rest = c ∷ s;
    whole = refl;
    longest = λ c' later e.
        let same : c ≡ c' = cc in
        let more : 254 < units + len_utf16 c = ground arith in
        omega (
          arith,
          more,
          length-encode_char c',
          ap len_utf16 same,
          length-append (encode_char c') [],
        );
  })
  | inr room ↦
      let k = cut-CutFrom (units + len_utf16 c) s in
      rw room (record {
        rest = k.rest;
        whole = ap (λ (l : Str). c ∷ l) k.whole;
        longest = λ c' later e. omega (
          arith,
          k.longest c' later e,
          length-encode_char c,
          length-append (encode_char c)
              (flat encode_char (cut (units + len_utf16 c) s ++ (c' ∷ []))),
        );
      })
]

pub cut-IsCut : (s : Str) → IsCut s (cut 0 s)
cut-IsCut s =
    let k = cut-CutFrom 0 s in
    record {
      rest = k.rest;
      whole = k.whole;
      fits = cut_units_fit s;
      longest = λ c later e. omega (arith, k.longest c later e);
    }

-- What the host knows of the device: its operations by the predicates that the host asks.
pub record Reports (c : VirtualDeviceConfig) (d : DeviceInfo) : Type 0 where
  pub standard_version : d.standard_version ≡ 100
  pub vendor_extension_id : d.vendor_extension_id ≡ 6
  pub serves_operations :
      (op : OperationCode)
      → supports_operation d op
        ≡ serves c.supports_partial_object c.supports_partial_object_64 c.supports_rename
            c.supports_object_prop_list op
  pub renames : supports_rename d ≡ c.supports_rename
  pub uploads : supports_upload d ≡ true
  pub announces :
      d.events_supported
      ≡ Event.object_added ∷ Event.object_removed ∷ Event.storage_info_changed ∷ []
  pub manufacturer : IsCut c.manufacturer d.manufacturer
  pub model : IsCut c.model d.model
  pub serial : IsCut c.serial d.serial_number
