-- ===== src/Codes/Operation.antt =====
-- `OperationCode` of crates/mtp-rs/src/ptp/codes.rs.
use mtp_rs.Prelude.{ℕ, ◌<◌, ◌^◌, ◌≡◌, refl, ap, Bool, true, false, List, [], ◌∷◌, arith}
use native.Mathlib.Decide.{ℕ_discrete}
use mtp_rs.Codes.NumEnum.{from_primitive, into-from_primitive, IsCode}

pub data OperationCode : Type 0 where
  get_device_info open_session close_session get_storage_ids get_storage_info : OperationCode
  get_num_objects get_object_handles get_object_info get_object get_thumb : OperationCode
  delete_object send_object_info send_object initiate_capture format_store : OperationCode
  reset_device self_test set_object_protection power_down get_device_prop_desc : OperationCode
  get_device_prop_value set_device_prop_value reset_device_prop_value : OperationCode
  terminate_open_capture move_object copy_object get_partial_object : OperationCode
  initiate_open_capture get_object_props_supported get_object_prop_desc : OperationCode
  get_object_prop_value set_object_prop_value get_object_prop_list : OperationCode
  set_object_prop_list get_object_references set_object_references : OperationCode
  get_partial_object64 : OperationCode
  unknown : ℕ → OperationCode

-- The declared discriminants.
unfoldable pub to_code : OperationCode → ℕ
to_code get_device_info = 0x1001
to_code open_session = 0x1002
to_code close_session = 0x1003
to_code get_storage_ids = 0x1004
to_code get_storage_info = 0x1005
to_code get_num_objects = 0x1006
to_code get_object_handles = 0x1007
to_code get_object_info = 0x1008
to_code get_object = 0x1009
to_code get_thumb = 0x100A
to_code delete_object = 0x100B
to_code send_object_info = 0x100C
to_code send_object = 0x100D
to_code initiate_capture = 0x100E
to_code format_store = 0x100F
to_code reset_device = 0x1010
to_code self_test = 0x1011
to_code set_object_protection = 0x1012
to_code power_down = 0x1013
to_code get_device_prop_desc = 0x1014
to_code get_device_prop_value = 0x1015
to_code set_device_prop_value = 0x1016
to_code reset_device_prop_value = 0x1017
to_code terminate_open_capture = 0x1018
to_code move_object = 0x1019
to_code copy_object = 0x101A
to_code get_partial_object = 0x101B
to_code initiate_open_capture = 0x101C
to_code get_object_props_supported = 0x9801
to_code get_object_prop_desc = 0x9802
to_code get_object_prop_value = 0x9803
to_code set_object_prop_value = 0x9804
to_code get_object_prop_list = 0x9805
to_code set_object_prop_list = 0x9806
to_code get_object_references = 0x9810
to_code set_object_references = 0x9811
to_code get_partial_object64 = 0x95C1
to_code (unknown code) = code

variants : List OperationCode
variants =
    get_device_info ∷ open_session ∷ close_session ∷ get_storage_ids ∷ get_storage_info
    ∷ get_num_objects ∷ get_object_handles ∷ get_object_info ∷ get_object ∷ get_thumb
    ∷ delete_object ∷ send_object_info ∷ send_object ∷ initiate_capture ∷ format_store
    ∷ reset_device ∷ self_test ∷ set_object_protection ∷ power_down ∷ get_device_prop_desc
    ∷ get_device_prop_value ∷ set_device_prop_value ∷ reset_device_prop_value
    ∷ terminate_open_capture ∷ move_object ∷ copy_object ∷ get_partial_object
    ∷ initiate_open_capture ∷ get_object_props_supported ∷ get_object_prop_desc
    ∷ get_object_prop_value ∷ set_object_prop_value ∷ get_object_prop_list ∷ set_object_prop_list
    ∷ get_object_references ∷ set_object_references ∷ get_partial_object64 ∷ []

unfoldable pub from_code : ℕ → OperationCode
unfolding variants to_code
from_code = from_primitive to_code unknown variants

abbrev pub is_named : OperationCode → Bool
is_named (unknown code) = false
is_named _ = true

pub to_code-from_code : (code : ℕ) → to_code (from_code code) ≡ code
unfolding from_code
to_code-from_code = into-from_primitive to_code unknown (λ code. refl) variants

pub from_code-to_code : (v : OperationCode) → is_named v ≡ true → from_code (to_code v) ≡ v
unfolding from_code
from_code-to_code (unknown code) h = cc
from_code-to_code _ h = refl

pub to_code-lt : (v : OperationCode) → is_named v ≡ true → to_code v < 2 ^ 16
unfolding to_code
to_code-lt (unknown code) h = cc
to_code-lt _ h = omega arith

pub from_code-IsCode : (code : ℕ) → code < 2 ^ 16 → IsCode to_code from_code (from_code code)
from_code-IsCode code h = record {
  in_range = rw (to_code-from_code code) h;
  decodes = ap from_code (to_code-from_code code);
}

-- `operation == OperationCode::CloseSession`
unfoldable pub is_close_session : OperationCode → Bool
is_close_session close_session = true
is_close_session _ = false

-- The derived `PartialEq`.
unfoldable pub OperationCode-discrete : Discrete OperationCode
OperationCode-discrete = hlevel ℕ_discrete
