-- ===== src/Codes/Response.antt =====
-- `ResponseCode` of crates/mtp-rs/src/ptp/codes.rs.
use mtp_rs.Prelude.{ℕ, ◌<◌, ◌^◌, ◌≡◌, refl, ap, Bool, true, false, List, [], ◌∷◌, arith}
use mtp_rs.Codes.NumEnum.{from_primitive, into-from_primitive, IsCode}

pub data ResponseCode : Type 0 where
  ok general_error session_not_open invalid_transaction_id : ResponseCode
  operation_not_supported parameter_not_supported incomplete_transfer : ResponseCode
  invalid_storage_id invalid_object_handle device_prop_not_supported : ResponseCode
  invalid_object_format_code store_full object_write_protected store_read_only : ResponseCode
  access_denied no_thumbnail_present device_busy invalid_parent_object : ResponseCode
  invalid_device_prop_format invalid_device_prop_value invalid_parameter : ResponseCode
  session_already_open transaction_cancelled object_too_large : ResponseCode
  unknown : ℕ → ResponseCode

-- The declared discriminants.
unfoldable pub to_code : ResponseCode → ℕ
to_code ok = 0x2001
to_code general_error = 0x2002
to_code session_not_open = 0x2003
to_code invalid_transaction_id = 0x2004
to_code operation_not_supported = 0x2005
to_code parameter_not_supported = 0x2006
to_code incomplete_transfer = 0x2007
to_code invalid_storage_id = 0x2008
to_code invalid_object_handle = 0x2009
to_code device_prop_not_supported = 0x200A
to_code invalid_object_format_code = 0x200B
to_code store_full = 0x200C
to_code object_write_protected = 0x200D
to_code store_read_only = 0x200E
to_code access_denied = 0x200F
to_code no_thumbnail_present = 0x2010
to_code device_busy = 0x2019
to_code invalid_parent_object = 0x201A
to_code invalid_device_prop_format = 0x201B
to_code invalid_device_prop_value = 0x201C
to_code invalid_parameter = 0x201D
to_code session_already_open = 0x201E
to_code transaction_cancelled = 0x201F
to_code object_too_large = 0xA809
to_code (unknown code) = code

variants : List ResponseCode
variants =
    ok ∷ general_error ∷ session_not_open ∷ invalid_transaction_id ∷ operation_not_supported
    ∷ parameter_not_supported ∷ incomplete_transfer ∷ invalid_storage_id ∷ invalid_object_handle
    ∷ device_prop_not_supported ∷ invalid_object_format_code ∷ store_full ∷ object_write_protected
    ∷ store_read_only ∷ access_denied ∷ no_thumbnail_present ∷ device_busy ∷ invalid_parent_object
    ∷ invalid_device_prop_format ∷ invalid_device_prop_value ∷ invalid_parameter
    ∷ session_already_open ∷ transaction_cancelled ∷ object_too_large ∷ []

unfoldable pub from_code : ℕ → ResponseCode
unfolding variants to_code
from_code = from_primitive to_code unknown variants

abbrev pub is_named : ResponseCode → Bool
is_named (unknown code) = false
is_named _ = true

pub to_code-from_code : (code : ℕ) → to_code (from_code code) ≡ code
unfolding from_code
to_code-from_code = into-from_primitive to_code unknown (λ code. refl) variants

pub from_code-to_code : (v : ResponseCode) → is_named v ≡ true → from_code (to_code v) ≡ v
unfolding from_code
from_code-to_code (unknown code) h = cc
from_code-to_code _ h = refl

pub to_code-lt : (v : ResponseCode) → is_named v ≡ true → to_code v < 2 ^ 16
unfolding to_code
to_code-lt (unknown code) h = cc
to_code-lt _ h = omega arith

pub from_code-IsCode : (code : ℕ) → code < 2 ^ 16 → IsCode to_code from_code (from_code code)
from_code-IsCode code h = record {
  in_range = rw (to_code-from_code code) h;
  decodes = ap from_code (to_code-from_code code);
}

-- `code == ResponseCode::Ok`
unfoldable pub is_ok : ResponseCode → Bool
is_ok ok = true
is_ok _ = false

-- `code == ResponseCode::DeviceBusy`
unfoldable pub is_device_busy : ResponseCode → Bool
is_device_busy device_busy = true
is_device_busy _ = false

-- `code == ResponseCode::SessionAlreadyOpen`
unfoldable pub is_session_already_open : ResponseCode → Bool
is_session_already_open session_already_open = true
is_session_already_open _ = false
