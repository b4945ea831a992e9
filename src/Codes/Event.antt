-- ===== src/Codes/Event.antt =====
-- `EventCode` of crates/mtp-rs/src/ptp/codes.rs.
use mtp_rs.Prelude.{ℕ, ◌<◌, ◌^◌, ◌≡◌, refl, ap, Bool, true, false, List, [], ◌∷◌, arith}
use mtp_rs.Codes.NumEnum.{from_primitive, into-from_primitive, IsCode}

pub data EventCode : Type 0 where
  cancel_transaction object_added object_removed store_added store_removed : EventCode
  device_prop_changed object_info_changed device_info_changed : EventCode
  storage_info_changed capture_complete : EventCode
  unknown : ℕ → EventCode

-- The declared discriminants.
unfoldable pub to_code : EventCode → ℕ
to_code cancel_transaction = 0x4001
to_code object_added = 0x4002
to_code object_removed = 0x4003
to_code store_added = 0x4004
to_code store_removed = 0x4005
to_code device_prop_changed = 0x4006
to_code object_info_changed = 0x4007
to_code device_info_changed = 0x4008
to_code storage_info_changed = 0x400C
to_code capture_complete = 0x400D
to_code (unknown code) = code

variants : List EventCode
variants =
    cancel_transaction ∷ object_added ∷ object_removed ∷ store_added ∷ store_removed
    ∷ device_prop_changed ∷ object_info_changed ∷ device_info_changed ∷ storage_info_changed
    ∷ capture_complete ∷ []

unfoldable pub from_code : ℕ → EventCode
unfolding variants to_code
from_code = from_primitive to_code unknown variants

abbrev pub is_named : EventCode → Bool
is_named (unknown code) = false
is_named _ = true

pub to_code-from_code : (code : ℕ) → to_code (from_code code) ≡ code
unfolding from_code
to_code-from_code = into-from_primitive to_code unknown (λ code. refl) variants

pub from_code-to_code : (v : EventCode) → is_named v ≡ true → from_code (to_code v) ≡ v
unfolding from_code
from_code-to_code (unknown code) h = cc
from_code-to_code _ h = refl

pub to_code-lt : (v : EventCode) → is_named v ≡ true → to_code v < 2 ^ 16
unfolding to_code
to_code-lt (unknown code) h = cc
to_code-lt _ h = omega arith

pub from_code-IsCode : (code : ℕ) → code < 2 ^ 16 → IsCode to_code from_code (from_code code)
from_code-IsCode code h = record {
  in_range = rw (to_code-from_code code) h;
  decodes = ap from_code (to_code-from_code code);
}
