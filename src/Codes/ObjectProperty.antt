-- ===== src/Codes/ObjectProperty.antt =====
-- `ObjectPropertyCode` of crates/mtp-rs/src/ptp/codes.rs.
use mtp_rs.Prelude.{ℕ, ◌<◌, ◌^◌, ◌≡◌, refl, ap, Bool, true, false, List, [], ◌∷◌, arith}
use mtp_rs.Codes.NumEnum.{from_primitive, into-from_primitive, IsCode}

pub data ObjectPropertyCode : Type 0 where
  storage_id object_format protection_status object_size object_file_name : ObjectPropertyCode
  date_created date_modified parent_object name : ObjectPropertyCode
  unknown : ℕ → ObjectPropertyCode

-- The declared discriminants.
unfoldable pub to_code : ObjectPropertyCode → ℕ
to_code storage_id = 0xDC01
to_code object_format = 0xDC02
to_code protection_status = 0xDC03
to_code object_size = 0xDC04
to_code object_file_name = 0xDC07
to_code date_created = 0xDC08
to_code date_modified = 0xDC09
to_code parent_object = 0xDC0B
to_code name = 0xDC44
to_code (unknown code) = code

variants : List ObjectPropertyCode
variants =
    storage_id ∷ object_format ∷ protection_status ∷ object_size ∷ object_file_name ∷ date_created
    ∷ date_modified ∷ parent_object ∷ name ∷ []

unfoldable pub from_code : ℕ → ObjectPropertyCode
unfolding variants to_code
from_code = from_primitive to_code unknown variants

abbrev pub is_named : ObjectPropertyCode → Bool
is_named (unknown code) = false
is_named _ = true

pub to_code-from_code : (code : ℕ) → to_code (from_code code) ≡ code
unfolding from_code
to_code-from_code = into-from_primitive to_code unknown (λ code. refl) variants

pub from_code-to_code : (v : ObjectPropertyCode) → is_named v ≡ true → from_code (to_code v) ≡ v
unfolding from_code
from_code-to_code (unknown code) h = cc
from_code-to_code _ h = refl

pub to_code-lt : (v : ObjectPropertyCode) → is_named v ≡ true → to_code v < 2 ^ 16
unfolding to_code
to_code-lt (unknown code) h = cc
to_code-lt _ h = omega arith

pub from_code-IsCode : (code : ℕ) → code < 2 ^ 16 → IsCode to_code from_code (from_code code)
from_code-IsCode code h = record {
  in_range = rw (to_code-from_code code) h;
  decodes = ap from_code (to_code-from_code code);
}
