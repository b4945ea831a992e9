-- ===== src/Codes/Storage/Access.antt =====
-- `AccessCapability` of crates/mtp-rs/src/ptp/types/storage.rs.
use mtp_rs.Prelude.{ℕ, ◌<◌, ◌^◌, ◌≡◌, refl, ap, Bool, true, false, List, [], ◌∷◌, arith}
use mtp_rs.Codes.NumEnum.{from_primitive, into-from_primitive, IsCode}

pub data AccessCapability : Type 0 where
  read_write read_only_without_deletion read_only_with_deletion : AccessCapability
  unknown : ℕ → AccessCapability

-- The declared discriminants.
unfoldable pub to_code : AccessCapability → ℕ
to_code read_write = 0
to_code read_only_without_deletion = 1
to_code read_only_with_deletion = 2
to_code (unknown code) = code

variants : List AccessCapability
variants = read_write ∷ read_only_without_deletion ∷ read_only_with_deletion ∷ []

unfoldable pub from_code : ℕ → AccessCapability
unfolding variants to_code
from_code = from_primitive to_code unknown variants

abbrev pub is_named : AccessCapability → Bool
is_named (unknown code) = false
is_named _ = true

pub to_code-from_code : (code : ℕ) → to_code (from_code code) ≡ code
unfolding from_code
to_code-from_code = into-from_primitive to_code unknown (λ code. refl) variants

pub from_code-to_code : (v : AccessCapability) → is_named v ≡ true → from_code (to_code v) ≡ v
unfolding from_code
from_code-to_code (unknown code) h = cc
from_code-to_code _ h = refl

pub to_code-lt : (v : AccessCapability) → is_named v ≡ true → to_code v < 2 ^ 16
unfolding to_code
to_code-lt (unknown code) h = cc
to_code-lt _ h = omega arith

pub from_code-IsCode : (code : ℕ) → code < 2 ^ 16 → IsCode to_code from_code (from_code code)
from_code-IsCode code h = record {
  in_range = rw (to_code-from_code code) h;
  decodes = ap from_code (to_code-from_code code);
}
