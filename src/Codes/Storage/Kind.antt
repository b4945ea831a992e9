-- ===== src/Codes/Storage/Kind.antt =====
-- `StorageType` of crates/mtp-rs/src/ptp/types/storage.rs.
use mtp_rs.Prelude.{ℕ, ◌<◌, ◌^◌, ◌≡◌, refl, ap, Bool, true, false, List, [], ◌∷◌, arith}
use mtp_rs.Codes.NumEnum.{from_primitive, into-from_primitive, IsCode}

pub data StorageType : Type 0 where
  undefined fixed_rom removable_rom fixed_ram removable_ram : StorageType
  unknown : ℕ → StorageType

-- The declared discriminants.
unfoldable pub to_code : StorageType → ℕ
to_code undefined = 0
to_code fixed_rom = 1
to_code removable_rom = 2
to_code fixed_ram = 3
to_code removable_ram = 4
to_code (unknown code) = code

variants : List StorageType
variants = undefined ∷ fixed_rom ∷ removable_rom ∷ fixed_ram ∷ removable_ram ∷ []

unfoldable pub from_code : ℕ → StorageType
unfolding variants to_code
from_code = from_primitive to_code unknown variants

abbrev pub is_named : StorageType → Bool
is_named (unknown code) = false
is_named _ = true

pub to_code-from_code : (code : ℕ) → to_code (from_code code) ≡ code
unfolding from_code
to_code-from_code = into-from_primitive to_code unknown (λ code. refl) variants

pub from_code-to_code : (v : StorageType) → is_named v ≡ true → from_code (to_code v) ≡ v
unfolding from_code
from_code-to_code (unknown code) h = cc
from_code-to_code _ h = refl

pub to_code-lt : (v : StorageType) → is_named v ≡ true → to_code v < 2 ^ 16
unfolding to_code
to_code-lt (unknown code) h = cc
to_code-lt _ h = omega arith

pub from_code-IsCode : (code : ℕ) → code < 2 ^ 16 → IsCode to_code from_code (from_code code)
from_code-IsCode code h = record {
  in_range = rw (to_code-from_code code) h;
  decodes = ap from_code (to_code-from_code code);
}
