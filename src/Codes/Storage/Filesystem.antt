-- ===== src/Codes/Storage/Filesystem.antt =====
-- `FilesystemType` of crates/mtp-rs/src/ptp/types/storage.rs.
use mtp_rs.Prelude.{ℕ, ◌<◌, ◌^◌, ◌≡◌, refl, ap, Bool, true, false, List, [], ◌∷◌, arith}
use mtp_rs.Codes.NumEnum.{from_primitive, into-from_primitive, IsCode}

pub data FilesystemType : Type 0 where
  undefined generic_flat generic_hierarchical dcf : FilesystemType
  unknown : ℕ → FilesystemType

-- The declared discriminants.
unfoldable pub to_code : FilesystemType → ℕ
to_code undefined = 0
to_code generic_flat = 1
to_code generic_hierarchical = 2
to_code dcf = 3
to_code (unknown code) = code

variants : List FilesystemType
variants = undefined ∷ generic_flat ∷ generic_hierarchical ∷ dcf ∷ []

unfoldable pub from_code : ℕ → FilesystemType
unfolding variants to_code
from_code = from_primitive to_code unknown variants

abbrev pub is_named : FilesystemType → Bool
is_named (unknown code) = false
is_named _ = true

pub to_code-from_code : (code : ℕ) → to_code (from_code code) ≡ code
unfolding from_code
to_code-from_code = into-from_primitive to_code unknown (λ code. refl) variants

pub from_code-to_code : (v : FilesystemType) → is_named v ≡ true → from_code (to_code v) ≡ v
unfolding from_code
from_code-to_code (unknown code) h = cc
from_code-to_code _ h = refl

pub to_code-lt : (v : FilesystemType) → is_named v ≡ true → to_code v < 2 ^ 16
unfolding to_code
to_code-lt (unknown code) h = cc
to_code-lt _ h = omega arith

pub from_code-IsCode : (code : ℕ) → code < 2 ^ 16 → IsCode to_code from_code (from_code code)
from_code-IsCode code h = record {
  in_range = rw (to_code-from_code code) h;
  decodes = ap from_code (to_code-from_code code);
}
