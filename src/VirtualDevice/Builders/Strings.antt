-- ===== src/VirtualDevice/Builders/Strings.antt =====
-- The strings that the virtual device cuts.
use mtp_rs.Prelude.{
  ℕ, ◌+◌, ◌≤◌, ◌<◌, ◌≡◌, refl, Bool, true, [], ◌∷◌, length, ltb, All, length-append, Bool-cases,
  inl, inr, arith, flat, ◌&&◌,
}
use mtp_rs.Error.{ok}
use mtp_rs.Pack.Utf16.{Str, IsChar, encode_char, encode_utf16}
use mtp_rs.Pack.Text.{FitsString, string_bytes, max_string_units, pack_string-string_bytes}
use mtp_rs.VirtualDevice.Builders.{len_utf16, cut, pack_device_string}

-- A string that does not hold the character that ends strings on the wire.
pub record IsText (s : Str) : Type 0 where
  pub chars : All IsChar s
  pub no_nul : All (λ c. 0 < c) s

pub length-encode_char : (c : ℕ) → length (encode_char c) ≡ len_utf16 c
unfolding encode_char
length-encode_char c = ground arith

cut-units :
    (units : ℕ) (s : Str)
    → units ≤ max_string_units
    → units + length (encode_utf16 (cut units s)) ≤ max_string_units
unfolding cut encode_utf16
cut-units units [] h = omega arith
cut-units units (c ∷ s) h = elim (Bool-cases (ltb max_string_units (units + len_utf16 c))) [
  | inl full ↦ rw full (omega arith)
  | inr room ↦
      let later = cut-units (units + len_utf16 c) s (ground arith) in
      rw room (
        omega (
          arith,
          later,
          length-encode_char c,
          length-append (encode_char c) (flat encode_char (cut (units + len_utf16 c) s)),
        ))
]

cut-All : (P : ℕ → Type 0) (units : ℕ) (s : Str) → All P s → All P (cut units s)
unfolding cut
cut-All P units [] h = tt
cut-All P units (c ∷ s) h = elim (Bool-cases (ltb max_string_units (units + len_utf16 c))) [
  | inl full ↦ rw full tt
  | inr room ↦ rw room (h.0, cut-All P (units + len_utf16 c) s h.1)
]

pub cut_units_fit : (s : Str) → length (encode_utf16 (cut 0 s)) ≤ max_string_units
cut_units_fit s = omega (arith, cut-units 0 s (omega arith))

pub cut-FitsString : (s : Str) → IsText s → FitsString (cut 0 s)
cut-FitsString s t = record {
  chars = cut-All IsChar 0 s t.chars;
  no_nul = cut-All (λ c. 0 < c) 0 s t.no_nul;
  units_fit = cut_units_fit s;
}

pub pack_device_string-string_bytes : (s : Str) → pack_device_string s ≡ ok (string_bytes (cut 0 s))
unfolding pack_device_string
pack_device_string-string_bytes s = rw (pack_string-string_bytes (cut 0 s) (cut_units_fit s)) refl

abbrev pub is_ascii_text : Str → Bool
is_ascii_text [] = true
is_ascii_text (c ∷ s) = (ltb 0 c && ltb c 128) && is_ascii_text s

pub is_ascii_text-IsText : (s : Str) → is_ascii_text s ≡ true → IsText s
is_ascii_text-IsText [] e = record { chars = tt; no_nul = tt }
is_ascii_text-IsText (c ∷ s) e =
    let later = is_ascii_text-IsText s (ground arith) in
    let bound : (0 < c) × (c < 128) = ground arith in
    record { chars = (inl (omega (arith, bound.1)), later.chars); no_nul = (bound.0, later.no_nul) }
