-- ===== src/Pack/Samples.antt =====
-- Strings and numbers that the tests of the datasets share.
use mtp_rs.Prelude.{[], ◌∷◌, inl, inr, arith}
use mtp_rs.Pack.Utf16.{Str, encode_utf16, encode_char}
use mtp_rs.Pack.Text.{FitsString}
use mtp_rs.Pack.Array.{FitsArray}

-- "aé😀": characters of one, two and four bytes in UTF-8, the last a surrogate pair in UTF-16.
abbrev pub text : Str
text = 97 ∷ 233 ∷ 128512 ∷ []

pub text-FitsString : FitsString text
unfolding encode_utf16 encode_char
text-FitsString = record {
  chars = (inl (omega arith), (inl (omega arith), (inr (omega arith, omega arith), tt)));
  no_nul = (omega arith, (omega arith, (omega arith, tt)));
  units_fit = omega arith;
}

pub empty-FitsString : FitsString []
unfolding encode_utf16
empty-FitsString = record { chars = tt; no_nul = tt; units_fit = omega arith }

pub empty-FitsArray : FitsArray 2 []
empty-FitsArray = record { count_fits = omega arith; elements_fit = tt }
