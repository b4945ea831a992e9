-- ===== src/Pack/Utf8.antt =====
-- `str::as_bytes`: the UTF-8 encoding of a string.
use mtp_rs.Prelude.{ℕ, ◌+◌, ◌/◌, ◌%◌, [], ◌∷◌, flat, ltb, if◌then◌else◌}
use mtp_rs.Pack.Slice.{Bytes}
use mtp_rs.Pack.Utf16.{Str}

unfoldable pub encode_utf8_char : ℕ → Bytes
encode_utf8_char c =
    if ltb c 0x80
    then c ∷ []
    else if ltb c 0x800
    then (0xC0 + c / 0x40) ∷ (0x80 + c % 0x40) ∷ []
    else if ltb c 0x10000
    then (0xE0 + c / 0x1000) ∷ (0x80 + c / 0x40 % 0x40) ∷ (0x80 + c % 0x40) ∷ []
    else (0xF0 + c / 0x40000)
      ∷ (0x80 + c / 0x1000 % 0x40)
      ∷ (0x80 + c / 0x40 % 0x40)
      ∷ (0x80 + c % 0x40)
      ∷ []

unfoldable pub as_bytes : Str → Bytes
unfolding encode_utf8_char
as_bytes s = flat encode_utf8_char s
