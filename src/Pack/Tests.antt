-- ===== src/Pack/Tests.antt =====
-- The theorems on strings and arrays at concrete inputs.
use mtp_rs.Prelude.{◌≡◌, [], ◌∷◌, ◌++◌, length, arith}
use mtp_rs.Error.{ok}
use mtp_rs.Pack.Slice.{Bytes}
use mtp_rs.Pack.Text.{pack_string, unpack_string, unpack_string-pack_string}
use mtp_rs.Pack.Array.{FitsArray, pack_array, unpack_array, unpack_array-pack_array}
use mtp_rs.Pack.Samples.{text, text-FitsString}

unpack_string-pack_string_example :
    (bytes : Bytes) × (pack_string text ≡ ok bytes)
    × (unpack_string (bytes ++ 1 ∷ []) ≡ ok (text, length bytes))
unpack_string-pack_string_example = unpack_string-pack_string text (1 ∷ []) text-FitsString

pair-FitsArray : FitsArray 2 (0x1001 ∷ 0x1002 ∷ [])
pair-FitsArray = record {
  count_fits = omega arith;
  elements_fit = (omega arith, (omega arith, tt));
}

unpack_array-pack_array_example :
    unpack_array 2 (pack_array 2 (0x1001 ∷ 0x1002 ∷ []) ++ 9 ∷ [])
    ≡ ok (0x1001 ∷ 0x1002 ∷ [], length (pack_array 2 (0x1001 ∷ 0x1002 ∷ [])))
unpack_array-pack_array_example =
    unpack_array-pack_array 2 (0x1001 ∷ 0x1002 ∷ []) (9 ∷ []) pair-FitsArray
