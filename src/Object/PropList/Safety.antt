-- ===== src/Object/PropList/Safety.antt =====
-- Parsing a property list never panics, and yields as many elements as the dataset announces.
use mtp_rs.Prelude.{
  ℕ, zero, suc, ◌+◌, ◌*◌, ◌≤◌, ◌≡◌, refl, Option, none, some, length, drop, leb, ltb, ltb→le, ◌&&◌,
  arith,
}
use mtp_rs.Codes.DataType
use mtp_rs.Codes.DataType.{PropertyDataType, byte_size}
use mtp_rs.Error.{Message}
use mtp_rs.Error.Ensures.{
  Ensures, returns, fails, Ensures-bind, Ensures-if, Ensures-reject_if, Ensures-weaken,
}
use mtp_rs.Pack.Slice.{Bytes, length-drop}
use mtp_rs.Pack.Word.{unpack_word-Ensures}
use mtp_rs.Property.Safety.{parse_value-Ensures}
use mtp_rs.Object.PropList.{
  list_from_bytes, parse_elements, read_listed, read_single, skip_array, or_invalid, array_bytes,
}

or_invalid-Ensures : (o : Option ℕ) (m : Message) → Ensures (λ _. Unit {0}) (or_invalid o m)
unfolding or_invalid
or_invalid-Ensures (some n) m = returns tt
or_invalid-Ensures none m = fails

read_single-Ensures :
    (t : PropertyDataType) (rest : Bytes) → Ensures (λ _. Unit {0}) (read_single t rest)
unfolding read_single
read_single-Ensures PropertyDataType.int128 rest = returns tt
read_single-Ensures PropertyDataType.uint128 rest = returns tt
read_single-Ensures PropertyDataType.undefined rest = returns tt
read_single-Ensures t rest = Ensures-bind (parse_value-Ensures rest t) λ r _. returns tt

read_listed-Ensures :
    (type_code : ℕ) (rest : Bytes) → Ensures (λ _. Unit {0}) (read_listed type_code rest)
unfolding read_listed skip_array
read_listed-Ensures type_code rest =
    Ensures-if (leb 0x4001 type_code && leb type_code 0x400A)
      (λ _. Ensures-bind (or_invalid-Ensures _ _) λ size _.
        Ensures-bind (unpack_word-Ensures 4 rest)
          λ n _. Ensures-bind (or_invalid-Ensures (array_bytes n size) _) λ len _. returns tt)
      λ _. read_single-Ensures (DataType.from_code type_code) rest

-- Each element takes its eight bytes of header, within the buffer.
parse_elements-Ensures :
    (buf : Bytes) (left offset : ℕ)
    → offset ≤ length buf
    → Ensures
        (λ es. (length es ≡ left) × (offset + 8 * left ≤ length buf))
        (parse_elements buf left offset)
unfolding parse_elements
parse_elements-Ensures buf zero offset h = returns (refl, omega arith)
parse_elements-Ensures buf (suc left) offset h =
    Ensures-bind (unpack_word-Ensures 4 (drop offset buf)) λ handle k.
      Ensures-bind (unpack_word-Ensures 2 _) λ property _.
        Ensures-bind (unpack_word-Ensures 2 (drop 6 (drop offset buf))) λ type_code k2.
          Ensures-bind (read_listed-Ensures type_code (drop (offset + 8) buf)) λ r _.
            Ensures-reject_if (ltb (length (drop (offset + 8) buf)) r.1) _ λ e.
              let fits = ltb→le _ _ e in
              let inside : offset + 8 + r.1 ≤ length buf = omega (
                arith,
                length-drop offset buf,
                length-drop 6 (drop offset buf),
                length-drop (offset + 8) buf,
              ) in
              Ensures-bind (parse_elements-Ensures buf left (offset + 8 + r.1) inside)
                λ es l. returns (omega (arith, l.0), omega (arith, l.1))

-- Every buffer is a property list or an error: parsing one never panics, and a list that is parsed
-- has no more elements than eighths of the buffer, whatever count the buffer announces.
pub list_from_bytes-Ensures :
    (buf : Bytes) → Ensures (λ es. 4 + 8 * length es ≤ length buf) (list_from_bytes buf)
unfolding list_from_bytes
list_from_bytes-Ensures buf = Ensures-bind (unpack_word-Ensures 4 buf) λ count k.
    Ensures-weaken (λ es l. omega (arith, l.0, l.1)) (parse_elements-Ensures buf count 4 k)
