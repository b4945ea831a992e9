-- ===== src/Property/Safety.antt =====
-- Parsing a property value, a range or a descriptor stays within the buffer.
use mtp_rs.Prelude.{ℕ, zero, suc, ◌≤◌, ◌<◌, ◌≡◌, refl, ◌≢◌, length, leb, arith}
use mtp_rs.Codes.DataType.{PropertyDataType}
use mtp_rs.Codes.DataType
use mtp_rs.Error.{panic, Message}
use mtp_rs.Error.Ensures.{
  Ensures, returns, fails, Ensures-bind, Ensures-reject_if, Ensures-weaken, Ensures-ne-panic,
}
use mtp_rs.Pack.Slice.{Bytes, slice_from-Ensures, index-Ensures}
use mtp_rs.Pack.Text.{unpack_string-Ensures}
use mtp_rs.Pack.Cursor.{StaysWithin, read_word-Ensures, read_sized-Ensures}
use mtp_rs.Pack.Word.{unpack_word-Ensures}
use mtp_rs.Property.{
  parse_value, data_type, read_value, parse_range, PropertyFormType, form_of_code, parse_form,
  no_form, unknown, range, enumeration, parse_values, read_byte, parse_desc,
}

-- Any bytes are a value of the declared type or an error, and no more is consumed than is there.
pub parse_value-Ensures :
    (buf : Bytes) (t : PropertyDataType)
    → Ensures (λ r. (r.1 ≤ length buf) × (data_type r.0 ≡ t)) (parse_value buf t)
unfolding parse_value
parse_value-Ensures buf PropertyDataType.int8 =
    Ensures-bind (Ensures-bind (unpack_word-Ensures 1 buf) λ w k. returns k)
      λ v k. returns (k, refl)
parse_value-Ensures buf PropertyDataType.uint8 =
    Ensures-bind (unpack_word-Ensures 1 buf) λ v k. returns (k, refl)
parse_value-Ensures buf PropertyDataType.int16 =
    Ensures-bind (Ensures-bind (unpack_word-Ensures 2 buf) λ w k. returns k)
      λ v k. returns (k, refl)
parse_value-Ensures buf PropertyDataType.uint16 =
    Ensures-bind (unpack_word-Ensures 2 buf) λ v k. returns (k, refl)
parse_value-Ensures buf PropertyDataType.int32 =
    Ensures-bind (Ensures-bind (unpack_word-Ensures 4 buf) λ w k. returns k)
      λ v k. returns (k, refl)
parse_value-Ensures buf PropertyDataType.uint32 =
    Ensures-bind (unpack_word-Ensures 4 buf) λ v k. returns (k, refl)
parse_value-Ensures buf PropertyDataType.int64 =
    Ensures-bind (Ensures-bind (unpack_word-Ensures 8 buf) λ w k. returns k)
      λ v k. returns (k, refl)
parse_value-Ensures buf PropertyDataType.uint64 =
    Ensures-bind (unpack_word-Ensures 8 buf) λ v k. returns (k, refl)
parse_value-Ensures buf PropertyDataType.string =
    Ensures-bind (unpack_string-Ensures buf) λ r k. let (s, n) = r in returns (k, refl)
parse_value-Ensures buf _ = fails

pub parse_value-StaysWithin : (t : PropertyDataType) → StaysWithin (λ buf. parse_value buf t)
parse_value-StaysWithin t buf = Ensures-weaken (λ r k. k.0) (parse_value-Ensures buf t)

read_value-Ensures :
    (t : PropertyDataType) (buf : Bytes) (offset : ℕ)
    → offset ≤ length buf
    → Ensures (λ r. r.1 ≤ length buf) (read_value t buf offset)
read_value-Ensures t = read_sized-Ensures (parse_value-StaysWithin t)

parse_range-Ensures :
    (buf : Bytes) (t : PropertyDataType) → Ensures (λ r. r.1 ≤ length buf) (parse_range buf t)
unfolding parse_range
parse_range-Ensures buf t = Ensures-bind (read_value-Ensures t buf 0 (omega arith)) λ r1 k1.
    Ensures-bind (read_value-Ensures t buf r1.1 k1)
      λ r2 k2. Ensures-bind (read_value-Ensures t buf r2.1 k2) λ r3 k3. returns k3

parse_values-Ensures :
    (t : PropertyDataType) (buf : Bytes) (left offset : ℕ)
    → offset ≤ length buf
    → Ensures (λ vs. length vs ≡ left) (parse_values t buf left offset)
unfolding parse_values
parse_values-Ensures t buf zero offset h = returns refl
parse_values-Ensures t buf (suc left) offset h =
    Ensures-bind (read_value-Ensures t buf offset h)
      λ r k. Ensures-bind (parse_values-Ensures t buf left r.1 k) λ vs l. returns (omega arith)

parse_form-Ensures :
    (form : PropertyFormType) (t : PropertyDataType) (buf : Bytes) (offset : ℕ)
    → offset ≤ length buf
    → Ensures (λ _. Unit {0}) (parse_form form t buf offset)
unfolding parse_form
parse_form-Ensures no_form t buf offset h = returns tt
parse_form-Ensures (unknown code) t buf offset h = returns tt
parse_form-Ensures range t buf offset h =
    Ensures-bind (slice_from-Ensures buf offset h)
      λ rest _. Ensures-bind (parse_range-Ensures rest t) λ r _. returns tt
parse_form-Ensures enumeration t buf offset h =
    Ensures-bind (read_word-Ensures 2 buf offset h)
      λ r k. Ensures-bind (parse_values-Ensures t buf r.0 r.1 k) λ vs _. returns tt

read_byte-Ensures :
    (missing : Message) (buf : Bytes) (offset : ℕ)
    → Ensures (λ r. r.1 ≤ length buf) (read_byte missing buf offset)
unfolding read_byte
read_byte-Ensures missing buf offset = Ensures-reject_if (leb (length buf) offset) _ λ e.
    let inside : offset < length buf = ground arith in
    Ensures-bind (index-Ensures buf offset inside) λ b _. returns (omega arith)

-- Every buffer is a property descriptor or an error: parsing one never panics.
pub parse_desc-ne-panic : (buf : Bytes) → parse_desc buf ≢ panic
unfolding parse_desc
parse_desc-ne-panic buf = Ensures-ne-panic {Q = λ _. Unit {0}} (
    Ensures-bind (read_word-Ensures 2 buf 0 (omega arith)) λ r1 k1.
      Ensures-bind (read_word-Ensures 2 buf r1.1 k1) λ r2 k2.
        Ensures-bind (read_byte-Ensures _ buf r2.1) λ r3 k3.
          Ensures-bind (read_value-Ensures (DataType.from_code r2.0) buf r3.1 k3) λ r4 k4.
            Ensures-bind (read_value-Ensures (DataType.from_code r2.0) buf r4.1 k4) λ r5 k5.
              Ensures-bind (read_byte-Ensures _ buf r5.1) λ r6 k6.
                Ensures-bind
                  (parse_form-Ensures (form_of_code r6.0) (DataType.from_code r2.0) buf r6.1 k6)
                  λ r7 _. returns tt)
