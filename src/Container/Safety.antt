-- ===== src/Container/Safety.antt =====
-- Every buffer is a container or an error: no slice or index is out of range.
use mtp_rs.Prelude.{
  ℕ, ◌+◌, ◌-◌, ◌*◌, ◌/◌, ◌%◌, ◌≤◌, ltb, ltb→le, Option, none, some, length, arith, not, ◌==◌,
}
use mtp_rs.Container.{
  header_size, parse_header, parse_data, parse_response, ContainerType, container_type,
  from_type_code, ok_or_invalid_type,
}
use mtp_rs.Error.Ensures.{Ensures, returns, fails, Ensures-bind, Ensures-reject_if}
use mtp_rs.Pack.Slice.{Bytes, slice-Ensures}
use mtp_rs.Pack.Word.{unpack_word-Ensures}
use mtp_rs.Pack.Array.{unpack_elements-Ensures}

parse_header-Ensures : (buf : Bytes) → Ensures (λ h. header_size ≤ length buf) (parse_header buf)
unfolding parse_header
parse_header-Ensures buf = Ensures-reject_if (ltb (length buf) header_size) _ λ e.
    let enough = ltb→le _ _ e in
    Ensures-bind (slice-Ensures buf 0 4 (omega arith) (omega arith)) λ _ _.
      Ensures-bind (unpack_word-Ensures 4 _) λ _ _.
        Ensures-bind (slice-Ensures buf 4 6 (omega arith) (omega arith)) λ _ _.
          Ensures-bind (unpack_word-Ensures 2 _) λ _ _.
            Ensures-bind (slice-Ensures buf 6 8 (omega arith) (omega arith)) λ _ _.
              Ensures-bind (unpack_word-Ensures 2 _) λ _ _.
                Ensures-bind (slice-Ensures buf 8 12 (omega arith) (omega arith))
                  λ _ _. Ensures-bind (unpack_word-Ensures 4 _) λ _ _. returns enough

pub container_type-Ensures :
    (buf : Bytes) → Ensures (λ t. header_size ≤ length buf) (container_type buf)
unfolding container_type
container_type-Ensures buf = Ensures-reject_if (ltb (length buf) header_size) _ λ e.
    let enough = ltb→le _ _ e in
    Ensures-bind (slice-Ensures buf 4 6 (omega arith) (omega arith)) λ _ _.
      Ensures-bind (unpack_word-Ensures 2 _) λ code _. known (from_type_code code) code enough
  where
    known :
        (t : Option ContainerType) (code : ℕ)
        → header_size ≤ length buf
        → Ensures (λ t. header_size ≤ length buf) (ok_or_invalid_type t code)
    known none code h = fails
    known (some t) code h = returns h

pub parse_data-Ensures :
    (buf : Bytes) → Ensures (λ c. header_size + length c.payload ≤ length buf) (parse_data buf)
unfolding parse_data
parse_data-Ensures buf = Ensures-bind (parse_header-Ensures buf) λ h _.
    Ensures-reject_if (not (h.kind == 2)) _ λ _.
      Ensures-reject_if (ltb h.total_length header_size) _ λ e.
        Ensures-reject_if (ltb (length buf) h.total_length) _ λ e'.
          let lo = ltb→le _ _ e in
          let hi = ltb→le _ _ e' in
          Ensures-bind (slice-Ensures buf header_size h.total_length lo hi)
            λ payload k. returns (omega arith)

pub parse_response-Ensures :
    (buf : Bytes)
    → Ensures (λ r. header_size + length r.params * 4 ≤ length buf) (parse_response buf)
unfolding parse_response
parse_response-Ensures buf = Ensures-bind (parse_header-Ensures buf) λ h _.
    Ensures-reject_if (not (h.kind == 3)) _ λ _.
      Ensures-reject_if (ltb h.total_length header_size) _ λ e.
        Ensures-reject_if (ltb (length buf) h.total_length) _ λ e'.
          Ensures-reject_if (not ((h.total_length - header_size) % 4 == 0)) _ λ _.
            let lo = ltb→le _ _ e in
            let hi = ltb→le _ _ e' in
            let count = (h.total_length - header_size) / 4 in
            Ensures-bind (unpack_elements-Ensures 4 header_size buf count 0 (omega arith))
              λ params k. returns (omega arith)
