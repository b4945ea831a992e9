-- ===== src/Object/PropList/RoundTrip.antt =====
-- Parsing a property list that a device serialized.
use mtp_rs.Prelude.{
  ℕ, ◌+◌, ◌^◌, ◌<◌, ◌≡◌, refl, false, List, [], ◌∷◌, ◌++◌, map, flat, All, append_assoc, length,
  length-append, drop, ltb, le→ltb, arith,
}
use mtp_rs.Codes.DataType
use mtp_rs.Codes.DataType.{PropertyDataType, byte_size}
use mtp_rs.Codes.ObjectProperty
use mtp_rs.Error.{ok}
use mtp_rs.Pack.Slice.{Bytes, At, At-zero, At-add}
use mtp_rs.Pack.Word.{le_bytes, length-le_bytes, unpack_word-le_bytes, pack_u16, pack_u32}
use mtp_rs.Object.PropList.{ObjectPropListElement, list_from_bytes, parse_elements}
use mtp_rs.Object.PropList.Wire.{
  WireValue, type_code, wire, decoded, FitsWire, At-drop, read_listed-wire, type_code-lt,
}

-- One element on the wire: handle, property code, and the value with its type.
pub record WireElement : Type 0 where
  pub handle : ℕ
  pub property : ℕ
  pub value : WireValue

pub record FitsElement (e : WireElement) : Type 0 where
  pub handle : e.handle < 2 ^ 32
  pub property : e.property < 2 ^ 16
  pub value : FitsWire e.value

abbrev pub element_wire : WireElement → Bytes
element_wire e =
    pack_u32 e.handle ++ (pack_u16 e.property ++ (pack_u16 (type_code e.value) ++ wire e.value))

-- What the host makes of it.
abbrev pub received : WireElement → ObjectPropListElement
received e = record {
  handle = e.handle;
  property = ObjectProperty.from_code e.property;
  data_type = DataType.from_code (type_code e.value);
  value = decoded e.value;
}

drop_u32 : (v : ℕ) (rest : Bytes) → drop 4 (pack_u32 v ++ rest) ≡ rest
unfolding le_bytes
drop_u32 v rest = refl

drop_u16 : (v w : ℕ) (rest : Bytes) → drop 6 (pack_u32 v ++ (pack_u16 w ++ rest)) ≡ rest
unfolding le_bytes
drop_u16 v w rest = refl

-- The header of an element, then its value.
element-At :
    (e : WireElement) {buf : Bytes} (rest : Bytes) {offset : ℕ}
    → At buf offset (element_wire e ++ rest)
    → At buf offset (
        pack_u32 e.handle
        ++ (pack_u16 e.property ++ (pack_u16 (type_code e.value) ++ (wire e.value ++ rest))))
      × At buf (offset + 8) (wire e.value ++ rest)
unfolding le_bytes
element-At e rest at = (
  at,
  At-add (pack_u32 e.handle ++ (pack_u16 e.property ++ pack_u16 (type_code e.value)))
      (wire e.value ++ rest) at,
)

parse_elements-At :
    (es : List WireElement) (buf rest : Bytes) (offset : ℕ)
    → All FitsElement es
    → At buf offset (flat element_wire es ++ rest)
    → parse_elements buf (length es) offset ≡ ok (map received es)
unfolding parse_elements
parse_elements-At [] buf rest offset h at = refl
parse_elements-At (e ∷ es) buf rest offset h at =
    let others = flat element_wire es ++ rest in
    let (head, value) =
      element-At e others (rw (append_assoc (element_wire e) (flat element_wire es) rest) at at) in
    let next = At-add (wire e.value) others value in
    let fits : ltb (length (wire e.value ++ others)) (length (wire e.value)) ≡ false =
      le→ltb _ _ (omega (arith, length-append (wire e.value) others)) in
    rw (
      At-drop offset head,
      unpack_word-le_bytes 4 e.handle _ h.0.handle,
      drop_u32,
      unpack_word-le_bytes 2 e.property _ h.0.property,
      drop_u16,
      unpack_word-le_bytes 2 (type_code e.value) (wire e.value ++ others)
          (type_code-lt e.value h.0.value),
      At-drop (offset + 8) value,
      read_listed-wire e.value others h.0.value,
      fits,
      parse_elements-At es buf rest _ h.1 next,
    )

-- A property list of fewer than 2^32 elements that fit, serialized with its count first, is parsed
-- to the same elements in the same order, whatever follows: with each value that the library
-- decodes, and with none where it steps over an array, a 128-bit number or an undefined value.
pub list_from_bytes-flat :
    (es : List WireElement) (rest : Bytes)
    → All FitsElement es
    → length es < 2 ^ 32
    → list_from_bytes (pack_u32 (length es) ++ (flat element_wire es ++ rest))
      ≡ ok (map received es)
unfolding list_from_bytes
list_from_bytes-flat es rest h few =
    let body = flat element_wire es ++ rest in
    let buf = pack_u32 (length es) ++ body in
    rw (
      unpack_word-le_bytes 4 (length es) body few,
      parse_elements-At es buf rest 4 h (
          rw (length-le_bytes 4 (length es)) at (At-add (pack_u32 (length es)) body (At-zero buf))),
    )
