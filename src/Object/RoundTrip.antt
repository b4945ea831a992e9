-- ===== src/Object/RoundTrip.antt =====
-- Parsing an ObjectInfo dataset that was serialized.
use mtp_rs.Prelude.{
  ℕ, ◌^◌, ◌<◌, ◌≡◌, refl, true, [], ◌∷◌, ◌++◌, Option, none, some, length, append-nil, arith,
}
use mtp_rs.Codes.NumEnum.{IsCode}
use mtp_rs.Codes.Format
use mtp_rs.Codes.Storage.Protection
use mtp_rs.Codes.Storage.Association
use mtp_rs.Error.{ok}
use mtp_rs.Pack.Slice.{Bytes, At, At-zero}
use mtp_rs.Pack.Text.{
  unpack_string, string_bytes, FitsString, pack_string-string_bytes, unpack_string-string_bytes,
}
use mtp_rs.Pack.Utf8.{as_bytes}
use mtp_rs.Pack.Cursor.{read_word-At, read_sized-At}
use mtp_rs.DateTime.{DateTime, is_valid, parse, parse_bytes}
use mtp_rs.DateTime.Valid.{OffsetInRange}
use mtp_rs.DateTime.RoundTrip.{format_text}
use mtp_rs.DateTime.Wire.{unpack_datetime, pack_datetime-format_text, unpack_datetime-format_text}
use mtp_rs.Object.{
  ObjectInfo, parse_object_info, object_info_bytes, fixed_bytes, date_bytes, wire_size,
}

-- A date that can be sent.
abbrev pub FitsDate : Option DateTime → Type 0
FitsDate none = Unit
FitsDate (some dt) = (is_valid dt ≡ true) × OffsetInRange dt.offset

-- Every field holds a value of its Rust type, the dates are valid and the strings fit.
pub record FitsObjectInfo (o : ObjectInfo) : Type 0 where
  pub storage_id : o.storage_id < 2 ^ 32
  pub format : IsCode Format.to_code Format.from_code o.format
  pub protection_status : IsCode Protection.to_code Protection.from_code o.protection_status
  pub thumb_format : IsCode Format.to_code Format.from_code o.thumb_format
  pub thumb_size : o.thumb_size < 2 ^ 32
  pub thumb_width : o.thumb_width < 2 ^ 32
  pub thumb_height : o.thumb_height < 2 ^ 32
  pub image_width : o.image_width < 2 ^ 32
  pub image_height : o.image_height < 2 ^ 32
  pub image_bit_depth : o.image_bit_depth < 2 ^ 32
  pub parent : o.parent < 2 ^ 32
  pub association_type : IsCode Association.to_code Association.from_code o.association_type
  pub association_desc : o.association_desc < 2 ^ 32
  pub sequence_number : o.sequence_number < 2 ^ 32
  pub filename : FitsString o.filename
  pub created : FitsDate o.created
  pub modified : FitsDate o.modified
  pub keywords : FitsString o.keywords

abbrev date_wire : Option DateTime → Bytes
date_wire none = 0 ∷ []
date_wire (some dt) = string_bytes (format_text dt)

date_bytes-date_wire : (d : Option DateTime) → FitsDate d → date_bytes d ≡ ok (date_wire d)
unfolding date_bytes
date_bytes-date_wire none h = refl
date_bytes-date_wire (some dt) h = pack_datetime-format_text dt h.0 h.1

unpack_datetime-date_wire :
    (d : Option DateTime) (rest : Bytes)
    → FitsDate d
    → unpack_datetime (date_wire d ++ rest) ≡ ok (d, length (date_wire d))
unfolding as_bytes
unpack_datetime-date_wire none rest h =
    unfold unpack_datetime unpack_string parse parse_bytes in refl
unpack_datetime-date_wire (some dt) rest h = unpack_datetime-format_text dt h.0 h.1 rest

wire_size-lt : (size : ℕ) → wire_size size < 2 ^ 32
wire_size-lt size = ground arith

-- What comes back: the handle is the caller's to set, and the size is what the wire can carry.
abbrev pub received : ObjectInfo → ObjectInfo
received o = record o { handle = 0; size = wire_size o.size }

parse_object_info-At :
    (o : ObjectInfo) (buf rest : Bytes)
    → FitsObjectInfo o
    → At buf 0 (
        fixed_bytes o (
          string_bytes o.filename
          ++ (date_wire o.created ++ (date_wire o.modified ++ (string_bytes o.keywords ++ rest)))))
    → parse_object_info buf ≡ ok (received o)
unfolding parse_object_info fixed_bytes
parse_object_info-At o buf rest f at =
    let (e1, at1) = read_word-At 4 o.storage_id _ f.storage_id at in
    let (e2, at2) = read_word-At 2 (Format.to_code o.format) _ f.format.in_range at1 in
    let (e3, at3) =
      read_word-At 2 (Protection.to_code o.protection_status) _ f.protection_status.in_range at2 in
    let (e4, at4) = read_word-At 4 (wire_size o.size) _ (wire_size-lt o.size) at3 in
    let (e5, at5) = read_word-At 2 (Format.to_code o.thumb_format) _ f.thumb_format.in_range at4 in
    let (e6, at6) = read_word-At 4 o.thumb_size _ f.thumb_size at5 in
    let (e7, at7) = read_word-At 4 o.thumb_width _ f.thumb_width at6 in
    let (e8, at8) = read_word-At 4 o.thumb_height _ f.thumb_height at7 in
    let (e9, at9) = read_word-At 4 o.image_width _ f.image_width at8 in
    let (e10, at10) = read_word-At 4 o.image_height _ f.image_height at9 in
    let (e11, at11) = read_word-At 4 o.image_bit_depth _ f.image_bit_depth at10 in
    let (e12, at12) = read_word-At 4 o.parent _ f.parent at11 in
    let (e13, at13) =
      read_word-At 2 (Association.to_code o.association_type) _ f.association_type.in_range at12 in
    let (e14, at14) = read_word-At 4 o.association_desc _ f.association_desc at13 in
    let (e15, at15) = read_word-At 4 o.sequence_number _ f.sequence_number at14 in
    let (e16, at16) =
      read_sized-At unpack_string o.filename (string_bytes o.filename) _
        (unpack_string-string_bytes o.filename _ f.filename) at15 in
    let (e17, at17) =
      read_sized-At unpack_datetime o.created (date_wire o.created) _
        (unpack_datetime-date_wire o.created _ f.created) at16 in
    let (e18, at18) =
      read_sized-At unpack_datetime o.modified (date_wire o.modified) _
        (unpack_datetime-date_wire o.modified _ f.modified) at17 in
    let (e19, at19) =
      read_sized-At unpack_string o.keywords (string_bytes o.keywords) rest
        (unpack_string-string_bytes o.keywords rest f.keywords) at18 in
    rw e1 (
      rw e2 (
        rw e3 (
          rw e4 (
            rw e5 (
              rw e6 (
                rw e7 (
                  rw e8 (
                    rw e9 (
                      rw e10 (
                        rw e11 (
                          rw e12 (
                            rw e13 (
                              rw e14 (
                                rw e15 (
                                  rw e16 (
                                    rw e17 (
                                      rw e18 (
                                        rw e19 (
                                          rw (
                                            f.format.decodes, f.protection_status.decodes,
                                            f.thumb_format.decodes, f.association_type.decodes,
                                          ))))))))))))))))))))

-- An object whose fields fit, whose dates are valid and whose strings PTP can carry is serialized,
-- and parsing the bytes gives the object back: the handle is 0, and a size past `u32::MAX` has
-- become `u32::MAX`.
pub parse_object_info-object_info_bytes :
    (o : ObjectInfo)
    → FitsObjectInfo o
    → (bytes : Bytes) × (object_info_bytes o ≡ ok bytes)
      × (parse_object_info bytes ≡ ok (received o))
unfolding object_info_bytes
parse_object_info-object_info_bytes o f = (
  fixed_bytes o (
      string_bytes o.filename
      ++ (date_wire o.created ++ (date_wire o.modified ++ string_bytes o.keywords))),
  rw (
    pack_string-string_bytes o.filename f.filename.units_fit,
    date_bytes-date_wire o.created f.created,
    date_bytes-date_wire o.modified f.modified,
    pack_string-string_bytes o.keywords f.keywords.units_fit,
  ),
  parse_object_info-At o _ [] f (rw append-nil (At-zero _)),
)
