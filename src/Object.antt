-- ===== src/Object.antt =====
-- crates/mtp-rs/src/ptp/types/objects.rs: the ObjectInfo dataset.
pub mod RoundTrip
pub mod Safety
pub mod SetProperty
pub mod PropList
mod Tests
use mtp_rs.Prelude.{
  ℕ, zero, suc, ◌+◌, ◌-◌, ◌<◌, ◌^◌, Bool, true, false, not, ◌||◌, List, [], ◌∷◌, ◌++◌, Option, none,
  some, ltb, if◌then◌else◌,
}
use mtp_rs.Codes.Format
use mtp_rs.Codes.Format.{ObjectFormatCode}
use mtp_rs.Codes.Storage.Protection
use mtp_rs.Codes.Storage.Protection.{ProtectionStatus}
use mtp_rs.Codes.Storage.Association
use mtp_rs.Codes.Storage.Association.{AssociationType}
use mtp_rs.Error.{Result, ok, err, ◌>>=◌}
use mtp_rs.Pack.Slice.{Bytes}
use mtp_rs.Pack.Utf16.{Str}
use mtp_rs.Pack.Text.{pack_string, unpack_string}
use mtp_rs.Pack.Cursor.{read_word, read_sized}
use mtp_rs.Pack.Word.{pack_u16, pack_u32}
use mtp_rs.DateTime.{DateTime}
use mtp_rs.DateTime.Wire.{pack_datetime, unpack_datetime}

-- Handles and storage IDs are the numbers that they wrap.
pub record ObjectInfo : Type 0 where
  pub handle : ℕ
  pub storage_id : ℕ
  pub format : ObjectFormatCode
  pub protection_status : ProtectionStatus
  pub size : ℕ
  pub thumb_format : ObjectFormatCode
  pub thumb_size : ℕ
  pub thumb_width : ℕ
  pub thumb_height : ℕ
  pub image_width : ℕ
  pub image_height : ℕ
  pub image_bit_depth : ℕ
  pub parent : ℕ
  pub association_type : AssociationType
  pub association_desc : ℕ
  pub sequence_number : ℕ
  pub filename : Str
  pub created : Option DateTime
  pub modified : Option DateTime
  pub keywords : Str

-- `ObjectInfo::from_bytes`
unfoldable pub parse_object_info : Bytes → Result ObjectInfo
parse_object_info buf = do
  (storage_id, o1) ← read_word 4 buf 0
  (format, o2) ← read_word 2 buf o1
  (protection, o3) ← read_word 2 buf o2
  (size, o4) ← read_word 4 buf o3
  (thumb_format, o5) ← read_word 2 buf o4
  (thumb_size, o6) ← read_word 4 buf o5
  (thumb_width, o7) ← read_word 4 buf o6
  (thumb_height, o8) ← read_word 4 buf o7
  (image_width, o9) ← read_word 4 buf o8
  (image_height, o10) ← read_word 4 buf o9
  (image_bit_depth, o11) ← read_word 4 buf o10
  (parent, o12) ← read_word 4 buf o11
  (association, o13) ← read_word 2 buf o12
  (association_desc, o14) ← read_word 4 buf o13
  (sequence_number, o15) ← read_word 4 buf o14
  (filename, o16) ← read_sized unpack_string buf o15
  (created, o17) ← read_sized unpack_datetime buf o16
  (modified, o18) ← read_sized unpack_datetime buf o17
  (keywords, _) ← read_sized unpack_string buf o18
  ok (record {
    handle = 0;
    storage_id = storage_id;
    format = Format.from_code format;
    protection_status = Protection.from_code protection;
    size = size;
    thumb_format = Format.from_code thumb_format;
    thumb_size = thumb_size;
    thumb_width = thumb_width;
    thumb_height = thumb_height;
    image_width = image_width;
    image_height = image_height;
    image_bit_depth = image_bit_depth;
    parent = parent;
    association_type = Association.from_code association;
    association_desc = association_desc;
    sequence_number = sequence_number;
    filename = filename;
    created = created;
    modified = modified;
    keywords = keywords;
  })

-- A date, or the empty string for an absent one.
date_bytes : Option DateTime → Result Bytes
date_bytes none = ok (0 ∷ [])
date_bytes (some dt) = pack_datetime dt

abbrev pub u32_max : ℕ
u32_max = 2 ^ 32 - 1

-- The size on the wire: capped at `u32::MAX`.
abbrev pub wire_size : ℕ → ℕ
wire_size size = if ltb u32_max size then u32_max else size

-- The fields of fixed size, in the order in which they are appended.
unfoldable pub fixed_bytes : ObjectInfo → Bytes → Bytes
fixed_bytes o rest =
    pack_u32 o.storage_id
    ++ (pack_u16 (Format.to_code o.format)
        ++ (pack_u16 (Protection.to_code o.protection_status)
            ++ (pack_u32 (wire_size o.size)
                ++ (pack_u16 (Format.to_code o.thumb_format)
                    ++ (pack_u32 o.thumb_size
                        ++ (pack_u32 o.thumb_width
                            ++ (pack_u32 o.thumb_height
                                ++ (pack_u32 o.image_width
                                    ++ (pack_u32 o.image_height
                                        ++ (pack_u32 o.image_bit_depth
                                            ++ (pack_u32 o.parent
                                                ++ (pack_u16
                                                      (Association.to_code o.association_type)
                                                    ++ (pack_u32 o.association_desc
                                                        ++ (pack_u32 o.sequence_number
                                                            ++ rest))))))))))))))

-- `ObjectInfo::to_bytes`
unfoldable pub object_info_bytes : ObjectInfo → Result Bytes
unfolding date_bytes
object_info_bytes o = do
  filename ← pack_string o.filename
  created ← date_bytes o.created
  modified ← date_bytes o.modified
  keywords ← pack_string o.keywords
  ok (fixed_bytes o (filename ++ (created ++ (modified ++ keywords))))

-- `ObjectInfo::is_folder`
unfoldable pub is_folder : ObjectInfo → Bool
is_folder o = Format.is_association o.format || Association.is_generic_folder o.association_type

-- `ObjectInfo::is_file`
unfoldable pub is_file : ObjectInfo → Bool
unfolding is_folder
is_file o = not (is_folder o)
