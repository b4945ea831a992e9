-- ===== src/Object/SetProperty/Frame.antt =====
-- What `ObjectInfo::set_property` of crates/mtp-rs/src/ptp/types/objects.rs leaves behind.
use mtp_rs.Prelude.{
  ℕ, ◌<◌, ◌^◌, ◌≡◌, refl, Bool, true, false, Option, none, some, leb, if◌then◌else◌, arith,
}
use mtp_rs.Codes.NumEnum.{IsCode}
use mtp_rs.Codes.ObjectProperty.{
  ObjectPropertyCode, object_file_name, date_created, date_modified, object_size, storage_id,
  parent_object, object_format, protection_status,
}
use mtp_rs.Codes.Format
use mtp_rs.Codes.Format.{ObjectFormatCode}
use mtp_rs.Codes.Storage.Protection.{ProtectionStatus}
use mtp_rs.Codes.Storage.Protection
use mtp_rs.Pack.Utf16.{Str}
use mtp_rs.Pack.Text.{FitsString}
use mtp_rs.Property.{
  PropertyValue, int8, int16, int32, int64, uint8, uint16, uint32, uint64, string,
}
use mtp_rs.DateTime.{DateTime, parse}
use mtp_rs.DateTime.Valid.{parse_sound, FieldsInRange-is_valid}
use mtp_rs.Object.{ObjectInfo, u32_max}
use mtp_rs.Object.RoundTrip.{FitsDate, FitsObjectInfo}
use mtp_rs.Object.SetProperty.{
  set_property, set_string, set_number, set_unsigned, unsigned, u16_max,
}

-- An update either keeps the object or says that it changed it, and the object stays fit.
record Stays (o : ObjectInfo) (r : ObjectInfo × Bool) : Type 0 where
  pub unchanged : r.1 ≡ false → r.0 ≡ o
  pub fits : FitsObjectInfo o → FitsObjectInfo r.0

refused : (o : ObjectInfo) → Stays o (o, false)
refused o = record { unchanged = λ _. refl; fits = λ h. h }

Stays-if :
    (o o' : ObjectInfo) (b : Bool)
    → (b ≡ true → FitsObjectInfo o → FitsObjectInfo o')
    → Stays o (if b then (o', true) else (o, false))
Stays-if o o' true f = record { unchanged = λ e. cc; fits = f refl }
Stays-if o o' false f = refused o

parse-FitsDate : (s : Str) → FitsDate (parse s)
parse-FitsDate s = split (parse s) refl
  where
    split : (d : Option DateTime) → parse s ≡ d → FitsDate d
    split none e = tt
    split (some dt) e =
        let (fields, offset) = parse_sound s dt e in (FieldsInRange-is_valid dt fields, offset)

-- The fields that an update can change.
abbrev update :
    (o : ObjectInfo) (storage size parent : ℕ) (format : ObjectFormatCode)
    (protection : ProtectionStatus) (filename : Str) (created modified : Option DateTime)
    → ObjectInfo
update o storage size parent format protection filename created modified = record o {
  storage_id = storage;
  format = format;
  protection_status = protection;
  size = size;
  parent = parent;
  filename = filename;
  created = created;
  modified = modified;
}

update-Fits :
    {o : ObjectInfo} {storage size parent : ℕ} {format : ObjectFormatCode}
    {protection : ProtectionStatus} {filename : Str} {created modified : Option DateTime}
    → FitsObjectInfo o
    → storage < 2 ^ 32
    → parent < 2 ^ 32
    → IsCode Format.to_code Format.from_code format
    → IsCode Protection.to_code Protection.from_code protection
    → FitsString filename
    → FitsDate created
    → FitsDate modified
    → FitsObjectInfo (update o storage size parent format protection filename created modified)
update-Fits f s p c b n d m = record {
  storage_id = s;
  format = c;
  protection_status = b;
  thumb_format = f.thumb_format;
  thumb_size = f.thumb_size;
  thumb_width = f.thumb_width;
  thumb_height = f.thumb_height;
  image_width = f.image_width;
  image_height = f.image_height;
  image_bit_depth = f.image_bit_depth;
  parent = p;
  association_type = f.association_type;
  association_desc = f.association_desc;
  sequence_number = f.sequence_number;
  filename = n;
  created = d;
  modified = m;
  keywords = f.keywords;
}

set_string-Stays :
    (property : ObjectPropertyCode) (s : Str) (o : ObjectInfo)
    → FitsString s
    → Stays o (set_string property s o)
unfolding set_string
set_string-Stays object_file_name s o h =
    Stays-if o (record o { filename = s }) true
      λ _ f. update-Fits f f.storage_id f.parent f.format f.protection_status h f.created f.modified
set_string-Stays date_created s o h =
    Stays-if o (record o { created = parse s }) true
      λ _ f.
        update-Fits f f.storage_id f.parent f.format f.protection_status f.filename
          (parse-FitsDate s) f.modified
set_string-Stays date_modified s o h =
    Stays-if o (record o { modified = parse s }) true
      λ _ f.
        update-Fits f f.storage_id f.parent f.format f.protection_status f.filename f.created
          (parse-FitsDate s)
set_string-Stays _ s o h = refused o

below_code : (n : ℕ) → leb n u16_max ≡ true → n < 2 ^ 16
below_code n e = ground arith

below_id : (n : ℕ) → leb n u32_max ≡ true → n < 2 ^ 32
below_id n e = ground arith

set_number-Stays :
    (property : ObjectPropertyCode) (n : ℕ) (o : ObjectInfo) → Stays o (set_number property n o)
unfolding set_number
set_number-Stays object_size n o =
    Stays-if o (record o { size = n }) true
      λ _ f.
        update-Fits f f.storage_id f.parent f.format f.protection_status f.filename f.created
          f.modified
set_number-Stays storage_id n o =
    Stays-if o (record o { storage_id = n }) (leb n u32_max)
      λ e f.
        update-Fits f (below_id n e) f.parent f.format f.protection_status f.filename f.created
          f.modified
set_number-Stays parent_object n o =
    Stays-if o (record o { parent = n }) (leb n u32_max)
      λ e f.
        update-Fits f f.storage_id (below_id n e) f.format f.protection_status f.filename f.created
          f.modified
set_number-Stays object_format n o =
    Stays-if o (record o { format = Format.from_code n }) (leb n u16_max)
      λ e f.
        let code = Format.from_code-IsCode n (below_code n e) in
        update-Fits f f.storage_id f.parent code f.protection_status f.filename f.created f.modified
set_number-Stays protection_status n o =
    Stays-if o (record o { protection_status = Protection.from_code n }) (leb n u16_max)
      λ e f.
        let code = Protection.from_code-IsCode n (below_code n e) in
        update-Fits f f.storage_id f.parent f.format code f.filename f.created f.modified
set_number-Stays _ n o = refused o

-- The strings that a value can carry.
abbrev pub FitsText : PropertyValue → Type 0
FitsText (string s) = FitsString s
FitsText _ = Unit

pub record Keeps (v : PropertyValue) (o : ObjectInfo) (r : ObjectInfo × Bool) : Type 0 where
  pub unchanged : r.1 ≡ false → r.0 ≡ o
  pub fits : FitsText v → FitsObjectInfo o → FitsObjectInfo r.0

any_text : {v : PropertyValue} {o : ObjectInfo} {r : ObjectInfo × Bool} → Stays o r → Keeps v o r
any_text h = record { unchanged = h.unchanged; fits = λ t. h.fits }

set_string_unchanged :
    (property : ObjectPropertyCode) (s : Str) (o : ObjectInfo)
    → (set_string property s o).1 ≡ false
    → (set_string property s o).0 ≡ o
unfolding set_string
set_string_unchanged object_file_name s o e = absurd cc
set_string_unchanged date_created s o e = absurd cc
set_string_unchanged date_modified s o e = absurd cc
set_string_unchanged _ s o e = refl

pub set_property-Keeps :
    (property : ObjectPropertyCode) (v : PropertyValue) (o : ObjectInfo)
    → Keeps v o (set_property property v o)
unfolding set_property set_unsigned unsigned
set_property-Keeps property (uint8 n) o = any_text (set_number-Stays property n o)
set_property-Keeps property (uint16 n) o = any_text (set_number-Stays property n o)
set_property-Keeps property (uint32 n) o = any_text (set_number-Stays property n o)
set_property-Keeps property (uint64 n) o = any_text (set_number-Stays property n o)
set_property-Keeps property (int8 n) o = any_text (refused o)
set_property-Keeps property (int16 n) o = any_text (refused o)
set_property-Keeps property (int32 n) o = any_text (refused o)
set_property-Keeps property (int64 n) o = any_text (refused o)
set_property-Keeps property (string s) o = record {
  unchanged = set_string_unchanged property s o;
  fits = λ h. (set_string-Stays property s o h).fits;
}
