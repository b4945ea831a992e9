-- ===== src/Object/SetProperty/Shown.antt =====
-- What an object shows of a property, and what a value asks for.
use mtp_rs.Prelude.{ℕ, ◌≡◌, ◌≢◌, refl, Bool, true, false, Option, none, some, leb, if◌then◌else◌}
use mtp_rs.Codes.ObjectProperty.{
  ObjectPropertyCode, object_file_name, date_created, date_modified, object_size, storage_id,
  parent_object, object_format, protection_status,
}
use mtp_rs.Codes.Format
use mtp_rs.Codes.Format.{ObjectFormatCode}
use mtp_rs.Codes.Storage.Association.{AssociationType}
use mtp_rs.Codes.Storage.Protection
use mtp_rs.Pack.Utf16.{Str}
use mtp_rs.Property.{PropertyValue, uint8, uint16, uint32, uint64, string}
use mtp_rs.DateTime.{DateTime, parse}
use mtp_rs.Object.{ObjectInfo}

-- What an object shows of a property.
pub data Content : Type 0 where
  number : ℕ → Content
  text : Str → Content
  date : Option DateTime → Content
  nothing : Content

unfoldable pub read_property : ObjectPropertyCode → ObjectInfo → Content
read_property object_file_name o = text o.filename
read_property date_created o = date o.created
read_property date_modified o = date o.modified
read_property object_size o = number o.size
read_property storage_id o = number o.storage_id
read_property parent_object o = number o.parent
read_property object_format o = number (Format.to_code o.format)
read_property protection_status o = number (Protection.to_code o.protection_status)
read_property _ o = nothing

-- What a value asks for, if the property can have it: a number up to the largest of its field.
abbrev pub within : (largest n : ℕ) → Option Content
within largest n = if leb n largest then some (number n) else none

unfoldable pub asked_text : ObjectPropertyCode → Str → Option Content
asked_text object_file_name s = some (text s)
asked_text date_created s = some (date (parse s))
asked_text date_modified s = some (date (parse s))
asked_text _ s = none

unfoldable pub asked_number : ObjectPropertyCode → ℕ → Option Content
asked_number object_size n = some (number n)
asked_number storage_id n = within 0xFFFFFFFF n
asked_number parent_object n = within 0xFFFFFFFF n
asked_number object_format n = within 0xFFFF n
asked_number protection_status n = within 0xFFFF n
asked_number _ n = none

unfoldable pub asked : ObjectPropertyCode → PropertyValue → Option Content
asked property (string s) = asked_text property s
asked property (uint8 n) = asked_number property n
asked property (uint16 n) = asked_number property n
asked property (uint32 n) = asked_number property n
asked property (uint64 n) = asked_number property n
asked property _ = none

-- The fields that no property names.
abbrev pub RestOfFields : Type 0
RestOfFields = (ℕ × ObjectFormatCode × ℕ × ℕ × ℕ) × (ℕ × ℕ × ℕ) × (AssociationType × ℕ × ℕ × Str)

abbrev pub rest_of : ObjectInfo → RestOfFields
rest_of o = (
  (o.handle, o.thumb_format, o.thumb_size, o.thumb_width, o.thumb_height),
  (o.image_width, o.image_height, o.image_bit_depth),
  (o.association_type, o.association_desc, o.sequence_number, o.keywords),
)

-- The outcome `r` of an update that asked for `x`: it is accepted if there is something to ask for,
-- the property then shows it, and nothing else changes.
pub record Shows (property : ObjectPropertyCode) (x : Option Content) (o : ObjectInfo)
    (r : ObjectInfo × Bool) : Type 0 where
  pub refuses : x ≡ none → r.1 ≡ false
  pub accepts : (y : Content) → x ≡ some y → r.1 ≡ true
  pub shows : (y : Content) → x ≡ some y → read_property property r.0 ≡ y
  pub others : (q : ObjectPropertyCode) → q ≢ property → read_property q r.0 ≡ read_property q o
  pub rest : rest_of r.0 ≡ rest_of o

pub Shows-none : (property : ObjectPropertyCode) (o : ObjectInfo) → Shows property none o (o, false)
Shows-none property o = record {
  refuses = λ e. refl;
  accepts = λ y e. absurd cc;
  shows = λ y e. absurd cc;
  others = λ q d. refl;
  rest = refl;
}

pub Shows-some :
    (property : ObjectPropertyCode) (x : Content) (o o' : ObjectInfo)
    → read_property property o' ≡ x
    → ((q : ObjectPropertyCode) → q ≢ property → read_property q o' ≡ read_property q o)
    → rest_of o' ≡ rest_of o
    → Shows property (some x) o (o', true)
Shows-some property x o o' here others rest = record {
  refuses = λ e. absurd cc;
  accepts = λ y e. refl;
  shows = λ y e. cc;
  others = others;
  rest = rest;
}

pub Shows-if :
    (property : ObjectPropertyCode) (x : Content) (o o' : ObjectInfo) (b : Bool)
    → Shows property (some x) o (o', true)
    → Shows property (if b then some x else none) o (if b then (o', true) else (o, false))
Shows-if property x o o' true h = h
Shows-if property x o o' false h = Shows-none property o
