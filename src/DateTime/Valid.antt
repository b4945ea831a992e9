-- ===== src/DateTime/Valid.antt =====
-- What `DateTime::is_valid` means.
use mtp_rs.Prelude.{
  ℕ, ◌+◌, ◌*◌, ◌≤◌, ◌<◌, ◌≡◌, refl, subst, Bool, true, false, not, ◌&&◌, ◌||◌, [], ◌∷◌, Option,
  none, some, length, take, drop, ltb, ltb→lt, ◌==◌, if◌then◌else◌, arith,
}
use mtp_rs.Prelude.Int.{ℤ, pos, negsuc}
use mtp_rs.Pack.Slice.{Bytes}
use mtp_rs.Pack.Utf16.{Str}
use mtp_rs.Pack.Utf8.{as_bytes}
use mtp_rs.DateTime.{
  UtcOffset, DateTime, days_in_month, is_valid, new, from_minutes, parse_digits, parse_offset,
  parse_zone, skip_tenths, parse_suffix, parse_bytes, parse, part, narrow, has_separator, negated,
  magnitude, ◌>>=◌,
}

-- What `UtcOffset` keeps: at most 23:59 either way.
abbrev pub OffsetInRange : Option UtcOffset → Type 0
OffsetInRange none = Unit
OffsetInRange (some o) = magnitude o.minutes < 1440

-- The fields are in range, and the day is within the month's real length.
pub record FieldsInRange (dt : DateTime) : Type 0 where
  pub year : dt.year ≤ 9999
  pub month_pos : 1 ≤ dt.month
  pub month : dt.month ≤ 12
  pub day_pos : 1 ≤ dt.day
  pub day : dt.day ≤ days_in_month dt.year dt.month
  pub hour : dt.hour ≤ 23
  pub minute : dt.minute ≤ 59
  pub second : dt.second ≤ 59

pub days_in_month_bounds :
    (year month : ℕ)
    → 0 < days_in_month year month
    → (1 ≤ month) × (month ≤ 12) × (28 ≤ days_in_month year month) × (days_in_month year month ≤ 31)
unfolding days_in_month
days_in_month_bounds year month h = ground arith

pub is_valid-FieldsInRange : (dt : DateTime) → is_valid dt ≡ true → FieldsInRange dt
unfolding is_valid
is_valid-FieldsInRange dt h = ground (arith, days_in_month_bounds dt.year dt.month)

pub FieldsInRange-is_valid : (dt : DateTime) → FieldsInRange dt → is_valid dt ≡ true
unfolding is_valid
FieldsInRange-is_valid dt h = ground arith

-- Whatever the computation yields has the property.
record Yields {ℓ κ} {A : Type ℓ} (Q : A → Type κ) (o : Option A) : Type (ℓ ⊔ κ) where
  at : (a : A) → o ≡ some a → Q a

module _ {ℓ κ} {A : Type ℓ} {B : Type ℓ} {Q : B → Type κ} where
  Yields-bind :
      (m : Option A) (f : A → Option B)
      → ((a : A) → m ≡ some a → Yields Q (f a))
      → Yields Q (m >>= f)
  Yields-bind none f h = record { at = λ b e. absurd (cc) }
  Yields-bind (some a) f h = h a refl

module _ {ℓ κ} {A : Type ℓ} {Q : A → Type κ} where
  Yields-some : (a : A) → Q a → Yields Q (some a)
  Yields-some a q = record { at = λ b e. let same : a ≡ b = cc in subst Q same q }

  Yields-none : Yields Q none
  Yields-none = record { at = λ b e. absurd (cc) }

  Yields-if :
      (b : Bool) {m n : Option A}
      → (b ≡ true → Yields Q m)
      → (b ≡ false → Yields Q n)
      → Yields Q (if b then m else n)
  Yields-if true h k = h refl
  Yields-if false h k = k refl

from_minutes-Yields : (m : ℤ) → Yields (λ o. magnitude o.minutes < 1440) (from_minutes m)
unfolding from_minutes
from_minutes-Yields (pos n) =
    Yields-if (ltb n 1440) (λ e. Yields-some _ (ltb→lt _ _ e)) (λ _. Yields-none)
from_minutes-Yields (negsuc n) =
    Yields-if (ltb (n + 1) 1440) (λ e. Yields-some _ (ltb→lt _ _ e)) (λ _. Yields-none)

parse_offset-Yields :
    (sign : ℕ) (hhmm : Bytes) → Yields (λ o. magnitude o.minutes < 1440) (parse_offset sign hhmm)
unfolding parse_offset
parse_offset-Yields sign hhmm =
    Yields-if (ltb (length hhmm) 2) (λ _. Yields-none)
      λ _. Yields-bind (parse_digits 2 (take 2 hhmm)) _ λ hours _.
        Yields-bind (parse_digits 2 (drop 2 hhmm)) _ λ minutes _.
          Yields-if (ltb 23 hours || ltb 59 minutes) (λ _. Yields-none)
            λ _.
              from_minutes-Yields (
                if sign == b'-' then negated (hours * 60 + minutes) else pos (hours * 60 + minutes))

parse_zone-Yields : (tail : Bytes) → Yields OffsetInRange (parse_zone tail)
unfolding parse_zone
parse_zone-Yields [] = Yields-some none tt
parse_zone-Yields (sign ∷ hhmm) =
    Yields-if (length hhmm == 0 && sign == b'Z') (λ _. Yields-some _ (omega arith))
      λ _.
        Yields-if (sign == b'+' || sign == b'-')
          (λ _.
            Yields-bind (parse_offset sign hhmm) _
              λ o e. Yields-some (some o) ((parse_offset-Yields sign hhmm).at o e))
          (λ _. Yields-none)

new-Yields :
    (year month day hour minute second : ℕ)
    → Yields (λ dt. is_valid dt ≡ true) (new year month day hour minute second)
unfolding new
new-Yields year month day hour minute second =
    Yields-if (is_valid _) (λ e. Yields-some _ e) (λ _. Yields-none)

parse_bytes-Yields :
    (b : Bytes) → Yields (λ dt. FieldsInRange dt × OffsetInRange dt.offset) (parse_bytes b)
unfolding parse_bytes parse_suffix
parse_bytes-Yields b =
    Yields-if (ltb (length b) 15 || not (has_separator (drop 8 b))) (λ _. Yields-none)
      λ _. Yields-bind (parse_digits 4 (part b 0 4)) _ λ year _.
        Yields-bind (parse_digits 2 (part b 4 6) >>= narrow) _ λ month _.
          Yields-bind (parse_digits 2 (part b 6 8) >>= narrow) _ λ day _.
            Yields-bind (parse_digits 2 (part b 9 11) >>= narrow) _ λ hour _.
              Yields-bind (parse_digits 2 (part b 11 13) >>= narrow) _ λ minute _.
                Yields-bind (parse_digits 2 (part b 13 15) >>= narrow) _ λ second _.
                  Yields-bind (new year month day hour minute second) _ λ dt e.
                    Yields-bind (parse_suffix (drop 15 b)) _ λ offset k.
                      let v =
                        is_valid-FieldsInRange dt
                          ((new-Yields year month day hour minute second).at dt e) in
                      Yields-some (record dt { offset = offset })
                        (
                          assumption,
                          (Yields-bind (skip_tenths (drop 15 b)) _
                                λ rest _. parse_zone-Yields rest).at
                              offset k,
                        )

-- Whatever string is parsed, a datetime that comes out has its fields in range and a day within
-- the length of its month, and its offset is at most 23:59 either way.
pub parse_sound :
    (s : Str) (dt : DateTime) → parse s ≡ some dt → FieldsInRange dt × OffsetInRange dt.offset
unfolding parse
parse_sound s dt e = (parse_bytes-Yields (as_bytes s)).at dt e
