-- ===== src/DateTime/Unix/Days.antt =====
-- From a count of days to a date and back.
use mtp_rs.Prelude.{
  ℕ, ◌+◌, ◌-◌, ◌*◌, ◌/◌, ◌%◌, ◌≤◌, ◌<◌, ◌≡◌, refl, ◌∙◌, ap, sym, true, false, ltb, leb, Bool-cases,
  inl, inr, ltb→lt, ltb→le, if◌then◌else◌, arith,
}
use mtp_rs.Prelude.Int.{
  ℤ, pos, negsuc, pos_part, neg_part, ◌+ℤ◌, ◌-ℤ◌, ◌*ℤ◌, +ℤ_parts, -ℤ_parts, *ℤ_parts, eq_of_parts,
  one_part, div_euclid, rem_euclid,
}
use mtp_rs.DateTime.{is_leap_year, days_in_month}
use mtp_rs.DateTime.Unix.{
  day_of_year, day_of_era, year_of_era, month_of, shifted_year, days_from_civil, civil_from_days,
}
use mtp_rs.DateTime.Unix.Euclid.{Divides, divide_400, division_146097}
use mtp_rs.DateTime.Unix.Civil.{InCalendar, leap_shift}

abbrev yoe_of : ℕ → ℕ
yoe_of doe = year_of_era doe

abbrev doy_of : ℕ → ℕ
doy_of doe = doe - (365 * yoe_of doe + yoe_of doe / 4 - yoe_of doe / 100)

abbrev mp_of : ℕ → ℕ
mp_of doe = (5 * doy_of doe + 2) / 153

abbrev date_month : ℕ → ℕ
date_month doe = month_of (mp_of doe)

abbrev date_day : ℕ → ℕ
date_day doe = doy_of doe - (153 * mp_of doe + 2) / 5 + 1

-- The year of the era and the day in it.
module _ (doe : ℕ) (h : doe < 146097) where
  yoe-lt : yoe_of doe < 400
  yoe-lt = omega arith

  doy-le : doy_of doe ≤ 365
  doy-le = omega arith

  day_of_era_again : day_of_era (yoe_of doe) (doy_of doe) ≡ doe
  day_of_era_again = omega arith

  doy_last : doy_of doe ≡ 365 → is_leap_year (yoe_of doe + 1) ≡ true
  unfolding is_leap_year
  doy_last e = ground arith

-- The month and the day of a year that begins in March.
module _ (doy : ℕ) (h : doy ≤ 365) where
  march_again : (month_of ((5 * doy + 2) / 153) + 9) % 12 ≡ (5 * doy + 2) / 153
  march_again = ground arith

  day_of_year_again :
      day_of_year ((5 * doy + 2) / 153) (doy - (153 * ((5 * doy + 2) / 153) + 2) / 5 + 1) ≡ doy
  day_of_year_again = omega arith

  month_range : (1 ≤ month_of ((5 * doy + 2) / 153)) × (month_of ((5 * doy + 2) / 153) ≤ 12)
  month_range = ground arith

  day_range :
      (year : ℕ)
      → (doy ≡ 365 → is_leap_year year ≡ true)
      → doy - (153 * ((5 * doy + 2) / 153) + 2) / 5 + 1
        ≤ days_in_month year (month_of ((5 * doy + 2) / 153))
  unfolding days_in_month
  day_range year leap = ground arith

-- A date whose year is counted from January, over its era.
module _ (doe : ℕ) (h : doe < 146097) (era : ℤ) (year : ℕ)
    (counted : pos (yoe_of doe) +ℤ era *ℤ 400 +ℤ pos (if leb (date_month doe) 2 then 1 else 0)
      ≡ pos year) where
  counted_parts :
      pos_part (era *ℤ 400) + (yoe_of doe + (if leb (date_month doe) 2 then 1 else 0))
      ≡ neg_part (era *ℤ 400) + year
  counted_parts =
      let c : ℕ = if leb (date_month doe) 2 then 1 else 0 in
      omega (
        arith,
        ap pos_part counted,
        ap neg_part counted,
        +ℤ_parts (pos (yoe_of doe)) (era *ℤ 400),
        +ℤ_parts (pos (yoe_of doe) +ℤ era *ℤ 400) (pos c),
      )

  shifted_Divides : Divides 400 (shifted_year year (date_month doe)) era (yoe_of doe)
  shifted_Divides = elim (Bool-cases (leb (date_month doe) 2)) [
    | inl early ↦
        let e = counted_parts in
        rw early (omega (arith, rw early at e, *ℤ_parts era 400, -ℤ_parts (pos year) (pos 1)))
    | inr late ↦ let e = counted_parts in rw late (omega (arith, rw late at e, *ℤ_parts era 400))
  ]

  last_day_leap : doy_of doe ≡ 365 → is_leap_year year ≡ true
  last_day_leap last =
      let early : leb (date_month doe) 2 ≡ true =
        ap (λ (d : ℕ). leb (month_of ((5 * d + 2) / 153)) 2) last in
      let e = shifted_Divides in
      sym (leap_shift year (yoe_of doe) era (rw early at e)) ∙ doy_last doe h last

  pub date-InCalendar : InCalendar year (date_month doe) (date_day doe)
  date-InCalendar = record {
    month_from = (month_range (doy_of doe) (doy-le doe h)).0;
    month_to = (month_range (doy_of doe) (doy-le doe h)).1;
    day_from = omega arith;
    day_to = day_range (doy_of doe) (doy-le doe h) year last_day_leap;
  }

  pub days_again :
      days_from_civil year (date_month doe) (date_day doe) ≡ era *ℤ 146097 +ℤ pos doe -ℤ pos 719468
  unfolding days_from_civil
  days_again =
      let (era_again, yoe_again) =
        divide_400 (shifted_year year (date_month doe)) era (yoe_of doe) (yoe-lt doe h)
          shifted_Divides in
      rw
        (
          era_again,
          yoe_again,
          march_again (doy_of doe) (doy-le doe h),
          day_of_year_again (doy_of doe) (doy-le doe h),
          day_of_era_again doe h,
        )
        refl

-- The date of a day of the years 0 to 9999.
pub record Dated (days : ℤ) : Type 0 where
  pub year : ℕ
  pub month : ℕ
  pub day : ℕ
  pub is : civil_from_days days ≡ (pos year, month, day)
  pub year-le : year ≤ 9999
  pub date : InCalendar year month day
  pub back : days_from_civil year month day ≡ days

-- The bounds of the years by the days of the first and the last era.
early_month : (doy : ℕ) → 306 ≤ doy → doy ≤ 365 → leb (month_of ((5 * doy + 2) / 153)) 2 ≡ true
early_month doy a b = ground arith

late_month : (doy : ℕ) → doy ≤ 305 → leb (month_of ((5 * doy + 2) / 153)) 2 ≡ false
late_month doy a = ground arith

-- 1 for January and February, which belong to the year before.
abbrev carry : ℕ → ℕ
carry doe = if leb (date_month doe) 2 then 1 else 0

early_days : (doe : ℕ) → doe < 146097 → 146037 ≤ doe → yoe_of doe + carry doe ≡ 400
early_days doe h l =
    let year : yoe_of doe ≡ 399 = omega arith in
    let doy : 306 ≤ doy_of doe = omega arith in
    let early = early_month (doy_of doe) doy (doy-le doe h) in rw early (omega arith)

late_days : (doe : ℕ) → doe ≤ 146036 → yoe_of doe + carry doe ≤ 399
late_days doe l = elim (Bool-cases (ltb (doy_of doe) 306)) [
  | inl late ↦
      let month = late_month (doy_of doe) (omega (arith, ltb→lt _ _ late)) in
      rw month (omega (arith, yoe-lt doe (omega arith)))
  | inr early ↦
      let month = early_month (doy_of doe) (ltb→le _ _ early) (doy-le doe (omega arith)) in
      let doy = ltb→le (doy_of doe) 306 early in rw month (omega arith)
]

carry-le : (doe : ℕ) → carry doe ≤ 1
carry-le doe = ground arith

range_of_parts :
    (yoe c : ℕ) (era : ℤ)
    → neg_part era ≤ 1
    → (neg_part era ≡ 1 → yoe + c ≡ 400)
    → pos_part era ≤ 24
    → (pos_part era ≡ 24 → yoe + c ≤ 399)
    → yoe < 400
    → c ≤ 1
    → (neg_part (pos yoe +ℤ era *ℤ 400 +ℤ pos c) ≡ 0)
      × (pos_part (pos yoe +ℤ era *ℤ 400 +ℤ pos c) ≤ 9999)
unfolding ◌+ℤ◌ ◌*ℤ◌
range_of_parts yoe c (pos e) first first_year last last_year a b = ground arith
range_of_parts yoe c (negsuc e) first first_year last last_year a b = ground arith

-- The eras of the years 0 to 9999.
module _ (days era : ℤ) (doe : ℕ) (low : neg_part days ≤ 719528) (high : pos_part days ≤ 2932896)
    (h : doe < 146097) (split : Divides 146097 (days +ℤ pos 719468) era doe) where
  first_era : neg_part era ≤ 1
  first_era = omega (
    arith,
    one_part days,
    one_part era,
    one_part (days +ℤ pos 719468),
    +ℤ_parts days (pos 719468),
  )

  first_days : neg_part era ≡ 1 → 146037 ≤ doe
  first_days e = omega (
    arith,
    one_part days,
    one_part era,
    one_part (days +ℤ pos 719468),
    +ℤ_parts days (pos 719468),
  )

  last_era : pos_part era ≤ 24
  last_era = omega (
    arith,
    one_part days,
    one_part era,
    one_part (days +ℤ pos 719468),
    +ℤ_parts days (pos 719468),
  )

  last_days : pos_part era ≡ 24 → doe ≤ 146036
  last_days e = omega (
    arith,
    one_part days,
    one_part era,
    one_part (days +ℤ pos 719468),
    +ℤ_parts days (pos 719468),
  )

  counted_range :
      (neg_part (pos (yoe_of doe) +ℤ era *ℤ 400 +ℤ pos (carry doe)) ≡ 0)
      × (pos_part (pos (yoe_of doe) +ℤ era *ℤ 400 +ℤ pos (carry doe)) ≤ 9999)
  counted_range =
      range_of_parts (yoe_of doe) (carry doe) era first_era (λ e. early_days doe h (first_days e))
        last_era (λ e. late_days doe (last_days e)) (yoe-lt doe h) (carry-le doe)

pub civil_from_days-Dated :
    (days : ℤ) → neg_part days ≤ 719528 → pos_part days ≤ 2932896 → Dated days
unfolding civil_from_days
civil_from_days-Dated days low high =
    let z = days +ℤ pos 719468 in
    let era = div_euclid z 146097 in
    let doe = rem_euclid z 146097 in
    let (h, split) = division_146097 z in
    let counted = pos (yoe_of doe) +ℤ era *ℤ 400 +ℤ pos (carry doe) in
    let range = counted_range days era doe low high h split in
    let whole : counted ≡ pos (pos_part counted) = eq_of_parts _ _ (omega (arith, range.0)) in
    record {
      year = pos_part counted;
      month = date_month doe;
      day = date_day doe;
      is = ap (λ y. (y, date_month doe, date_day doe)) whole;
      year-le = range.1;
      date = date-InCalendar doe h era (pos_part counted) whole;
      back =
          days_again doe h era (pos_part counted) whole
          ∙ eq_of_parts _ _ (
              omega (
                arith,
                split,
                *ℤ_parts era 146097,
                +ℤ_parts days (pos 719468),
                +ℤ_parts (era *ℤ 146097) (pos doe),
                -ℤ_parts (era *ℤ 146097 +ℤ pos doe) (pos 719468),
              ));
    }
