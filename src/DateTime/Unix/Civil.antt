-- ===== src/DateTime/Unix/Civil.antt =====
-- The calendar arithmetic within an era: Hinnant's formulas undo one another.
use mtp_rs.Prelude.{
  ℕ, ◌+◌, ◌-◌, ◌*◌, ◌/◌, ◌%◌, ◌≤◌, ◌<◌, ◌≡◌, refl, true, Bool-cases, inl, inr, ltb→lt, ltb→le, ap,
  ◌∙◌, ltb, leb, if◌then◌else◌, arith,
}
use mtp_rs.Prelude.Int.{
  ℤ, pos, negsuc, ◌+ℤ◌, ◌-ℤ◌, ◌*ℤ◌, +ℤ_parts, -ℤ_parts, *ℤ_parts, eq_of_parts, div_euclid,
  rem_euclid,
}
use mtp_rs.DateTime.Unix.Euclid.{Divides, division_400, divide_146097}
use mtp_rs.DateTime.{is_leap_year, days_in_month}
use mtp_rs.DateTime.Unix.{
  shifted_year, days_from_civil, civil_from_days, day_of_year, day_of_era, year_of_era, month_of,
}

-- A date of the calendar.
pub record InCalendar (year month day : ℕ) : Type 0 where
  pub month_from : 1 ≤ month
  pub month_to : month ≤ 12
  pub day_from : 1 ≤ day
  pub day_to : day ≤ days_in_month year month

abbrev pub march_day : (month day : ℕ) → ℕ
march_day month day = day_of_year ((month + 9) % 12) day

year_of_era_common : (yoe doy : ℕ) → yoe < 400 → doy < 365 → year_of_era (day_of_era yoe doy) ≡ yoe
year_of_era_common yoe doy h l = omega arith

-- The last day of a year that ends in a leap February.
year_of_era_leap :
    (yoe : ℕ) → yoe < 400 → is_leap_year (yoe + 1) ≡ true → year_of_era (day_of_era yoe 365) ≡ yoe
unfolding is_leap_year
year_of_era_leap yoe h l = ground arith

module _ (year month day : ℕ) (date : InCalendar year month day) where
  -- The month and the day of the days of a year from March on.
  month_again : month_of ((5 * march_day month day + 2) / 153) ≡ month
  unfolding days_in_month
  month_again = ground arith

  day_again : march_day month day - (153 * ((5 * march_day month day + 2) / 153) + 2) / 5 + 1 ≡ day
  unfolding days_in_month
  day_again = ground arith

  pub march_day-le : march_day month day ≤ 365
  unfolding days_in_month
  march_day-le = ground arith

  march_day_last : march_day month day ≡ 365 → (month ≡ 2) × (is_leap_year year ≡ true)
  unfolding days_in_month
  march_day_last h = ground arith

-- The year of the era, counted from March.
pub leap_shift :
    (year yoe : ℕ) (era : ℤ)
    → Divides 400 (pos year -ℤ pos 1) era yoe
    → is_leap_year (yoe + 1) ≡ is_leap_year year
unfolding is_leap_year
leap_shift year yoe (pos e) h =
    let parts = -ℤ_parts (pos year) (pos 1) in
    let m4 : (yoe + 1) % 4 ≡ year % 4 = omega (arith, parts) in
    let m100 : (yoe + 1) % 100 ≡ year % 100 = omega (arith, parts) in
    let m400 : (yoe + 1) % 400 ≡ year % 400 = omega (arith, parts) in rw (m4, m100, m400) refl
leap_shift year yoe (negsuc e) h =
    let parts = -ℤ_parts (pos year) (pos 1) in
    let m4 : (yoe + 1) % 4 ≡ year % 4 = omega (arith, parts) in
    let m100 : (yoe + 1) % 100 ≡ year % 100 = omega (arith, parts) in
    let m400 : (yoe + 1) % 400 ≡ year % 400 = omega (arith, parts) in rw (m4, m100, m400) refl

-- The era and the year in it of a date.
module _ (year month day : ℕ) (date : InCalendar year month day) where
  date_yoe : ℕ
  date_yoe = rem_euclid (shifted_year year month) 400

  year_again : year_of_era (day_of_era date_yoe (march_day month day)) ≡ date_yoe
  unfolding date_yoe
  year_again = elim (Bool-cases (ltb (march_day month day) 365)) [
    | inl common ↦
        year_of_era_common date_yoe (march_day month day) (division_400 (shifted_year year month)).0
          (ltb→lt _ _ common)
    | inr last_day ↦
        let last : march_day month day ≡ 365 =
          omega (arith, march_day-le year month day date, ltb→le _ _ last_day) in
        let (february, leap) = march_day_last year month day date last in
        let shift : shifted_year year month ≡ pos year -ℤ pos 1 = rw february refl in
        rw last (
          year_of_era_leap date_yoe (division_400 (shifted_year year month)).0 (
            rw shift (
              leap_shift year _ (div_euclid (pos year -ℤ pos 1) 400)
                (division_400 (pos year -ℤ pos 1)).1
              ∙ leap)))
  ]

  date_year :
      pos date_yoe
        +ℤ div_euclid (shifted_year year month) 400 *ℤ 400
        +ℤ pos (if leb month 2 then 1 else 0)
      ≡ pos year
  unfolding date_yoe
  date_year = elim (Bool-cases (leb month 2)) [
    | inl early ↦
        let era = div_euclid (pos year -ℤ pos 1) 400 in
        let yoe = rem_euclid (pos year -ℤ pos 1) 400 in
        rw early (
          eq_of_parts _ _ (
            omega (
              arith,
              -ℤ_parts (pos year) (pos 1),
              (division_400 (pos year -ℤ pos 1)).1,
              *ℤ_parts era 400,
              +ℤ_parts (pos yoe) (era *ℤ 400),
              +ℤ_parts (pos yoe +ℤ era *ℤ 400) (pos 1),
            )))
    | inr late ↦
        let era = div_euclid (pos year) 400 in
        let yoe = rem_euclid (pos year) 400 in
        rw late (
          eq_of_parts _ _ (
            omega (
              arith,
              (division_400 (pos year)).1,
              *ℤ_parts era 400,
              +ℤ_parts (pos yoe) (era *ℤ 400),
              +ℤ_parts (pos yoe +ℤ era *ℤ 400) (pos 0),
            )))
  ]

  -- `civil_from_days` undoes `days_from_civil` on the dates of the calendar.
  pub civil_from_days-days_from_civil :
      civil_from_days (days_from_civil year month day) ≡ (pos year, month, day)
  unfolding civil_from_days days_from_civil date_yoe
  civil_from_days-days_from_civil =
      let y = shifted_year year month in
      let era = div_euclid y 400 in
      let yoe = rem_euclid y 400 in
      let doy = march_day month day in
      let doe = day_of_era yoe doy in
      let shifted = era *ℤ 146097 +ℤ pos doe -ℤ pos 719468 in
      let in_era : doe < 146097 =
        omega (arith, (division_400 y).0, march_day-le year month day date) in
      let (era_again, doe_again) = divide_146097 (shifted +ℤ pos 719468) era doe in_era (
        omega (
          arith,
          *ℤ_parts era 146097,
          +ℤ_parts (era *ℤ 146097) (pos doe),
          -ℤ_parts (era *ℤ 146097 +ℤ pos doe) (pos 719468),
          +ℤ_parts shifted (pos 719468),
        )) in
      let doy_again : doe - (365 * yoe + yoe / 4 - yoe / 100) ≡ doy = omega arith in
      rw
        (
          era_again,
          doe_again,
          year_again,
          doy_again,
          month_again year month day date,
          day_again year month day date,
        )
        (ap (λ x. (x, month, day)) date_year)
