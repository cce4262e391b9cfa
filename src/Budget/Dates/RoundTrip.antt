-- ===== src/Budget/Dates/RoundTrip.antt =====
-- A day and its civil date, in the calendar of civil_from_days and days_from_civil.
use llm_guard_proxy.Prelude.{ℕ, ◌+◌, ◌-◌, ◌*◌, ◌/◌, ◌≤◌, ◌<◌, ◌≡◌, ◌∙◌, some, arith}
use llm_guard_proxy.Budget.Dates.{
  year_of_era, days_before, civil_of_year, civil_from_days, days_of_year, days_from_civil,
}

year_of_era_le : (doe : ℕ) → doe < 146097 → year_of_era doe ≤ 399
year_of_era_le doe h = omega (arith, h)

days_before_le : (doe : ℕ) → doe < 146097 → days_before (year_of_era doe) ≤ doe
days_before_le doe h = omega (arith, h)

day_of_year_le : (doe : ℕ) → doe < 146097 → doe ≤ 365 + days_before (year_of_era doe)
day_of_year_le doe h = omega (arith, h)

month_le : (doy : ℕ) → doy ≤ 365 → (5 * doy + 2) / 153 ≤ 11
month_le doy h = omega (arith, h)

month_start_le : (doy : ℕ) → doy ≤ 365 → (153 * ((5 * doy + 2) / 153) + 2) / 5 ≤ doy
month_start_le doy h = omega (arith, h)

month_end_le : (doy : ℕ) → doy ≤ 365 → doy ≤ 30 + (153 * ((5 * doy + 2) / 153) + 2) / 5
month_end_le doy h = omega (arith, h)

-- The parts of a day that `civil_from_days` takes it apart into make it up again.
days_of_year-back :
    (year mp doy : ℕ)
    → (153 * mp + 2) / 5 ≤ doy
    → days_of_year year mp (doy - (153 * mp + 2) / 5 + 1)
      ≡ year / 400 * 146097 + (days_before (year - year / 400 * 400) + doy)
unfolding days_of_year
days_of_year-back year mp doy h = omega (arith, h)

days_of_civil :
    (year doy : ℕ)
    → doy ≤ 365
    → days_from_civil (civil_of_year year doy)
      ≡ some (year / 400 * 146097 + (days_before (year - year / 400 * 400) + doy))
unfolding days_from_civil civil_of_year
days_of_civil year doy h = ground (
  arith,
  month_le doy h,
  month_start_le doy h,
  month_end_le doy h,
  days_of_year-back year ((5 * doy + 2) / 153) doy (month_start_le doy h),
)

year_parts :
    (yoe era : ℕ)
    → yoe ≤ 399
    → ((yoe + era * 400) / 400 ≡ era) × ((yoe + era * 400) - era * 400 ≡ yoe)
year_parts yoe era h = (omega (arith, h), omega arith)

-- The day is its era and its day of the era.
day_parts :
    (days : ℕ)
    → (days - days / 146097 * 146097 < 146097)
      × (days / 146097 * 146097 + (days - days / 146097 * 146097) ≡ days)
day_parts days = (omega arith, omega arith)

-- A day is the day of its own civil date.
pub days_from_civil-civil_from_days :
    (days : ℕ) → days_from_civil (civil_from_days days) ≡ some days
unfolding civil_from_days
days_from_civil-civil_from_days days =
    let era = days / 146097 in
    let doe = days - era * 146097 in
    let yoe = year_of_era doe in
    let small = (day_parts days).0 in
    let parts = year_parts yoe era (year_of_era_le doe small) in
    let before = days_before_le doe small in
    let total : era * 146097 + (days_before yoe + (doe - days_before yoe)) ≡ days =
      omega (arith, before, (day_parts days).1) in
    let year_end = day_of_year_le doe small in
    days_of_civil (yoe + era * 400) (doe - days_before yoe) (omega (arith, year_end))
    ∙ cc (parts.0, parts.1, total)
