-- ===== src/Budget/Dates.antt =====
-- The civil dates of crates/llm-guard-proxy-state/src/budget.rs. A day is a number from 0000-03-01 on,
-- the source's day with DAYS_FROM_CIVIL_UNIX_EPOCH added: the days and years before that, which no
-- time since the epoch has, are left out.
pub mod RoundTrip
pub mod Resets
use llm_guard_proxy.Prelude.{
  ℕ, ◌+◌, ◌-◌, ◌*◌, ◌/◌, ◌%◌, not, ◌&&◌, ◌||◌, Option, none, some, List, ◌∷◌, ◌++◌,
}
use llm_guard_proxy.Prelude.Tests.{ltb, leb, if◌then◌else◌}
use llm_guard_proxy.Prelude.Lists.{length, replicate}
use llm_guard_proxy.Prelude.Decimal.{print_unsigned}

abbrev pub days_from_civil_unix_epoch : ℕ
days_from_civil_unix_epoch = 719468

abbrev pub seconds_per_day : ℕ
seconds_per_day = 86400

-- `yoe` of `civil_from_days`
abbrev pub year_of_era : ℕ → ℕ
year_of_era doe = (doe - doe / 1460 + doe / 36524 - doe / 146096) / 365

-- The days before a year of the era.
abbrev pub days_before : ℕ → ℕ
days_before yoe = 365 * yoe + yoe / 4 - yoe / 100

pub record Civil : Type 0 where
  pub year : ℕ
  pub month : ℕ
  pub day : ℕ

-- The end of `civil_from_days`, from the day of the year on, which starts in March.
unfoldable pub civil_of_year : ℕ → ℕ → Civil
civil_of_year year doy =
    let mp = (5 * doy + 2) / 153 in
    let day = doy - (153 * mp + 2) / 5 + 1 in
    if ltb mp 10
    then record { year = year; month = mp + 3; day = day }
    else record { year = year + 1; month = mp - 9; day = day }

unfoldable pub civil_from_days : ℕ → Civil
unfolding civil_of_year
civil_from_days days =
    let era = days / 146097 in
    let doe = days - era * 146097 in
    let yoe = year_of_era doe in civil_of_year (yoe + era * 400) (doe - days_before yoe)

-- The end of `days_from_civil`, where the year starts in March and `mp` is the month in it.
unfoldable pub days_of_year : ℕ → ℕ → ℕ → ℕ
days_of_year year mp day =
    let era = year / 400 in
    let yoe = year - era * 400 in
    let doy = (153 * mp + 2) / 5 + day - 1 in
    let doe = yoe * 365 + yoe / 4 - yoe / 100 + doy in era * 146097 + doe

unfoldable pub days_from_civil : Civil → Option ℕ
unfolding days_of_year
days_from_civil date =
    if not (leb 1 date.month && leb date.month 12) || not (leb 1 date.day && leb date.day 31)
    then none
    else if leb date.month 2
    then some (days_of_year (date.year - 1) (date.month + 9) date.day)
    else some (days_of_year date.year (date.month - 3) date.day)

-- `budget_date_for_time`, up to the day
unfoldable pub budget_day : ℕ → ℕ → ℕ
budget_day seconds reset_hour_utc =
    let day = days_from_civil_unix_epoch + seconds / seconds_per_day in
    if ltb (seconds % seconds_per_day / 3600) reset_hour_utc then day - 1 else day

-- `{:02}` and `{:04}`
unfoldable pub padded : ℕ → ℕ → List ℕ
padded width n = let text = print_unsigned n in replicate (width - length text) b'0' ++ text

unfoldable pub format_utc_day : ℕ → List ℕ
unfolding civil_from_days padded
format_utc_day days =
    let date = civil_from_days days in
    padded 4 date.year ++ (b'-' ∷ (padded 2 date.month ++ (b'-' ∷ padded 2 date.day)))

-- The time since the epoch in seconds.
unfoldable pub budget_date_for_time : ℕ → ℕ → List ℕ
unfolding format_utc_day budget_day
budget_date_for_time seconds reset_hour_utc = format_utc_day (budget_day seconds reset_hour_utc)
