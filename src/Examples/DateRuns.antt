-- ===== src/Examples/DateRuns.antt =====
-- Dates of the budget.
use llm_guard_proxy.Prelude.{◌≡◌, refl, ◌↔◌, some, arith}
use llm_guard_proxy.Prelude.Text.{codes}
use llm_guard_proxy.Prelude.Decimal.{print_digits, print_unsigned}
use llm_guard_proxy.Budget.Dates.{
  civil_of_year, civil_from_days, days_from_civil, budget_day, padded, format_utc_day,
  budget_date_for_time,
}
use llm_guard_proxy.Budget.Dates.RoundTrip.{days_from_civil-civil_from_days}
use llm_guard_proxy.Budget.Dates.Resets.{resets, budget_date_for_time-resets}

-- Three hours before a reset at four in the morning, and one after it.
budget_date_for_time-resets_example :
    budget_date_for_time 1783213200 4 ≡ budget_date_for_time 1783227600 4
    ↔ resets 1783213200 4 ≡ resets 1783227600 4
budget_date_for_time-resets_example =
    budget_date_for_time-resets 1783213200 1783227600 4 (omega arith) (omega arith) (omega arith)

days_from_civil-civil_from_days_example : days_from_civil (civil_from_days 719467) ≡ some 719467
days_from_civil-civil_from_days_example = days_from_civil-civil_from_days 719467

last_day : civil_from_days 719467 ≡ record { year = 1969; month = 12; day = 31 }
unfolding civil_from_days civil_of_year
last_day = refl

first_date : budget_date_for_time 1783213200 4 ≡ codes "2026-07-04"
unfolding budget_date_for_time budget_day format_utc_day padded civil_from_days civil_of_year
    print_unsigned print_digits
first_date = refl
