-- ===== src/Budget/Dates/Resets.antt =====
-- When the date of the budget changes.
use llm_guard_proxy.Prelude.{
  ℕ, zero, suc, ◌+◌, ◌-◌, ◌*◌, ◌/◌, ◌≤◌, ◌≡◌, refl, sym, ap, ◌∙◌, ◌↔◌, some, List, [], ◌∷◌, ◌++◌,
  arith,
}
use llm_guard_proxy.Prelude.Lists.{length, replicate}
use llm_guard_proxy.Prelude.Words.{u64_max}
use llm_guard_proxy.Prelude.Decimal.{
  is_digit, push_digit, read_digit, read_digits, print_unsigned, AllDigits, AllDigits-append,
  print_unsigned-AllDigits, read_digits-print_unsigned,
}
use llm_guard_proxy.Budget.Dates.{
  days_from_civil_unix_epoch, seconds_per_day, Civil, civil_of_year, civil_from_days,
  days_from_civil, budget_day, padded, format_utc_day, budget_date_for_time,
}
use llm_guard_proxy.Budget.Dates.RoundTrip.{days_from_civil-civil_from_days}

-- The resets up to a time, counted from the one that began the budget day 0.
abbrev pub resets : ℕ → ℕ → ℕ
resets seconds reset_hour_utc =
    (days_from_civil_unix_epoch * seconds_per_day + seconds - reset_hour_utc * 3600)
    / seconds_per_day

budget_day-resets :
    (seconds reset_hour_utc : ℕ)
    → reset_hour_utc ≤ 23
    → budget_day seconds reset_hour_utc ≡ resets seconds reset_hour_utc
unfolding budget_day
budget_day-resets seconds reset_hour_utc h = ground (arith, h)

read_zeros : (k : ℕ) (text : List ℕ) → read_digits 0 (replicate k b'0' ++ text) ≡ read_digits 0 text
unfolding read_digits read_digit push_digit is_digit
read_zeros zero text = refl
read_zeros (suc k) text = read_zeros k text

zeros-AllDigits : (k : ℕ) → AllDigits (replicate k b'0')
unfolding is_digit
zeros-AllDigits zero = tt
zeros-AllDigits (suc k) = (refl, zeros-AllDigits k)

padded-AllDigits : (width n : ℕ) → AllDigits (padded width n)
unfolding padded
padded-AllDigits width n =
    AllDigits-append (replicate (width - length (print_unsigned n)) b'0') (print_unsigned n)
      (zeros-AllDigits _) (print_unsigned-AllDigits n)

read_digits-padded : (width n : ℕ) → n ≤ u64_max → read_digits 0 (padded width n) ≡ some n
unfolding padded
read_digits-padded width n h =
    read_zeros (width - length (print_unsigned n)) (print_unsigned n)
    ∙ read_digits-print_unsigned n h

-- A padded number is read off its text.
padded_number :
    (width m n : ℕ) → m ≤ u64_max → n ≤ u64_max → padded width m ≡ padded width n → m ≡ n
padded_number width m n h k e =
    cc (read_digits-padded width m h, read_digits-padded width n k, ap (read_digits 0) e)

-- The first dash of a text ends its first number.
dash_cut :
    (xs ys us vs : List ℕ)
    → AllDigits xs
    → AllDigits us
    → xs ++ (b'-' ∷ ys) ≡ us ++ (b'-' ∷ vs)
    → (xs ≡ us) × (ys ≡ vs)
unfolding is_digit
dash_cut [] ys [] vs h k e = ground (arith, e)
dash_cut [] ys (u ∷ us) vs h k e = absurd (ground (arith, e, k.0))
dash_cut (x ∷ xs) ys [] vs h k e = absurd (ground (arith, e, h.0))
dash_cut (x ∷ xs) ys (u ∷ us) vs h k e =
    let rest : xs ++ (b'-' ∷ ys) ≡ us ++ (b'-' ∷ vs) = ground (arith, e) in
    let same = dash_cut xs ys us vs h.1 k.1 rest in (ground (arith, e, same.0), same.1)

-- The parts of a civil date fit in a `u64` where the day does.
civil-bounds :
    (days : ℕ)
    → days ≤ u64_max
    → let c = civil_from_days days in (c.year ≤ u64_max) × (c.month ≤ u64_max) × (c.day ≤ u64_max)
unfolding civil_from_days civil_of_year
civil-bounds days h = ground (arith, h)

civil_text : (a b : Civil) → Civil.year a ≡ b.year → a.month ≡ b.month → a.day ≡ b.day → a ≡ b
civil_text a b y m d = cc

pub format_utc_day-eq :
    (a b : ℕ) → a ≤ u64_max → b ≤ u64_max → format_utc_day a ≡ format_utc_day b → a ≡ b
unfolding format_utc_day
format_utc_day-eq a b h k e =
    let c = civil_from_days a in
    let d = civil_from_days b in
    let p = civil-bounds a h in
    let q = civil-bounds b k in
    let first =
      dash_cut (padded 4 c.year) _ (padded 4 d.year) _ (padded-AllDigits 4 c.year)
        (padded-AllDigits 4 d.year) e in
    let second =
      dash_cut (padded 2 c.month) _ (padded 2 d.month) _ (padded-AllDigits 2 c.month)
        (padded-AllDigits 2 d.month) first.1 in
    let same =
      civil_text c d (padded_number 4 c.year d.year p.0 q.0 first.0)
        (padded_number 2 c.month d.month p.1 q.1 second.0)
        (padded_number 2 c.day d.day p.2 q.2 second.1) in
    cc (
      days_from_civil-civil_from_days a,
      days_from_civil-civil_from_days b,
      ap days_from_civil same,
    )

-- With a reset hour of 23 at most, the dates of two times are the same text exactly where the same
-- number of resets came before them, a reset being that hour of a day.
pub budget_date_for_time-resets :
    (s t reset_hour_utc : ℕ)
    → s ≤ u64_max
    → t ≤ u64_max
    → reset_hour_utc ≤ 23
    → budget_date_for_time s reset_hour_utc ≡ budget_date_for_time t reset_hour_utc
      ↔ resets s reset_hour_utc ≡ resets t reset_hour_utc
unfolding budget_date_for_time
budget_date_for_time-resets s t r h k hour =
    let p = budget_day-resets s r hour in
    let q = budget_day-resets t r hour in
    (
      (λ e.
          sym p
          ∙ format_utc_day-eq (budget_day s r) (budget_day t r) (omega (arith, p, h))
              (omega (arith, q, k)) e
          ∙ q),
      (λ e. ap format_utc_day (p ∙ e ∙ sym q)),
    )
