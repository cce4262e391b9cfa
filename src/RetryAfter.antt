-- ===== src/RetryAfter.antt =====
-- crates/llm-guard-proxy/src/proxy/retry_after.rs: the Retry-After header and the budget of replays
-- of a request. A `Duration` is its number of nanoseconds. The two atomic counters are fields of one
-- state, which every clone of the budget shares; each operation is one atomic step on it.
pub mod Budget
pub mod Header
use Prim.Native.Nat.{max}
use llm_guard_proxy.Prelude.{
  ℕ, ◌+◌, ◌-◌, ◌*◌, ◌/◌, ◌%◌, ◌^◌, ◌≡◌, Bool, true, false, not, ◌&&◌, Option, none, some, List,
}
use llm_guard_proxy.Prelude.Tests.{ltb, leb, ◌==◌, if◌then◌else◌, ◌>>=◌}
use llm_guard_proxy.Prelude.Words.{u32_max, saturating_add}
use llm_guard_proxy.Prelude.Decimal.{parse_unsigned, print_unsigned, AllDigits}

abbrev pub nanos_per_sec : ℕ
nanos_per_sec = 1000000000

-- `HeaderMap` and `HeaderValue` of the http crate, seen at the key Retry-After.
pub record HeaderMap : Type 1 where
  pub Headers : Type 0
  pub Value : Type 0
  pub get : Headers → Option Value
  pub clear : Headers → Headers
  pub put : Value → Headers → Headers
  pub to_str : Value → Option (List ℕ)
  pub from_str : List ℕ → Option Value
  pub get_clear : (headers : Headers) → get (clear headers) ≡ none
  pub get_put : (value : Value) (headers : Headers) → get (put value headers) ≡ some value
  -- A text of visible ASCII characters makes a header value, which reads back as that text.
  pub from_visible :
      (text : List ℕ)
      → AllDigits text
      → (value : Value) × (from_str text ≡ some value) × (to_str value ≡ some text)

-- The test that ends `bounded_delay`.
unfoldable pub usable_delay : ℕ → ℕ → Option ℕ
usable_delay maximum seconds =
    let delay = seconds * nanos_per_sec in
    if ltb 0 seconds && leb delay maximum then some delay else none

module _ (http : HeaderMap) where
  open http use {Headers, Value, get, clear, put, to_str, from_str}

  -- Each `?` and `.ok()?` ends the function with `None`.
  unfoldable pub bounded_delay : Headers → ℕ → Option ℕ
  unfolding usable_delay
  bounded_delay headers maximum = do
    value ← get headers
    text ← to_str value
    seconds ← parse_unsigned text
    usable_delay maximum seconds

  -- The value that `sanitize` computes first.
  unfoldable pub sanitized : Headers → ℕ → Option Value
  unfolding bounded_delay
  sanitized headers maximum = do
    delay ← bounded_delay headers maximum
    from_str (print_unsigned (delay / nanos_per_sec))

  unfoldable pub sanitize : Headers → ℕ → Headers
  unfolding sanitized
  sanitize headers maximum = elim (sanitized headers maximum) [
    | none ↦ clear headers
    | some value ↦ put value (clear headers)
  ]

pub record RetryBudget : Type 0 where
  pub rate_limit_replay_attempt : ℕ
  pub recovery_replay_count : ℕ

unfoldable pub default : RetryBudget
default = record { rate_limit_replay_attempt = 0; recovery_replay_count = 0 }

-- `compare_exchange(0, replay)`: the new budget, and whether the exchange took place.
unfoldable pub claim_replay : RetryBudget → ℕ → RetryBudget × Bool
claim_replay budget replay =
    if budget.rate_limit_replay_attempt == 0
    then (record budget { rate_limit_replay_attempt = replay }, true)
    else (budget, false)

-- `claim_delay`, given what `bounded_delay` reads from the headers.
unfoldable pub claim_usable : RetryBudget → Option ℕ → ℕ → RetryBudget × Option ℕ
unfolding claim_replay
claim_usable budget none physical_attempt_number = (budget, none)
claim_usable budget (some delay) physical_attempt_number =
    let (budget', claimed) =
      claim_replay budget (saturating_add u32_max physical_attempt_number 1) in
    (budget', if claimed then some delay else none)

unfoldable pub claim_delay :
    (http : HeaderMap) → RetryBudget → http.Headers → ℕ → ℕ → RetryBudget × Option ℕ
unfolding claim_usable bounded_delay
claim_delay http budget headers maximum physical_attempt_number =
    claim_usable budget (bounded_delay http headers maximum) physical_attempt_number

-- `fetch_add` wraps.
unfoldable pub claim_recovery_replay : RetryBudget → RetryBudget
claim_recovery_replay budget = record budget {
  recovery_replay_count = (budget.recovery_replay_count + 1) % 2 ^ 32;
}

unfoldable pub ordinary_attempt_number : RetryBudget → ℕ → ℕ
ordinary_attempt_number budget physical_attempt_number =
    let replay = budget.rate_limit_replay_attempt in
    let rate_limit_offset =
      if not (replay == 0) && leb replay physical_attempt_number then 1 else 0 in
    max (physical_attempt_number - rate_limit_offset - budget.recovery_replay_count) 1

-- How the `select!` of `wait_before_retry` ends; a pending shutdown is polled first.
pub data Wait : Type 0 where
  shutdown_cancelled slept : Wait

unfoldable pub wait_before_retry : ℕ → ℕ → Wait → Bool
wait_before_retry delay remaining shutdown_cancelled = false
wait_before_retry delay remaining slept = if leb remaining delay then false else true
