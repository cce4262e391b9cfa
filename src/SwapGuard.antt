-- ===== src/SwapGuard.antt =====
-- `SwapGuard` of crates/llm-guard-proxy-host-telemetry/src/policy.rs, with the states and events of
-- model.rs. Instants are readings of a monotonic clock; `duration_since` stops at zero, as `-` does.
pub mod Cadence
use llm_guard_proxy.Prelude.{ℕ, ◌-◌, Bool, true, false, not, ◌||◌, Option, none, some}
use llm_guard_proxy.Prelude.Tests.{ltb, leb, if◌then◌else◌}

pub data PressureReason : Type 0 where
  memory_available swap memory_and_swap : PressureReason

pub data TelemetryState : Type 0 where
  healthy swap_warning : TelemetryState
  alert : PressureReason → TelemetryState

pub data TelemetryEvent : Type 0 where
  warned cleared : TelemetryEvent
  alerted : PressureReason → TelemetryEvent

abbrev pub collects_evidence : TelemetryEvent → Bool
collects_evidence (alerted reason) = true
collects_evidence _ = false

-- The thresholds in KiB, and the repeat interval.
pub record SwapGuardConfig : Type 0 where
  pub warn_swap_kib : ℕ
  pub alert_swap_kib : ℕ
  pub alert_mem_available_kib : ℕ
  pub alert_repeat : ℕ

pub record SwapGuard : Type 0 where
  pub config : SwapGuardConfig
  pub state : TelemetryState
  pub last_alert_at : Option ℕ

pub record PolicyDecision : Type 0 where
  pub state : TelemetryState
  pub event : Option TelemetryEvent

unfoldable pub new : SwapGuardConfig → SwapGuard
new config = record { config = config; state = healthy; last_alert_at = none }

-- The case of no pressure is unreachable in the source, where the test excludes it.
abbrev pub reason_for : Bool → Bool → PressureReason
reason_for true true = memory_and_swap
reason_for true false = memory_available
reason_for false _ = swap

unfoldable pub state_for : SwapGuardConfig → ℕ → ℕ → TelemetryState
state_for config mem_available_kib swap_used_kib =
    let memory_low = ltb mem_available_kib config.alert_mem_available_kib in
    let swap_high = ltb config.alert_swap_kib swap_used_kib in
    if memory_low || swap_high
    then alert (reason_for memory_low swap_high)
    else (if leb config.warn_swap_kib swap_used_kib then swap_warning else healthy)

-- The derived `==` of the two enums.
abbrev pub same_reason : PressureReason → PressureReason → Bool
same_reason memory_available memory_available = true
same_reason swap swap = true
same_reason memory_and_swap memory_and_swap = true
same_reason _ _ = false

abbrev pub same : TelemetryState → TelemetryState → Bool
same healthy healthy = true
same swap_warning swap_warning = true
same (alert r) (alert q) = same_reason r q
same _ _ = false

-- `last_alert_at.is_none_or(|previous| observed_at.duration_since(previous) >= repeat)`
abbrev pub repeat_due : Option ℕ → ℕ → ℕ → Bool
repeat_due none observed_at repeat = true
repeat_due (some previous) observed_at repeat = leb repeat (observed_at - previous)

-- The `match` of `observe`: the event, and the new time of the last alert.
unfoldable pub decide_event : SwapGuard → ℕ → TelemetryState → Option TelemetryEvent × Option ℕ
decide_event guard observed_at (alert reason) =
    if not (same guard.state (alert reason))
      || repeat_due guard.last_alert_at observed_at guard.config.alert_repeat
    then (some (alerted reason), some observed_at)
    else (none, guard.last_alert_at)
decide_event guard observed_at swap_warning =
    (if same guard.state swap_warning then none else some warned, guard.last_alert_at)
decide_event guard observed_at healthy =
    if same guard.state healthy then (none, guard.last_alert_at) else (some cleared, none)

unfoldable pub observe : SwapGuard → ℕ → ℕ → ℕ → SwapGuard × PolicyDecision
unfolding state_for decide_event
observe guard observed_at mem_available_kib swap_used_kib =
    let state = state_for guard.config mem_available_kib swap_used_kib in
    let (event, last_alert_at) = decide_event guard observed_at state in
    (
      record guard { state = state; last_alert_at = last_alert_at },
      record { state = state; event = event },
    )
