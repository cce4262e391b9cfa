-- ===== src/Guardian/Escalation.antt =====
-- crates/llm-guard-proxy-host-guardian/src/escalation.rs: the latch of one low-memory episode, the
-- names of service units, and the bounded wait for systemctl. Instants are readings of a monotonic
-- clock; what systemctl answers is an input.
pub mod Episode
pub mod Wait
pub mod UnitName
use llm_guard_proxy.Prelude.{
  ℕ, zero, suc, ◌+◌, ◌-◌, Bool, true, false, not, ◌&&◌, ◌||◌, Option, none, some, List, [], ◌∷◌,
}
use llm_guard_proxy.Prelude.Tests.{ltb, leb, ◌==◌, if◌then◌else◌}
use llm_guard_proxy.Prelude.Lists.{length, drop, same_bytes}

pub record EscalationConfig : Type 0 where
  pub enabled : Bool
  pub unit : Option (List ℕ)
  pub grace_period : ℕ

pub record EscalationEpisode : Type 0 where
  pub armed_at : Option ℕ
  pub attempted : Bool

pub data EscalationError : Type 0 where
  missing_unit invalid_unit spawn wait timeout failed : EscalationError

pub data EscalationResult : Type 0 where
  ok : Bool → EscalationResult
  err : EscalationError → EscalationResult

unfoldable pub default : EscalationEpisode
default = record { armed_at = none; attempted = false }

abbrev pub is_none : Option ℕ → Bool
is_none none = true
is_none (some at) = false

unfoldable pub arm : EscalationConfig → ℕ → EscalationEpisode → EscalationEpisode
arm config now e =
    if config.enabled && is_none e.armed_at
    then record { armed_at = some now; attempted = false }
    else e

unfoldable pub clear : EscalationEpisode → EscalationEpisode
clear e = record { armed_at = none; attempted = false }

-- `armed_at.is_none_or(|at| now.saturating_duration_since(at) < grace)`
abbrev pub not_due : Option ℕ → ℕ → ℕ → Bool
not_due none grace now = true
not_due (some at) grace now = ltb (now - at) grace

unfoldable pub take_due : ℕ → ℕ → EscalationEpisode → EscalationEpisode × Bool
take_due grace now e =
    if e.attempted || not_due e.armed_at grace now
    then (e, false)
    else (record e { attempted = true }, true)

-- `.service`
abbrev pub suffix : List ℕ
suffix = b'.' ∷ b's' ∷ b'e' ∷ b'r' ∷ b'v' ∷ b'i' ∷ b'c' ∷ b'e' ∷ []

unfoldable pub ends_with : List ℕ → List ℕ → Bool
ends_with text end =
    leb (length end) (length text) && same_bytes (drop (length text - length end) text) end

unfoldable pub is_unit_byte : ℕ → Bool
is_unit_byte c =
    (leb b'a' c && leb c b'z')
    || (leb b'A' c && leb c b'Z')
    || (leb b'0' c && leb c b'9')
    || (c == b'.')
    || (c == b'_')
    || (c == b'-')
    || (c == b'@')

unfoldable pub all_unit_bytes : List ℕ → Bool
all_unit_bytes [] = true
all_unit_bytes (c ∷ rest) = is_unit_byte c && all_unit_bytes rest

-- Whether `validate_unit_name` returns `Ok`.
unfoldable pub validate_unit_name : List ℕ → Bool
validate_unit_name unit =
    not (
      not (ends_with unit suffix) || leb (length unit) (length suffix) || not (all_unit_bytes unit))

-- What one round of the wait sees: `try_wait`, and the time since the start.
pub data Poll : Type 0 where
  wait_error : Poll
  exited : Bool → Poll
  running : ℕ → Poll

-- The wait loop; `settled` says that both `kill` and `wait` succeed. `none` means that the rounds ran
-- out, which the theorem on the wait excludes.
unfoldable pub wait_loop : ℕ → ℕ → (ℕ → Poll) → ℕ → Bool → Option (Option EscalationError)
wait_loop zero round polls limit settled = none
wait_loop (suc rounds) round polls limit settled =
    let again = wait_loop rounds (round + 1) polls limit settled in
    elim (polls round) [
      | wait_error ↦ some (some wait)
      | exited success ↦ some (if success then none else some failed)
      | running elapsed ↦
          if leb limit elapsed then some (some (if settled then timeout else wait)) else again
    ]

-- How systemctl behaves for one action.
pub record Systemctl : Type 0 where
  pub spawned : Bool
  pub polls : ℕ → Poll
  pub settled : Bool

-- `run_systemctl_unit_action`, with a number of rounds for its loop; the inner `none` is `Ok(())`.
unfoldable pub run_systemctl_unit_action :
    ℕ → List ℕ → ℕ → Systemctl → Option (Option EscalationError)
run_systemctl_unit_action rounds unit limit s =
    if not (validate_unit_name unit)
    then some (some invalid_unit)
    else (if not s.spawned then some (some spawn) else wait_loop rounds 0 s.polls limit s.settled)

-- The part of `maybe_run` behind its guards, given how the start of a unit ends.
unfoldable pub start_claimed : Option (List ℕ) → Option EscalationError → EscalationResult
start_claimed none started = err missing_unit
start_claimed (some unit) none = ok true
start_claimed (some unit) (some e) = err e

-- `started` is the result of `start_unit_with_timeout`, if it is called.
unfoldable pub maybe_run :
    EscalationConfig
    → ℕ
    → Option EscalationError
    → EscalationEpisode
    → EscalationEpisode × EscalationResult
maybe_run config now started e =
    if not config.enabled || e.attempted
    then (e, ok false)
    else (if not_due e.armed_at config.grace_period now
        then (e, ok false)
        else (record e { attempted = true }, start_claimed config.unit started))
