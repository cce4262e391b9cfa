-- ===== src/Guardian/Tier2.antt =====
-- crates/llm-guard-proxy-host-guardian/src/monitor/tier2.rs: the handoff of a verified low-memory
-- episode to the recovery executor. The requests that reach the executor are an output.
pub mod Handoff
use llm_guard_proxy.Prelude.{ℕ, ◌+◌, Bool, true, false, not, ◌&&◌, ◌||◌, Option, none, some}
use llm_guard_proxy.Prelude.Tests.{leb, if◌then◌else◌}
use llm_guard_proxy.Prelude.Words.{u64_max, saturating_mul, checked_add}
use llm_guard_proxy.Guardian.State.{
  Policy, RecoveryTarget, cgroup, not_admitted, unconfirmed, Invocation, GuardianEscalation,
  MemoryGuardian, completed, closed, pending, Host, verified,
}
use llm_guard_proxy.Guardian.Reconcile.{same_identity}
use llm_guard_proxy.Guardian.Emergency.{WriteResult, written, EmergencyController, is_true}
use llm_guard_proxy.Guardian.MemInfo.{MemInfoResult, ok, err}
use llm_guard_proxy.Guardian.Escalation.{EscalationConfig, arm, clear, take_due}
use llm_guard_proxy.Guardian.Thresholds.{gib}

pub record RecoveryRequest : Type 0 where
  pub episode : ℕ
  pub available_bytes : ℕ
  pub threshold_bytes : ℕ
  pub grace_secs : ℕ
  pub deadline : ℕ

-- `authority.cancel()` on the handoff in flight.
abbrev pub cancel : Option Invocation → Option Invocation
cancel none = none
cancel (some invocation) = some (record { authority_cancelled = true })

-- `dispatch(|| ())` fails for a cancelled authority and for one whose checks fail.
abbrev pub dispatches : Host → Invocation → Bool
dispatches host invocation = not invocation.authority_cancelled && host.authority_valid

unfoldable pub revalidate : Host → GuardianEscalation → GuardianEscalation
revalidate host e = elim e.invocation [
  | none ↦ e
  | some invocation ↦ elim host.received [
    | completed outcome ↦ record e { outcome = some outcome; invocation = none }
    | closed ↦ record e { outcome = some unconfirmed; invocation = none }
    | pending ↦
        if dispatches host invocation
        then e
        else record e { invocation = some (record { authority_cancelled = true }) }
  ]
]

abbrev pub escalation_threshold : Policy → ℕ
escalation_threshold policy = saturating_mul u64_max policy.escalation_mem_threshold_gib gib

abbrev pub available : MemInfoResult → Option ℕ
available (MemInfoResult.ok bytes) = some bytes
available (MemInfoResult.err e) = none

abbrev pub generation_of : Option RecoveryTarget → Option (ℕ × ℕ)
generation_of (some (cgroup target)) = target.identity
generation_of _ = none

abbrev pub is_cgroup : Option RecoveryTarget → Bool
is_cgroup (some (cgroup target)) = true
is_cgroup _ = false

abbrev pub is_written : Option WriteResult → Bool
is_written (some written) = true
is_written _ = false

-- The controller holds a successful write and a verified target.
abbrev pub has_verified_write : Option EmergencyController → Bool
has_verified_write none = false
has_verified_write (some c) = c.verified && is_written c.last_write

abbrev pub at_or_below : Option ℕ → ℕ → Bool
at_or_below none bound = false
at_or_below (some bytes) bound = leb bytes bound

abbrev pub has_generation : Option (ℕ × ℕ) → Bool
has_generation none = false
has_generation (some identity) = true

unfoldable pub eligible : Host → MemoryGuardian → Bool
eligible host g =
    g.active_policy.escalation_enabled
    && g.latched
    && has_verified_write g.controller
    && is_cgroup g.target
    && is_true host.target_empty
    && has_generation (generation_of g.target)
    && at_or_below (available host.pressure) (escalation_threshold g.active_policy)

-- `generation != self.escalation.generation` on two optional identities.
abbrev pub same_generations : Option (ℕ × ℕ) → Option (ℕ × ℕ) → Bool
same_generations none none = true
same_generations (some a) (some b) = same_identity (some a) (some b)
same_generations _ _ = false

-- The cancellation of an episode that is no longer eligible, or whose target was replaced.
unfoldable pub settle : Bool → Option (ℕ × ℕ) → GuardianEscalation → GuardianEscalation
settle fit generation e =
    if not fit || not (same_generations generation e.generation)
    then record e {
      invocation = cancel e.invocation;
      episode = clear e.episode;
      generation = generation;
    }
    else e

abbrev pub escalation_config : Policy → EscalationConfig
escalation_config policy = record {
  enabled = true;
  unit = none;
  grace_period = policy.escalation_grace_secs;
}

-- `unwrap_or_default`
abbrev pub bytes_of : Option ℕ → ℕ
bytes_of none = 0
bytes_of (some bytes) = bytes

abbrev pub request_for : Host → Policy → ℕ → RecoveryRequest
request_for host policy episode = record {
  episode = episode;
  available_bytes = bytes_of (available host.pressure);
  threshold_bytes = escalation_threshold policy;
  grace_secs = policy.escalation_grace_secs;
  deadline = host.now + policy.escalation_timeout_secs;
}

-- The handoff itself, once the episode is claimed.
unfoldable pub hand_off :
    Host → Policy → GuardianEscalation → GuardianEscalation × Option RecoveryRequest
hand_off host policy e =
    if not e.sender
    then (record e { outcome = some not_admitted }, none)
    else (if not host.cloned then (e, none) else elim (checked_add u64_max e.next_episode 1) [
      | none ↦ (e, none)
      | some episode ↦
          if host.accepted && not host.executor_closed
          then (
            record e {
              next_episode = episode;
              invocation = some (record { authority_cancelled = false });
            },
            some (request_for host policy episode),
          )
          else (record e { next_episode = episode; outcome = some not_admitted }, none)
    ])

abbrev pub in_flight : Option Invocation → Bool
in_flight none = false
in_flight (some invocation) = true

-- From the arming of the episode on.
unfoldable pub claim :
    Host → Policy → GuardianEscalation → GuardianEscalation × Option RecoveryRequest
claim host policy e =
    let armed = arm (escalation_config policy) host.now e.episode in
    let (episode, due) = take_due policy.escalation_grace_secs host.now armed in
    if due
    then hand_off host policy (record e { episode = episode })
    else (record e { episode = episode }, none)

unfoldable pub escalate : Host → MemoryGuardian → GuardianEscalation × Option RecoveryRequest
escalate host g =
    let fit = eligible host g in
    let e = settle fit (generation_of g.target) (revalidate host g.escalation) in
    if not fit || in_flight e.invocation then (e, none) else claim host g.active_policy e

unfoldable pub update_escalation : Host → MemoryGuardian → MemoryGuardian × Option RecoveryRequest
update_escalation host g =
    if g.active_policy.escalation_enabled
    then (let (e, request) = escalate host g in (record g { escalation = e }, request))
    else (g, none)
