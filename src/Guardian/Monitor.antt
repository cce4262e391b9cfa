-- ===== src/Guardian/Monitor.antt =====
-- The iteration of `MemoryGuardian` in crates/llm-guard-proxy-host-guardian/src/monitor.rs: healthy
-- and latched iterations, the emergency attempt, and `tick`.
pub mod Armed
pub mod Iterations
pub mod Healthy
pub mod Ticks
pub mod Latch
use llm_guard_proxy.Guardian.Thresholds
use llm_guard_proxy.Guardian.Emergency
use llm_guard_proxy.Prelude.{ℕ, ◌*◌, min, Bool, true, false, not, ◌||◌, Option, none, some}
use llm_guard_proxy.Prelude.Tests.{ltb, if◌then◌else◌}
use llm_guard_proxy.Prelude.Words.{u64_max, saturating_add}
use llm_guard_proxy.Guardian.State.{
  RecoveryTarget, cgroup, systemd, MemoryGuardian, Host, GuardianIteration, healthy, observer_only,
  unarmed, shed, waiting, verified, already_empty, rearmed, kill_failed,
}
use llm_guard_proxy.Guardian.Reconcile.{
  is_absent, reconcile_active_target, reconcile_healthy_target,
}
use llm_guard_proxy.Guardian.MemInfo.{MemInfoResult, ok, err}
use llm_guard_proxy.Guardian.Tier2.{RecoveryRequest, update_escalation}

-- `attempt_systemd_restart`; the retry interval is in seconds.
unfoldable pub attempt_systemd_restart :
    Host → MemoryGuardian → MemoryGuardian × Emergency.AttemptOutcome
attempt_systemd_restart host g =
    let now_millis = host.world.now_millis in
    if g.systemd_verified || ltb now_millis g.systemd_next_attempt_millis
    then (g, Emergency.AttemptOutcome.waiting)
    else (if host.restarted
        then (record g { systemd_verified = true }, Emergency.AttemptOutcome.verified)
        else (
          record g {
            systemd_next_attempt_millis =
                saturating_add u64_max now_millis (min (g.retry_interval * 1000) u64_max);
          },
          Emergency.AttemptOutcome.retry,
        ))

unfoldable pub attempt_on_target :
    Host → RecoveryTarget → MemoryGuardian → MemoryGuardian × Emergency.AttemptOutcome
attempt_on_target host (cgroup target) g = elim g.controller [
  | none ↦ (g, Emergency.AttemptOutcome.waiting)
  | some c ↦
      let (c', outcome, calls) = Emergency.attempt c host.world in
      (record g { controller = some c' }, outcome)
]
attempt_on_target host (systemd unit) g = attempt_systemd_restart host g

-- The last `match` of `attempt_emergency`.
abbrev pub report : Bool → Emergency.AttemptOutcome → GuardianIteration
report entering Emergency.AttemptOutcome.verified = verified
report entering Emergency.AttemptOutcome.already_empty = already_empty
report entering (Emergency.AttemptOutcome.write_failed errno) = kill_failed errno
report true Emergency.AttemptOutcome.waiting = shed
report true Emergency.AttemptOutcome.retry = shed
report false Emergency.AttemptOutcome.waiting = waiting
report false Emergency.AttemptOutcome.retry = waiting

unfoldable pub attempt_emergency : Host → Bool → MemoryGuardian → MemoryGuardian × GuardianIteration
attempt_emergency host entering g = elim g.target [
  | none ↦ (g, unarmed)
  | some target ↦
      let (g', outcome) = attempt_on_target host target g in (g', report entering outcome)
]

abbrev pub enter_controller :
    Bool → Option Emergency.EmergencyController → Option Emergency.EmergencyController
enter_controller unmapped none = none
enter_controller unmapped (some c) = some (Emergency.enter_emergency unmapped c)

-- The healthy iteration after its reconciliation, at a reading of memory.
unfoldable pub healthy_reading : Host → ℕ → MemoryGuardian → MemoryGuardian × GuardianIteration
healthy_reading host bytes g =
    if Thresholds.should_shed bytes g.thresholds
    then (if g.active_policy.enabled
        then attempt_emergency host true
            (record g { latched = true; controller = enter_controller host.unmapped g.controller })
        else (record g { observer_pressure_reported = true }, observer_only))
    else (
      record g { observer_pressure_reported = false },
      if not g.active_policy.enabled || not (is_absent g.target) then healthy else unarmed,
    )

unfoldable pub healthy_iteration : Host → MemoryGuardian → MemoryGuardian × GuardianIteration
healthy_iteration host g =
    let reconciled = (reconcile_healthy_target host g).0 in
    elim host.meminfo [
      | MemInfoResult.err e ↦ (reconciled, healthy)
      | MemInfoResult.ok bytes ↦ healthy_reading host bytes reconciled
    ]

-- The latched iteration when memory has not rearmed, or the reserve could not be had.
unfoldable pub keep_latched : Host → MemoryGuardian → MemoryGuardian × GuardianIteration
keep_latched host g = attempt_emergency host false (reconcile_active_target host g).0

-- The latched iteration above the rearm watermark, given the result of `ensure_reserve`.
unfoldable pub rearm_reserved :
    Host
    → MemoryGuardian
    → Emergency.EmergencyController
    → Option Bool
    → MemoryGuardian × GuardianIteration
rearm_reserved host g c none = keep_latched host (record g { controller = some c })
rearm_reserved host g c (some fresh) = (
  record g {
    controller = some c;
    latched = false;
    systemd_next_attempt_millis = 0;
    systemd_verified = false;
  },
  rearmed,
)

unfoldable pub rearm : Host → MemoryGuardian → MemoryGuardian × GuardianIteration
rearm host g = elim g.controller [
  | none ↦ (record g { latched = false }, rearmed)
  | some c ↦
      let (c', reserve) = Emergency.ensure_reserve host.platform g.thresholds.reserve_bytes c in
      rearm_reserved host g c' reserve
]

abbrev pub may_rearm : Host → MemoryGuardian → Bool
may_rearm host g = elim host.meminfo [
  | MemInfoResult.err e ↦ false
  | MemInfoResult.ok bytes ↦ Thresholds.should_rearm bytes g.thresholds
]

unfoldable pub latched_iteration : Host → MemoryGuardian → MemoryGuardian × GuardianIteration
latched_iteration host g = if may_rearm host g then rearm host g else keep_latched host g

unfoldable pub iterate : Host → MemoryGuardian → MemoryGuardian × GuardianIteration
iterate host g = if g.latched then latched_iteration host g else healthy_iteration host g

-- The new state, the status of the iteration, and the request that Tier 2 hands off, if any.
unfoldable pub tick :
    Host → MemoryGuardian → MemoryGuardian × GuardianIteration × Option RecoveryRequest
tick host g =
    let (g', iteration) = iterate host g in
    let (g'', request) = update_escalation host g' in (g'', iteration, request)
