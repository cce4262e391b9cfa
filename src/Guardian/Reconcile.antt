-- ===== src/Guardian/Reconcile.antt =====
-- How the guardian takes up a policy and opens its target: `reconcile_healthy_target`,
-- `reconcile_active_target`, `try_apply_policy` and `open` of monitor.rs and monitor/open.rs.
use llm_guard_proxy.Guardian.Thresholds
use llm_guard_proxy.Prelude.{ℕ, Bool, true, false, not, ◌&&◌, ◌||◌, Option, none, some}
use llm_guard_proxy.Prelude.Tests.{◌==◌, if◌then◌else◌}
use llm_guard_proxy.Prelude.Words.{u64_max, saturating_mul}
use llm_guard_proxy.Guardian.State.{
  cgroup_kill, systemctl_restart, Policy, same_action, same_policy, CgroupTarget, RecoveryTarget,
  cgroup, systemd, GuardianEscalation, MemoryGuardian, Host,
}
use llm_guard_proxy.Guardian.Emergency.{
  Platform, reserve_new, EmergencyController, new, reset_for_target_generation,
}

unfoldable pub note_policy_rejection : Policy → MemoryGuardian → MemoryGuardian
note_policy_rejection requested g = elim g.last_rejected_policy [
  | none ↦ record g { last_rejected_policy = some requested }
  | some last ↦
      if same_policy last requested then g else record g { last_rejected_policy = some requested }
]

unfoldable pub open_recovery_target : Host → Policy → Option RecoveryTarget
open_recovery_target host policy = elim policy.kill_action [
  | cgroup_kill ↦ elim (host.open_registered policy) [
    | none ↦ none
    | some target ↦ some (cgroup target)
  ]
  | systemctl_restart ↦ some (systemd policy.names)
]

abbrev pub same_identity : Option (ℕ × ℕ) → Option (ℕ × ℕ) → Bool
same_identity (some (dev, ino)) (some (dev', ino')) = (dev == dev') && (ino == ino')
same_identity _ _ = false

unfoldable pub has_same_target_generation : CgroupTarget → CgroupTarget → Bool
has_same_target_generation active candidate =
    (active.registration == candidate.registration)
    && same_identity active.identity candidate.identity

-- The `matches!` on the installed target and the candidate.
abbrev pub same_generation : Option RecoveryTarget → RecoveryTarget → Bool
same_generation (some (cgroup active)) (cgroup candidate) =
    has_same_target_generation active candidate
same_generation _ _ = false

abbrev pub reset_controller : Option EmergencyController → Option EmergencyController
reset_controller none = none
reset_controller (some c) = some (reset_for_target_generation c)

abbrev pub target_is_verified : Option EmergencyController → Bool
target_is_verified none = false
target_is_verified (some c) = c.verified

-- The `Ok` branch of `reconcile_active_target`.
unfoldable pub install_target : RecoveryTarget → MemoryGuardian → MemoryGuardian × Bool
install_target target g =
    if same_generation g.target target
    then (let repopulated = target_is_verified g.controller in
        (
          record g {
            last_rejected_policy = none;
            controller = if repopulated then reset_controller g.controller else g.controller;
          },
          repopulated,
        ))
    else (
      record g {
        target = some target;
        last_rejected_policy = none;
        controller = reset_controller g.controller;
      },
      true,
    )

abbrev pub is_absent : Option RecoveryTarget → Bool
is_absent none = true
is_absent (some target) = false

unfoldable pub reconcile_active_target : Host → MemoryGuardian → MemoryGuardian × Bool
reconcile_active_target host g =
    if g.active_policy.enabled
      && (is_absent g.target || same_action g.active_policy.kill_action cgroup_kill)
    then elim (open_recovery_target host g.active_policy) [
      | none ↦ (note_policy_rejection g.active_policy g, false)
      | some target ↦ install_target target g
    ]
    else (g, false)

-- What both ends of `try_apply_policy` reset.
abbrev pub install_policy :
    Policy
    → Thresholds.Thresholds
    → Option RecoveryTarget
    → Option EmergencyController
    → MemoryGuardian
    → MemoryGuardian
install_policy requested thresholds target controller g = record g {
  active_policy = requested;
  thresholds = thresholds;
  target = target;
  controller = controller;
  poll_interval = requested.poll_interval_secs;
  retry_interval = requested.retry_interval_secs;
  systemd_next_attempt_millis = 0;
  systemd_verified = false;
  observer_pressure_reported = false;
  last_rejected_policy = none;
}

abbrev pub retry_millis : Policy → ℕ
retry_millis requested = saturating_mul u64_max requested.retry_interval_secs 1000

-- `try_apply_policy` for an enabled policy whose thresholds are valid.
unfoldable pub arm_policy :
    Host → Policy → Thresholds.Thresholds → MemoryGuardian → MemoryGuardian × Bool
arm_policy host requested thresholds g = elim (open_recovery_target host requested) [
  | none ↦ (note_policy_rejection requested g, false)
  | some target ↦ elim (reserve_new host.platform thresholds.reserve_bytes) [
    | none ↦ (note_policy_rejection requested g, false)
    | some reserve ↦ (
      install_policy requested thresholds (some target)
          (some (new reserve (retry_millis requested))) g,
      true,
    )
  ]
]

unfoldable pub has_open_executor : Host → MemoryGuardian → Bool
has_open_executor host g = g.escalation.sender && not host.executor_closed

unfoldable pub try_apply_policy : Host → Policy → MemoryGuardian → MemoryGuardian × Bool
try_apply_policy host requested g =
    if requested.escalation_enabled && not (has_open_executor host g)
    then (note_policy_rejection requested g, false)
    else elim (Thresholds.new requested.mem_threshold_gib requested.reserve_mib) [
      | none ↦ (note_policy_rejection requested g, false)
      | some thresholds ↦
          if requested.enabled
          then arm_policy host requested thresholds g
          else (install_policy requested thresholds none none g, true)
    ]

unfoldable pub reconcile_healthy_target : Host → MemoryGuardian → MemoryGuardian × Bool
reconcile_healthy_target host g = elim host.snapshot [
  | none ↦ (g, false)
  | some requested ↦
      if same_policy requested g.active_policy
      then reconcile_active_target host g
      else try_apply_policy host requested g
]

abbrev pub no_escalation : GuardianEscalation
no_escalation = record {
  sender = false;
  episode = record { armed_at = none; attempted = false };
  generation = none;
  next_episode = 0;
  invocation = none;
  outcome = none;
}

-- A guardian before its first iteration.
abbrev pub opened : Policy → Thresholds.Thresholds → Option EmergencyController → MemoryGuardian
opened active_policy thresholds controller = record {
  active_policy = active_policy;
  thresholds = thresholds;
  target = none;
  controller = controller;
  poll_interval = active_policy.poll_interval_secs;
  retry_interval = active_policy.retry_interval_secs;
  latched = false;
  systemd_next_attempt_millis = 0;
  systemd_verified = false;
  observer_pressure_reported = false;
  last_rejected_policy = none;
  escalation = no_escalation;
}

-- `MemoryGuardian::open` on a validated snapshot; `meminfo_opened` is the opening of /proc/meminfo.
unfoldable pub open_guardian : Platform → Bool → Policy → Option MemoryGuardian
open_guardian platform meminfo_opened active_policy =
    elim (Thresholds.new active_policy.mem_threshold_gib active_policy.reserve_mib) [
      | none ↦ none
      | some thresholds ↦
          if active_policy.enabled
          then elim (reserve_new platform thresholds.reserve_bytes) [
            | none ↦ none
            | some reserve ↦
                if meminfo_opened
                then some (
                    opened active_policy thresholds
                      (some (new reserve (retry_millis active_policy))))
                else none
          ]
          else (if meminfo_opened then some (opened active_policy thresholds none) else none)
    ]
