-- ===== src/Guardian/State.antt =====
-- The state of `MemoryGuardian` (monitor.rs) with that of its Tier-2 handoff (tier2.rs), and what the
-- host answers during one iteration. Messages to the log are left out.
use llm_guard_proxy.Prelude.{ℕ, Bool, true, false, not, ◌&&◌, Option}
use llm_guard_proxy.Prelude.Tests.{◌==◌}
use llm_guard_proxy.Guardian.Emergency.{Platform, EmergencyController, World}
use llm_guard_proxy.Guardian.MemInfo.{MemInfoResult}
use llm_guard_proxy.Guardian.Thresholds.{Thresholds}
use llm_guard_proxy.Guardian.Escalation.{EscalationEpisode}

pub data KillAction : Type 0 where
  cgroup_kill systemctl_restart : KillAction

-- `GuardianConfig`. The text fields (label, registration file, unit, cgroup root and profile) are only
-- compared or handed on, so `names` numbers their values.
pub record Policy : Type 0 where
  pub enabled : Bool
  pub names : ℕ
  pub mem_threshold_gib : ℕ
  pub kill_action : KillAction
  pub poll_interval_secs : ℕ
  pub reserve_mib : ℕ
  pub retry_interval_secs : ℕ
  pub escalation_enabled : Bool
  pub escalation_grace_secs : ℕ
  pub escalation_timeout_secs : ℕ
  pub escalation_mem_threshold_gib : ℕ

abbrev pub same_bool : Bool → Bool → Bool
same_bool true b = b
same_bool false b = not b

abbrev pub same_action : KillAction → KillAction → Bool
same_action cgroup_kill cgroup_kill = true
same_action systemctl_restart systemctl_restart = true
same_action _ _ = false

-- The derived `==` of `GuardianConfig`.
unfoldable pub same_policy : Policy → Policy → Bool
same_policy p q =
    same_bool p.enabled q.enabled
    && (p.names == q.names)
    && (p.mem_threshold_gib == q.mem_threshold_gib)
    && same_action p.kill_action q.kill_action
    && (p.poll_interval_secs == q.poll_interval_secs)
    && (p.reserve_mib == q.reserve_mib)
    && (p.retry_interval_secs == q.retry_interval_secs)
    && same_bool p.escalation_enabled q.escalation_enabled
    && (p.escalation_grace_secs == q.escalation_grace_secs)
    && (p.escalation_timeout_secs == q.escalation_timeout_secs)
    && (p.escalation_mem_threshold_gib == q.escalation_mem_threshold_gib)

-- An open cgroup: its registration, and the device and inode of its directory, if `fstat` gives them.
pub record CgroupTarget : Type 0 where
  pub registration : ℕ
  pub identity : Option (ℕ × ℕ)

pub data RecoveryTarget : Type 0 where
  cgroup : CgroupTarget → RecoveryTarget
  systemd : ℕ → RecoveryTarget

pub data RecoveryOutcome : Type 0 where
  succeeded not_admitted action_failed cancelled timed_out unconfirmed : RecoveryOutcome

-- One handoff in flight; the authority's flag is the part of it that the guardian changes.
pub record Invocation : Type 0 where
  pub authority_cancelled : Bool

-- `sender` says whether an executor is installed.
pub record GuardianEscalation : Type 0 where
  pub sender : Bool
  pub episode : EscalationEpisode
  pub generation : Option (ℕ × ℕ)
  pub next_episode : ℕ
  pub invocation : Option Invocation
  pub outcome : Option RecoveryOutcome

pub record MemoryGuardian : Type 0 where
  pub active_policy : Policy
  pub thresholds : Thresholds
  pub target : Option RecoveryTarget
  pub controller : Option EmergencyController
  pub poll_interval : ℕ
  pub retry_interval : ℕ
  pub latched : Bool
  pub systemd_next_attempt_millis : ℕ
  pub systemd_verified : Bool
  pub observer_pressure_reported : Bool
  pub last_rejected_policy : Option Policy
  pub escalation : GuardianEscalation

-- What `completion.try_recv` gives.
pub data Received : Type 0 where
  completed : RecoveryOutcome → Received
  closed pending : Received

-- What the host answers during one call of `tick`.
pub record Host : Type 0 where
  -- `guardian_snapshot`, and whether the executor's channel is closed.
  pub snapshot : Option Policy
  pub executor_closed : Bool
  -- `CgroupTarget::open_registered`, under a policy.
  pub open_registered : Policy → Option CgroupTarget
  pub platform : Platform
  -- The reading of the iteration, and that of Tier 2.
  pub meminfo : MemInfoResult
  pub pressure : MemInfoResult
  pub unmapped : Bool
  pub world : World
  -- Whether `restart_user_unit` succeeds.
  pub restarted : Bool
  -- Tier 2: the authority's checks, the completion, the target, the clock, the clones of descriptors
  -- and the bounded channel.
  pub authority_valid : Bool
  pub received : Received
  pub target_empty : Option Bool
  pub now : ℕ
  pub cloned : Bool
  pub accepted : Bool

pub data GuardianIteration : Type 0 where
  healthy observer_only unarmed shed waiting verified already_empty rearmed : GuardianIteration
  kill_failed : ℕ → GuardianIteration
