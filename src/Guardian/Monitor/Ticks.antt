-- ===== src/Guardian/Monitor/Ticks.antt =====
-- The healthy iteration of the guardian with its reconciliation, and the cases of `iterate`.
use llm_guard_proxy.Guardian.Thresholds
use llm_guard_proxy.Prelude.{ℕ, ◌≡◌, refl, ◌∙◌, ◌⊎◌, inl, inr, true, false, arith}
use llm_guard_proxy.Prelude.Tests.{Option-cases}
use llm_guard_proxy.Guardian.State.{Policy, MemoryGuardian, Host, healthy}
use llm_guard_proxy.Guardian.Reconcile.{
  note_policy_rejection, arm_policy, try_apply_policy, reconcile_healthy_target,
}
use llm_guard_proxy.Guardian.MemInfo.{MemInfoError, MemInfoResult}
use llm_guard_proxy.Guardian.Tier2.{update_escalation}
use llm_guard_proxy.Guardian.Monitor.{
  healthy_reading, healthy_iteration, latched_iteration, iterate,
}
use llm_guard_proxy.Guardian.Monitor.Armed.{IsArmed, reconcile_healthy_target-IsArmed}
use llm_guard_proxy.Guardian.Monitor.Iterations.{reconcile_active_target-latched}
use llm_guard_proxy.Guardian.Monitor.Healthy.{HealthyEnd, healthy_reading-HealthyEnd}

pub MemInfoResult-cases :
    (r : MemInfoResult)
    → ((e : MemInfoError) × (r ≡ MemInfoResult.err e))
      ⊎ ((bytes : ℕ) × (r ≡ MemInfoResult.ok bytes))
MemInfoResult-cases (MemInfoResult.err e) = inl (e, refl)
MemInfoResult-cases (MemInfoResult.ok bytes) = inr (bytes, refl)

-- A change of policy leaves the latch as it is.
arm_policy-latched :
    (host : Host) (requested : Policy) (thresholds : Thresholds.Thresholds) (g : MemoryGuardian)
    → (arm_policy host requested thresholds g).0.latched ≡ g.latched
unfolding arm_policy note_policy_rejection
arm_policy-latched host requested thresholds g = ground arith

try_apply_policy-latched :
    (host : Host) (requested : Policy) (g : MemoryGuardian)
    → (try_apply_policy host requested g).0.latched ≡ g.latched
unfolding try_apply_policy note_policy_rejection
try_apply_policy-latched host requested g =
    elim (Option-cases (Thresholds.new requested.mem_threshold_gib requested.reserve_mib)) [
      | inl e ↦ ground (arith, e)
      | inr (thresholds, e) ↦ ground (arith, e, arm_policy-latched host requested thresholds g)
    ]

reconcile_healthy_target-latched :
    (host : Host) (g : MemoryGuardian) → (reconcile_healthy_target host g).0.latched ≡ g.latched
unfolding reconcile_healthy_target
reconcile_healthy_target-latched host g = elim (Option-cases host.snapshot) [
  | inl e ↦ ground (arith, e)
  | inr (requested, e) ↦
      ground (
        arith,
        e,
        reconcile_active_target-latched host g,
        try_apply_policy-latched host requested g,
      )
]

module _ (host : Host) (g : MemoryGuardian) (off : g.latched ≡ false) (v : IsArmed g) where
  unread_case :
      (e : MemInfoError)
      → host.meminfo ≡ MemInfoResult.err e
      → healthy_iteration host g ≡ ((reconcile_healthy_target host g).0, healthy)
  unfolding healthy_iteration
  unread_case e h = ground (arith, h)

  read_case :
      (bytes : ℕ)
      → host.meminfo ≡ MemInfoResult.ok bytes
      → healthy_iteration host g ≡ healthy_reading host bytes (reconcile_healthy_target host g).0
  unfolding healthy_iteration
  read_case bytes h = ground (arith, h)

  pub healthy_iteration-HealthyEnd : HealthyEnd host (healthy_iteration host g)
  healthy_iteration-HealthyEnd =
      let reconciled = (reconcile_healthy_target host g).0 in
      let still_off = reconcile_healthy_target-latched host g ∙ off in
      let still = reconcile_healthy_target-IsArmed host g off v in
      elim (MemInfoResult-cases host.meminfo) [
        | inl (e, h) ↦ rw (unread_case e h) (still, λ on. absurd (ground (arith, still_off, on)))
        | inr (bytes, h) ↦
            rw (read_case bytes h)
              (healthy_reading-HealthyEnd host reconciled still_off still bytes h)
      ]

pub latched_case :
    (host : Host) (g : MemoryGuardian)
    → g.latched ≡ true
    → iterate host g ≡ latched_iteration host g
unfolding iterate
latched_case host g on = ground (arith, on)

pub healthy_case :
    (host : Host) (g : MemoryGuardian)
    → g.latched ≡ false
    → iterate host g ≡ healthy_iteration host g
unfolding iterate
healthy_case host g off = ground (arith, off)

-- Tier 2 changes the handoff only.
pub update_escalation-only :
    (host : Host) (g : MemoryGuardian)
    → (update_escalation host g).0
      ≡ record g { escalation = (update_escalation host g).0.escalation }
unfolding update_escalation
update_escalation-only host g = ground arith
