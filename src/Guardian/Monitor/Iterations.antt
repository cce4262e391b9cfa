-- ===== src/Guardian/Monitor/Iterations.antt =====
-- What one iteration of the guardian keeps, and when it enters and leaves the latched state.
use llm_guard_proxy.Guardian.Emergency
use llm_guard_proxy.Prelude.{
  ℕ, ◌≡◌, refl, sym, ◌∙◌, inl, inr, Bool, true, false, Option, none, some, arith,
}
use llm_guard_proxy.Prelude.Tests.{Bool-cases, Option-cases}
use llm_guard_proxy.Guardian.State.{
  Policy, RecoveryTarget, cgroup, systemd, MemoryGuardian, Host, GuardianIteration, rearmed,
}
use llm_guard_proxy.Guardian.Reconcile.{
  note_policy_rejection, install_target, reconcile_active_target,
}
use llm_guard_proxy.Guardian.Monitor.{
  attempt_systemd_restart, attempt_on_target, attempt_emergency, keep_latched, rearm_reserved,
  rearm, may_rearm, latched_iteration,
}
use llm_guard_proxy.Guardian.Monitor.Armed.{
  has_controller, IsArmed, reconcile_active_cases, reconcile_active_target-IsArmed,
  reserve_new-allocated,
}

-- What an attempt leaves of a guardian: the rest is its target's progress.
pub record SameEpisode (before after : MemoryGuardian) : Type 0 where
  pub active_policy : after.active_policy ≡ before.active_policy
  pub thresholds : after.thresholds ≡ before.thresholds
  pub target : after.target ≡ before.target
  pub latched : after.latched ≡ before.latched
  pub controlled : has_controller after.controller ≡ has_controller before.controller
  pub escalation : after.escalation ≡ before.escalation

attempt_systemd_restart-SameEpisode :
    (host : Host) (g : MemoryGuardian) → SameEpisode g (attempt_systemd_restart host g).0
unfolding attempt_systemd_restart
attempt_systemd_restart-SameEpisode host g = ground arith

attempt_on_target-SameEpisode :
    (host : Host) (target : RecoveryTarget) (g : MemoryGuardian)
    → SameEpisode g (attempt_on_target host target g).0
unfolding attempt_on_target
attempt_on_target-SameEpisode host (cgroup target) g = ground arith
attempt_on_target-SameEpisode host (systemd unit) g = attempt_systemd_restart-SameEpisode host g

pub attempt_emergency-SameEpisode :
    (host : Host) (entering : Bool) (g : MemoryGuardian)
    → SameEpisode g (attempt_emergency host entering g).0
unfolding attempt_emergency
attempt_emergency-SameEpisode host entering g = elim (Option-cases g.target) [
  | inl e ↦ ground (arith, e)
  | inr (target, e) ↦ ground (arith, e, attempt_on_target-SameEpisode host target g)
]

pub latched-IsArmed :
    (before after : MemoryGuardian)
    → before.latched ≡ true
    → SameEpisode before after
    → IsArmed before
    → IsArmed after
latched-IsArmed before after on same v = record {
  thresholds = ground (arith, same.active_policy, same.thresholds, v.thresholds);
  matched = ground (arith, same.active_policy, same.controlled, v.matched);
  untargeted = ground (arith, same.active_policy, same.target, v.untargeted);
  latch_enabled = ground (arith, same.active_policy, same.latched, v.latch_enabled);
  reserved = λ off. absurd (ground (arith, same.latched));
  fresh = λ off. absurd (ground (arith, same.latched));
}

ensure_reserve-allocated :
    (platform : Emergency.Platform) (bytes : ℕ) (c : Emergency.EmergencyController) (fresh : Bool)
    → (Emergency.ensure_reserve platform bytes c).1 ≡ some fresh
    → (Emergency.ensure_reserve platform bytes c).0.reserve.allocated ≡ true
unfolding Emergency.ensure_reserve
ensure_reserve-allocated platform bytes c fresh h =
    elim (Option-cases (Emergency.reserve_new platform bytes)) [
      | inl e ↦ ground (arith, e)
      | inr (reserve, e) ↦ ground (arith, e, reserve_new-allocated platform bytes reserve)
    ]

install_target-latched :
    (target : RecoveryTarget) (g : MemoryGuardian)
    → ((install_target target g).0.latched ≡ g.latched)
      × ((install_target target g).0.active_policy ≡ g.active_policy)
unfolding install_target
install_target-latched target g = ground arith

note_policy_rejection-latched :
    (p : Policy) (g : MemoryGuardian)
    → ((note_policy_rejection p g).latched ≡ g.latched)
      × ((note_policy_rejection p g).active_policy ≡ g.active_policy)
unfolding note_policy_rejection
note_policy_rejection-latched p g = ground arith

pub reconcile_active_target-latched :
    (host : Host) (g : MemoryGuardian)
    → ((reconcile_active_target host g).0.latched ≡ g.latched)
      × ((reconcile_active_target host g).0.active_policy ≡ g.active_policy)
reconcile_active_target-latched host g =
    reconcile_active_cases
      (λ after. (after.latched ≡ g.latched) × (after.active_policy ≡ g.active_policy)) host g
      (refl, refl) (note_policy_rejection-latched g.active_policy g)
      (λ target e. install_target-latched target g)

module _ (host : Host) (g : MemoryGuardian) (on : g.latched ≡ true) where
  keep_latched-latched :
      ((keep_latched host g).0.latched ≡ true)
      × ((keep_latched host g).0.active_policy ≡ g.active_policy)
  unfolding keep_latched
  keep_latched-latched =
      let reconciled = (reconcile_active_target host g).0 in
      let same = attempt_emergency-SameEpisode host false reconciled in
      (
        same.latched ∙ (reconcile_active_target-latched host g).0 ∙ on,
        same.active_policy ∙ (reconcile_active_target-latched host g).1,
      )

  keep_latched-IsArmed : IsArmed g → IsArmed (keep_latched host g).0
  unfolding keep_latched
  keep_latched-IsArmed v =
      let reconciled = (reconcile_active_target host g).0 in
      latched-IsArmed reconciled (attempt_emergency host false reconciled).0
        ((reconcile_active_target-latched host g).0 ∙ on)
        (attempt_emergency-SameEpisode host false reconciled)
        (reconcile_active_target-IsArmed host g v)

-- The guardian after the latched iteration got its reserve back.
abbrev rearmed_guardian : Emergency.EmergencyController → MemoryGuardian → MemoryGuardian
rearmed_guardian c g = record g {
  controller = some c;
  latched = false;
  systemd_next_attempt_millis = 0;
  systemd_verified = false;
}

rearm_case :
    (host : Host) (g : MemoryGuardian) (c : Emergency.EmergencyController)
    → g.controller ≡ some c
    → (let answer = Emergency.ensure_reserve host.platform g.thresholds.reserve_bytes c in
        rearm host g ≡ rearm_reserved host g answer.0 answer.1)
unfolding rearm
rearm_case host g c h = ground (arith, h)

-- What `rearm` can leave of a guardian with a controller.
rearm_cases {ℓ} :
    (P : MemoryGuardian × GuardianIteration → Type ℓ) (host : Host) (g : MemoryGuardian)
    (c : Emergency.EmergencyController)
    → g.controller ≡ some c
    → ((c' : Emergency.EmergencyController)
        → P (keep_latched host (record g { controller = some c' })))
    → ((c' : Emergency.EmergencyController)
        → c'.reserve.allocated ≡ true
        → P (rearmed_guardian c' g, rearmed))
    → P (rearm host g)
rearm_cases P host g c h kept fresh =
    let answer = Emergency.ensure_reserve host.platform g.thresholds.reserve_bytes c in
    rw (rearm_case host g c h) (elim (Option-cases answer.1) [
      | inl e ↦ rw e (unfold rearm_reserved in kept answer.0)
      | inr (new, e) ↦ rw e (
          unfold rearm_reserved in
          fresh answer.0 (ensure_reserve-allocated host.platform _ c new e))
    ])

has_controller_case :
    (controller : Option Emergency.EmergencyController)
    → has_controller controller ≡ true
    → (c : Emergency.EmergencyController) × (controller ≡ some c)
has_controller_case none h = absurd (ground (arith, h))
has_controller_case (some c) h = (c, refl)

-- The watermark of the installed policy was reached by the iteration's reading.
abbrev pub Recovered : Host → MemoryGuardian → Type 0
Recovered host g = may_rearm host g ≡ true

-- What the latched iteration ends in.
abbrev pub LatchedEnd : Host → MemoryGuardian → MemoryGuardian × GuardianIteration → Type 0
LatchedEnd host g (after, iteration) =
    IsArmed after
    × (after.active_policy ≡ g.active_policy)
    × (after.latched ≡ false
        → (Recovered host g) × (iteration ≡ rearmed) × (has_controller after.controller ≡ true))

keep_latched-LatchedEnd :
    (host : Host) (g kept : MemoryGuardian)
    → kept.latched ≡ true
    → kept.active_policy ≡ g.active_policy
    → IsArmed kept
    → LatchedEnd host g (keep_latched host kept)
keep_latched-LatchedEnd host g kept on same v = (
  keep_latched-IsArmed host kept on v,
  (keep_latched-latched host kept on).1 ∙ same,
  λ off. absurd (ground (arith, (keep_latched-latched host kept on).0, off)),
)

module _ (host : Host) (g : MemoryGuardian) (on : g.latched ≡ true) (v : IsArmed g) where
  with_controller-IsArmed :
      (c : Emergency.EmergencyController) → IsArmed (record g { controller = some c })
  with_controller-IsArmed c = record {
    thresholds = v.thresholds;
    matched = sym (v.latch_enabled on);
    untargeted = v.untargeted;
    latch_enabled = v.latch_enabled;
    reserved = λ off. absurd (ground (arith, on, off));
    fresh = λ off. absurd (ground (arith, on, off));
  }

  rearmed_guardian-IsArmed :
      (c : Emergency.EmergencyController)
      → c.reserve.allocated ≡ true
      → IsArmed (rearmed_guardian c g)
  rearmed_guardian-IsArmed c owned = record {
    thresholds = v.thresholds;
    matched = sym (v.latch_enabled on);
    untargeted = v.untargeted;
    latch_enabled = λ k. v.latch_enabled on;
    reserved = λ k. owned;
    fresh = λ k. (refl, refl);
  }

  rearm-LatchedEnd : Recovered host g → LatchedEnd host g (rearm host g)
  rearm-LatchedEnd recovered =
      let (c, h) = has_controller_case g.controller (v.matched ∙ v.latch_enabled on) in
      rearm_cases (LatchedEnd host g) host g c h
        (λ c'.
          keep_latched-LatchedEnd host g (record g { controller = some c' }) on refl
            (with_controller-IsArmed c'))
        (λ c' owned. (rearmed_guardian-IsArmed c' owned, refl, λ off. (recovered, refl, refl)))

  rearming_case : may_rearm host g ≡ true → latched_iteration host g ≡ rearm host g
  unfolding latched_iteration
  rearming_case h = ground (arith, h)

  keeping_case : may_rearm host g ≡ false → latched_iteration host g ≡ keep_latched host g
  unfolding latched_iteration
  keeping_case h = ground (arith, h)

  pub latched_iteration-LatchedEnd : LatchedEnd host g (latched_iteration host g)
  latched_iteration-LatchedEnd = elim (Bool-cases (may_rearm host g)) [
    | inl h ↦ rw (rearming_case h) (rearm-LatchedEnd h)
    | inr h ↦ rw (keeping_case h) (keep_latched-LatchedEnd host g g on refl v)
  ]
