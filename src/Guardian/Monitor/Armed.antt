-- ===== src/Guardian/Monitor/Armed.antt =====
-- The invariant of the guardian between two iterations.
use llm_guard_proxy.Guardian.Thresholds
use llm_guard_proxy.Guardian.Emergency
use llm_guard_proxy.Prelude.{
  ℕ, ◌≡◌, refl, sym, inl, inr, Bool, true, false, not, ◌&&◌, ◌||◌, Option, none, some, arith,
}
use llm_guard_proxy.Prelude.Tests.{Bool-cases, both_of_and, Option-cases}
use llm_guard_proxy.Guardian.State.{
  cgroup_kill, Policy, same_action, same_policy, RecoveryTarget, MemoryGuardian, Host,
}
use llm_guard_proxy.Guardian.Reconcile.{
  note_policy_rejection, open_recovery_target, reset_controller, install_target, is_absent,
  reconcile_active_target, install_policy, retry_millis, arm_policy, has_open_executor,
  try_apply_policy, reconcile_healthy_target,
}

abbrev pub has_controller : Option Emergency.EmergencyController → Bool
has_controller none = false
has_controller (some c) = true

-- The controller, if there is one, owns its reserve.
abbrev pub is_reserved : Option Emergency.EmergencyController → Bool
is_reserved none = true
is_reserved (some c) = c.reserve.allocated

-- The thresholds are those of the installed policy; a controller exists exactly under an enabled
-- policy, and a disabled one has no target and never latches; a guardian that is not latched owns its
-- reserve and has no systemd attempt behind it.
pub record IsArmed (g : MemoryGuardian) : Type 0 where
  pub thresholds :
      Thresholds.new g.active_policy.mem_threshold_gib g.active_policy.reserve_mib
      ≡ some g.thresholds
  pub matched : has_controller g.controller ≡ g.active_policy.enabled
  pub untargeted : g.active_policy.enabled ≡ false → is_absent g.target ≡ true
  pub latch_enabled : g.latched ≡ true → g.active_policy.enabled ≡ true
  pub reserved : g.latched ≡ false → is_reserved g.controller ≡ true
  pub fresh : g.latched ≡ false → (g.systemd_verified ≡ false) × (g.systemd_next_attempt_millis ≡ 0)

note_policy_rejection-IsArmed :
    (p : Policy) (g : MemoryGuardian) → IsArmed g → IsArmed (note_policy_rejection p g)
unfolding note_policy_rejection
note_policy_rejection-IsArmed p g v = ground arith

reset_keeps :
    (controller : Option Emergency.EmergencyController)
    → (has_controller (reset_controller controller) ≡ has_controller controller)
      × (is_reserved (reset_controller controller) ≡ is_reserved controller)
reset_keeps none = (refl, refl)
reset_keeps (some c) = (refl, unfold Emergency.reset_for_target_generation in refl)

install_target-IsArmed :
    (target : RecoveryTarget) (g : MemoryGuardian)
    → g.active_policy.enabled ≡ true
    → IsArmed g
    → IsArmed (install_target target g).0
unfolding install_target
install_target-IsArmed target g e v = ground (arith, reset_keeps g.controller)

-- What `reconcile_active_target` can leave.
pub reconcile_active_cases {ℓ} :
    (P : MemoryGuardian → Type ℓ) (host : Host) (g : MemoryGuardian)
    → P g
    → P (note_policy_rejection g.active_policy g)
    → ((target : RecoveryTarget) → g.active_policy.enabled ≡ true → P (install_target target g).0)
    → P (reconcile_active_target host g).0
unfolding reconcile_active_target
reconcile_active_cases P host g same rejected installed =
    elim (Bool-cases (
      g.active_policy.enabled
      && (is_absent g.target || same_action g.active_policy.kill_action cgroup_kill))) [
        | inr idle ↦ rw idle same
        | inl needed ↦ elim (Option-cases (open_recovery_target host g.active_policy)) [
          | inl e ↦ rw (needed, e) rejected
          | inr (target, e) ↦
              rw (needed, e) (installed target (both_of_and g.active_policy.enabled _ needed).0)
        ]
      ]

pub reconcile_active_target-IsArmed :
    (host : Host) (g : MemoryGuardian) → IsArmed g → IsArmed (reconcile_active_target host g).0
reconcile_active_target-IsArmed host g v =
    reconcile_active_cases IsArmed host g v (note_policy_rejection-IsArmed g.active_policy g v)
      (λ target e. install_target-IsArmed target g e v)

with_page_size-allocated :
    (mapped : Bool) (bytes page_size : ℕ) (r : Emergency.EmergencyReserve)
    → Emergency.with_page_size mapped bytes page_size ≡ some r
    → r.allocated ≡ true
unfolding Emergency.with_page_size
with_page_size-allocated mapped bytes page_size r h = ground arith

pub reserve_new-allocated :
    (platform : Emergency.Platform) (bytes : ℕ) (r : Emergency.EmergencyReserve)
    → Emergency.reserve_new platform bytes ≡ some r
    → r.allocated ≡ true
unfolding Emergency.reserve_new
reserve_new-allocated platform bytes r h = elim (Option-cases platform.configured_page_size) [
  | inl e ↦ absurd (ground (arith, e))
  | inr (page_size, e) ↦
      ground (arith, e, with_page_size-allocated platform.mapped bytes page_size r)
]

abbrev pub Fits : Policy → Thresholds.Thresholds → Type 0
Fits requested thresholds =
    Thresholds.new requested.mem_threshold_gib requested.reserve_mib ≡ some thresholds

module _ (host : Host) (requested : Policy) (g : MemoryGuardian) (idle : g.latched ≡ false)
    (v : IsArmed g) where
  unopened_case :
      (thresholds : Thresholds.Thresholds)
      → open_recovery_target host requested ≡ none
      → arm_policy host requested thresholds g ≡ (note_policy_rejection requested g, false)
  unfolding arm_policy
  unopened_case thresholds o = ground (arith, o)

  unreserved_case :
      (thresholds : Thresholds.Thresholds) (target : RecoveryTarget)
      → open_recovery_target host requested ≡ some target
      → Emergency.reserve_new host.platform thresholds.reserve_bytes ≡ none
      → arm_policy host requested thresholds g ≡ (note_policy_rejection requested g, false)
  unfolding arm_policy
  unreserved_case thresholds target o r = ground (arith, o, r)

  armed_case :
      (thresholds : Thresholds.Thresholds) (target : RecoveryTarget)
      (reserve : Emergency.EmergencyReserve)
      → open_recovery_target host requested ≡ some target
      → Emergency.reserve_new host.platform thresholds.reserve_bytes ≡ some reserve
      → arm_policy host requested thresholds g ≡ (
        install_policy requested thresholds
            (some target)
            (some (Emergency.new reserve (retry_millis requested)))
            g,
        true,
      )
  unfolding arm_policy
  armed_case thresholds target reserve o r = ground (arith, o, r)

  arm_policy-IsArmed :
      (thresholds : Thresholds.Thresholds)
      → Fits requested thresholds
      → requested.enabled ≡ true
      → IsArmed (arm_policy host requested thresholds g).0
  arm_policy-IsArmed thresholds t e = elim (Option-cases (open_recovery_target host requested)) [
    | inl o ↦ rw (unopened_case thresholds o) (note_policy_rejection-IsArmed requested g v)
    | inr (target, o) ↦
        elim (Option-cases (Emergency.reserve_new host.platform thresholds.reserve_bytes)) [
          | inl r ↦
              rw (unreserved_case thresholds target o r)
                (note_policy_rejection-IsArmed requested g v)
          | inr (reserve, r) ↦ rw (armed_case thresholds target reserve o r) (record {
            thresholds = t;
            matched = sym e;
            untargeted = λ k. cc;
            latch_enabled = λ k. e;
            reserved = λ k. unfold Emergency.new in reserve_new-allocated host.platform _ reserve r;
            fresh = λ k. (refl, refl);
          })
        ]
  ]

  disarm_IsArmed :
      (thresholds : Thresholds.Thresholds)
      → Fits requested thresholds
      → requested.enabled ≡ false
      → IsArmed (install_policy requested thresholds none none g)
  disarm_IsArmed thresholds t e = record {
    thresholds = t;
    matched = sym e;
    untargeted = λ k. refl;
    latch_enabled = λ k. cc;
    reserved = λ k. refl;
    fresh = λ k. (refl, refl);
  }

  refused_case :
      (requested.escalation_enabled && not (has_open_executor host g)) ≡ true
      → try_apply_policy host requested g ≡ (note_policy_rejection requested g, false)
  unfolding try_apply_policy
  refused_case h = ground (arith, h)

  invalid_case :
      Thresholds.new requested.mem_threshold_gib requested.reserve_mib ≡ none
      → try_apply_policy host requested g ≡ (note_policy_rejection requested g, false)
  unfolding try_apply_policy
  invalid_case h = ground (arith, h)

  arm_case :
      (thresholds : Thresholds.Thresholds)
      → (requested.escalation_enabled && not (has_open_executor host g)) ≡ false
      → Fits requested thresholds
      → requested.enabled ≡ true
      → try_apply_policy host requested g ≡ arm_policy host requested thresholds g
  unfolding try_apply_policy
  arm_case thresholds allowed t on = ground (arith, allowed, t, on)

  disarm_case :
      (thresholds : Thresholds.Thresholds)
      → (requested.escalation_enabled && not (has_open_executor host g)) ≡ false
      → Fits requested thresholds
      → requested.enabled ≡ false
      → try_apply_policy host requested g ≡ (install_policy requested thresholds none none g, true)
  unfolding try_apply_policy
  disarm_case thresholds allowed t off = ground (arith, allowed, t, off)

  try_apply_policy-IsArmed : IsArmed (try_apply_policy host requested g).0
  try_apply_policy-IsArmed =
      elim (Bool-cases (requested.escalation_enabled && not (has_open_executor host g))) [
        | inl refused ↦ rw (refused_case refused) (note_policy_rejection-IsArmed requested g v)
        | inr allowed ↦
            elim (Option-cases (Thresholds.new requested.mem_threshold_gib requested.reserve_mib)) [
              | inl bad ↦ rw (invalid_case bad) (note_policy_rejection-IsArmed requested g v)
              | inr (thresholds, t) ↦ elim (Bool-cases requested.enabled) [
                | inl on ↦
                    rw (arm_case thresholds allowed t on) (arm_policy-IsArmed thresholds t on)
                | inr off ↦
                    rw (disarm_case thresholds allowed t off) (disarm_IsArmed thresholds t off)
              ]
            ]
      ]

module _ (host : Host) (g : MemoryGuardian) where
  no_snapshot_case : host.snapshot ≡ none → reconcile_healthy_target host g ≡ (g, false)
  unfolding reconcile_healthy_target
  no_snapshot_case h = ground (arith, h)

  same_case :
      (requested : Policy)
      → host.snapshot ≡ some requested
      → same_policy requested g.active_policy ≡ true
      → reconcile_healthy_target host g ≡ reconcile_active_target host g
  unfolding reconcile_healthy_target
  same_case requested h same = ground (arith, h, same)

  new_case :
      (requested : Policy)
      → host.snapshot ≡ some requested
      → same_policy requested g.active_policy ≡ false
      → reconcile_healthy_target host g ≡ try_apply_policy host requested g
  unfolding reconcile_healthy_target
  new_case requested h new = ground (arith, h, new)

  pub reconcile_healthy_target-IsArmed :
      g.latched ≡ false → IsArmed g → IsArmed (reconcile_healthy_target host g).0
  reconcile_healthy_target-IsArmed idle v = elim (Option-cases host.snapshot) [
    | inl e ↦ rw (no_snapshot_case e) v
    | inr (requested, e) ↦ elim (Bool-cases (same_policy requested g.active_policy)) [
      | inl same ↦ rw (same_case requested e same) (reconcile_active_target-IsArmed host g v)
      | inr new ↦ rw (new_case requested e new) (try_apply_policy-IsArmed host requested g idle v)
    ]
  ]
