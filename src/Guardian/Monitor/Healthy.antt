-- ===== src/Guardian/Monitor/Healthy.antt =====
-- What a healthy iteration of the guardian keeps, and when it enters the latched state.
use llm_guard_proxy.Guardian.Thresholds
use llm_guard_proxy.Guardian.Emergency
use llm_guard_proxy.Prelude.{
  ℕ, ◌≡◌, refl, ◌∙◌, inl, inr, Bool, true, false, ◌&&◌, Option, none, some, arith,
}
use llm_guard_proxy.Prelude.Tests.{Bool-cases, both_of_and}
use llm_guard_proxy.Guardian.State.{MemoryGuardian, Host, GuardianIteration}
use llm_guard_proxy.Guardian.MemInfo.{MemInfoResult}
use llm_guard_proxy.Guardian.Monitor.{attempt_emergency, enter_controller, healthy_reading}
use llm_guard_proxy.Guardian.Monitor.Armed.{has_controller, IsArmed}
use llm_guard_proxy.Guardian.Monitor.Iterations.{attempt_emergency-SameEpisode, latched-IsArmed}

-- The reading of the iteration is at the threshold of these thresholds, or below it.
abbrev pub under_pressure : Host → Thresholds.Thresholds → Bool
under_pressure host thresholds = elim host.meminfo [
  | MemInfoResult.err e ↦ false
  | MemInfoResult.ok bytes ↦ Thresholds.should_shed bytes thresholds
]

-- What the healthy iteration ends in.
abbrev pub HealthyEnd : Host → MemoryGuardian × GuardianIteration → Type 0
HealthyEnd host (after, iteration) =
    IsArmed after
    × (after.latched ≡ true
        → (after.active_policy.enabled ≡ true) × (under_pressure host after.thresholds ≡ true))

abbrev latch : Host → MemoryGuardian → MemoryGuardian
latch host g = record g { latched = true; controller = enter_controller host.unmapped g.controller }

enter_controller-has :
    (unmapped : Bool) (controller : Option Emergency.EmergencyController)
    → has_controller (enter_controller unmapped controller) ≡ has_controller controller
enter_controller-has unmapped none = refl
enter_controller-has unmapped (some c) = refl

module _ (host : Host) (g : MemoryGuardian) (off : g.latched ≡ false) (v : IsArmed g) where
  latch-IsArmed : g.active_policy.enabled ≡ true → IsArmed (latch host g)
  latch-IsArmed e = record {
    thresholds = v.thresholds;
    matched = enter_controller-has host.unmapped g.controller ∙ v.matched;
    untargeted = v.untargeted;
    latch_enabled = λ k. e;
    reserved = λ k. absurd (ground (arith, k));
    fresh = λ k. absurd (ground (arith, k));
  }

  shed_case :
      (bytes : ℕ)
      → Thresholds.should_shed bytes g.thresholds ≡ true
      → g.active_policy.enabled ≡ true
      → healthy_reading host bytes g ≡ attempt_emergency host true (latch host g)
  unfolding healthy_reading
  shed_case bytes h e = ground (arith, h, e)

  -- Without an emergency, the guardian changes only what it has reported.
  quiet_case :
      (bytes : ℕ)
      → (Thresholds.should_shed bytes g.thresholds && g.active_policy.enabled) ≡ false
      → (reported : Bool) × ((healthy_reading host bytes g).0
          ≡ record g { observer_pressure_reported = reported })
  unfolding healthy_reading
  quiet_case bytes h = elim (Bool-cases (Thresholds.should_shed bytes g.thresholds)) [
    | inl s ↦ (true, ground (arith, s, h))
    | inr s ↦ (false, ground (arith, s, h))
  ]

  quiet_IsArmed : (reported : Bool) → IsArmed (record g { observer_pressure_reported = reported })
  quiet_IsArmed reported = record {
    thresholds = v.thresholds;
    matched = v.matched;
    untargeted = v.untargeted;
    latch_enabled = v.latch_enabled;
    reserved = v.reserved;
    fresh = v.fresh;
  }

  shed_end :
      (bytes : ℕ)
      → host.meminfo ≡ MemInfoResult.ok bytes
      → Thresholds.should_shed bytes g.thresholds ≡ true
      → g.active_policy.enabled ≡ true
      → HealthyEnd host (healthy_reading host bytes g)
  shed_end bytes r h e =
      let same = attempt_emergency-SameEpisode host true (latch host g) in
      rw (shed_case bytes h e) (
        latched-IsArmed (latch host g) (attempt_emergency host true (latch host g)).0 refl same
            (latch-IsArmed e),
        λ k. (ground (arith, same.active_policy, e), ground (arith, same.thresholds, r, h)),
      )

  pub healthy_reading-HealthyEnd :
      (bytes : ℕ)
      → host.meminfo ≡ MemInfoResult.ok bytes
      → HealthyEnd host (healthy_reading host bytes g)
  healthy_reading-HealthyEnd bytes r =
      elim (Bool-cases (Thresholds.should_shed bytes g.thresholds && g.active_policy.enabled)) [
        | inl h ↦ shed_end bytes r (both_of_and _ _ h).0 (both_of_and _ _ h).1
        | inr h ↦
            let (reported, e) = quiet_case bytes h in
            (rw e (quiet_IsArmed reported), λ k. absurd (ground (arith, e, k, off)))
      ]
