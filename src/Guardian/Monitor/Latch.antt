-- ===== src/Guardian/Monitor/Latch.antt =====
-- Runs of `MemoryGuardian::tick` from `MemoryGuardian::open`, and the latch over one tick.
use llm_guard_proxy.Guardian.Thresholds
use llm_guard_proxy.Guardian.Emergency
use mathlib.Core.Path.{subst}
use llm_guard_proxy.Prelude.{
  ◌≡◌, refl, sym, ap, ◌∙◌, inl, inr, Bool, true, false, Option, none, some, List, [], ◌∷◌, arith,
}
use llm_guard_proxy.Prelude.Tests.{Bool-cases, Option-cases}
use llm_guard_proxy.Guardian.State.{Policy, GuardianEscalation, MemoryGuardian, Host, rearmed}
use llm_guard_proxy.Guardian.Reconcile.{retry_millis, opened, open_guardian}
use llm_guard_proxy.Guardian.Monitor.{may_rearm, iterate, tick}
use llm_guard_proxy.Guardian.Monitor.Armed.{
  has_controller, is_reserved, IsArmed, reserve_new-allocated, Fits,
}
use llm_guard_proxy.Guardian.Monitor.Iterations.{latched_iteration-LatchedEnd}
use llm_guard_proxy.Guardian.Monitor.Healthy.{under_pressure}
use llm_guard_proxy.Guardian.Monitor.Ticks.{
  healthy_iteration-HealthyEnd, latched_case, healthy_case, update_escalation-only,
}

handed_IsArmed :
    (g : MemoryGuardian) (e : GuardianEscalation)
    → IsArmed g
    → IsArmed (record g { escalation = e })
handed_IsArmed g e v = record {
  thresholds = v.thresholds;
  matched = v.matched;
  untargeted = v.untargeted;
  latch_enabled = v.latch_enabled;
  reserved = v.reserved;
  fresh = v.fresh;
}

-- Tier 2 changes nothing but the handoff in what an iteration leaves.
tick-iterate :
    (host : Host) (g : MemoryGuardian)
    → ((tick host g).0 ≡ record (iterate host g).0 { escalation = (tick host g).0.escalation })
      × ((tick host g).1 ≡ (iterate host g).1)
unfolding tick
tick-iterate host g = (update_escalation-only host (iterate host g).0, refl)

module _ (host : Host) (g : MemoryGuardian) (v : IsArmed g) where
  iterate-IsArmed : IsArmed (iterate host g).0
  iterate-IsArmed = elim (Bool-cases g.latched) [
    | inl on ↦ rw (latched_case host g on) (latched_iteration-LatchedEnd host g on v).0
    | inr off ↦ rw (healthy_case host g off) (healthy_iteration-HealthyEnd host g off v).0
  ]

  tick-IsArmed : IsArmed (tick host g).0
  tick-IsArmed = rw ((tick-iterate host g).0) (handed_IsArmed (iterate host g).0 _ iterate-IsArmed)

  -- A tick that latches a guardian in its invariant did so under an enabled policy, with a reading at the threshold of
  -- the policy that it installed, or below it.
  pub tick-latches :
      g.latched ≡ false
      → (tick host g).0.latched ≡ true
      → ((tick host g).0.active_policy.enabled ≡ true)
        × (under_pressure host (tick host g).0.thresholds ≡ true)
  tick-latches off on =
      let e = (tick-iterate host g).0 in
      let i = healthy_case host g off in
      let end =
        (healthy_iteration-HealthyEnd host g off v).1
          (sym (ap (λ x. x.0.latched) i) ∙ sym (ap (λ x. x.latched) e) ∙ on) in
      (
        ap (λ x. x.active_policy.enabled) e ∙ ap (λ x. x.0.active_policy.enabled) i ∙ end.0,
        ap (λ x. under_pressure host x.thresholds) e
            ∙ ap (λ x. under_pressure host x.0.thresholds) i
            ∙ end.1,
      )

  -- A tick of a latched guardian in its invariant keeps its policy, whatever the configuration asks for.
  pub tick-active_policy : g.latched ≡ true → (tick host g).0.active_policy ≡ g.active_policy
  tick-active_policy on =
      ap (λ x. x.active_policy) (tick-iterate host g).0
      ∙ ap (λ x. x.0.active_policy) (latched_case host g on)
      ∙ (latched_iteration-LatchedEnd host g on v).1

  -- A tick that ends the latch of a guardian in its invariant read memory at the rearm watermark or above it, reports so, and leaves
  -- a controller that owns its reserve again.
  pub tick-unlatches :
      g.latched ≡ true
      → (tick host g).0.latched ≡ false
      → (may_rearm host g ≡ true)
        × ((tick host g).1 ≡ rearmed)
        × (has_controller (tick host g).0.controller ≡ true)
        × (is_reserved (tick host g).0.controller ≡ true)
  tick-unlatches on off =
      let e = (tick-iterate host g).0 in
      let i = latched_case host g on in
      let (recovered, reported, owned) =
        (latched_iteration-LatchedEnd host g on v).2
          (sym (ap (λ x. x.0.latched) i) ∙ sym (ap (λ x. x.latched) e) ∙ off) in
      (
        recovered,
        (tick-iterate host g).1 ∙ ap (λ x. x.1) i ∙ reported,
        ap (λ x. has_controller x.controller) e ∙ ap (λ x. has_controller x.0.controller) i ∙ owned,
        (tick-IsArmed).reserved off,
      )

module _ (platform : Emergency.Platform) (meminfo_opened : Bool) (policy : Policy)
    (g : MemoryGuardian) (h : open_guardian platform meminfo_opened policy ≡ some g) where
  opened_thresholds :
      (thresholds : Thresholds.Thresholds) × (Thresholds.new policy.mem_threshold_gib
          policy.reserve_mib
        ≡ some thresholds)
  unfolding open_guardian
  opened_thresholds =
      elim (Option-cases (Thresholds.new policy.mem_threshold_gib policy.reserve_mib)) [
        | inl e ↦ absurd (ground (arith, e, h))
        | inr found ↦ found
      ]

  opened_reserve :
      (thresholds : Thresholds.Thresholds)
      → Fits policy thresholds
      → policy.enabled ≡ true
      → (reserve : Emergency.EmergencyReserve) × (Emergency.reserve_new platform
            thresholds.reserve_bytes
          ≡ some reserve)
  unfolding open_guardian
  opened_reserve thresholds t on =
      elim (Option-cases (Emergency.reserve_new platform thresholds.reserve_bytes)) [
        | inl e ↦ absurd (ground (arith, e, h, t, on))
        | inr found ↦ found
      ]

  opened_armed :
      (thresholds : Thresholds.Thresholds) (reserve : Emergency.EmergencyReserve)
      → Fits policy thresholds
      → policy.enabled ≡ true
      → Emergency.reserve_new platform thresholds.reserve_bytes ≡ some reserve
      → opened policy thresholds (some (Emergency.new reserve (retry_millis policy))) ≡ g
  unfolding open_guardian
  opened_armed thresholds reserve t on r = ground (arith, h, t, on, r)

  opened_observer :
      (thresholds : Thresholds.Thresholds)
      → Fits policy thresholds
      → policy.enabled ≡ false
      → opened policy thresholds none ≡ g
  unfolding open_guardian
  opened_observer thresholds t off = ground (arith, h, t, off)

  opened-IsArmed :
      (thresholds : Thresholds.Thresholds) (controller : Option Emergency.EmergencyController)
      → Fits policy thresholds
      → has_controller controller ≡ policy.enabled
      → is_reserved controller ≡ true
      → IsArmed (opened policy thresholds controller)
  opened-IsArmed thresholds controller t matched reserved = record {
    thresholds = t;
    matched = matched;
    untargeted = λ k. refl;
    latch_enabled = λ k. absurd (ground (arith, k));
    reserved = λ k. reserved;
    fresh = λ k. (refl, refl);
  }

  open_guardian-IsArmed : IsArmed g
  open_guardian-IsArmed =
      let (thresholds, t) = opened_thresholds in
      elim (Bool-cases policy.enabled) [
        | inl on ↦
            let (reserve, r) = opened_reserve thresholds t on in
            subst IsArmed (opened_armed thresholds reserve t on r) (
              opened-IsArmed thresholds _ t (sym on)
                (unfold Emergency.new in reserve_new-allocated platform _ reserve r))
        | inr off ↦
            subst IsArmed (opened_observer thresholds t off)
              (opened-IsArmed thresholds none t (sym off) refl)
      ]

-- The guardian after the ticks at these answers of the host.
unfoldable pub tick_all : List Host → MemoryGuardian → MemoryGuardian
tick_all [] g = g
tick_all (host ∷ hosts) g = tick_all hosts (tick host g).0

tick_all-kept : (hosts : List Host) (g : MemoryGuardian) → IsArmed g → IsArmed (tick_all hosts g)
unfolding tick_all
tick_all-kept [] g v = v
tick_all-kept (host ∷ hosts) g v = tick_all-kept hosts (tick host g).0 (tick-IsArmed host g v)

-- After any ticks of a guardian that opened, whatever the host answers: the thresholds are those of
-- the installed policy, a controller exists exactly under an enabled policy, a disabled one has no
-- target and is not latched, and a guardian that is not latched owns its reserve and has no systemd
-- attempt behind it.
pub tick_all-IsArmed :
    (platform : Emergency.Platform) (meminfo_opened : Bool) (policy : Policy) (g : MemoryGuardian)
    (hosts : List Host)
    → open_guardian platform meminfo_opened policy ≡ some g
    → IsArmed (tick_all hosts g)
tick_all-IsArmed platform meminfo_opened policy g hosts h =
    tick_all-kept hosts g (open_guardian-IsArmed platform meminfo_opened policy g h)
