-- ===== src/Guardian/Tier2/Handoff.antt =====
-- When the guardian hands an episode to the recovery executor.
use llm_guard_proxy.Prelude.{
  ℕ, ◌+◌, ◌<◌, ◌≡◌, sym, ap, ◌∙◌, ◌⊎◌, inl, inr, Bool, true, false, not, ◌&&◌, Option, none, some,
  arith,
}
use llm_guard_proxy.Prelude.Tests.{leb, Bool-cases, both_of_and}
use llm_guard_proxy.Guardian.State.{Policy, GuardianEscalation, MemoryGuardian, Host}
use llm_guard_proxy.Guardian.Reconcile.{same_generation}
use llm_guard_proxy.Guardian.Escalation.{EscalationEpisode, default, arm, clear, not_due, take_due}
use llm_guard_proxy.Guardian.Emergency.{new}
use llm_guard_proxy.Guardian.Tier2.{
  RecoveryRequest, revalidate, escalation_threshold, available, generation_of, eligible,
  same_generations, settle, escalation_config, bytes_of, request_for, hand_off, in_flight, claim,
  escalate, update_escalation,
}

-- The time of arming that a claim now would need: at least the grace period ago.
abbrev pub graced : Option ℕ → ℕ → ℕ → Bool
graced armed_at grace now = not (not_due armed_at grace now)

hand_off-request :
    (host : Host) (policy : Policy) (e : GuardianEscalation) (r : RecoveryRequest)
    → (hand_off host policy e).1 ≡ some r
    → (r ≡ request_for host policy (e.next_episode + 1))
      × ((hand_off host policy e).0.next_episode ≡ e.next_episode + 1)
      × ((hand_off host policy e).0.episode ≡ e.episode)
      × (in_flight (hand_off host policy e).0.invocation ≡ true)
unfolding hand_off
hand_off-request host policy e r h = ground (arith, h)

take_due-claims :
    (grace now : ℕ) (e : EscalationEpisode)
    → (take_due grace now e).1 ≡ true
    → (graced e.armed_at grace now ≡ true)
      × (e.attempted ≡ false)
      × ((take_due grace now e).0.attempted ≡ true)
unfolding take_due
take_due-claims grace now e h = ground (arith, h)

module _ (host : Host) (policy : Policy) (e : GuardianEscalation) where
  abbrev armed : EscalationEpisode
  armed = arm (escalation_config policy) host.now e.episode

  abbrev taken : EscalationEpisode × Bool
  taken = take_due policy.escalation_grace_secs host.now armed

  due_case :
      taken.1 ≡ true → claim host policy e ≡ hand_off host policy (record e { episode = taken.0 })
  unfolding claim
  due_case h = ground (arith, h)

  waits_case : taken.1 ≡ false → (claim host policy e).1 ≡ none
  unfolding claim
  waits_case h = ground (arith, h)

  claim_request :
      (r : RecoveryRequest)
      → (claim host policy e).1 ≡ some r
      → (graced armed.armed_at policy.escalation_grace_secs host.now ≡ true)
        × (armed.attempted ≡ false)
        × (r ≡ request_for host policy (e.next_episode + 1))
        × ((claim host policy e).0.next_episode ≡ e.next_episode + 1)
        × ((claim host policy e).0.episode.attempted ≡ true)
        × (in_flight (claim host policy e).0.invocation ≡ true)
  claim_request r h = elim (Bool-cases taken.1) [
    | inr waits ↦ absurd (ground (arith, waits_case waits, h))
    | inl due ↦
        let (graced, fresh, used) =
          take_due-claims policy.escalation_grace_secs host.now armed due in
        let (request, counted, kept, flying) =
          hand_off-request host policy (record e { episode = taken.0 }) r
            (sym (ap (λ x. x.1) (due_case due)) ∙ h) in
        rw (due_case due)
          (graced, fresh, request, counted, ap (λ x. x.attempted) kept ∙ used, flying)
  ]

abbrev graced_by : Option ℕ → Policy → ℕ → Bool
graced_by armed_at policy now = graced armed_at policy.escalation_grace_secs now

-- Arming now gives no grace period that has passed.
arm-graced :
    (policy : Policy) (now : ℕ) (e : EscalationEpisode)
    → 0 < policy.escalation_grace_secs
    → graced (arm (escalation_config policy) now e).armed_at policy.escalation_grace_secs now ≡ true
    → (graced e.armed_at policy.escalation_grace_secs now ≡ true)
      × ((arm (escalation_config policy) now e).attempted ≡ e.attempted)
unfolding arm
arm-graced policy now e positive h = ground (arith, h, positive)

default-ungraced :
    {A : Type 0} (policy : Policy) (now : ℕ) → graced_by default.armed_at policy now ≡ true → A
unfolding default
default-ungraced policy now h = absurd (ground (arith, h))

revalidate_keeps :
    (host : Host) (e : GuardianEscalation)
    → ((revalidate host e).episode ≡ e.episode)
      × ((revalidate host e).generation ≡ e.generation)
      × ((revalidate host e).next_episode ≡ e.next_episode)
unfolding revalidate
revalidate_keeps host e = ground arith

settle_keeps :
    (fit : Bool) (generation : Option (ℕ × ℕ)) (e : GuardianEscalation)
    → (in_flight (settle fit generation e).invocation ≡ in_flight e.invocation)
      × ((settle fit generation e).next_episode ≡ e.next_episode)
unfolding settle
settle_keeps fit generation e = ground arith

-- The episode that `settle` leaves is the one before it, of the same target, or a new one.
settle_episode :
    (generation : Option (ℕ × ℕ)) (e : GuardianEscalation)
    → (let after = (settle true generation e).episode in
        ((same_generations generation e.generation ≡ true) × (after ≡ e.episode))
        ⊎ (after ≡ default))
unfolding settle clear default
settle_episode generation e = elim (Bool-cases (same_generations generation e.generation)) [
  | inl same ↦ inl (same, ground (arith, same))
  | inr other ↦ inr (ground (arith, other))
]

module _ (host : Host) (g : MemoryGuardian) where
  abbrev settled : GuardianEscalation
  settled = settle (eligible host g) (generation_of g.target) (revalidate host g.escalation)

  abbrev idle : Bool
  idle = eligible host g && not (in_flight settled.invocation)

  idle_case : idle ≡ true → escalate host g ≡ claim host g.active_policy settled
  unfolding escalate
  idle_case h = ground (arith, h)

  busy_case : idle ≡ false → escalate host g ≡ (settled, none)
  unfolding escalate
  busy_case h = ground (arith, h)

  enabled_case :
      g.active_policy.escalation_enabled ≡ true
      → ((update_escalation host g).0.escalation ≡ (escalate host g).0)
        × ((update_escalation host g).1 ≡ (escalate host g).1)
  unfolding update_escalation
  enabled_case h = ground (arith, h)

  disabled_case : g.active_policy.escalation_enabled ≡ false → (update_escalation host g).1 ≡ none
  unfolding update_escalation
  disabled_case h = ground (arith, h)

  -- A request is the claim of an eligible guardian with no handoff in flight.
  requests_only :
      (r : RecoveryRequest)
      → (update_escalation host g).1 ≡ some r
      → (idle ≡ true)
        × ((claim host g.active_policy settled).1 ≡ some r)
        × ((update_escalation host g).0.escalation ≡ (claim host g.active_policy settled).0)
  requests_only r h = elim (Bool-cases g.active_policy.escalation_enabled) [
    | inr off ↦ absurd (ground (arith, disabled_case off, h))
    | inl on ↦ elim (Bool-cases idle) [
      | inr busy ↦
          absurd (ground (arith, sym ((enabled_case on).1) ∙ h, ap (λ x. x.1) (busy_case busy)))
      | inl free ↦ (
        free,
        sym (ap (λ x. x.1) (idle_case free)) ∙ sym ((enabled_case on).1) ∙ h,
        (enabled_case on).0 ∙ ap (λ x. x.0) (idle_case free),
      )
    ]
  ]

  eligible_pressure :
      eligible host g ≡ true
      → leb (bytes_of (available host.pressure)) (escalation_threshold g.active_policy) ≡ true
  unfolding eligible
  eligible_pressure h = ground (arith, h)

  -- The guardian requests a recovery only when it is eligible and has no handoff in flight, at a
  -- reading of memory at the escalation threshold or below it, under the next episode number; the
  -- handoff is then in flight and its episode used up.
  pub update_escalation-eligible :
      (r : RecoveryRequest)
      → (update_escalation host g).1 ≡ some r
      → (eligible host g ≡ true)
        × (in_flight (revalidate host g.escalation).invocation ≡ false)
        × (leb r.available_bytes r.threshold_bytes ≡ true)
        × (r.episode ≡ g.escalation.next_episode + 1)
        × ((update_escalation host g).0.escalation.next_episode ≡ r.episode)
        × ((update_escalation host g).0.escalation.episode.attempted ≡ true)
        × (in_flight (update_escalation host g).0.escalation.invocation ≡ true)
  update_escalation-eligible r h =
      let (free, claimed, after) = requests_only r h in
      let (fit, landed) = both_of_and (eligible host g) _ free in
      let (late, fresh, request, counted, used, flying) =
        claim_request host g.active_policy settled r claimed in
      let e = revalidate host g.escalation in
      let (flight, next) = settle_keeps (eligible host g) (generation_of g.target) e in
      let episode =
        ap (λ x. x.episode) request
        ∙ ap (λ x. x + 1) (next ∙ (revalidate_keeps host g.escalation).2) in
      (
        fit,
        sym flight ∙ (ground (arith, landed)),
        ap (λ x. leb x.available_bytes x.threshold_bytes) request ∙ eligible_pressure fit,
        episode,
        ap (λ x. x.next_episode) after ∙ counted ∙ sym (ap (λ x. x.episode) request),
        ap (λ x. x.episode.attempted) after ∙ used,
        ap (λ x. in_flight x.invocation) after ∙ flying,
      )

  -- Under a positive grace period, a requested recovery is that of the target generation of the tick
  -- before, whose episode had been armed for the grace period and had not been used.
  pub update_escalation-graced :
      (r : RecoveryRequest)
      → 0 < g.active_policy.escalation_grace_secs
      → (update_escalation host g).1 ≡ some r
      → (same_generations (generation_of g.target) g.escalation.generation ≡ true)
        × (g.escalation.episode.attempted ≡ false)
        × (graced g.escalation.episode.armed_at g.active_policy.escalation_grace_secs host.now
            ≡ true)
  update_escalation-graced r positive h =
      let (free, claimed, after) = requests_only r h in
      let fit = (both_of_and (eligible host g) _ free).0 in
      let late = claim_request host g.active_policy settled r claimed in
      let (long, attempted) = arm-graced g.active_policy host.now settled.episode positive late.0 in
      let e = revalidate host g.escalation in
      let (same_episode, same_generation, counted) = revalidate_keeps host g.escalation in
      let then_settled = ap (λ x. (settle x (generation_of g.target) e).episode) fit in
      elim (settle_episode (generation_of g.target) e) [
        | inr new ↦ absurd (
            default-ungraced g.active_policy host.now (
              sym (ap (λ x. graced_by x.armed_at g.active_policy host.now) (then_settled ∙ new))
              ∙ long))
        | inl (same, kept) ↦
            let same_as = then_settled ∙ kept ∙ same_episode in
            (
              sym (ap (λ x. same_generations (generation_of g.target) x) same_generation) ∙ same,
              sym (ap (λ x. x.attempted) same_as) ∙ sym attempted ∙ late.1,
              sym (ap (λ x. graced_by x.armed_at g.active_policy host.now) same_as) ∙ long,
            )
      ]
