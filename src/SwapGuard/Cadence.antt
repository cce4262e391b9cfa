-- ===== src/SwapGuard/Cadence.antt =====
-- How often the swap guard reports: every state change once, and repeated alerts at their interval.
use native.Mathlib.Decide.{dec_le}
use llm_guard_proxy.Prelude.{
  ℕ, ◌+◌, ◌-◌, ◌*◌, ◌≤◌, ◌<◌, ◌≡◌, refl, ap, ◌≢◌, ◌⊎◌, inl, inr, true, false, Option, none, some,
  List, [], ◌∷◌, arith,
}
use llm_guard_proxy.Prelude.Tests.{if◌then◌else◌, Bool-cases, Option-cases}
use llm_guard_proxy.SwapGuard.{
  PressureReason, memory_available, swap, memory_and_swap, TelemetryState, healthy, swap_warning,
  alert, TelemetryEvent, warned, cleared, alerted, SwapGuardConfig, SwapGuard, PolicyDecision, new,
  state_for, same_reason, same, repeat_due, decide_event, observe,
}

-- The report of a change to a state.
abbrev pub report_of : TelemetryState → TelemetryEvent
report_of (alert reason) = alerted reason
report_of swap_warning = warned
report_of healthy = cleared

eq_of_same_reason : (r q : PressureReason) → same_reason r q ≡ true → r ≡ q
eq_of_same_reason memory_available memory_available h = refl
eq_of_same_reason swap swap h = refl
eq_of_same_reason memory_and_swap memory_and_swap h = refl
eq_of_same_reason _ _ h = cc

eq_of_same : (s t : TelemetryState) → same s t ≡ true → s ≡ t
eq_of_same healthy healthy h = refl
eq_of_same swap_warning swap_warning h = refl
eq_of_same (alert r) (alert q) h = ap alert (eq_of_same_reason r q h)
eq_of_same _ _ h = cc

same_reason_refl : (r : PressureReason) → same_reason r r ≡ true
same_reason_refl memory_available = refl
same_reason_refl swap = refl
same_reason_refl memory_and_swap = refl

same_refl : (s : TelemetryState) → same s s ≡ true
same_refl healthy = refl
same_refl swap_warning = refl
same_refl (alert r) = same_reason_refl r

-- An alert of an unchanged state is repeated only when its interval has passed.
abbrev pub Repeats : SwapGuard → ℕ → TelemetryState → Option TelemetryEvent → Type 0
Repeats guard t after event =
    (reason : PressureReason) × (after ≡ alert reason)
    × (event ≡ some (alerted reason))
    × (repeat_due guard.last_alert_at t guard.config.alert_repeat ≡ true)

changed :
    (guard : SwapGuard) (t : ℕ) (after : TelemetryState)
    → same guard.state after ≡ false
    → (decide_event guard t after).0 ≡ some (report_of after)
unfolding decide_event
changed guard t healthy h = rw h
changed guard t swap_warning h = rw h
changed guard t (alert r) h = ground arith

unchanged :
    (guard : SwapGuard) (t : ℕ) (after : TelemetryState)
    → same guard.state after ≡ true
    → ((decide_event guard t after).0 ≡ none) ⊎ Repeats guard t after (decide_event guard t after).0
unfolding decide_event
unchanged guard t healthy h = inl (rw h)
unchanged guard t swap_warning h = inl (rw h)
unchanged guard t (alert r) h =
    elim (Bool-cases (repeat_due guard.last_alert_at t guard.config.alert_repeat)) [
      | inl due ↦ inr (r, refl, ground (arith, due), due)
      | inr early ↦ inl (ground (arith, early))
    ]

-- A change of state is always reported, as what it is; while the state stays there is no report, but
-- for an alert whose interval has passed since the last one.
pub observe-reports :
    (guard : SwapGuard) (t mem used : ℕ)
    → let after = state_for guard.config mem used in
      let event = (observe guard t mem used).1.event in
      ((guard.state ≢ after) × (event ≡ some (report_of after)))
      ⊎ ((guard.state ≡ after) × ((event ≡ none) ⊎ Repeats guard t after event))
unfolding observe
observe-reports guard t mem used =
    let after = state_for guard.config mem used in
    elim (Bool-cases (same guard.state after)) [
      | inl eq ↦ inr (eq_of_same guard.state after eq, unchanged guard t after eq)
      | inr ne ↦ inl (λ e. cc (same_refl after), changed guard t after ne)
    ]

pub record Sample : Type 0 where
  pub observed_at : ℕ
  pub mem_available_kib : ℕ
  pub swap_used_kib : ℕ

abbrev pub next : SwapGuard → Sample → SwapGuard × PolicyDecision
next guard s = observe guard s.observed_at s.mem_available_kib s.swap_used_kib

abbrev pub is_alert : Option TelemetryEvent → ℕ
is_alert (some (alerted reason)) = 1
is_alert _ = 0

-- How many alerts a run of samples emits.
unfoldable pub alerts : SwapGuard → List Sample → ℕ
alerts guard [] = 0
alerts guard (s ∷ ss) = is_alert (next guard s).1.event + alerts (next guard s).0 ss

-- How many samples find another state than the one before them.
unfoldable pub changes : SwapGuard → List Sample → ℕ
changes guard [] = 0
changes guard (s ∷ ss) =
    (if same guard.state (next guard s).0.state then 0 else 1) + changes (next guard s).0 ss

-- The clock does not run backwards.
abbrev pub Ascending : ℕ → List Sample → Type 0
Ascending now [] = Unit {0}
Ascending now (s ∷ ss) = (now ≤ s.observed_at) × Ascending s.observed_at ss

-- The time of the last sample.
abbrev pub ends : ℕ → List Sample → ℕ
ends now [] = now
ends now (s ∷ ss) = ends s.observed_at ss

ends-le : (now : ℕ) (ss : List Sample) → Ascending now ss → now ≤ ends now ss
ends-le now [] h = omega arith
ends-le now (s ∷ ss) h = omega (arith, ends-le s.observed_at ss h.1)

-- The time of the last alert, if there is one, is between `paid` and now; an alert state has one.
abbrev pub Paid : SwapGuard → ℕ → ℕ → Type 0
Paid guard paid now =
    (paid ≤ now)
    × ((q : ℕ) → guard.last_alert_at ≡ some q → (paid ≤ q) × (q ≤ now))
    × ((r : PressureReason) → guard.state ≡ alert r → guard.last_alert_at ≢ none)

module _ (guard : SwapGuard) (paid now t : ℕ) (h : Paid guard paid now) (k : now ≤ t) where
  abbrev decided : TelemetryState → SwapGuard
  decided after = record guard { state = after; last_alert_at = (decide_event guard t after).1 }

  -- What one sample costs: an alert comes with a change, or the interval has passed.
  abbrev Costs : TelemetryState → ℕ → Type 0
  Costs after paid' =
      Paid (decided after) paid' t
      × (paid + is_alert (decide_event guard t after).0 * guard.config.alert_repeat
          ≤ paid' + (if same guard.state after then 0 else 1) * guard.config.alert_repeat)

  Costs-healthy : Costs healthy paid
  unfolding decide_event
  Costs-healthy = ((omega arith, (λ q e. ground (arith, h.1 q)), λ r e. cc), ground arith)

  Costs-swap_warning : Costs swap_warning paid
  unfolding decide_event
  Costs-swap_warning = ((omega arith, (λ q e. ground (arith, h.1 q)), λ r e. cc), ground arith)

  alert_changed :
      (r : PressureReason)
      → same guard.state (alert r) ≡ false
      → decide_event guard t (alert r) ≡ (some (alerted r), some t)
  unfolding decide_event
  alert_changed r e = ground arith

  alert_due :
      (r : PressureReason) (q : ℕ)
      → guard.last_alert_at ≡ some q
      → guard.config.alert_repeat ≤ t - q
      → decide_event guard t (alert r) ≡ (some (alerted r), some t)
  unfolding decide_event
  alert_due r q e due = ground arith

  alert_held :
      (r : PressureReason) (q : ℕ)
      → same guard.state (alert r) ≡ true
      → guard.last_alert_at ≡ some q
      → t - q < guard.config.alert_repeat
      → decide_event guard t (alert r) ≡ (none, some q)
  unfolding decide_event
  alert_held r q s e early = ground arith

  Costs-alert : (r : PressureReason) → (paid' : ℕ) × (Costs (alert r) paid')
  Costs-alert r = elim (Bool-cases (same guard.state (alert r))) [
    | inr new ↦ (
      paid,
      rw (alert_changed r new, new)
          ((omega arith, (λ q e. ground (arith, e, k, h.0)), λ r' e f. cc), omega arith),
    )
    | inl old ↦ elim (Option-cases guard.last_alert_at) [
      | inl never ↦ absurd (h.2 r (eq_of_same guard.state (alert r) old) never)
      | inr (q, e) ↦ elim (dec_le guard.config.alert_repeat (t - q)) [
        | yes due ↦ (
          t,
          rw (alert_due r q e due, old)
              ((omega arith, (λ q e. ground (arith, e)), λ r' e f. cc), omega (arith, h.1 q e, k)),
        )
        | no early ↦ (
          paid,
          rw (alert_held r q old e (omega arith), old)
              ((omega arith, (λ q' e'. ground (arith, e', h.1 q e, k)), λ r' e f. cc), omega arith),
        )
      ]
    ]
  ]

  Costs_lem : (after : TelemetryState) → (paid' : ℕ) × (Costs after paid')
  Costs_lem healthy = (paid, Costs-healthy)
  Costs_lem swap_warning = (paid, Costs-swap_warning)
  Costs_lem (alert r) = Costs-alert r

-- An inequality on the way through a run, summed up.
add_costs :
    (paid paid' end a b c d repeat : ℕ)
    → paid + a * repeat ≤ paid' + b * repeat
    → paid' + c * repeat ≤ d * repeat + end
    → paid + (a + c) * repeat ≤ (b + d) * repeat + end
add_costs paid paid' end a b c d repeat h k = omega arith

next_decided :
    (guard : SwapGuard) (s : Sample)
    → let after = state_for guard.config s.mem_available_kib s.swap_used_kib in
      next guard s ≡ (
        record guard { state = after; last_alert_at = (decide_event guard s.observed_at after).1 },
        record { state = after; event = (decide_event guard s.observed_at after).0 },
      )
unfolding observe
next_decided guard s = refl

alerts_from :
    (guard : SwapGuard) (paid now : ℕ) (ss : List Sample)
    → Paid guard paid now
    → Ascending now ss
    → paid + alerts guard ss * guard.config.alert_repeat
      ≤ changes guard ss * guard.config.alert_repeat + ends now ss
unfolding alerts changes
alerts_from guard paid now [] h k = omega arith
alerts_from guard paid now (s ∷ ss) h k =
    let after = state_for guard.config s.mem_available_kib s.swap_used_kib in
    let (paid', (p, c)) = Costs_lem guard paid now s.observed_at h k.0 after in
    rw (next_decided guard s) (
      add_costs paid paid' (ends s.observed_at ss)
        (is_alert (decide_event guard s.observed_at after).0)
        (if same guard.state after then 0 else 1) _ _ guard.config.alert_repeat c
        (alerts_from
          (record guard {
            state = after;
            last_alert_at = (decide_event guard s.observed_at after).1;
          })
          paid' s.observed_at ss p k.1))

-- Over samples at times that do not descend, a new guard that watches from `start` on emits at most one alert for each change of state, and one
-- more for each whole repeat interval that passes.
pub alerts_bounded :
    (config : SwapGuardConfig) (start : ℕ) (ss : List Sample)
    → Ascending start ss
    → alerts (new config) ss * config.alert_repeat
      ≤ changes (new config) ss * config.alert_repeat + (ends start ss - start)
unfolding new
alerts_bounded config start ss k =
    let bound = alerts_from (new config) start start ss (omega arith, (λ q e. cc), λ r e. cc) k in
    omega (arith, bound, ends-le start ss k)
