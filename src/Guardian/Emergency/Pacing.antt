-- ===== src/Guardian/Emergency/Pacing.antt =====
-- The kill writes of a latched episode are spaced by the retry interval.
use native.Mathlib.Decide.{dec_lt}
use native.Mathlib.Nat.{zero-add}
use llm_guard_proxy.Prelude.{
  ℕ, zero, suc, ◌+◌, ◌-◌, ◌*◌, ◌≤◌, ◌≡◌, refl, ◌∙◌, ◌⊎◌, inl, inr, List, [], ◌∷◌, arith,
}
use llm_guard_proxy.Prelude.Tests.{Bool-cases}
use llm_guard_proxy.Prelude.Lists.{count}
use llm_guard_proxy.Prelude.Words.{u64_max, saturating_add}
use llm_guard_proxy.Prelude.Maps.{empty}
use llm_guard_proxy.Guardian.Emergency.{
  Syscall, EmergencyController, World, is_true, observe_empty, write_now, attempt,
}
use llm_guard_proxy.Guardian.Emergency.Attempts.{
  attempt-empty, attempt-early, attempt-due, attempt-verified,
}

-- One for an attempt that makes system calls.
abbrev pub acted : List Syscall → ℕ
acted [] = 0
acted (call ∷ calls) = 1

-- How many attempts of a sequence go as far as the kill.
unfoldable pub kills : EmergencyController → List World → ℕ
kills c [] = 0
kills c (w ∷ ws) = acted (attempt c w).2 + kills (attempt c w).0 ws

abbrev pub Ascending : ℕ → List World → Type 0
Ascending now [] = Unit {0}
Ascending now (w ∷ ws) = (now ≤ w.now_millis) × Ascending w.now_millis ws

abbrev pub ends : ℕ → List World → ℕ
ends now [] = now
ends now (w ∷ ws) = ends w.now_millis ws

ends-le : (now : ℕ) (ws : List World) → Ascending now ws → now ≤ ends now ws
ends-le now [] h = omega arith
ends-le now (w ∷ ws) h = omega (arith, ends-le w.now_millis ws h.1)

-- An attempt either leaves the schedule alone, or was due and puts the next one off by the interval.
abbrev pub Paced : EmergencyController → World → Type 0
Paced c w =
    let (after, outcome, calls) = attempt c w in
    (after.retry_millis ≡ c.retry_millis)
    × (((acted calls ≡ 0) × (after.next_attempt_millis ≡ c.next_attempt_millis))
        ⊎ ((c.next_attempt_millis ≤ w.now_millis)
            × (after.next_attempt_millis ≡ saturating_add u64_max w.now_millis c.retry_millis)))

observe_empty-schedule :
    (c : EmergencyController)
    → ((observe_empty c).0.retry_millis ≡ c.retry_millis)
      × ((observe_empty c).0.next_attempt_millis ≡ c.next_attempt_millis)
unfolding observe_empty
observe_empty-schedule c = ground arith

write_now-schedule :
    (c : EmergencyController) (w : World)
    → ((write_now c w).0.retry_millis ≡ c.retry_millis)
      × ((write_now c w).0.next_attempt_millis ≡ saturating_add u64_max w.now_millis c.retry_millis)
unfolding write_now
write_now-schedule c w = ground arith

attempt-Paced : (c : EmergencyController) (w : World) → Paced c w
attempt-Paced c w = elim (Bool-cases c.verified) [
  | inl done ↦ rw (attempt-verified c w done) (refl, inl (refl, refl))
  | inr idle ↦ elim (Bool-cases (is_true w.empty_before)) [
    | inl empty ↦
        let (a, b) = observe_empty-schedule c in
        rw (attempt-empty c w idle empty) (a, inl (refl, b))
    | inr live ↦ elim (dec_lt w.now_millis c.next_attempt_millis) [
      | yes early ↦ rw (attempt-early c w idle live early) (refl, inl (refl, refl))
      | no due ↦
          let (a, b) = write_now-schedule c w in
          rw (attempt-due c w idle live (omega arith)) (a, inr (omega arith, b))
    ]
  ]
]

acted-le : (calls : List Syscall) → acted calls ≤ 1
acted-le [] = omega arith
acted-le (call ∷ calls) = omega arith

-- No kill, or the kills are paid for by the time since `from`, with one interval to spare.
abbrev Spaced : ℕ → ℕ → ℕ → ℕ → Type 0
Spaced count interval from end = (count ≡ 0) ⊎ (count * interval + from ≤ end + interval)

Spaced-acted :
    (count acts interval from t end : ℕ)
    → from ≤ t
    → t ≤ end
    → acts ≤ 1
    → Spaced count interval (t + interval) end
    → Spaced (acts + count) interval from end
Spaced-acted count zero interval from t end h k a (inl none_left) = inl (omega arith)
Spaced-acted count (suc zero) interval from t end h k a (inl none_left) =
    inr (rw none_left (omega arith))
Spaced-acted count (suc (suc acts)) interval from t end h k a (inl none_left) = absurd (omega arith)
Spaced-acted count zero interval from t end h k a (inr paid) = inr (omega arith)
Spaced-acted count (suc zero) interval from t end h k a (inr paid) = inr (omega arith)
Spaced-acted count (suc (suc acts)) interval from t end h k a (inr paid) = absurd (omega arith)

kills-Spaced :
    (c : EmergencyController) (interval from now : ℕ) (ws : List World)
    → c.retry_millis ≡ interval
    → Ascending now ws
    → ends now ws + interval ≤ u64_max
    → (from ≤ now) ⊎ (from ≤ c.next_attempt_millis)
    → Spaced (kills c ws) interval from (ends now ws)
unfolding kills
kills-Spaced c interval from now [] e h fits early = inl refl
kills-Spaced c interval from now (w ∷ ws) e h fits early =
    let c' = (attempt c w).0 in
    let (same, step) = attempt-Paced c w in
    let rest = λ (p : ℕ) (q : (p ≤ w.now_millis) ⊎ (p ≤ c'.next_attempt_millis)).
      kills-Spaced c' interval p w.now_millis ws (same ∙ e) h.1 fits q in
    let last = ends-le w.now_millis ws h.1 in
    elim step [
      | inl (quiet, next) ↦ rw quiet (rw (native.Mathlib.Nat.zero-add) (rest from (omega arith)))
      | inr (due, next) ↦
          Spaced-acted _ _ interval from w.now_millis _ (omega arith) last
            (acted-le (attempt c w).2) (rest (w.now_millis + interval) (inr (omega arith)))
    ]

-- While the clock is a retry interval from its end, attempts at ascending times kill at most once for each retry
-- interval that passes, and once more.
pub kills_spaced :
    (c : EmergencyController) (start : ℕ) (ws : List World)
    → Ascending start ws
    → ends start ws + c.retry_millis ≤ u64_max
    → kills c ws * c.retry_millis ≤ (ends start ws - start) + c.retry_millis
kills_spaced c start ws h fits =
    let bound = kills-Spaced c c.retry_millis start start ws refl h fits (inl (omega arith)) in
    let last = ends-le start ws h in
    elim bound [ inl quiet ↦ rw quiet (omega arith) | inr paid ↦ omega arith ]
