-- ===== src/Guardian/Emergency/Attempts.antt =====
-- The controller over a sequence of attempts: what an outcome means, and how often it writes.
use native.Mathlib.Decide.{dec_lt}
use llm_guard_proxy.Prelude.{
  ℕ, ◌≤◌, ◌<◌, ◌≡◌, refl, ap, ◌≢◌, ◌⊎◌, inl, inr, Bool, true, false, Option, none, some, [], arith,
}
use llm_guard_proxy.Prelude.Tests.{Bool-cases}
use llm_guard_proxy.Prelude.Maps.{empty}
use llm_guard_proxy.Guardian.Emergency.{
  WriteResult, written, refused, AttemptOutcome, waiting, verified, already_empty, retry,
  write_failed, EmergencyController, World, is_true, observe_empty, kill, tried, write_now, attempt,
}

-- What each outcome says of the target and of the controller after it.
abbrev pub Means : World → EmergencyController → EmergencyController → AttemptOutcome → Type 0
Means w before after waiting =
    (after ≡ before) × ((before.verified ≡ true) ⊎ (w.now_millis < before.next_attempt_millis))
Means w before after verified =
    (after.verified ≡ true)
    × (after.last_write ≡ some written)
    × ((w.empty_before ≡ some true) ⊎ (w.empty_after ≡ some true))
Means w before after already_empty =
    (after.verified ≡ true)
    × (before.last_write ≡ none)
    × (after.last_write ≡ none)
    × (w.empty_before ≡ some true)
Means w before after (write_failed errno) =
    (after.verified ≡ false) × (after.last_write ≡ some (refused errno))
Means w before after retry =
    (after.verified ≡ false) × (after.last_write ≡ some written) × (w.empty_after ≢ some true)

eq_of_is_true : (b : Option Bool) → is_true b ≡ true → b ≡ some true
eq_of_is_true (some true) h = refl
eq_of_is_true (some false) h = cc
eq_of_is_true none h = cc

ne_of_not_is_true : (b : Option Bool) → is_true b ≡ false → b ≢ some true
ne_of_not_is_true (some true) h = cc
ne_of_not_is_true (some false) h = λ e. cc
ne_of_not_is_true none h = λ e. cc

module _ (c : EmergencyController) (w : World) (idle : c.verified ≡ false) where
  empty_first :
      c.last_write ≡ none → observe_empty c ≡ (record c { verified = true }, already_empty)
  unfolding observe_empty
  empty_first h = ground arith

  empty_written :
      c.last_write ≡ some written
      → observe_empty c ≡ (record c { verified = true }, AttemptOutcome.verified)
  unfolding observe_empty
  empty_written h = ground arith

  empty_refused :
      (errno : ℕ) → c.last_write ≡ some (refused errno) → observe_empty c ≡ (c, write_failed errno)
  unfolding observe_empty
  empty_refused errno h = ground arith

  observe_empty-cases :
      (last : Option WriteResult)
      → c.last_write ≡ last
      → w.empty_before ≡ some true
      → Means w c (observe_empty c).0 (observe_empty c).1
  observe_empty-cases none e k = rw (empty_first e) (refl, e, e, k)
  observe_empty-cases (some written) e k = rw (empty_written e) (refl, e, inl k)
  observe_empty-cases (some (refused errno)) e k = rw (empty_refused errno e) (idle, e)

  now_refused :
      (errno : ℕ)
      → (kill c w).1 ≡ refused errno
      → write_now c w ≡ (tried c w, write_failed errno, (kill c w).2)
  unfolding write_now
  now_refused errno h = ground arith

  now_written :
      (kill c w).1 ≡ written
      → is_true w.empty_after ≡ true
      → write_now c w
        ≡ (record (tried c w) { verified = true }, AttemptOutcome.verified, (kill c w).2)
  unfolding write_now
  now_written h k = ground arith

  now_retry :
      (kill c w).1 ≡ written
      → is_true w.empty_after ≡ false
      → write_now c w ≡ (tried c w, retry, (kill c w).2)
  unfolding write_now
  now_retry h k = ground arith

  write_now-cases :
      (result : WriteResult) → (kill c w).1 ≡ result → Means w c (write_now c w).0 (write_now c w).1
  write_now-cases (refused errno) e = rw (now_refused errno e) (idle, ap some e)
  write_now-cases written e = elim (Bool-cases (is_true w.empty_after)) [
    | inl empty ↦
        rw (now_written e empty) (refl, ap some e, inr (eq_of_is_true w.empty_after empty))
    | inr live ↦ rw (now_retry e live) (idle, ap some e, ne_of_not_is_true w.empty_after live)
  ]

  pub attempt-empty :
      is_true w.empty_before ≡ true → attempt c w ≡ ((observe_empty c).0, (observe_empty c).1, [])
  unfolding attempt
  attempt-empty h = ground arith

  pub attempt-early :
      is_true w.empty_before ≡ false
      → w.now_millis < c.next_attempt_millis
      → attempt c w ≡ (c, waiting, [])
  unfolding attempt
  attempt-early h k = ground arith

  pub attempt-due :
      is_true w.empty_before ≡ false
      → c.next_attempt_millis ≤ w.now_millis
      → attempt c w ≡ write_now c w
  unfolding attempt
  attempt-due h k = ground arith

pub attempt-verified :
    (c : EmergencyController) (w : World) → c.verified ≡ true → attempt c w ≡ (c, waiting, [])
unfolding attempt
attempt-verified c w h = ground arith

-- Each outcome of an attempt is true of the target, and a failed write stays on record.
pub attempt-Means :
    (c : EmergencyController) (w : World) → Means w c (attempt c w).0 (attempt c w).1
attempt-Means c w = elim (Bool-cases c.verified) [
  | inl done ↦ rw (attempt-verified c w done) (refl, inl done)
  | inr idle ↦ elim (Bool-cases (is_true w.empty_before)) [
    | inl empty ↦
        rw (attempt-empty c w idle empty)
          (observe_empty-cases c w idle c.last_write refl (eq_of_is_true w.empty_before empty))
    | inr live ↦ elim (dec_lt w.now_millis c.next_attempt_millis) [
      | yes early ↦ rw (attempt-early c w idle live early) (refl, inr early)
      | no due ↦
          rw (attempt-due c w idle live (omega arith)) (write_now-cases c w idle (kill c w).1 refl)
    ]
  ]
]
