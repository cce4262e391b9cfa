-- ===== src/Guardian/Escalation/Wait.antt =====
-- The wait for systemctl ends.
use native.Mathlib.Decide.{dec_lt}
use llm_guard_proxy.Prelude.{
  ℕ, zero, suc, ◌+◌, ◌*◌, ◌/◌, ◌≤◌, ◌<◌, ◌≡◌, refl, inl, inr, Bool, true, false, Option, none, some,
  List, arith,
}
use llm_guard_proxy.Prelude.Tests.{if◌then◌else◌, Bool-cases}
use llm_guard_proxy.Guardian.Escalation.{
  EscalationError, invalid_unit, spawn, wait, timeout, failed, validate_unit_name, Poll, wait_error,
  exited, running, wait_loop, Systemctl, run_systemctl_unit_action,
}

-- A round sleeps for 20 ms, so the time of a running child grows with the rounds.
abbrev pub Sleeps : (ℕ → Poll) → Type 0
Sleeps polls = (round elapsed : ℕ) → polls round ≡ running elapsed → 20 * round ≤ elapsed

abbrev Ends : Option (Option EscalationError) → Type 0
Ends result = (r : Option EscalationError) × (result ≡ some r)

module _ (rounds round : ℕ) (polls : ℕ → Poll) (limit : ℕ) (settled : Bool) where
  wait_error_ends :
      polls round ≡ wait_error → Ends (wait_loop (suc rounds) round polls limit settled)
  unfolding wait_loop
  wait_error_ends h = (some wait, ground arith)

  exited_ends :
      (success : Bool)
      → polls round ≡ exited success
      → Ends (wait_loop (suc rounds) round polls limit settled)
  unfolding wait_loop
  exited_ends success h = ((if success then none else some failed), ground arith)

  late_ends :
      (elapsed : ℕ)
      → polls round ≡ running elapsed
      → limit ≤ elapsed
      → Ends (wait_loop (suc rounds) round polls limit settled)
  unfolding wait_loop
  late_ends elapsed h k = (some (if settled then timeout else wait), ground arith)

  early_again :
      (elapsed : ℕ)
      → polls round ≡ running elapsed
      → elapsed < limit
      → wait_loop (suc rounds) round polls limit settled
        ≡ wait_loop rounds (round + 1) polls limit settled
  unfolding wait_loop
  early_again elapsed h k = ground arith

  wait_step :
      (poll : Poll)
      → polls round ≡ poll
      → Sleeps polls
      → (20 * round < limit → Ends (wait_loop rounds (round + 1) polls limit settled))
      → Ends (wait_loop (suc rounds) round polls limit settled)
  wait_step wait_error h s again = wait_error_ends h
  wait_step (exited success) h s again = exited_ends success h
  wait_step (running elapsed) h s again = elim (dec_lt elapsed limit) [
    | yes early ↦ rw (early_again elapsed h early) (again (omega (arith, s round elapsed h)))
    | no late ↦ late_ends elapsed h (omega arith)
  ]

wait_loop-Ends :
    (rounds round : ℕ) (polls : ℕ → Poll) (limit : ℕ) (settled : Bool)
    → Sleeps polls
    → limit + 20 ≤ 20 * (round + suc rounds)
    → Ends (wait_loop (suc rounds) round polls limit settled)
wait_loop-Ends zero round polls limit settled s h =
    wait_step zero round polls limit settled (polls round) refl s (λ k. absurd (omega arith))
wait_loop-Ends (suc rounds) round polls limit settled s h =
    wait_step (suc rounds) round polls limit settled (polls round) refl s
      (λ k. wait_loop-Ends rounds (round + 1) polls limit settled s (omega arith))

pub run_invalid :
    (rounds : ℕ) (unit : List ℕ) (limit : ℕ) (s : Systemctl)
    → validate_unit_name unit ≡ false
    → run_systemctl_unit_action rounds unit limit s ≡ some (some invalid_unit)
unfolding run_systemctl_unit_action
run_invalid rounds unit limit s h = rw h

run_unspawned :
    (rounds : ℕ) (unit : List ℕ) (limit : ℕ) (s : Systemctl)
    → validate_unit_name unit ≡ true
    → s.spawned ≡ false
    → run_systemctl_unit_action rounds unit limit s ≡ some (some spawn)
unfolding run_systemctl_unit_action
run_unspawned rounds unit limit s h k = rw (h, k)

run_waits :
    (rounds : ℕ) (unit : List ℕ) (limit : ℕ) (s : Systemctl)
    → validate_unit_name unit ≡ true
    → s.spawned ≡ true
    → run_systemctl_unit_action rounds unit limit s ≡ wait_loop rounds 0 s.polls limit s.settled
unfolding run_systemctl_unit_action
run_waits rounds unit limit s h k = rw (h, k)

-- Where each round sleeps its 20 ms, an action on a unit ends within one round for each 20 ms of its
-- limit and two more.
pub run_systemctl_unit_action-ends :
    (unit : List ℕ) (limit : ℕ) (s : Systemctl)
    → Sleeps s.polls
    → (r : Option EscalationError) × (run_systemctl_unit_action (suc (limit / 20 + 1)) unit limit s
        ≡ some r)
run_systemctl_unit_action-ends unit limit s sleeps = elim (Bool-cases (validate_unit_name unit)) [
  | inr bad ↦ (some invalid_unit, run_invalid _ unit limit s bad)
  | inl good ↦ elim (Bool-cases s.spawned) [
    | inr missing ↦ (some spawn, run_unspawned _ unit limit s good missing)
    | inl started ↦
        rw (run_waits (suc (limit / 20 + 1)) unit limit s good started)
          (wait_loop-Ends (limit / 20 + 1) 0 s.polls limit s.settled sleeps (omega arith))
  ]
]
