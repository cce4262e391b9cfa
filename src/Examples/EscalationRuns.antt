-- ===== src/Examples/EscalationRuns.antt =====
-- An episode that escalates, and an action on `llm.service`.
use llm_guard_proxy.Prelude.{
  ℕ, zero, suc, ◌+◌, ◌/◌, ◌≤◌, ◌≡◌, refl, ◌↔◌, ◌⊎◌, true, Option, none, some, List, [], ◌∷◌, arith,
}
use llm_guard_proxy.Guardian.Escalation.{
  EscalationConfig, EscalationError, invalid_unit, default, suffix, ends_with, is_unit_byte,
  all_unit_bytes, validate_unit_name, Poll, exited, running, Systemctl, run_systemctl_unit_action,
}
use llm_guard_proxy.Guardian.Escalation.Episode.{arms, claims, begins, begins-le-one}
use llm_guard_proxy.Guardian.Escalation.Wait.{Sleeps, run_systemctl_unit_action-ends}
use llm_guard_proxy.Guardian.Escalation.UnitName.{IsUnitName, run_systemctl_unit_action-IsUnitName}

abbrev recover_unit : EscalationConfig
recover_unit = record { enabled = true; unit = none; grace_period = 30 }

begins-le-one_example :
    begins default (arms recover_unit 10 ∷ claims 30 20 ∷ claims 30 40 ∷ claims 30 41 ∷ []) ≤ 1
begins-le-one_example =
    begins-le-one (arms recover_unit 10 ∷ claims 30 20 ∷ claims 30 40 ∷ claims 30 41 ∷ [])

-- A child that runs for 45 ms.
abbrev slow_start : ℕ → Poll
slow_start zero = running 1
slow_start (suc zero) = running 22
slow_start (suc (suc zero)) = running 43
slow_start (suc (suc (suc round))) = exited true

slow_start-Sleeps : Sleeps slow_start
slow_start-Sleeps zero elapsed h = omega arith
slow_start-Sleeps (suc zero) elapsed h = ground arith
slow_start-Sleeps (suc (suc zero)) elapsed h = ground arith
slow_start-Sleeps (suc (suc (suc round))) elapsed h = absurd (ground arith)

abbrev llm_service : List ℕ
llm_service = b'l' ∷ b'l' ∷ b'm' ∷ suffix

abbrev systemctl : Systemctl
systemctl = record { spawned = true; polls = slow_start; settled = true }

abbrev with_slash : List ℕ
with_slash = b'a' ∷ b'/' ∷ b'b' ∷ suffix

run_systemctl_unit_action-ends_example :
    (r : Option EscalationError) × (run_systemctl_unit_action
        (suc (5000 / 20 + 1))
        llm_service
        5000
        systemctl
      ≡ some r)
run_systemctl_unit_action-ends_example =
    run_systemctl_unit_action-ends llm_service 5000 systemctl slow_start-Sleeps

run_systemctl_unit_action-IsUnitName_example :
    ((validate_unit_name with_slash ≡ true) ↔ IsUnitName with_slash)
    × (IsUnitName with_slash
        ⊎ (run_systemctl_unit_action 3 with_slash 40 systemctl ≡ some (some invalid_unit)))
run_systemctl_unit_action-IsUnitName_example =
    run_systemctl_unit_action-IsUnitName 3 with_slash 40 systemctl

-- A slash is refused before anything is spawned.
slash_refused : run_systemctl_unit_action 3 with_slash 40 systemctl ≡ some (some invalid_unit)
unfolding run_systemctl_unit_action validate_unit_name ends_with all_unit_bytes is_unit_byte
slash_refused = refl
