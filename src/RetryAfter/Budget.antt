-- ===== src/RetryAfter/Budget.antt =====
-- The replay budget: one rate-limit replay for a request, and the ladder of ordinary attempts.
use Prim.Native.Nat.{max}
use llm_guard_proxy.Prelude.{ℕ, ◌+◌, ◌≤◌, ◌<◌, ◌≡◌, ◌≢◌, Option, none, some, List, [], ◌∷◌, arith}
use llm_guard_proxy.Prelude.Tests.{◌==◌, if◌then◌else◌}
use llm_guard_proxy.Prelude.Words.{u32_max}
use llm_guard_proxy.RetryAfter.{
  RetryBudget, claim_usable, claim_recovery_replay, ordinary_attempt_number,
}

-- What the clones of one budget do to the shared counters, in the order of the atomic steps.
pub data Step : Type 0 where
  rate_limited : Option ℕ → ℕ → Step
  recovered : ℕ → Step

abbrev pub apply : RetryBudget → Step → RetryBudget × Option ℕ
apply budget (rate_limited delay attempt) = claim_usable budget delay attempt
apply budget (recovered attempt) = (claim_recovery_replay budget, none)

abbrev pub granted_count : Option ℕ → ℕ
granted_count none = 0
granted_count (some delay) = 1

-- The number of rate-limit replays that a sequence of steps grants.
unfoldable pub granted : RetryBudget → List Step → ℕ
granted budget [] = 0
granted budget (s ∷ steps) = granted_count (apply budget s).1 + granted (apply budget s).0 steps

abbrev claimed : RetryBudget → ℕ
claimed budget = if budget.rate_limit_replay_attempt == 0 then 0 else 1

apply-claimed :
    (budget : RetryBudget) (s : Step)
    → granted_count (apply budget s).1 + claimed budget ≤ claimed (apply budget s).0
unfolding claim_usable claim_recovery_replay
apply-claimed budget (rate_limited none attempt) = omega arith
apply-claimed budget (rate_limited (some delay) attempt) = ground arith
apply-claimed budget (recovered attempt) = omega arith

granted-claimed :
    (budget : RetryBudget) (steps : List Step) → granted budget steps + claimed budget ≤ 1
unfolding granted
granted-claimed budget [] = ground arith
granted-claimed budget (s ∷ steps) =
    omega (arith, apply-claimed budget s, granted-claimed (apply budget s).0 steps)

-- However the clones of a budget interleave, at most one rate-limit replay is granted.
pub granted-le-one : (budget : RetryBudget) (steps : List Step) → granted budget steps ≤ 1
granted-le-one budget steps = omega (arith, granted-claimed budget steps)

-- Successive physical attempts climb the ladder by at most one rung, from rung 1 up and never down.
pub ordinary_attempt_number-ladder :
    (budget : RetryBudget) (n : ℕ)
    → let rung = ordinary_attempt_number budget n in
      (1 ≤ rung)
      × (rung ≤ max n 1)
      × (rung ≤ ordinary_attempt_number budget (n + 1))
      × (ordinary_attempt_number budget (n + 1) ≤ rung + 1)
unfolding ordinary_attempt_number
ordinary_attempt_number-ladder budget n = ground arith

-- The first claim with a usable delay, at an attempt below the largest u32, is granted; the replay
-- repeats the rung of the attempt that was limited, and the attempts before it keep theirs.
pub claim_usable-rung :
    (budget : RetryBudget) (delay attempt earlier : ℕ)
    → budget.rate_limit_replay_attempt ≡ 0
    → attempt < u32_max
    → earlier ≤ attempt
    → let (budget', granted) = claim_usable budget (some delay) attempt in
      (granted ≡ some delay)
      × (ordinary_attempt_number budget' (attempt + 1) ≡ ordinary_attempt_number budget attempt)
      × (ordinary_attempt_number budget' earlier ≡ ordinary_attempt_number budget earlier)
unfolding claim_usable ordinary_attempt_number
claim_usable-rung budget delay attempt earlier fresh h k = ground arith

-- Unless the next attempt is the rate-limit replay, and while the count of replays is below the
-- largest u32, a local-recovery replay repeats the rung of the attempt that it replays.
pub claim_recovery_replay-rung :
    (budget : RetryBudget) (attempt : ℕ)
    → budget.recovery_replay_count < u32_max
    → budget.rate_limit_replay_attempt ≢ attempt + 1
    → ordinary_attempt_number (claim_recovery_replay budget) (attempt + 1)
      ≡ ordinary_attempt_number budget attempt
unfolding claim_recovery_replay ordinary_attempt_number
claim_recovery_replay-rung budget attempt h k = ground arith
