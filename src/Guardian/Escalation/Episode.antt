-- ===== src/Guardian/Escalation/Episode.antt =====
-- One episode escalates once, and not before its grace period.
use llm_guard_proxy.Prelude.{
  ℕ, ◌+◌, ◌-◌, ◌≤◌, ◌≡◌, refl, ◌↔◌, true, false, Option, none, some, List, [], ◌∷◌, arith,
}
use llm_guard_proxy.Prelude.Tests.{if◌then◌else◌}
use llm_guard_proxy.Guardian.Escalation.{
  EscalationConfig, EscalationEpisode, EscalationError, EscalationResult, ok, default, is_none, arm,
  take_due, start_claimed, maybe_run,
}

pub data Step : Type 0 where
  arms : EscalationConfig → ℕ → Step
  claims : ℕ → ℕ → Step
  runs : EscalationConfig → ℕ → Option EscalationError → Step

-- The episode after a step, and one if the step has begun the escalation.
abbrev begun : EscalationResult → ℕ
begun (ok false) = 0
begun _ = 1

abbrev pub apply : EscalationEpisode → Step → EscalationEpisode × ℕ
apply e (arms config now) = (arm config now e, 0)
apply e (claims grace now) = let (e', due) = take_due grace now e in (e', if due then 1 else 0)
apply e (runs config now started) =
    let (e', result) = maybe_run config now started e in (e', begun result)

-- How often a sequence of steps with no `clear` begins the escalation.
unfoldable pub begins : EscalationEpisode → List Step → ℕ
begins e [] = 0
begins e (s ∷ steps) = (apply e s).1 + begins (apply e s).0 steps

-- An episode that has begun its escalation is an armed one.
abbrev pub IsValid : EscalationEpisode → Type 0
IsValid e = e.attempted ≡ true → is_none e.armed_at ≡ false

abbrev spent : EscalationEpisode → ℕ
spent e = if e.attempted then 1 else 0

start_claimed-begun :
    (unit : Option (List ℕ)) (started : Option EscalationError)
    → begun (start_claimed unit started) ≡ 1
unfolding start_claimed
start_claimed-begun none started = refl
start_claimed-begun (some unit) none = refl
start_claimed-begun (some unit) (some e) = refl

apply-spent :
    (e : EscalationEpisode) (s : Step)
    → IsValid e
    → ((apply e s).1 + spent e ≤ spent (apply e s).0) × IsValid (apply e s).0
unfolding arm take_due maybe_run
apply-spent e (arms config now) v = ground (arith, v)
apply-spent e (claims grace now) v = ground (arith, v)
apply-spent e (runs config now started) v =
    ground (arith, v, start_claimed-begun config.unit started)

begins-spent :
    (e : EscalationEpisode) (steps : List Step) → IsValid e → begins e steps + spent e ≤ 1
unfolding begins
begins-spent e [] v = ground arith
begins-spent e (s ∷ steps) v =
    let (step, v') = apply-spent e s v in omega (arith, step, begins-spent (apply e s).0 steps v')

-- Until the episode is cleared, arming, claiming and running begin at most one escalation.
pub begins-le-one : (steps : List Step) → begins default steps ≤ 1
unfolding default
begins-le-one steps = omega (arith, begins-spent default steps (λ h. cc))

-- A claim is granted exactly to an armed episode that has not begun and whose grace has passed since
-- it was first armed; later arming does not put that off.
pub take_due-arm :
    (config : EscalationConfig) (first later grace now : ℕ)
    → config.enabled ≡ true
    → let e = arm config later (arm config first default) in
      ((take_due grace now e).1 ≡ true) ↔ (grace ≤ now - first)
unfolding take_due arm default
take_due-arm config first later grace now h = ground arith
