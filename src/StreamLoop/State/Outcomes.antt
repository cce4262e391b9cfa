-- ===== src/StreamLoop/State/Outcomes.antt =====
-- Outcomes one after another: `or_else` of the channel's detectors.
use llm_guard_proxy.Prelude.{ℕ, ◌≡◌, refl, ap, fun_ext, Bool, true, false, Option, none, some}
use llm_guard_proxy.Prelude.Tests.{if◌then◌else◌}
use llm_guard_proxy.StreamLoop.Detection.{FeatureDetection}
use llm_guard_proxy.StreamLoop.State.{LoopChannelState, Outcome, or_else}

pub or_else_assoc :
    (o : Outcome) (f g : LoopChannelState → Outcome)
    → or_else (or_else o f) g ≡ or_else o (λ st. or_else (f st) g)
unfolding or_else
or_else_assoc (st, none) f g = refl
or_else_assoc (st, some detection) f g = refl

pub or_else_same :
    (o : Outcome) (f g : LoopChannelState → Outcome)
    → ((st : LoopChannelState) → f st ≡ g st)
    → or_else o f ≡ or_else o g
or_else_same o f g h = ap (or_else o) (fun_ext h)

pub or_else-nothing : (o : Outcome) → or_else o (λ st. (st, none)) ≡ o
unfolding or_else
or_else-nothing (st, none) = refl
or_else-nothing (st, some detection) = refl

pub first_none :
    (st : LoopChannelState) (f : LoopChannelState → Outcome) → or_else (st, none) f ≡ f st
unfolding or_else
first_none st f = refl

-- What every state has that a detector leaves.
unfoldable pub Keeps : (LoopChannelState → Type 0) → Outcome → Type 0
Keeps P (st, found) = P st

pub kept :
    (P : LoopChannelState → Type 0) (st : LoopChannelState) (found : Option FeatureDetection)
    → P st
    → Keeps P (st, found)
unfolding Keeps
kept P st found h = h

pub state_of : (P : LoopChannelState → Type 0) (o : Outcome) → Keeps P o → P (o.0)
unfolding Keeps
state_of P o h = h

pub or_else-Keeps :
    (P : LoopChannelState → Type 0) (o : Outcome) (f : LoopChannelState → Outcome)
    → Keeps P o
    → ((st : LoopChannelState) → P st → Keeps P (f st))
    → Keeps P (or_else o f)
unfolding or_else Keeps
or_else-Keeps P (st, none) f h k = k st h
or_else-Keeps P (st, some detection) f h k = h

-- A predicate on both branches of a test.
pub option-Keeps :
    (P : LoopChannelState → Type 0) (o : Option ℕ) (x : Outcome) (f : ℕ → Outcome)
    → Keeps P x
    → ((n : ℕ) → Keeps P (f n))
    → Keeps P (elim o [ none ↦ x | some n ↦ f n ])
option-Keeps P none x f h k = h
option-Keeps P (some n) x f h k = k n

pub if-Keeps :
    (P : LoopChannelState → Type 0) (b : Bool) (x y : Outcome)
    → Keeps P x
    → Keeps P y
    → Keeps P (if b then x else y)
if-Keeps P true x y h k = h
if-Keeps P false x y h k = k

pub test-Keeps :
    (P : LoopChannelState → Type 0) (b : Bool) (x y : Outcome)
    → Keeps P x
    → Keeps P y
    → Keeps P (elim b [ true ↦ x | false ↦ y ])
test-Keeps P true x y h k = h
test-Keeps P false x y h k = k

-- The same for an outcome that says whether the method returned.
pub returned-Keeps :
    (P : LoopChannelState → Type 0) (b : Bool) (x y : Outcome × Bool)
    → Keeps P (x.0)
    → Keeps P (y.0)
    → Keeps P ((elim b as (λ _. Outcome × Bool) [ true ↦ x | false ↦ y ]).0)
returned-Keeps P true x y h k = h
returned-Keeps P false x y h k = k

pub found-Keeps :
    (P : LoopChannelState → Type 0) (o : Option FeatureDetection)
    (f : FeatureDetection → Outcome × Bool) (x : Outcome × Bool)
    → ((detection : FeatureDetection) → Keeps P ((f detection).0))
    → Keeps P (x.0)
    → Keeps P ((elim o as (λ _. Outcome × Bool) [ some detection ↦ f detection | none ↦ x ]).0)
found-Keeps P none f x h k = k
found-Keeps P (some detection) f x h k = h detection
