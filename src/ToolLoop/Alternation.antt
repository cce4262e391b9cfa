-- ===== src/ToolLoop/Alternation.antt =====
-- The alternation test of the tool-loop detector, against the shape A-B-A-B of the window's end.
use native.Mathlib.Decide.{dec_lt}
use llm_guard_proxy.Prelude.{
  ℕ, ◌+◌, ◌-◌, ◌≤◌, ◌<◌, ◌≡◌, refl, ap, ◌≢◌, ◌⊎◌, inl, inr, Option, none, some, List, [], ◌∷◌, ◌++◌,
  arith,
}
use llm_guard_proxy.Prelude.Tests.{lt→ltb, le→ltb_false}
use llm_guard_proxy.Prelude.Lists.{length, get_or, length-append, get_or-append}
use llm_guard_proxy.ToolLoop.{
  tool_alternation_risk, tool_alternation_cycle, ToolLoopSignal, alternation, detect_alternation,
}

-- The last four entries of the window are `first`, another one, and the same two again.
abbrev pub Alternates : List ℕ → ℕ → Type 0
Alternates window first =
    (front : List ℕ) × (second : ℕ) × (first ≢ second)
    × (window ≡ front ++ first ∷ second ∷ first ∷ second ∷ [])

abbrev pub alternation_signal : ℕ → ToolLoopSignal
alternation_signal first = record {
  reason_code = tool_alternation_cycle;
  fingerprint_hash = first;
  repeat_count = 2;
  risk = tool_alternation_risk;
}

module _ (front : List ℕ) (a b c d : ℕ) where
  detect_alternation-append : detect_alternation (front ++ a ∷ b ∷ c ∷ d ∷ []) ≡ alternation a b c d
  unfolding detect_alternation
  detect_alternation-append =
      let n : length (front ++ a ∷ b ∷ c ∷ d ∷ []) ≡ length front + 4 = length-append front _ in
      rw (
        n,
        le→ltb_false (length front + 4) 4 (omega arith),
        at 4 0 (omega arith),
        at 3 1 (omega arith),
        at 2 2 (omega arith),
        at 1 3 (omega arith),
      )
    where
      at :
          (k i : ℕ)
          → i + k ≡ 4
          → get_or (front ++ a ∷ b ∷ c ∷ d ∷ []) (length front + 4 - k) 0
            ≡ get_or (a ∷ b ∷ c ∷ d ∷ []) i 0
      at k i e =
          let j : length front + 4 - k ≡ length front + i = omega arith in
          rw j (get_or-append front (a ∷ b ∷ c ∷ d ∷ []) i 0)

last_four :
    (window : List ℕ)
    → 4 ≤ length window
    → (front : List ℕ) × (a b c d : ℕ) × (window ≡ front ++ a ∷ b ∷ c ∷ d ∷ [])
last_four [] h = absurd (omega arith)
last_four (a ∷ []) h = absurd (omega arith)
last_four (a ∷ b ∷ []) h = absurd (omega arith)
last_four (a ∷ b ∷ c ∷ []) h = absurd (omega arith)
last_four (a ∷ b ∷ c ∷ d ∷ []) h = ([], a, b, c, d, refl)
last_four (x ∷ a ∷ b ∷ c ∷ d ∷ rest) h =
    let (front, a', b', c', d', e) = last_four (a ∷ b ∷ c ∷ d ∷ rest) (omega arith) in
    (x ∷ front, a', b', c', d', ap (◌∷◌ x) e)

Alternates-detected :
    (window : List ℕ) (first : ℕ)
    → Alternates window first
    → detect_alternation window ≡ some (alternation_signal first)
unfolding alternation
Alternates-detected window first (front, second, differ, e) =
    rw (e, detect_alternation-append front first second first second) (ground arith)

alternation-cases : (a b c d : ℕ) → (alternation a b c d ≡ none) ⊎ ((a ≡ c) × (b ≡ d) × (a ≢ b))
unfolding alternation
alternation-cases a b c d = ground arith

-- What `detect_alternation` may answer for a window.
abbrev pub Decides : List ℕ → Option ToolLoopSignal → Type 0
Decides window answer =
    ((answer ≡ none) × ((first : ℕ) → ¬ Alternates window first))
    ⊎ ((first : ℕ) × Alternates window first × (answer ≡ some (alternation_signal first)))

refuted :
    (window : List ℕ) → detect_alternation window ≡ none → (first : ℕ) → ¬ Alternates window first
refuted window e first alternates = cc (Alternates-detected window first alternates)

decide_four :
    (front : List ℕ) (a b c d : ℕ) (window : List ℕ)
    → window ≡ front ++ a ∷ b ∷ c ∷ d ∷ []
    → Decides window (detect_alternation window)
decide_four front a b c d window e = elim (alternation-cases a b c d) [
  | inl quiet ↦
      let n : detect_alternation window ≡ none =
        rw (e, detect_alternation-append front a b c d) quiet in
      inl (n, refuted window n)
  | inr (p, q, differ) ↦
      let shape : Alternates window a = (front, b, differ, rw (e, ← p, ← q)) in
      inr (a, shape, Alternates-detected window a shape)
]

detect_alternation-short : (window : List ℕ) → length window < 4 → detect_alternation window ≡ none
unfolding detect_alternation
detect_alternation-short window h = rw (lt→ltb (length window) 4 h)

-- The test fires exactly on the windows that end in A-B-A-B with A and B distinct, and names A.
pub detect_alternation-Decides : (window : List ℕ) → Decides window (detect_alternation window)
detect_alternation-Decides window = elim (dec_lt (length window) 4) [
  | yes short ↦
      let n : detect_alternation window ≡ none = detect_alternation-short window short in
      inl (n, refuted window n)
  | no enough ↦
      let (front, a, b, c, d, e) = last_four window (omega arith) in
      decide_four front a b c d window e
]
