-- ===== src/ToolLoop/Emitted.antt =====
-- What the detector emits, as a function of the history of calls and outputs alone.
use llm_guard_proxy.Prelude.{
  ℕ, zero, suc, ◌+◌, ◌≤◌, min, ◌≡◌, refl, ◌∙◌, List, [], ◌∷◌, ◌++◌, arith,
}
use llm_guard_proxy.Prelude.Tests.{leb, if◌then◌else◌}
use llm_guard_proxy.Prelude.Lists.{take_last, count}
use llm_guard_proxy.Prelude.Words.{u32_max}
use llm_guard_proxy.Prelude.Maps.{Map}
use llm_guard_proxy.ToolLoop.{
  tool_fingerprint_repeat, ToolLoopSignal, ToolLoopDetector, new, push_fingerprint,
  fingerprint_repeat_risk, detect_alternation, detect_repeat, to_list, observe_fingerprint,
  blocked_signal, observe_tool_output,
}
use llm_guard_proxy.ToolLoop.Window.{stored, push_fingerprint-window, push_fingerprint-IsWindow}
use llm_guard_proxy.ToolLoop.History.{
  Event, observe_all, calls, outputs, retained-take_last, observe_all-new,
}

-- The signal of `n` occurrences in the window.
abbrev pub repeat_signals : ℕ → ℕ → List ToolLoopSignal
repeat_signals hash n =
    if leb 3 n
    then record {
      reason_code = tool_fingerprint_repeat;
      fingerprint_hash = hash;
      repeat_count = n;
      risk = fingerprint_repeat_risk n;
    }
      ∷ []
    else []

detect_repeat-stored :
    (hash n : ℕ) (counts : Map ℕ)
    → counts hash ≡ stored n
    → to_list (detect_repeat hash counts) ≡ repeat_signals hash n
unfolding detect_repeat
detect_repeat-stored hash zero counts h = ground arith
detect_repeat-stored hash (suc n) counts h = ground arith

observe_fingerprint-emits :
    (d : ToolLoopDetector) (hash : ℕ)
    → (observe_fingerprint d hash).1
      ≡ to_list (detect_repeat hash (push_fingerprint d hash).fingerprint_counts)
        ++ to_list (detect_alternation (push_fingerprint d hash).fingerprints)
unfolding observe_fingerprint
observe_fingerprint-emits d hash = refl

-- On a detector of `m` entries (1 to u32::MAX) a call emits a repeat signal exactly when the last `m` calls, this one among them, hold its
-- fingerprint three times, and the alternation signal of those calls.
pub observe_fingerprint-emitted :
    (m hash : ℕ) (es : List Event)
    → 1 ≤ m
    → m ≤ u32_max
    → let recent = take_last m (calls es ++ hash ∷ []) in
      (observe_fingerprint (observe_all (new m) es) hash).1
      ≡ repeat_signals hash (count hash recent) ++ to_list (detect_alternation recent)
observe_fingerprint-emitted m hash es h k =
    let d = observe_all (new m) es in
    let t = observe_all-new m es h k in
    let w : (push_fingerprint d hash).fingerprints ≡ take_last m (calls es ++ hash ∷ []) =
      push_fingerprint-window d hash t.valid
      ∙ (rw (t.history, t.window) (retained-take_last m hash (calls es) h)) in
    let c = (push_fingerprint-IsWindow d hash t.valid).counted hash in
    observe_fingerprint-emits d hash ∙ (rw (← w) (rw (detect_repeat-stored hash _ _ c)))

-- On a detector of `m` entries (1 to u32::MAX) an output emits an echo signal exactly from its second sighting on, with the number of sightings.
pub observe_tool_output-emitted :
    (m hash : ℕ) (es : List Event)
    → 1 ≤ m
    → m ≤ u32_max
    → let sightings = min (count hash (outputs es) + 1) u32_max in
      (observe_tool_output (observe_all (new m) es) hash).1
      ≡ (if leb 2 sightings then blocked_signal sightings ∷ [] else [])
unfolding observe_tool_output
observe_tool_output-emitted m hash es h k =
    let t = observe_all-new m es h k in ground (arith, t.echoed hash)
