-- ===== src/ToolLoop/History.antt =====
-- The detector over a whole history of calls and outputs, against the history itself.
use mathlib.Core.List.{append-nil, append_assoc}
use llm_guard_proxy.Prelude.{ℕ, ◌+◌, ◌-◌, ◌≤◌, min, ◌≡◌, refl, sym, ◌∙◌, List, [], ◌∷◌, ◌++◌, arith}
use llm_guard_proxy.Prelude.Lists.{
  length, length-append, length-drop, drop-nil, drop-drop, drop-append, take_last, count,
  count-append,
}
use llm_guard_proxy.Prelude.Words.{u32_max}
use llm_guard_proxy.Prelude.Maps.{Map}
use llm_guard_proxy.ToolLoop.{
  ToolLoopSignal, ToolLoopDetector, new, increment, push_fingerprint, observe_fingerprint,
  observe_tool_output,
}
use llm_guard_proxy.ToolLoop.Window.{
  stored, IsWindow, new-IsWindow, retained, push_fingerprint-window, push_fingerprint-history,
  push_fingerprint-IsWindow,
}

pub data Event : Type 0 where
  called : ℕ → Event
  returned : ℕ → Event

abbrev pub observe : ToolLoopDetector → Event → ToolLoopDetector × List ToolLoopSignal
observe d (called hash) = observe_fingerprint d hash
observe d (returned hash) = observe_tool_output d hash

-- The detector after a history, oldest event first.
unfoldable pub observe_all : ToolLoopDetector → List Event → ToolLoopDetector
observe_all d [] = d
observe_all d (e ∷ es) = observe_all (observe d e).0 es

abbrev pub calls : List Event → List ℕ
calls [] = []
calls (called hash ∷ es) = hash ∷ calls es
calls (returned hash ∷ es) = calls es

abbrev pub outputs : List Event → List ℕ
outputs [] = []
outputs (called hash ∷ es) = outputs es
outputs (returned hash ∷ es) = hash ∷ outputs es

-- The detector `d` has seen the fingerprints `fs` and the outputs `os`.
pub record Tracks (m : ℕ) (d : ToolLoopDetector) (fs os : List ℕ) : Type 0 where
  pub history : d.max_history ≡ m
  pub valid : IsWindow d
  pub window : d.fingerprints ≡ take_last m fs
  pub echoed : (hash : ℕ) → d.output_counts hash ≡ stored (min (count hash os) u32_max)

pub retained-take_last :
    (m hash : ℕ) (fs : List ℕ)
    → 1 ≤ m
    → retained m (take_last m fs) ++ hash ∷ [] ≡ take_last m (fs ++ hash ∷ [])
retained-take_last m hash fs h =
    let n : length (take_last m fs) ≡ length fs - (length fs - m) =
      length-drop (length fs - m) fs in
    let k : length (fs ++ hash ∷ []) ≡ length fs + 1 = length-append fs (hash ∷ []) in
    let j : (length fs - m) + (length fs - (length fs - m) + 1 - m) ≡ length fs + 1 - m =
      omega arith in
    rw (n, k, drop-drop _ _ fs, j)
      (sym (drop-append (length fs + 1 - m) fs (hash ∷ []) (omega arith)))

increment-echoed :
    (hash : ℕ) (os : List ℕ) (counts : Map ℕ)
    → ((other : ℕ) → counts other ≡ stored (min (count other os) u32_max))
    → (other : ℕ)
    → increment hash counts other ≡ stored (min (count other (os ++ hash ∷ [])) u32_max)
unfolding increment
increment-echoed hash os counts h other =
    ground (arith, h hash, h other, count-append other os (hash ∷ []))

observe_fingerprint-state :
    (d : ToolLoopDetector) (hash : ℕ)
    → let pushed = push_fingerprint d hash in
      let after = (observe_fingerprint d hash).0 in
      (after.max_history ≡ pushed.max_history)
      × (after.fingerprints ≡ pushed.fingerprints)
      × (after.fingerprint_counts ≡ pushed.fingerprint_counts)
      × (after.output_counts ≡ d.output_counts)
unfolding observe_fingerprint
observe_fingerprint-state d hash = (refl, refl, refl, refl)

observe_tool_output-state :
    (d : ToolLoopDetector) (hash : ℕ)
    → let after = (observe_tool_output d hash).0 in
      (after.max_history ≡ d.max_history)
      × (after.fingerprints ≡ d.fingerprints)
      × (after.fingerprint_counts ≡ d.fingerprint_counts)
      × (after.output_counts ≡ increment hash d.output_counts)
unfolding observe_tool_output
observe_tool_output-state d hash = ground arith

called-Tracks :
    (m : ℕ) (d : ToolLoopDetector) (fs os : List ℕ) (hash : ℕ)
    → 1 ≤ m
    → Tracks m d fs os
    → Tracks m (observe_fingerprint d hash).0 (fs ++ hash ∷ []) os
called-Tracks m d fs os hash h t =
    let (a, b, c, o) = observe_fingerprint-state d hash in
    let w = push_fingerprint-IsWindow d hash t.valid in
    record {
      history = a ∙ push_fingerprint-history d hash t.valid ∙ t.history;
      valid = record {
        keeps_one = rw a w.keeps_one;
        fits_u32 = rw a w.fits_u32;
        fits = rw (a, b) w.fits;
        counted = λ other. rw (b, c) (w.counted other);
      };
      window = rw b (
          rw (push_fingerprint-window d hash t.valid, t.history, t.window)
            (retained-take_last m hash fs h));
      echoed = λ other. rw o (t.echoed other);
    }

returned-Tracks :
    (m : ℕ) (d : ToolLoopDetector) (fs os : List ℕ) (hash : ℕ)
    → Tracks m d fs os
    → Tracks m (observe_tool_output d hash).0 fs (os ++ hash ∷ [])
returned-Tracks m d fs os hash t =
    let (a, b, c, o) = observe_tool_output-state d hash in
    record {
      history = a ∙ t.history;
      valid = record {
        keeps_one = rw a t.valid.keeps_one;
        fits_u32 = rw a t.valid.fits_u32;
        fits = rw (a, b) t.valid.fits;
        counted = λ other. rw (b, c) (t.valid.counted other);
      };
      window = b ∙ t.window;
      echoed = λ other. rw o (increment-echoed hash os d.output_counts t.echoed other);
    }

observe_all-Tracks :
    (m : ℕ) (d : ToolLoopDetector) (fs os : List ℕ) (es : List Event)
    → 1 ≤ m
    → Tracks m d fs os
    → Tracks m (observe_all d es) (fs ++ calls es) (os ++ outputs es)
unfolding observe_all
observe_all-Tracks m d fs os [] h t = rw (append-nil fs, append-nil os) t
observe_all-Tracks m d fs os (called hash ∷ es) h t =
    rw (← append_assoc fs (hash ∷ []) (calls es)) (
      observe_all-Tracks m (observe_fingerprint d hash).0 (fs ++ hash ∷ []) os es h
        (called-Tracks m d fs os hash h t))
observe_all-Tracks m d fs os (returned hash ∷ es) h t =
    rw (← append_assoc os (hash ∷ []) (outputs es)) (
      observe_all-Tracks m (observe_tool_output d hash).0 fs (os ++ hash ∷ []) es h
        (returned-Tracks m d fs os hash t))

-- After any history of calls and outputs a detector of `m` entries (1 to u32::MAX) holds the last `m` fingerprints,
-- exact counts of them, and the number of times that each output was seen.
pub observe_all-new :
    (m : ℕ) (es : List Event)
    → 1 ≤ m
    → m ≤ u32_max
    → Tracks m (observe_all (new m) es) (calls es) (outputs es)
unfolding new
observe_all-new m es h k = observe_all-Tracks m (new m) [] [] es h (record {
  history = refl;
  valid = new-IsWindow m h k;
  window = sym (drop-nil (0 - m));
  echoed = λ hash. refl;
})
