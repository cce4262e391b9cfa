-- ===== src/Examples/LoopGuardRuns.antt =====
-- The loop guard on short responses.
use llm_guard_proxy.StreamLoop.Detector
use llm_guard_proxy.Prelude.{◌<◌, ◌≡◌, refl, true, false, not, some, List, [], ◌∷◌, arith}
use llm_guard_proxy.Prelude.Lists.{length, is_empty}
use llm_guard_proxy.Prelude.Text.{codes, as_bytes}
use llm_guard_proxy.StreamLoop.Config.{enforce, effective_mode}
use llm_guard_proxy.StreamLoop.Counts.{contains}
use llm_guard_proxy.StreamLoop.Signal.{StreamChannel}
use llm_guard_proxy.StreamLoop.Json.{canonical_json_hash}
use llm_guard_proxy.StreamLoop.Profile.{default_profile}
use llm_guard_proxy.StreamLoop.State.{fragment_input}
use llm_guard_proxy.StreamLoop.Detector.Calls.{repeats_call}
use llm_guard_proxy.LoopGuard.{
  LoopInspectionContext, LoopDetector, detector_of, observe_fragment, observe_completed_tool_call,
}
use llm_guard_proxy.LoopGuard.Verdict.{
  is_err, Event, streamed, called, observe_events, fingerprints, tool_call-refused,
}
use llm_guard_proxy.LoopGuard.Fragments.{fragment-refused}
use llm_guard_proxy.Examples.StreamRuns.{ascii, enforcing, two_orders}
use llm_guard_proxy.StreamLoop.Hash.{stable_hash, stable_hash_u64s}

abbrev a_context : LoopInspectionContext
a_context = record { config = enforcing; input_profile = default_profile }

abbrev a_guard : LoopDetector
a_guard = record { mode = enforce; detector = Detector.new_detector enforcing default_profile }

context_guard : detector_of a_context ≡ some a_guard
unfolding detector_of effective_mode
context_guard = refl

-- A call, some content, and the same call with its arguments in another order.
abbrev one_call : List Event
one_call = called (codes "read") (codes "p") ∷ streamed StreamChannel.content (codes "so") ∷ []

few_calls : length (fingerprints ascii two_orders one_call) < 1024
unfolding canonical_json_hash
few_calls = omega arith

tool_call-refused_example :
    is_err (
      (observe_completed_tool_call two_orders
        (codes "read")
        (codes "q")
        (observe_events ascii two_orders one_call a_guard)).1)
    ≡ repeats_call two_orders (fingerprints ascii two_orders one_call) (codes "read") (codes "q")
tool_call-refused_example =
    tool_call-refused ascii two_orders a_context a_guard one_call (codes "read") (codes "q")
      context_guard few_calls

-- It is refused.
second_call_refused :
    repeats_call two_orders (fingerprints ascii two_orders one_call) (codes "read") (codes "q")
    ≡ true
unfolding canonical_json_hash contains Detector.tool_fingerprint_hash stable_hash_u64s stable_hash
    as_bytes
second_call_refused = refl

fragment-refused_example :
    (is_err ((observe_fragment ascii StreamChannel.content (codes "so") a_guard).1) ≡ false)
    × (is_err ((observe_fragment ascii StreamChannel.reasoning (codes "so") a_guard).1)
        ≡ not (
            is_empty (
              (Detector.observe_input ascii
                (fragment_input StreamChannel.reasoning (codes "so"))
                a_guard.detector).1)))
fragment-refused_example = fragment-refused ascii (codes "so") a_guard
