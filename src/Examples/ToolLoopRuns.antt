-- ===== src/Examples/ToolLoopRuns.antt =====
-- The tool-loop detector on short histories.
use llm_guard_proxy.Prelude.{◌≡◌, refl, List, [], ◌∷◌, ◌++◌, arith}
use llm_guard_proxy.Prelude.Lists.{take_last, count}
use llm_guard_proxy.ToolLoop.{
  tool_fingerprint_repeat, new, detect_alternation, to_list, observe_fingerprint, blocked_signal,
  observe_tool_output,
}
use llm_guard_proxy.ToolLoop.Alternation.{alternation_signal, Decides, detect_alternation-Decides}
use llm_guard_proxy.ToolLoop.History.{
  Event, called, returned, observe_all, calls, Tracks, observe_all-new,
}
use llm_guard_proxy.ToolLoop.Emitted.{
  repeat_signals, observe_fingerprint-emitted, observe_tool_output-emitted,
}

abbrev rereads : List Event
rereads = called 7 ∷ returned 1 ∷ called 7 ∷ returned 1 ∷ []

-- Three equal calls in a window of eight.
third_read_repeats :
    (observe_fingerprint (observe_all (new 8) rereads) 7).1
    ≡ record {
      reason_code = tool_fingerprint_repeat;
      fingerprint_hash = 7;
      repeat_count = 3;
      risk = 60;
    }
      ∷ []
unfolding observe_fingerprint observe_all new observe_tool_output
third_read_repeats = refl

-- The alternation A-B-A-B.
pingpong_alternates :
    (observe_fingerprint (observe_all (new 8) (called 7 ∷ called 9 ∷ called 7 ∷ [])) 9).1
    ≡ alternation_signal 7 ∷ []
unfolding observe_fingerprint observe_all new observe_tool_output
pingpong_alternates = refl

observe_fingerprint-emitted_example :
    let recent = take_last 8 (calls rereads ++ 7 ∷ []) in
    (observe_fingerprint (observe_all (new 8) rereads) 7).1
    ≡ repeat_signals 7 (count 7 recent) ++ to_list (detect_alternation recent)
observe_fingerprint-emitted_example =
    observe_fingerprint-emitted 8 7 rereads (omega arith) (omega arith)

observe_tool_output-emitted_example :
    (observe_tool_output (observe_all (new 8) rereads) 1).1 ≡ blocked_signal 3 ∷ []
observe_tool_output-emitted_example =
    observe_tool_output-emitted 8 1 rereads (omega arith) (omega arith)

observe_all-new_example : Tracks 2 (observe_all (new 2) rereads) (7 ∷ 7 ∷ []) (1 ∷ 1 ∷ [])
observe_all-new_example = observe_all-new 2 rereads (omega arith) (omega arith)

detect_alternation-Decides_example :
    Decides (5 ∷ 7 ∷ 9 ∷ 7 ∷ 9 ∷ []) (detect_alternation (5 ∷ 7 ∷ 9 ∷ 7 ∷ 9 ∷ []))
detect_alternation-Decides_example = detect_alternation-Decides (5 ∷ 7 ∷ 9 ∷ 7 ∷ 9 ∷ [])
