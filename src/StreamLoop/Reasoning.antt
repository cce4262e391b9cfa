-- ===== src/StreamLoop/Reasoning.antt =====
-- The detector of approximate repetition in loop_detector.rs: observe_semantic,
-- finish_semantic_token and finish_semantic_window.
pub mod Bounds
pub mod Streak
use llm_guard_proxy.Prelude.{ℕ, Bool, true, false, ◌&&◌, Option, none, some, List, [], ◌∷◌, ◌++◌}
use llm_guard_proxy.Prelude.Tests.{ltb, leb, ◌==◌, if◌then◌else◌}
use llm_guard_proxy.Prelude.Lists.{length, drop, is_empty}
use llm_guard_proxy.Prelude.Words.{u32_max, u64_max, saturating_add}
use llm_guard_proxy.Prelude.Text.{is_ascii_alphanumeric, to_ascii_lowercase}
use llm_guard_proxy.StreamLoop.Config.{LoopGuardConfig}
use llm_guard_proxy.StreamLoop.Signal.{
  StreamChannel, reasoning, DetectorEventKind, fragment, approximate_repetition,
}
use llm_guard_proxy.StreamLoop.Detection.{FeatureDetection, new_detection}
use llm_guard_proxy.StreamLoop.Semantic.{
  SemanticWindow, from_tokens, feature_count, best_similarity, semantic_token_hash,
}
use llm_guard_proxy.StreamLoop.Profile.{LoopInputProfile}
use llm_guard_proxy.StreamLoop.State.{
  loop_max_semantic_token_bytes, loop_output_semantic_window_cap, LoopDetectorInput,
  LoopChannelState, Outcome, closes, feature_evidence,
}

-- The window takes its place in the history.
unfoldable pub remember_window :
    LoopGuardConfig → SemanticWindow → LoopChannelState → LoopChannelState
remember_window config window st =
    let full = leb config.reasoning_semantic_history_window_count (length st.semantic_windows) in
    let kept = if full then drop 1 st.semantic_windows else st.semantic_windows in
    let dropped =
      if full
      then saturating_add u64_max st.semantic_history_window_capped 1
      else st.semantic_history_window_capped in
    if ltb (length kept) loop_output_semantic_window_cap
    then record st {
      semantic_windows = kept ++ window ∷ [];
      semantic_history_window_capped = dropped;
      semantic_window_tokens = [];
    }
    else record st {
      semantic_windows = kept;
      semantic_history_window_capped = saturating_add u64_max dropped 1;
      semantic_window_tokens = [];
    }

unfoldable pub semantic_detection :
    LoopGuardConfig → LoopInputProfile → SemanticWindow → ℕ → LoopChannelState → FeatureDetection
unfolding feature_evidence new_detection feature_count
semantic_detection config profile window similarity st =
    record (new_detection approximate_repetition (
      feature_evidence profile st similarity config.reasoning_semantic_similarity_threshold_percent
        window.sample_hash false)) {
          token_window_size = some config.reasoning_semantic_window_token_count;
          semantic_similarity_percent = some similarity;
          semantic_feature_count = some (feature_count window);
          semantic_history_window_count = some (length st.semantic_windows);
        }

-- `finish_semantic_window` from the streak of similar windows on.
unfoldable pub judge_semantic_window :
    LoopGuardConfig → LoopInputProfile → SemanticWindow → ℕ → LoopChannelState → Outcome
unfolding remember_window semantic_detection
judge_semantic_window config profile window similarity st =
    let matched = leb config.reasoning_semantic_similarity_threshold_percent similarity in
    let streak =
      if matched then saturating_add u32_max st.semantic_consecutive_repeat_count 1 else 0 in
    let judged : LoopChannelState = record st { semantic_consecutive_repeat_count = streak } in
    if matched && leb config.reasoning_semantic_repeat_window_count streak
    then (judged, some (semantic_detection config profile window similarity judged))
    else (remember_window config window judged, none)

unfoldable pub finish_semantic_window :
    LoopGuardConfig → LoopInputProfile → LoopChannelState → Outcome
unfolding judge_semantic_window from_tokens best_similarity
finish_semantic_window config profile st =
    if ltb (length st.semantic_window_tokens) config.reasoning_semantic_minimum_token_count
    then (st, none)
    else judge_semantic_window config profile (from_tokens st.semantic_window_tokens)
        (best_similarity (from_tokens st.semantic_window_tokens) st.semantic_windows) st

abbrev push_some : List ℕ → Option ℕ → List ℕ
push_some xs none = xs
push_some xs (some x) = xs ++ x ∷ []

-- The token that was being read is over: its hash is in the window.
unfoldable pub take_semantic_token : LoopChannelState → LoopChannelState
unfolding semantic_token_hash
take_semantic_token st = record st {
  semantic_window_tokens =
      push_some st.semantic_window_tokens (semantic_token_hash st.semantic_current_token);
  semantic_current_token = [];
}

unfoldable pub finish_semantic_token :
    LoopGuardConfig → LoopInputProfile → LoopChannelState → Outcome
unfolding take_semantic_token finish_semantic_window
finish_semantic_token config profile st =
    let taken = take_semantic_token st in
    if is_empty st.semantic_current_token
    then (st, none)
    else if leb config.reasoning_semantic_window_token_count (length taken.semantic_window_tokens)
    then finish_semantic_window config profile taken
    else (taken, none)

unfoldable pub push_semantic_char : ℕ → LoopChannelState → LoopChannelState
push_semantic_char c st =
    if ltb (length st.semantic_current_token) loop_max_semantic_token_bytes
    then record st {
      semantic_current_token = st.semantic_current_token ++ to_ascii_lowercase c ∷ [];
    }
    else st

abbrev pub newline_judges : LoopGuardConfig → ℕ → LoopChannelState → Bool
newline_judges config c st =
    c == 10 && leb config.reasoning_semantic_minimum_token_count (length st.semantic_window_tokens)

abbrev pub newline_clears : ℕ → LoopChannelState → LoopChannelState
newline_clears c st = if c == 10 then record st { semantic_window_tokens = [] } else st

-- The loop over the characters, and with it whether it returned from the method. A newline that
-- closes a window returns whatever the window says.
unfoldable pub observe_semantic_chars :
    LoopGuardConfig → LoopInputProfile → List ℕ → LoopChannelState → Outcome × Bool
unfolding push_semantic_char finish_semantic_token finish_semantic_window
observe_semantic_chars config profile [] st = ((st, none), false)
observe_semantic_chars config profile (c ∷ rest) st = elim (is_ascii_alphanumeric c) [
  | true ↦ observe_semantic_chars config profile rest (push_semantic_char c st)
  | false ↦
      let (taken, found) = finish_semantic_token config profile st in
      elim found [
        | some detection ↦ ((taken, some detection), true)
        | none ↦ elim (newline_judges config c taken) [
          | true ↦ (finish_semantic_window config profile taken, true)
          | false ↦ observe_semantic_chars config profile rest (newline_clears c taken)
        ]
      ]
]

abbrev pub is_reasoning : StreamChannel → Bool
is_reasoning StreamChannel.reasoning = true
is_reasoning _ = false

-- The end of `observe_semantic`, unless its loop returned.
unfoldable pub close_semantic :
    LoopGuardConfig → LoopInputProfile → DetectorEventKind → Outcome × Bool → Outcome
unfolding finish_semantic_token
close_semantic config profile event_kind (outcome, true) = outcome
close_semantic config profile event_kind ((st, found), false) =
    if closes event_kind then finish_semantic_token config profile st else (st, none)

unfoldable pub observe_semantic :
    LoopGuardConfig → LoopInputProfile → LoopDetectorInput → LoopChannelState → Outcome
unfolding observe_semantic_chars close_semantic
observe_semantic config profile input st =
    if is_reasoning input.channel && config.reasoning_semantic_detection_enabled
    then close_semantic config profile input.event_kind
        (observe_semantic_chars config profile input.fragment st)
    else (st, none)
