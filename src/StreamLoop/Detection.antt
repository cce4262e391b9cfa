-- ===== src/StreamLoop/Detection.antt =====
-- FeatureDetection of loop_detector.rs: what a detector found, the evidence behind it, how much of
-- the detector's state was capped, and the signal that it becomes.
use llm_guard_proxy.Prelude.{ℕ, Bool, true, not, ◌||◌, Option, none, some, List}
use llm_guard_proxy.Prelude.Tests.{ltb, if◌then◌else◌}
use llm_guard_proxy.Prelude.Text.{codes}
use llm_guard_proxy.StreamLoop.Hash.{format_hash}
use llm_guard_proxy.StreamLoop.Signal.{
  StreamChannel, DetectorEventKind, LoopReasonCode, BoundedFeatureSummary, no_features, insert_str,
  insert_u64, insert_bool, insert_capped_feature, LoopSignal, severity_for_detection,
}

pub record LoopStateCapping : Type 0 where
  pub input_lines : ℕ
  pub input_token_windows : ℕ
  pub output_lines : ℕ
  pub output_token_windows : ℕ
  pub output_unique_windows : ℕ
  pub output_semantic_windows : ℕ

abbrev pub no_capping : LoopStateCapping
no_capping = record {
  input_lines = 0;
  input_token_windows = 0;
  output_lines = 0;
  output_token_windows = 0;
  output_unique_windows = 0;
  output_semantic_windows = 0;
}

unfoldable pub is_capped : LoopStateCapping → Bool
is_capped c =
    ltb 0 c.input_lines
    || (ltb 0 c.input_token_windows
        || (ltb 0 c.output_lines
            || (ltb 0 c.output_token_windows
                || (ltb 0 c.output_unique_windows || ltb 0 c.output_semantic_windows))))

unfoldable pub insert_features : LoopStateCapping → BoundedFeatureSummary → BoundedFeatureSummary
unfolding is_capped insert_bool insert_capped_feature
insert_features c s =
    if not (is_capped c)
    then s
    else insert_capped_feature (codes "output_semantic_window_count_capped")
        c.output_semantic_windows
        (insert_capped_feature (codes "output_unique_token_window_capped") c.output_unique_windows (
          insert_capped_feature (codes "output_token_window_count_capped") c.output_token_windows (
            insert_capped_feature (codes "output_line_count_capped") c.output_lines (
              insert_capped_feature (codes "input_token_window_count_capped") c.input_token_windows
                (insert_capped_feature (codes "input_line_count_capped") c.input_lines
                  (insert_bool (codes "guard_state_capped") true s))))))

pub record FeatureEvidence : Type 0 where
  pub observed_count : ℕ
  pub threshold : ℕ
  pub observed_bytes : ℕ
  pub fragment_count : ℕ
  pub sample_hash : ℕ
  pub input_overlap_applied : Bool
  pub state_capping : LoopStateCapping

pub record FeatureDetection : Type 0 where
  pub reason_code : LoopReasonCode
  pub observed_count : ℕ
  pub threshold : ℕ
  pub observed_bytes : ℕ
  pub fragment_count : ℕ
  pub sample_hash : ℕ
  pub input_overlap_applied : Bool
  pub token_window_size : Option ℕ
  pub unique_ratio_percent : Option ℕ
  pub unique_window_count : Option ℕ
  pub total_window_count : Option ℕ
  pub semantic_similarity_percent : Option ℕ
  pub semantic_feature_count : Option ℕ
  pub semantic_history_window_count : Option ℕ
  pub state_capping : LoopStateCapping

unfoldable pub new_detection : LoopReasonCode → FeatureEvidence → FeatureDetection
new_detection reason_code evidence = record {
  reason_code = reason_code;
  observed_count = evidence.observed_count;
  threshold = evidence.threshold;
  observed_bytes = evidence.observed_bytes;
  fragment_count = evidence.fragment_count;
  sample_hash = evidence.sample_hash;
  input_overlap_applied = evidence.input_overlap_applied;
  token_window_size = none;
  unique_ratio_percent = none;
  unique_window_count = none;
  total_window_count = none;
  semantic_similarity_percent = none;
  semantic_feature_count = none;
  semantic_history_window_count = none;
  state_capping = evidence.state_capping;
}

-- `if let Some(value) = value { insert_u64(key, value) }`
unfoldable pub insert_some : List ℕ → Option ℕ → BoundedFeatureSummary → BoundedFeatureSummary
unfolding insert_u64
insert_some key none s = s
insert_some key (some value) s = insert_u64 key value s

unfoldable pub feature_summary_of : FeatureDetection → BoundedFeatureSummary
unfolding insert_features insert_some insert_bool insert_str insert_u64 no_features
feature_summary_of d =
    let counted : BoundedFeatureSummary = insert_u64 (codes "fragment_count") d.fragment_count (
      insert_u64 (codes "observed_bytes") d.observed_bytes (
        insert_u64 (codes "threshold") d.threshold
          (insert_u64 (codes "observed_count") d.observed_count no_features))) in
    let sampled : BoundedFeatureSummary =
      insert_bool (codes "input_overlap_applied") d.input_overlap_applied
        (insert_str (codes "sample_hash") (format_hash d.sample_hash) counted) in
    let windows : BoundedFeatureSummary =
      insert_some (codes "total_window_count") d.total_window_count (
        insert_some (codes "unique_window_count") d.unique_window_count (
          insert_some (codes "unique_ratio_percent") d.unique_ratio_percent
            (insert_some (codes "token_window_size") d.token_window_size sampled))) in
    let semantic : BoundedFeatureSummary =
      insert_some (codes "semantic_history_window_count") d.semantic_history_window_count (
        insert_some (codes "semantic_feature_count") d.semantic_feature_count (
          insert_some (codes "semantic_similarity_percent") d.semantic_similarity_percent
            windows)) in
    insert_features d.state_capping semantic

unfoldable pub into_signal : FeatureDetection → StreamChannel → DetectorEventKind → LoopSignal
unfolding feature_summary_of severity_for_detection
into_signal d channel event_kind =
    let (severity, confidence) = severity_for_detection d.reason_code channel in
    record {
      channel = channel;
      event_kind = event_kind;
      severity = severity;
      confidence = confidence;
      reason_code = d.reason_code;
      feature_summary = feature_summary_of d;
    }
