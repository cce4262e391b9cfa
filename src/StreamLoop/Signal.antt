-- ===== src/StreamLoop/Signal.antt =====
-- The signals of loop_detector.rs: channels, event kinds, severities, reason codes, and the bounded
-- features that a signal carries. A map from texts to texts is an association list.
use llm_guard_proxy.Prelude.{ℕ, Bool, true, false, List, [], ◌∷◌}
use llm_guard_proxy.Prelude.Tests.{ltb, leb, if◌then◌else◌}
use llm_guard_proxy.Prelude.Lists.{length, same_bytes}
use llm_guard_proxy.Prelude.Words.{u64_max, saturating_add}
use llm_guard_proxy.Prelude.Text.{codes, take, print_bool}
use llm_guard_proxy.Prelude.Decimal.{print_unsigned}
use llm_guard_proxy.StreamLoop.Hash.{stable_hash, format_hash}

pub data StreamChannel : Type 0 where
  reasoning content tool_arguments tool_fingerprint : StreamChannel

pub data DetectorEventKind : Type 0 where
  fragment check tick boundary completed_json completed_tool_fingerprint : DetectorEventKind

pub data LoopSeverity : Type 0 where
  observe suspect abort_candidate : LoopSeverity

-- The last three are the tool-loop detector's.
pub data LoopReasonCode : Type 0 where
  repeated_line repeated_token_window suffix_cycle low_progress_growth : LoopReasonCode
  approximate_repetition tool_arguments_json_completed : LoopReasonCode
  tool_arguments_repeated_json tool_fingerprint_repeated : LoopReasonCode
  tool_arguments_invalid_json tool_fingerprint_repeat tool_alternation_cycle : LoopReasonCode
  tool_output_blocked_echo : LoopReasonCode

abbrev pub loop_feature_limit : ℕ
loop_feature_limit = 16

abbrev pub loop_feature_value_max_chars : ℕ
loop_feature_value_max_chars = 96

pub record BoundedFeatureSummary : Type 0 where
  pub fields : List (List ℕ × List ℕ)
  pub capped : ℕ

-- `BTreeMap::insert`
unfoldable pub put_field : List ℕ → List ℕ → List (List ℕ × List ℕ) → List (List ℕ × List ℕ)
put_field key value [] = (key, value) ∷ []
put_field key value ((k, v) ∷ rest) =
    if same_bytes k key then (key, value) ∷ rest else (k, v) ∷ put_field key value rest

unfoldable pub truncate_chars : List ℕ → ℕ → List ℕ
truncate_chars value max_chars =
    if leb (length value) max_chars then value else take max_chars value

unfoldable pub no_features : BoundedFeatureSummary
no_features = record { fields = []; capped = 0 }

unfoldable pub insert_str : List ℕ → List ℕ → BoundedFeatureSummary → BoundedFeatureSummary
unfolding put_field truncate_chars
insert_str key value s =
    if leb loop_feature_limit (length s.fields)
    then record s { capped = saturating_add u64_max s.capped 1 }
    else record s {
      fields = put_field key (truncate_chars value loop_feature_value_max_chars) s.fields;
    }

unfoldable pub insert_u64 : List ℕ → ℕ → BoundedFeatureSummary → BoundedFeatureSummary
unfolding insert_str
insert_u64 key value s = insert_str key (print_unsigned value) s

unfoldable pub insert_bool : List ℕ → Bool → BoundedFeatureSummary → BoundedFeatureSummary
unfolding insert_str
insert_bool key value s = insert_str key (print_bool value) s

unfoldable pub insert_capped_feature : List ℕ → ℕ → BoundedFeatureSummary → BoundedFeatureSummary
unfolding insert_u64
insert_capped_feature key value s = if ltb 0 value then insert_u64 key value s else s

pub record LoopSignal : Type 0 where
  pub channel : StreamChannel
  pub event_kind : DetectorEventKind
  pub severity : LoopSeverity
  pub confidence : ℕ
  pub reason_code : LoopReasonCode
  pub feature_summary : BoundedFeatureSummary

abbrev pub is_abort : LoopSeverity → Bool
is_abort abort_candidate = true
is_abort _ = false

unfoldable pub is_abort_candidate : LoopSignal → Bool
is_abort_candidate signal = is_abort signal.severity

unfoldable pub severity_for_detection : LoopReasonCode → StreamChannel → LoopSeverity × ℕ
severity_for_detection approximate_repetition reasoning = (abort_candidate, 88)
severity_for_detection reason reasoning = (abort_candidate, 90)
severity_for_detection low_progress_growth content = (suspect, 55)
severity_for_detection reason content = (suspect, 60)
severity_for_detection suffix_cycle tool_arguments = (abort_candidate, 85)
severity_for_detection reason tool_arguments = (suspect, 70)
severity_for_detection tool_fingerprint_repeated tool_fingerprint = (abort_candidate, 92)
severity_for_detection reason tool_fingerprint = (LoopSeverity.observe, 20)

unfoldable pub tool_arguments_completed_signal : ℕ → ℕ → LoopSignal
unfolding insert_str insert_capped_feature no_features
tool_arguments_completed_signal argument_hash capped = record {
  channel = tool_arguments;
  event_kind = completed_json;
  severity = LoopSeverity.observe;
  confidence = 15;
  reason_code = tool_arguments_json_completed;
  feature_summary =
      insert_capped_feature (codes "tool_argument_json_count_capped") capped
        (insert_str (codes "arguments_hash") (format_hash argument_hash) no_features);
}

unfoldable pub repeated_tool_arguments_signal : ℕ → ℕ → ℕ → LoopSignal
unfolding insert_str insert_u64 insert_capped_feature no_features
repeated_tool_arguments_signal argument_hash repeat_count capped = record {
  channel = tool_arguments;
  event_kind = completed_json;
  severity = suspect;
  confidence = 72;
  reason_code = tool_arguments_repeated_json;
  feature_summary = insert_capped_feature (codes "tool_argument_json_count_capped") capped (
      insert_u64 (codes "repeat_count") repeat_count
        (insert_str (codes "arguments_hash") (format_hash argument_hash) no_features));
}

unfoldable pub repeated_tool_fingerprint_signal : ℕ → ℕ → ℕ → ℕ → ℕ → LoopSignal
unfolding insert_str insert_u64 insert_capped_feature no_features
repeated_tool_fingerprint_signal tool_name_hash argument_hash fingerprint_hash repeat_count capped =
    record {
      channel = tool_fingerprint;
      event_kind = completed_tool_fingerprint;
      severity = abort_candidate;
      confidence = 92;
      reason_code = tool_fingerprint_repeated;
      feature_summary = insert_capped_feature (codes "tool_fingerprint_count_capped") capped (
          insert_u64 (codes "repeat_count") repeat_count (
            insert_str (codes "fingerprint_hash") (format_hash fingerprint_hash) (
              insert_str (codes "arguments_hash") (format_hash argument_hash)
                (insert_str (codes "tool_name_hash") (format_hash tool_name_hash) no_features))));
    }

-- `arguments` is the text in its UTF-8 bytes.
unfoldable pub invalid_tool_arguments_signal : List ℕ → List ℕ → LoopSignal
unfolding insert_str no_features
invalid_tool_arguments_signal arguments error_code = record {
  channel = tool_arguments;
  event_kind = completed_json;
  severity = LoopSeverity.observe;
  confidence = 10;
  reason_code = tool_arguments_invalid_json;
  feature_summary =
      insert_str (codes "error_code") error_code
        (insert_str (codes "arguments_hash") (format_hash (stable_hash arguments)) no_features);
}
