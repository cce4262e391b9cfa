-- ===== src/StreamLoop/State.antt =====
-- LoopChannelState of loop_detector.rs, the state of one channel, and what its detectors share. A
-- method returns the new state beside what it found.
pub mod Outcomes
pub mod Bounds
use llm_guard_proxy.Prelude.{ℕ, Bool, true, false, Option, none, some, List, []}
use llm_guard_proxy.Prelude.Tests.{if◌then◌else◌}
use llm_guard_proxy.Prelude.Words.{u64_max, saturating_mul}
use llm_guard_proxy.Prelude.Maps.{Map, empty}
use llm_guard_proxy.StreamLoop.Counts.{Counts}
use llm_guard_proxy.StreamLoop.Config.{LoopGuardConfig}
use llm_guard_proxy.StreamLoop.Signal.{StreamChannel, DetectorEventKind, check, tick, boundary}
use llm_guard_proxy.StreamLoop.Detection.{LoopStateCapping, FeatureEvidence, FeatureDetection}
use llm_guard_proxy.StreamLoop.Semantic.{SemanticWindow}
use llm_guard_proxy.StreamLoop.Profile.{LoopInputProfile}

abbrev pub loop_max_pending_line_bytes : ℕ
loop_max_pending_line_bytes = 8192

abbrev pub loop_max_recent_chars : ℕ
loop_max_recent_chars = 4096

abbrev pub loop_max_semantic_token_bytes : ℕ
loop_max_semantic_token_bytes = 64

abbrev pub loop_output_line_count_cap : ℕ
loop_output_line_count_cap = 4096

abbrev pub loop_output_token_window_count_cap : ℕ
loop_output_token_window_count_cap = 8192

abbrev pub loop_output_unique_token_window_cap : ℕ
loop_output_unique_token_window_cap = 8192

abbrev pub loop_output_semantic_window_cap : ℕ
loop_output_semantic_window_cap = 256

-- `fragment` is a text, as are the pending line and the tokens.
pub record LoopDetectorInput : Type 0 where
  pub channel : StreamChannel
  pub event_kind : DetectorEventKind
  pub fragment : List ℕ

-- `LoopDetectorInput::fragment` and `LoopDetectorInput::event`
unfoldable pub fragment_input : StreamChannel → List ℕ → LoopDetectorInput
fragment_input channel text = record {
  channel = channel;
  event_kind = DetectorEventKind.fragment;
  fragment = text;
}

unfoldable pub event_input : StreamChannel → DetectorEventKind → LoopDetectorInput
event_input channel event_kind = record {
  channel = channel;
  event_kind = event_kind;
  fragment = [];
}

pub record LoopChannelState : Type 0 where
  pub fragment_count : ℕ
  pub bytes_seen : ℕ
  pub pending_line : List ℕ
  pub pending_line_start_byte : ℕ
  pub line_counts : Counts
  pub line_first_byte_offsets : Map ℕ
  pub line_count_capped : ℕ
  pub last_repeated_line_first_byte_offset : Option ℕ
  pub current_token : List ℕ
  pub recent_token_hashes : List ℕ
  pub token_window_counts : Counts
  pub token_window_count_capped : ℕ
  pub unique_token_windows : List ℕ
  pub unique_token_window_capped : ℕ
  pub token_window_total : ℕ
  pub recent_chars : List ℕ
  pub input_overlap_seen : Bool
  pub semantic_current_token : List ℕ
  pub semantic_window_tokens : List ℕ
  pub semantic_windows : List SemanticWindow
  pub semantic_history_window_capped : ℕ
  pub semantic_consecutive_repeat_count : ℕ

unfoldable pub default_state : LoopChannelState
default_state = record {
  fragment_count = 0;
  bytes_seen = 0;
  pending_line = [];
  pending_line_start_byte = 0;
  line_counts = [];
  line_first_byte_offsets = empty;
  line_count_capped = 0;
  last_repeated_line_first_byte_offset = none;
  current_token = [];
  recent_token_hashes = [];
  token_window_counts = [];
  token_window_count_capped = 0;
  unique_token_windows = [];
  unique_token_window_capped = 0;
  token_window_total = 0;
  recent_chars = [];
  input_overlap_seen = false;
  semantic_current_token = [];
  semantic_window_tokens = [];
  semantic_windows = [];
  semantic_history_window_capped = 0;
  semantic_consecutive_repeat_count = 0;
}

-- What a detector leaves: the state, and what it found.
abbrev pub Outcome : Type 0
Outcome = LoopChannelState × Option FeatureDetection

-- `or_else`, and the early `return Some(detection)` of the loops.
unfoldable pub or_else : Outcome → (LoopChannelState → Outcome) → Outcome
or_else (st, none) next = next st
or_else (st, some detection) next = (st, some detection)

-- `matches!(event_kind, Boundary | Check | Tick)`
abbrev pub closes : DetectorEventKind → Bool
closes boundary = true
closes check = true
closes tick = true
closes _ = false

unfoldable pub adjusted_threshold : ℕ → Bool → LoopGuardConfig → ℕ
adjusted_threshold threshold input_overlap config =
    if input_overlap
    then saturating_mul u64_max threshold config.input_overlap_threshold_multiplier
    else threshold

unfoldable pub state_capping : LoopInputProfile → LoopChannelState → LoopStateCapping
state_capping profile st = record profile.state_capping {
  output_lines = st.line_count_capped;
  output_token_windows = st.token_window_count_capped;
  output_unique_windows = st.unique_token_window_capped;
  output_semantic_windows = st.semantic_history_window_capped;
}

unfoldable pub feature_evidence :
    LoopInputProfile → LoopChannelState → ℕ → ℕ → ℕ → Bool → FeatureEvidence
unfolding state_capping
feature_evidence profile st observed_count threshold sample_hash input_overlap_applied = record {
  observed_count = observed_count;
  threshold = threshold;
  observed_bytes = st.bytes_seen;
  fragment_count = st.fragment_count;
  sample_hash = sample_hash;
  input_overlap_applied = input_overlap_applied;
  state_capping = state_capping profile st;
}

-- `if input_overlap { self.input_overlap_seen = true; }`
unfoldable pub note_overlap : Bool → LoopChannelState → LoopChannelState
note_overlap true st = record st { input_overlap_seen = true }
note_overlap false st = st
