-- ===== src/StreamLoop/Config.antt =====
-- LoopGuardConfig of crates/llm-guard-proxy-core/src/settings/model.rs, with its validation and its
-- effective mode. The section `embedding` is left out: the detector does not read it.
use llm_guard_proxy.Prelude.{arith, ℕ, ◌≤◌, ◌<◌, ◌≡◌, Bool, true, false, ◌&&◌, List}
use llm_guard_proxy.Prelude.Tests.{ltb, leb, if◌then◌else◌}
use llm_guard_proxy.Prelude.Text.{codes}

pub data LoopGuardMode : Type 0 where
  disabled monitor enforce : LoopGuardMode

pub data LoopFailurePolicy : Type 0 where
  retry_ladder truncate_cot_then_answer bounded_answer_from_cot : LoopFailurePolicy

pub record LoopGuardConfig : Type 0 where
  pub enabled : Bool
  pub mode : LoopGuardMode
  pub on_reasoning_loop : LoopFailurePolicy
  pub cot_salvage_prefix_max_bytes : ℕ
  pub cot_salvage_retry_thinking_budget : ℕ
  pub normalized_input_window_secs : ℕ
  pub max_repeated_inputs : ℕ
  pub output_repeated_line_threshold : ℕ
  pub output_token_window_size : ℕ
  pub output_repeated_token_window_threshold : ℕ
  pub output_suffix_cycle_threshold : ℕ
  pub output_low_progress_min_bytes : ℕ
  pub output_low_progress_unique_ratio_percent : ℕ
  pub input_overlap_threshold_multiplier : ℕ
  pub reasoning_semantic_detection_enabled : Bool
  pub reasoning_semantic_similarity_threshold_percent : ℕ
  pub reasoning_semantic_window_token_count : ℕ
  pub reasoning_semantic_minimum_token_count : ℕ
  pub reasoning_semantic_history_window_count : ℕ
  pub reasoning_semantic_repeat_window_count : ℕ

abbrev pub max_semantic_window_tokens : ℕ
max_semantic_window_tokens = 256

abbrev pub max_semantic_history_windows : ℕ
max_semantic_history_windows = 256

abbrev pub max_semantic_repeat_window_count : ℕ
max_semantic_repeat_window_count = 256

unfoldable pub effective_mode : LoopGuardConfig → LoopGuardMode
effective_mode config = if config.enabled then config.mode else disabled

abbrev pub is_disabled : LoopGuardMode → Bool
is_disabled disabled = true
is_disabled _ = false

-- `Ok(())`, or the field that a validation error names.
pub data Validity : Type 0 where
  valid : Validity
  invalid : List ℕ → Validity

-- `require(condition, field, _)?` before the rest.
abbrev require : Bool → List ℕ → Validity → Validity
require true field rest = rest
require false field rest = invalid field

abbrev one_to : ℕ → ℕ → Bool
one_to top n = ltb 0 n && leb n top

unfoldable pub validate_semantic : LoopGuardConfig → Validity
validate_semantic c =
    require (one_to 100 c.reasoning_semantic_similarity_threshold_percent)
      (codes "loop_guard.reasoning_semantic_similarity_threshold_percent")
      (require (one_to max_semantic_window_tokens c.reasoning_semantic_window_token_count)
        (codes "loop_guard.reasoning_semantic_window_token_count")
        (require (ltb 0 c.reasoning_semantic_minimum_token_count)
          (codes "loop_guard.reasoning_semantic_minimum_token_count")
          (require
            (leb c.reasoning_semantic_minimum_token_count c.reasoning_semantic_window_token_count)
            (codes "loop_guard.reasoning_semantic_minimum_token_count")
            (require (one_to max_semantic_history_windows c.reasoning_semantic_history_window_count)
              (codes "loop_guard.reasoning_semantic_history_window_count")
              (require
                (one_to max_semantic_repeat_window_count c.reasoning_semantic_repeat_window_count)
                (codes "loop_guard.reasoning_semantic_repeat_window_count") valid)))))

unfoldable pub validate : LoopGuardConfig → Validity
unfolding validate_semantic
validate c =
    require (ltb 0 c.normalized_input_window_secs) (codes "loop_guard.normalized_input_window_secs")
      (require (ltb 0 c.max_repeated_inputs) (codes "loop_guard.max_repeated_inputs") (
        require (ltb 0 c.output_repeated_line_threshold)
          (codes "loop_guard.output_repeated_line_threshold")
          (require (ltb 0 c.output_token_window_size) (codes "loop_guard.output_token_window_size")
            (require (ltb 0 c.output_repeated_token_window_threshold)
              (codes "loop_guard.output_repeated_token_window_threshold")
              (require (ltb 0 c.output_suffix_cycle_threshold)
                (codes "loop_guard.output_suffix_cycle_threshold")
                (require (ltb 0 c.output_low_progress_min_bytes)
                  (codes "loop_guard.output_low_progress_min_bytes")
                  (require (leb c.output_low_progress_unique_ratio_percent 100)
                    (codes "loop_guard.output_low_progress_unique_ratio_percent")
                    (require (ltb 0 c.input_overlap_threshold_multiplier)
                      (codes "loop_guard.input_overlap_threshold_multiplier")
                      (require (ltb 0 c.cot_salvage_prefix_max_bytes)
                        (codes "loop_guard.cot_salvage_prefix_max_bytes")
                        (require (ltb 0 c.cot_salvage_retry_thinking_budget)
                          (codes "loop_guard.cot_salvage_retry_thinking_budget")
                          (validate_semantic c)))))))))))

-- What the detector relies on.
pub record IsValid (c : LoopGuardConfig) : Type 0 where
  pub line_threshold : 0 < c.output_repeated_line_threshold
  pub token_window : 0 < c.output_token_window_size
  pub token_window_threshold : 0 < c.output_repeated_token_window_threshold
  pub suffix_threshold : 0 < c.output_suffix_cycle_threshold
  pub multiplier : 0 < c.input_overlap_threshold_multiplier
  pub similarity : 0 < c.reasoning_semantic_similarity_threshold_percent
  pub minimum_le_window :
      c.reasoning_semantic_minimum_token_count ≤ c.reasoning_semantic_window_token_count
  pub history : c.reasoning_semantic_history_window_count ≤ 256
  pub repeat : 0 < c.reasoning_semantic_repeat_window_count

pub validate-IsValid : (c : LoopGuardConfig) → validate c ≡ valid → IsValid c
unfolding validate
validate-IsValid c h = record {
  line_threshold = ground (arith, h);
  token_window = ground (arith, h);
  token_window_threshold = ground (arith, h);
  suffix_threshold = ground (arith, h);
  multiplier = ground (arith, h);
  similarity = ground (arith, h);
  minimum_le_window = ground (arith, h);
  history = ground (arith, h);
  repeat = ground (arith, h);
}
