-- ===== src/Examples/StreamRuns.antt =====
-- What the runs of the channelized detector share: ASCII in the place of Unicode, a configuration,
-- and a reader of arguments.
use llm_guard_proxy.Prelude.{ℕ, true, none, some, List, [], ◌∷◌, ◌++◌, arith}
use llm_guard_proxy.Prelude.Tests.{if◌then◌else◌}
use llm_guard_proxy.Prelude.Lists.{same_bytes}
use llm_guard_proxy.Prelude.Text.{
  codes, Unicode, LowercaseIsShort, is_ascii_alphanumeric, to_ascii_lowercase,
}
use llm_guard_proxy.StreamLoop.Config.{enforce, retry_ladder, LoopGuardConfig}
use llm_guard_proxy.StreamLoop.Json.{Value, number, string, object, no_entries, entry, JsonText}

abbrev lowercase_ascii : List ℕ → List ℕ
lowercase_ascii [] = []
lowercase_ascii (c ∷ rest) = to_ascii_lowercase c ∷ lowercase_ascii rest

abbrev pub ascii : Unicode
ascii = record {
  to_lowercase = λ c. to_ascii_lowercase c ∷ [];
  lowercase_text = lowercase_ascii;
  is_alphanumeric = is_ascii_alphanumeric;
}

pub ascii_short : LowercaseIsShort ascii
ascii_short c = omega arith

-- The defaults of LoopGuardConfig, but that it enforces, and three equal lines repeat.
abbrev pub enforcing : LoopGuardConfig
enforcing = record {
  enabled = true;
  mode = enforce;
  on_reasoning_loop = retry_ladder;
  cot_salvage_prefix_max_bytes = 4096;
  cot_salvage_retry_thinking_budget = 1024;
  normalized_input_window_secs = 120;
  max_repeated_inputs = 1;
  output_repeated_line_threshold = 3;
  output_token_window_size = 12;
  output_repeated_token_window_threshold = 32;
  output_suffix_cycle_threshold = 32;
  output_low_progress_min_bytes = 4096;
  output_low_progress_unique_ratio_percent = 15;
  input_overlap_threshold_multiplier = 4;
  reasoning_semantic_detection_enabled = true;
  reasoning_semantic_similarity_threshold_percent = 55;
  reasoning_semantic_window_token_count = 24;
  reasoning_semantic_minimum_token_count = 8;
  reasoning_semantic_history_window_count = 16;
  reasoning_semantic_repeat_window_count = 2;
}

-- An object of two entries, and the same with its entries exchanged.
abbrev pub path_first : Value
path_first = object (
    entry (codes "path") (string (codes "a"))
      (entry (codes "line") (number (codes "1")) no_entries))

abbrev pub line_first : Value
line_first = object (
    entry (codes "line") (number (codes "1"))
      (entry (codes "path") (string (codes "a")) no_entries))

-- Reads the text `p` as the one, any other text as the other.
abbrev pub two_orders : JsonText
two_orders = record {
  from_str = λ text. if same_bytes text (codes "p") then some path_first else some line_first;
  from_slice = λ text. none;
  to_string = λ text. some (b'"' ∷ (text ++ b'"' ∷ []));
}
