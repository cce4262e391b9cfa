-- ===== src/Examples/StreamLoopRuns.antt =====
-- The channelized detector on short streams.
use llm_guard_proxy.Prelude.{
  ℕ, ◌+◌, ◌≤◌, ◌≡◌, refl, ap, ◌≢◌, true, false, none, some, List, [], ◌∷◌, ◌++◌, arith,
}
use llm_guard_proxy.Prelude.Lists.{same_bytes}
use llm_guard_proxy.Prelude.Words.{u64_max}
use llm_guard_proxy.StreamLoop.Suffix.{SuffixCycle, suffix_cycle}
use llm_guard_proxy.Prelude.Text.{
  codes, len_utf8, byte_len, encode_utf8, as_bytes, join_words, to_ascii_lowercase,
}
use llm_guard_proxy.StreamLoop.Hash.{stable_hash_step, stable_hash}
use llm_guard_proxy.StreamLoop.Counts.{contains}
use llm_guard_proxy.StreamLoop.Signal.{StreamChannel, DetectorEventKind}
use llm_guard_proxy.StreamLoop.Json.{number, string, no_entries, canonical_json_hash}
use llm_guard_proxy.StreamLoop.Json.Order.{SameValue, objects, exchanged, canonical_json_hash-order}
use llm_guard_proxy.StreamLoop.Semantic.{SemanticWindow}
use llm_guard_proxy.StreamLoop.Profile.{default_profile, normalized_line_hash}
use llm_guard_proxy.StreamLoop.State.{
  fragment_input, event_input, default_state, adjusted_threshold,
}
use llm_guard_proxy.StreamLoop.Suffix.Copies.{copies}
use llm_guard_proxy.StreamLoop.Suffix.Search.{Found, suffix_cycle-Found, suffix_cycle-none}
use llm_guard_proxy.StreamLoop.Lines.History.{is_found}
use llm_guard_proxy.StreamLoop.Reasoning.{judge_semantic_window}
use llm_guard_proxy.StreamLoop.Reasoning.Streak.{fires, judge_all, judge_semantic_window-streak}
use llm_guard_proxy.StreamLoop.Detector.{new_detector}
use llm_guard_proxy.StreamLoop.Detector.Bounds.{DetectorIsBounded}
use llm_guard_proxy.StreamLoop.Detector.Observations.{
  Observation, streamed, called, observe_all, observe_all-IsBounded,
}
use llm_guard_proxy.Examples.StreamRuns.{
  ascii, ascii_short, enforcing, path_first, line_first, two_orders,
}
use llm_guard_proxy.StreamLoop.Lines.Stream.{stream_len, see, see_all}
use llm_guard_proxy.StreamLoop.Lines.Verdict.{observe_lines-verdict}
use llm_guard_proxy.StreamLoop.Tokens

-- A text that ends in three copies of a unit of four characters, after one other character.
abbrev cycling : List ℕ
cycling = codes "xabcdabcdabcd"

abbrev its_cycle : SuffixCycle
its_cycle = record { unit_hash = stable_hash (as_bytes (codes "abcd")); repetitions = 3 }

cycling_found : suffix_cycle cycling 3 ≡ some its_cycle
unfolding suffix_cycle
cycling_found = refl

suffix_cycle-Found_example : Found cycling 3 its_cycle
suffix_cycle-Found_example =
    suffix_cycle-Found cycling 3 its_cycle (omega arith) (omega arith) cycling_found

cycling_not_four : suffix_cycle cycling 4 ≡ none
unfolding suffix_cycle
cycling_not_four = refl

suffix_cycle-none_example : cycling ≢ codes "x" ++ copies 4 (codes "abcd")
suffix_cycle-none_example =
    suffix_cycle-none cycling 4 (omega arith) (omega arith) cycling_not_four (codes "x")
      (codes "abcd") (omega arith) (omega arith)

-- A line comes for the third time, after another one.
abbrev again : List ℕ
again = codes "over and over"

abbrev seen_lines : List (List ℕ)
seen_lines = codes "a first line" ∷ again ∷ again ∷ []

seen_lines_size : stream_len seen_lines + (byte_len again + 1) ≤ u64_max
unfolding byte_len
seen_lines_size = omega arith

observe_lines-verdict_example :
    let before =
      see_all ascii enforcing default_profile StreamChannel.content seen_lines default_state in
    let o = see ascii enforcing default_profile StreamChannel.content again before in
    (is_found (o.1) ≡ true) × ((o.0).last_repeated_line_first_byte_offset ≡ some 13)
unfolding normalized_line_hash join_words stable_hash stable_hash_step as_bytes encode_utf8 byte_len
    len_utf8 adjusted_threshold contains to_ascii_lowercase
observe_lines-verdict_example =
    observe_lines-verdict ascii enforcing default_profile StreamChannel.content seen_lines again
      (refl, (refl, (refl, tt))) refl (omega arith) seen_lines_size

-- Two similar windows after one that is not.
abbrev some_window : SemanticWindow
some_window = record { token_features = []; ngram_features = []; sample_hash = 0 }

judge_semantic_window-streak_example :
    fires (
      (judge_semantic_window enforcing default_profile some_window 90 (
        judge_all enforcing default_profile
          ((some_window, 85) ∷ (some_window, 10) ∷ [])
          default_state)).1)
    ≡ true
judge_semantic_window-streak_example =
    judge_semantic_window-streak enforcing default_profile
      ((some_window, 85) ∷ (some_window, 10) ∷ []) some_window 90

paths_differ : codes "path" ≢ codes "line"
paths_differ e = let apart : true ≡ false = ap (same_bytes (codes "path")) e in cc apart

exchanged_entries : SameValue path_first line_first
exchanged_entries = objects (
    exchanged (codes "path") (codes "line") (string (codes "a")) (number (codes "1")) no_entries
      paths_differ)

canonical_json_hash-order_example :
    canonical_json_hash two_orders (codes "p") ≡ canonical_json_hash two_orders (codes "q")
canonical_json_hash-order_example =
    canonical_json_hash-order two_orders (codes "p") (codes "q") path_first line_first refl refl
      exchanged_entries

-- A stream of reasoning with a tool call in it.
abbrev short_stream : List Observation
short_stream =
    streamed (fragment_input StreamChannel.reasoning (codes "look at the file\n"))
    ∷ called (codes "read") (codes "p")
    ∷ streamed (event_input StreamChannel.reasoning DetectorEventKind.boundary)
    ∷ []

observe_all-IsBounded_example :
    DetectorIsBounded
      (observe_all ascii two_orders short_stream (new_detector enforcing default_profile))
observe_all-IsBounded_example =
    observe_all-IsBounded ascii two_orders enforcing default_profile short_stream ascii_short
