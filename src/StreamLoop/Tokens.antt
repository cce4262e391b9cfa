-- ===== src/StreamLoop/Tokens.antt =====
-- The detector of repeated token windows in loop_detector.rs: observe_tokens and finish_token; and
-- the detector of low progress, which reads the counters that they keep.
pub mod Bounds
use llm_guard_proxy.Prelude.{ℕ, ◌/◌, Bool, true, false, ◌||◌, none, some, List, [], ◌∷◌, ◌++◌}
use llm_guard_proxy.Prelude.Tests.{ltb, leb, ◌==◌, if◌then◌else◌}
use llm_guard_proxy.Prelude.Lists.{length, is_empty, take_last}
use llm_guard_proxy.Prelude.Words.{u64_max, saturating_add, saturating_mul}
use llm_guard_proxy.Prelude.Text.{as_bytes, Unicode}
use llm_guard_proxy.StreamLoop.Hash.{stable_hash, stable_hash_u64s}
use llm_guard_proxy.StreamLoop.Counts.{
  increment_count_with_cap, contains, track_unique_hash_with_cap,
}
use llm_guard_proxy.StreamLoop.Config.{LoopGuardConfig}
use llm_guard_proxy.StreamLoop.Signal.{fragment, repeated_token_window, low_progress_growth}
use llm_guard_proxy.StreamLoop.Detection.{FeatureDetection, new_detection}
use llm_guard_proxy.StreamLoop.Profile.{LoopInputProfile, is_token_boundary, push_token_char}
use llm_guard_proxy.StreamLoop.State.{
  loop_output_token_window_count_cap, loop_output_unique_token_window_cap, LoopDetectorInput,
  LoopChannelState, Outcome, or_else, closes, adjusted_threshold, feature_evidence, note_overlap,
}

-- `finish_token` from the test of the count on.
unfoldable pub judge_window :
    LoopGuardConfig → LoopInputProfile → ℕ → Bool → ℕ → LoopChannelState → Outcome
unfolding adjusted_threshold feature_evidence new_detection
judge_window config profile hash input_overlap n st =
    let threshold =
      adjusted_threshold config.output_repeated_token_window_threshold input_overlap config in
    let detection : FeatureDetection =
      record (new_detection repeated_token_window
        (feature_evidence profile st n threshold hash input_overlap)) {
          token_window_size = some config.output_token_window_size;
          unique_window_count = some (length st.unique_token_windows);
          total_window_count = some st.token_window_total;
        } in
    if leb threshold n then (st, some detection) else (st, none)

-- `finish_token` from the hash of a full window on.
unfoldable pub count_token_window :
    LoopGuardConfig → LoopInputProfile → ℕ → LoopChannelState → Outcome
unfolding track_unique_hash_with_cap contains note_overlap increment_count_with_cap judge_window
count_token_window config profile hash st =
    let (unique, unique_capped) =
      track_unique_hash_with_cap st.unique_token_windows hash loop_output_unique_token_window_cap
        st.unique_token_window_capped in
    let input_overlap = contains hash profile.repeated_token_window_hashes in
    let (found, counts, capped) =
      increment_count_with_cap st.token_window_counts hash loop_output_token_window_count_cap
        st.token_window_count_capped in
    let counted : LoopChannelState = record (note_overlap input_overlap st) {
      token_window_total = saturating_add u64_max st.token_window_total 1;
      unique_token_windows = unique;
      unique_token_window_capped = unique_capped;
      token_window_counts = counts;
      token_window_count_capped = capped;
    } in
    elim found [
      | none ↦ (counted, none)
      | some n ↦ judge_window config profile hash input_overlap n counted
    ]

-- The last `output_token_window_size` hashes stay: the `while` loop pops the front.
unfoldable pub finish_token : LoopGuardConfig → LoopInputProfile → LoopChannelState → Outcome
unfolding count_token_window
finish_token config profile st =
    let window =
      take_last config.output_token_window_size
        (st.recent_token_hashes ++ stable_hash (as_bytes st.current_token) ∷ []) in
    let pushed : LoopChannelState = record st {
      current_token = [];
      recent_token_hashes = window;
    } in
    if is_empty st.current_token
    then (st, none)
    else if length window == config.output_token_window_size
    then count_token_window config profile (stable_hash_u64s window) pushed
    else (pushed, none)

unfoldable pub observe_token_chars :
    Unicode → LoopGuardConfig → LoopInputProfile → List ℕ → LoopChannelState → Outcome
unfolding finish_token is_token_boundary push_token_char or_else
observe_token_chars unicode config profile [] st = (st, none)
observe_token_chars unicode config profile (c ∷ rest) st = elim (is_token_boundary unicode c) [
  | true ↦
      or_else (finish_token config profile st) (observe_token_chars unicode config profile rest)
  | false ↦
      observe_token_chars unicode config profile rest
        (record st { current_token = push_token_char unicode c st.current_token })
]

unfoldable pub observe_tokens :
    Unicode → LoopGuardConfig → LoopInputProfile → LoopDetectorInput → LoopChannelState → Outcome
unfolding observe_token_chars finish_token or_else
observe_tokens unicode config profile input st =
    or_else (observe_token_chars unicode config profile input.fragment st)
      (λ last. if closes input.event_kind then finish_token config profile last else (last, none))

unfoldable pub low_progress_min_bytes : LoopGuardConfig → LoopChannelState → ℕ
low_progress_min_bytes config st =
    if st.input_overlap_seen
    then saturating_mul u64_max config.output_low_progress_min_bytes
        config.input_overlap_threshold_multiplier
    else config.output_low_progress_min_bytes

-- The division runs where `token_window_total` is not 0.
unfoldable pub unique_ratio : LoopChannelState → ℕ
unique_ratio st =
    saturating_mul u64_max (length st.unique_token_windows) 100 / st.token_window_total

unfoldable pub low_progress_detection :
    LoopGuardConfig → LoopInputProfile → LoopChannelState → FeatureDetection
unfolding low_progress_min_bytes unique_ratio feature_evidence new_detection
low_progress_detection config profile st =
    record (new_detection low_progress_growth (
      feature_evidence profile st st.token_window_total (low_progress_min_bytes config st)
        (stable_hash_u64s st.unique_token_windows) st.input_overlap_seen)) {
          token_window_size = some config.output_token_window_size;
          unique_ratio_percent = some (unique_ratio st);
          unique_window_count = some (length st.unique_token_windows);
          total_window_count = some st.token_window_total;
        }

unfoldable pub observe_low_progress :
    LoopGuardConfig → LoopInputProfile → LoopChannelState → Outcome
unfolding low_progress_min_bytes unique_ratio low_progress_detection
observe_low_progress config profile st =
    if ltb st.bytes_seen (low_progress_min_bytes config st) || st.token_window_total == 0
    then (st, none)
    else if ltb 0 st.unique_token_window_capped
    then (st, none)
    else if ltb config.output_low_progress_unique_ratio_percent (unique_ratio st)
    then (st, none)
    else (st, some (low_progress_detection config profile st))
