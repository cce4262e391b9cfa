-- ===== src/StreamLoop/Channel.antt =====
-- `LoopChannelState::observe` of loop_detector.rs: the detectors of one channel in their order, of
-- which the first that finds something ends the observation. The detector of suffix cycles stands
-- here with the recent characters that it reads.
pub mod Bounds
pub mod Pieces
pub mod Fragments
use llm_guard_proxy.StreamLoop.Suffix
use llm_guard_proxy.Prelude.{ℕ, Option, none, some, List, [], ◌∷◌, ◌++◌}
use llm_guard_proxy.Prelude.Tests.{leb, if◌then◌else◌}
use llm_guard_proxy.Prelude.Lists.{take_last}
use llm_guard_proxy.Prelude.Words.{u64_max, saturating_add}
use llm_guard_proxy.Prelude.Text.{byte_len, Unicode}
use llm_guard_proxy.StreamLoop.Counts.{contains}
use llm_guard_proxy.StreamLoop.Config.{LoopGuardConfig}
use llm_guard_proxy.StreamLoop.Signal.{fragment, LoopReasonCode, suffix_cycle, LoopSignal}
use llm_guard_proxy.StreamLoop.Detection.{FeatureDetection, new_detection, into_signal}
use llm_guard_proxy.StreamLoop.Profile.{LoopInputProfile}
use llm_guard_proxy.StreamLoop.State.{
  loop_max_recent_chars, LoopDetectorInput, LoopChannelState, Outcome, or_else, adjusted_threshold,
  feature_evidence, note_overlap,
}
use llm_guard_proxy.StreamLoop.Lines.{observe_lines}
use llm_guard_proxy.StreamLoop.Tokens.{observe_tokens, observe_low_progress}
use llm_guard_proxy.StreamLoop.Reasoning.{observe_semantic}

unfoldable pub push_recent_chars : Unicode → List ℕ → List ℕ → List ℕ
push_recent_chars unicode [] recent = recent
push_recent_chars unicode (c ∷ rest) recent =
    push_recent_chars unicode rest
      (take_last loop_max_recent_chars (recent ++ unicode.to_lowercase c))

unfoldable pub observe_recent_chars : Unicode → List ℕ → LoopChannelState → LoopChannelState
unfolding push_recent_chars
observe_recent_chars unicode text st = record st {
  recent_chars = push_recent_chars unicode text st.recent_chars;
}

-- `observe_suffix_cycle` where a cycle is found.
unfoldable pub judge_cycle :
    LoopGuardConfig → LoopInputProfile → Suffix.SuffixCycle → LoopChannelState → Outcome
unfolding contains adjusted_threshold note_overlap feature_evidence new_detection
judge_cycle config profile cycle st =
    let input_overlap = contains cycle.unit_hash profile.repeated_line_hashes in
    let threshold = adjusted_threshold config.output_suffix_cycle_threshold input_overlap config in
    let noted = note_overlap input_overlap st in
    if leb threshold cycle.repetitions
    then (
      noted,
      some (
          new_detection LoopReasonCode.suffix_cycle (
            feature_evidence profile noted cycle.repetitions threshold cycle.unit_hash
              input_overlap)),
    )
    else (noted, none)

unfoldable pub observe_suffix_cycle :
    LoopGuardConfig → LoopInputProfile → LoopChannelState → Outcome
unfolding Suffix.suffix_cycle judge_cycle
observe_suffix_cycle config profile st =
    elim (Suffix.suffix_cycle st.recent_chars config.output_suffix_cycle_threshold) [
      | none ↦ (st, none)
      | some cycle ↦ judge_cycle config profile cycle st
    ]

-- The counters that `observe` advances first.
unfoldable pub count_fragment : LoopDetectorInput → LoopChannelState → LoopChannelState
count_fragment input st = record st {
  fragment_count = saturating_add u64_max st.fragment_count 1;
  bytes_seen = saturating_add u64_max st.bytes_seen (byte_len input.fragment);
}

-- The detectors, each on the state that the one before left.
unfoldable pub detect :
    Unicode → LoopGuardConfig → LoopInputProfile → LoopDetectorInput → LoopChannelState → Outcome
unfolding count_fragment observe_lines observe_tokens observe_recent_chars observe_suffix_cycle
    observe_semantic observe_low_progress or_else
detect unicode config profile input st =
    or_else (observe_lines unicode config profile input st.bytes_seen (count_fragment input st))
      (λ lined. or_else (observe_tokens unicode config profile input lined) (λ tokened.
        or_else
          (observe_suffix_cycle config profile
            (observe_recent_chars unicode input.fragment tokened))
          (λ cycled.
            or_else (observe_semantic config profile input cycled)
              (observe_low_progress config profile))))

abbrev pub signals_of : LoopDetectorInput → Option FeatureDetection → List LoopSignal
signals_of input none = []
signals_of input (some detection) = into_signal detection input.channel input.event_kind ∷ []

-- The state of the channel and the signals.
unfoldable pub observe_channel :
    Unicode
    → LoopGuardConfig
    → LoopInputProfile
    → LoopDetectorInput
    → LoopChannelState
    → LoopChannelState × List LoopSignal
unfolding detect into_signal
observe_channel unicode config profile input st =
    let (observed, found) = detect unicode config profile input st in
    (observed, signals_of input found)
