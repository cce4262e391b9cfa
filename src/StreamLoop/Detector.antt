-- ===== src/StreamLoop/Detector.antt =====
-- ChannelizedLoopDetector of loop_detector.rs: three channels, the counts of tool calls, and the
-- signals that it retains.
pub mod Bounds
pub mod Observations
pub mod Abort
pub mod Calls
use llm_guard_proxy.Prelude.{ℕ, Bool, true, false, ◌&&◌, Option, none, some, List, [], ◌∷◌, ◌++◌}
use llm_guard_proxy.Prelude.Tests.{ltb, if◌then◌else◌}
use llm_guard_proxy.Prelude.Lists.{length, is_empty}
use llm_guard_proxy.Prelude.Words.{u64_max, saturating_add}
use llm_guard_proxy.Prelude.Text.{codes, as_bytes, Unicode}
use llm_guard_proxy.StreamLoop.Hash.{stable_hash, stable_hash_u64s}
use llm_guard_proxy.StreamLoop.Counts.{Counts, increment_count_with_cap}
use llm_guard_proxy.StreamLoop.Config.{LoopGuardConfig}
use llm_guard_proxy.StreamLoop.Signal.{
  StreamChannel, tool_fingerprint, DetectorEventKind, fragment, LoopSignal,
  tool_arguments_completed_signal, repeated_tool_arguments_signal, repeated_tool_fingerprint_signal,
  invalid_tool_arguments_signal,
}
use llm_guard_proxy.StreamLoop.Json.{JsonText, canonical_json_hash}
use llm_guard_proxy.StreamLoop.Profile.{LoopInputProfile}
use llm_guard_proxy.StreamLoop.State.{LoopDetectorInput, LoopChannelState, default_state}
use llm_guard_proxy.StreamLoop.Channel.{observe_channel}

abbrev pub loop_argument_hash_count_cap : ℕ
loop_argument_hash_count_cap = 1024

abbrev pub loop_fingerprint_count_cap : ℕ
loop_fingerprint_count_cap = 1024

abbrev pub loop_summary_signal_limit : ℕ
loop_summary_signal_limit = 8

pub record ChannelizedLoopDetector : Type 0 where
  pub config : LoopGuardConfig
  pub input_profile : LoopInputProfile
  pub content : LoopChannelState
  pub reasoning : LoopChannelState
  pub tool_arguments : LoopChannelState
  pub tool_argument_json_counts : Counts
  pub tool_argument_json_count_capped : ℕ
  pub tool_fingerprint_counts : Counts
  pub tool_fingerprint_count_capped : ℕ
  pub signals : List LoopSignal
  pub signal_count : ℕ
  pub capped_signal_count : ℕ

unfoldable pub new_detector : LoopGuardConfig → LoopInputProfile → ChannelizedLoopDetector
unfolding default_state
new_detector config input_profile = record {
  config = config;
  input_profile = input_profile;
  content = default_state;
  reasoning = default_state;
  tool_arguments = default_state;
  tool_argument_json_counts = [];
  tool_argument_json_count_capped = 0;
  tool_fingerprint_counts = [];
  tool_fingerprint_count_capped = 0;
  signals = [];
  signal_count = 0;
  capped_signal_count = 0;
}

-- An offset is a `u64`, and so is a `usize`.
unfoldable pub repeated_line_first_byte_offset : ChannelizedLoopDetector → StreamChannel → Option ℕ
repeated_line_first_byte_offset d StreamChannel.content =
    d.content.last_repeated_line_first_byte_offset
repeated_line_first_byte_offset d StreamChannel.reasoning =
    d.reasoning.last_repeated_line_first_byte_offset
repeated_line_first_byte_offset d StreamChannel.tool_arguments =
    d.tool_arguments.last_repeated_line_first_byte_offset
repeated_line_first_byte_offset d StreamChannel.tool_fingerprint = none

-- One round of `record_signals`.
unfoldable pub record_signal : LoopSignal → ChannelizedLoopDetector → ChannelizedLoopDetector
record_signal signal d =
    let counted : ChannelizedLoopDetector = record d {
      signal_count = saturating_add u64_max d.signal_count 1;
    } in
    if ltb (length d.signals) loop_summary_signal_limit
    then record counted { signals = d.signals ++ signal ∷ [] }
    else record counted { capped_signal_count = saturating_add u64_max d.capped_signal_count 1 }

unfoldable pub record_signals : List LoopSignal → ChannelizedLoopDetector → ChannelizedLoopDetector
unfolding record_signal
record_signals [] d = d
record_signals (signal ∷ rest) d = record_signals rest (record_signal signal d)

-- `if let Some(count) = count && count > 1 { signals.push(signal(count)) }`
unfoldable pub push_repeated : Option ℕ → (ℕ → LoopSignal) → List LoopSignal
push_repeated none signal = []
push_repeated (some n) signal = if ltb 1 n then signal n ∷ [] else []

unfoldable pub tool_fingerprint_hash : List ℕ → ℕ → ℕ
tool_fingerprint_hash tool_name argument_hash =
    stable_hash_u64s (stable_hash (as_bytes tool_name) ∷ argument_hash ∷ [])

unfoldable pub observe_valid_tool_call :
    List ℕ → ℕ → ChannelizedLoopDetector → ChannelizedLoopDetector × List LoopSignal
unfolding tool_arguments_completed_signal increment_count_with_cap push_repeated
    repeated_tool_arguments_signal tool_fingerprint_hash repeated_tool_fingerprint_signal
observe_valid_tool_call tool_name argument_hash d =
    let (argument_count, argument_counts, argument_capped) =
      increment_count_with_cap d.tool_argument_json_counts argument_hash
        loop_argument_hash_count_cap d.tool_argument_json_count_capped in
    let fingerprint_hash = tool_fingerprint_hash tool_name argument_hash in
    let (found, fingerprint_counts, fingerprint_capped) =
      increment_count_with_cap d.tool_fingerprint_counts fingerprint_hash loop_fingerprint_count_cap
        d.tool_fingerprint_count_capped in
    (
      record d {
        tool_argument_json_counts = argument_counts;
        tool_argument_json_count_capped = argument_capped;
        tool_fingerprint_counts = fingerprint_counts;
        tool_fingerprint_count_capped = fingerprint_capped;
      },
      tool_arguments_completed_signal argument_hash d.tool_argument_json_count_capped
          ∷ (push_repeated argument_count
                (λ n. repeated_tool_arguments_signal argument_hash n argument_capped)
              ++ push_repeated found (λ n.
                repeated_tool_fingerprint_signal (stable_hash (as_bytes tool_name)) argument_hash
                  fingerprint_hash n fingerprint_capped)),
    )

-- What a tool call is found to be, before its signals are recorded.
unfoldable pub inspect_tool_call :
    JsonText → List ℕ → List ℕ → ChannelizedLoopDetector → ChannelizedLoopDetector × List LoopSignal
unfolding canonical_json_hash observe_valid_tool_call invalid_tool_arguments_signal
inspect_tool_call json tool_name arguments d = elim (canonical_json_hash json arguments) [
  | some argument_hash ↦ observe_valid_tool_call tool_name argument_hash d
  | none ↦ (d, invalid_tool_arguments_signal (as_bytes arguments) (codes "invalid_json") ∷ [])
]

unfoldable pub observe_tool_call :
    JsonText → List ℕ → List ℕ → ChannelizedLoopDetector → ChannelizedLoopDetector × List LoopSignal
unfolding inspect_tool_call record_signals
observe_tool_call json tool_name arguments d =
    let (inspected, signals) = inspect_tool_call json tool_name arguments d in
    (record_signals signals inspected, signals)

abbrev pub is_fragment : DetectorEventKind → Bool
is_fragment fragment = true
is_fragment _ = false

-- The channel that an input goes to, with its new state written back.
unfoldable pub observe_on :
    Unicode
    → StreamChannel
    → LoopDetectorInput
    → ChannelizedLoopDetector
    → ChannelizedLoopDetector × List LoopSignal
unfolding observe_channel
observe_on unicode StreamChannel.content input d =
    let (st, signals) = observe_channel unicode d.config d.input_profile input d.content in
    (record d { content = st }, signals)
observe_on unicode StreamChannel.reasoning input d =
    let (st, signals) = observe_channel unicode d.config d.input_profile input d.reasoning in
    (record d { reasoning = st }, signals)
observe_on unicode StreamChannel.tool_arguments input d =
    let (st, signals) = observe_channel unicode d.config d.input_profile input d.tool_arguments in
    (record d { tool_arguments = st }, signals)
observe_on unicode StreamChannel.tool_fingerprint input d = (d, [])

unfoldable pub observe_input :
    Unicode
    → LoopDetectorInput
    → ChannelizedLoopDetector
    → ChannelizedLoopDetector × List LoopSignal
unfolding observe_on record_signals
observe_input unicode input d =
    let (observed, signals) = observe_on unicode input.channel input d in
    if is_empty input.fragment && is_fragment input.event_kind
    then (d, [])
    else (record_signals signals observed, signals)

pub record DetectorSummary : Type 0 where
  pub signals : List LoopSignal
  pub signal_count : ℕ
  pub capped_signal_count : ℕ

unfoldable pub finish : ChannelizedLoopDetector → DetectorSummary
finish d = record {
  signals = d.signals;
  signal_count = d.signal_count;
  capped_signal_count = d.capped_signal_count;
}
