-- ===== src/LoopGuard.antt =====
-- crates/llm-guard-proxy/src/proxy/shielded_chat/loop_guard.rs: the loop guard of a shielded chat,
-- which turns the detector's signals into the failure of a response. The metadata texts of a
-- failure are left out, but for the boundary that a salvage reads.
pub mod Verdict
pub mod Fragments
use llm_guard_proxy.StreamLoop.Detector
use llm_guard_proxy.StreamLoop.Profile
use llm_guard_proxy.Prelude.{ℕ, Bool, true, false, not, Option, none, some, List, [], ◌∷◌}
use llm_guard_proxy.Prelude.Tests.{if◌then◌else◌}
use llm_guard_proxy.Prelude.Text.{Unicode}
use llm_guard_proxy.StreamLoop.Config.{
  LoopGuardMode, enforce, LoopGuardConfig, effective_mode, is_disabled,
}
use llm_guard_proxy.StreamLoop.Signal.{
  StreamChannel, reasoning, LoopReasonCode, repeated_line, LoopSignal, is_abort_candidate,
}
use llm_guard_proxy.StreamLoop.Json.{JsonText}
use llm_guard_proxy.StreamLoop.Profile.{LoopInputProfile, default_profile}
use llm_guard_proxy.StreamLoop.State.{fragment_input}

pub data AggregationFailureKind : Type 0 where
  body_failure timeout_failure connect_failure request_failure : AggregationFailureKind
  decode_failure unknown_failure upstream_stall malformed_protocol : AggregationFailureKind
  loop_detected : AggregationFailureKind

-- What a `reqwest::Error` answers of itself.
pub record ReqwestError : Type 0 where
  pub is_timeout : Bool
  pub is_connect : Bool
  pub is_body : Bool
  pub is_decode : Bool
  pub is_request : Bool

unfoldable pub from_reqwest_error : ReqwestError → AggregationFailureKind
from_reqwest_error error =
    if error.is_timeout
    then timeout_failure
    else if error.is_connect
    then connect_failure
    else if error.is_body
    then body_failure
    else if error.is_decode
    then decode_failure
    else if error.is_request
    then request_failure
    else unknown_failure

unfoldable pub is_transient_stream_failure : AggregationFailureKind → Bool
is_transient_stream_failure body_failure = true
is_transient_stream_failure decode_failure = true
is_transient_stream_failure timeout_failure = true
is_transient_stream_failure connect_failure = true
is_transient_stream_failure unknown_failure = true
is_transient_stream_failure _ = false

-- `AggregationError::loop_detected`, and `with_repeated_line_boundary` where there is a boundary.
pub record AggregationError : Type 0 where
  pub kind : AggregationFailureKind
  pub signal : LoopSignal
  pub summary : Detector.DetectorSummary
  pub mode : LoopGuardMode
  pub repeated_line_boundary : Option ℕ

pub data Applied : Type 0 where
  ok : Applied
  err : AggregationError → Applied

pub record LoopInspectionContext : Type 0 where
  pub config : LoopGuardConfig
  pub input_profile : LoopInputProfile

unfoldable pub from_request_body :
    Unicode → JsonText → LoopGuardConfig → List ℕ → LoopInspectionContext
unfolding effective_mode Profile.from_request_body
from_request_body unicode json config request_body = record {
  config = config;
  input_profile =
      if is_disabled (effective_mode config)
      then default_profile
      else Profile.from_request_body unicode json request_body config.output_token_window_size;
}

pub record LoopDetector : Type 0 where
  pub mode : LoopGuardMode
  pub detector : Detector.ChannelizedLoopDetector

unfoldable pub detector_of : LoopInspectionContext → Option LoopDetector
unfolding effective_mode Detector.new_detector
detector_of context =
    if is_disabled (effective_mode context.config)
    then none
    else some (record {
      mode = effective_mode context.config;
      detector = Detector.new_detector context.config context.input_profile;
    })

-- `signals.iter().find(is_abort_candidate)`
unfoldable pub find_abort : List LoopSignal → Option LoopSignal
unfolding is_abort_candidate
find_abort [] = none
find_abort (signal ∷ rest) = if is_abort_candidate signal then some signal else find_abort rest

abbrev is_reasoning_line : StreamChannel → LoopReasonCode → Bool
is_reasoning_line StreamChannel.reasoning repeated_line = true
is_reasoning_line _ _ = false

unfoldable pub loop_error : LoopDetector → LoopSignal → AggregationError
unfolding Detector.finish Detector.repeated_line_first_byte_offset
loop_error d signal = record {
  kind = loop_detected;
  signal = signal;
  summary = Detector.finish d.detector;
  mode = d.mode;
  repeated_line_boundary =
      if is_reasoning_line signal.channel signal.reason_code
      then Detector.repeated_line_first_byte_offset d.detector signal.channel
      else none;
}

abbrev pub enforces : LoopGuardMode → Bool
enforces enforce = true
enforces _ = false

unfoldable pub apply_signals : LoopDetector → List LoopSignal → Applied
unfolding find_abort loop_error
apply_signals d signals =
    if not (enforces d.mode)
    then ok
    else elim (find_abort signals) [ none ↦ ok | some signal ↦ err (loop_error d signal) ]

unfoldable pub observe_fragment :
    Unicode → StreamChannel → List ℕ → LoopDetector → LoopDetector × Applied
unfolding Detector.observe_input apply_signals fragment_input
observe_fragment unicode channel text d =
    let (observed, signals) =
      Detector.observe_input unicode (fragment_input channel text) d.detector in
    let observed' : LoopDetector = record d { detector = observed } in
    (observed', apply_signals observed' signals)

unfoldable pub observe_completed_tool_call :
    JsonText → List ℕ → List ℕ → LoopDetector → LoopDetector × Applied
unfolding Detector.observe_tool_call apply_signals
observe_completed_tool_call json tool_name arguments d =
    let (observed, signals) = Detector.observe_tool_call json tool_name arguments d.detector in
    let observed' : LoopDetector = record d { detector = observed } in
    (observed', apply_signals observed' signals)

-- The functions of the module: without a detector there is nothing to observe.
unfoldable pub observe_fragment_if :
    Unicode → StreamChannel → List ℕ → Option LoopDetector → Option LoopDetector × Applied
unfolding observe_fragment
observe_fragment_if unicode channel text none = (none, ok)
observe_fragment_if unicode channel text (some d) =
    let (observed, applied) = observe_fragment unicode channel text d in (some observed, applied)

unfoldable pub observe_completed_tool_call_if :
    JsonText → List ℕ → List ℕ → Option LoopDetector → Option LoopDetector × Applied
unfolding observe_completed_tool_call
observe_completed_tool_call_if json tool_name arguments none = (none, ok)
observe_completed_tool_call_if json tool_name arguments (some d) =
    let (observed, applied) = observe_completed_tool_call json tool_name arguments d in
    (some observed, applied)
