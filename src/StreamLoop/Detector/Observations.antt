-- ===== src/StreamLoop/Detector/Observations.antt =====
-- The detector's state stays bounded over every list of observations.
use llm_guard_proxy.Prelude.{ℕ, Bool, true, false, ◌&&◌, List, [], ◌∷◌}
use llm_guard_proxy.Prelude.Tests.{if◌then◌else◌}
use llm_guard_proxy.Prelude.Lists.{is_empty}
use llm_guard_proxy.Prelude.Text.{Unicode, LowercaseIsShort}
use llm_guard_proxy.StreamLoop.Config.{LoopGuardConfig}
use llm_guard_proxy.StreamLoop.Signal.{StreamChannel, LoopSignal}
use llm_guard_proxy.StreamLoop.Json.{JsonText}
use llm_guard_proxy.StreamLoop.Profile.{LoopInputProfile}
use llm_guard_proxy.StreamLoop.State.{LoopDetectorInput}
use llm_guard_proxy.StreamLoop.Channel.Bounds.{observe_channel-IsBounded}
use llm_guard_proxy.StreamLoop.Detector.{
  ChannelizedLoopDetector, new_detector, record_signals, observe_tool_call, is_fragment, observe_on,
  observe_input,
}
use llm_guard_proxy.StreamLoop.Detector.Bounds.{
  DetectorIsBounded, new_detector-IsBounded, record_signals-IsBounded, observe_tool_call-IsBounded,
}

module _ (unicode : Unicode) (short : LowercaseIsShort unicode) where
  observe_on-IsBounded :
      (channel : StreamChannel) (input : LoopDetectorInput) (d : ChannelizedLoopDetector)
      → DetectorIsBounded d
      → DetectorIsBounded ((observe_on unicode channel input d).0)
  unfolding observe_on
  observe_on-IsBounded StreamChannel.content input d b = record {
    content_bounded =
        observe_channel-IsBounded unicode d.config d.input_profile short input d.content
          b.content_bounded;
    reasoning_bounded = b.reasoning_bounded;
    tool_arguments_bounded = b.tool_arguments_bounded;
    argument_hashes = b.argument_hashes;
    fingerprints = b.fingerprints;
    retained = b.retained;
    balanced = b.balanced;
  }
  observe_on-IsBounded StreamChannel.reasoning input d b = record {
    content_bounded = b.content_bounded;
    reasoning_bounded =
        observe_channel-IsBounded unicode d.config d.input_profile short input d.reasoning
          b.reasoning_bounded;
    tool_arguments_bounded = b.tool_arguments_bounded;
    argument_hashes = b.argument_hashes;
    fingerprints = b.fingerprints;
    retained = b.retained;
    balanced = b.balanced;
  }
  observe_on-IsBounded StreamChannel.tool_arguments input d b = record {
    content_bounded = b.content_bounded;
    reasoning_bounded = b.reasoning_bounded;
    tool_arguments_bounded =
        observe_channel-IsBounded unicode d.config d.input_profile short input d.tool_arguments
          b.tool_arguments_bounded;
    argument_hashes = b.argument_hashes;
    fingerprints = b.fingerprints;
    retained = b.retained;
    balanced = b.balanced;
  }
  observe_on-IsBounded StreamChannel.tool_fingerprint input d b = b

  observe_input-IsBounded :
      (input : LoopDetectorInput) (d : ChannelizedLoopDetector)
      → DetectorIsBounded d
      → DetectorIsBounded ((observe_input unicode input d).0)
  unfolding observe_input
  observe_input-IsBounded input d b =
      fst_either (is_empty input.fragment && is_fragment input.event_kind)
    where
      on : ChannelizedLoopDetector × List LoopSignal
      on = observe_on unicode input.channel input d

      fst_either :
          (c : Bool)
          → DetectorIsBounded (
              (if◌then◌else◌ {A = ChannelizedLoopDetector × List LoopSignal} c
                (d, [])
                (record_signals (on.1) (on.0), on.1)).0)
      fst_either true = b
      fst_either false =
          record_signals-IsBounded (on.1) (on.0) (observe_on-IsBounded input.channel input d b)

-- What the detector is asked to observe: an input of a channel, or a completed tool call.
pub data Observation : Type 0 where
  streamed : LoopDetectorInput → Observation
  called : List ℕ → List ℕ → Observation

abbrev pub observe_all :
    Unicode → JsonText → List Observation → ChannelizedLoopDetector → ChannelizedLoopDetector
observe_all unicode json [] d = d
observe_all unicode json (streamed input ∷ rest) d =
    observe_all unicode json rest ((observe_input unicode input d).0)
observe_all unicode json (called tool_name arguments ∷ rest) d =
    observe_all unicode json rest ((observe_tool_call json tool_name arguments d).0)

observe_all-keeps :
    (unicode : Unicode) (json : JsonText) (observations : List Observation)
    (d : ChannelizedLoopDetector)
    → LowercaseIsShort unicode
    → DetectorIsBounded d
    → DetectorIsBounded (observe_all unicode json observations d)
observe_all-keeps unicode json [] d short b = b
observe_all-keeps unicode json (streamed input ∷ rest) d short b =
    observe_all-keeps unicode json rest ((observe_input unicode input d).0) short
      (observe_input-IsBounded unicode short input d b)
observe_all-keeps unicode json (called tool_name arguments ∷ rest) d short b =
    observe_all-keeps unicode json rest ((observe_tool_call json tool_name arguments d).0) short
      (observe_tool_call-IsBounded json tool_name arguments d b)

-- A new detector is bounded after any list of observations, where a character's lowercase form has
-- three characters at most: on each channel at most 4096 counted lines, a pending line of 8195
-- bytes, 8192 counted and 8192 unique token windows, as many recent tokens as a window has, a token
-- of 139 bytes, 4096 recent characters, 256 remembered windows of reasoning and a word of 64
-- characters; at most 1024 hashes of arguments and 1024 fingerprints; and at most eight signals
-- retained, which with those left out make up the number of signals, up to the largest u64.
pub observe_all-IsBounded :
    (unicode : Unicode) (json : JsonText) (config : LoopGuardConfig) (profile : LoopInputProfile)
    (observations : List Observation)
    → LowercaseIsShort unicode
    → DetectorIsBounded (observe_all unicode json observations (new_detector config profile))
observe_all-IsBounded unicode json config profile observations short =
    observe_all-keeps unicode json observations (new_detector config profile) short
      (new_detector-IsBounded config profile)
