-- ===== src/StreamLoop/Detector/Bounds.antt =====
-- The bounds of the detector's state, and how recording signals and tool calls keep them.
use llm_guard_proxy.Prelude.{
  ℕ, ◌+◌, ◌≤◌, min, ◌≡◌, refl, Bool, true, false, Option, none, some, List, [], ◌∷◌, arith,
}
use llm_guard_proxy.Prelude.Tests.{ltb, if◌then◌else◌, ltb→lt}
use llm_guard_proxy.Prelude.Lists.{length, length-append}
use llm_guard_proxy.Prelude.Words.{u64_max}
use llm_guard_proxy.Prelude.Text.{codes, as_bytes}
use llm_guard_proxy.StreamLoop.Counts.{increment_count_with_cap-capped}
use llm_guard_proxy.StreamLoop.Config.{LoopGuardConfig}
use llm_guard_proxy.StreamLoop.Signal.{LoopSignal, invalid_tool_arguments_signal}
use llm_guard_proxy.StreamLoop.Json.{JsonText, canonical_json_hash}
use llm_guard_proxy.StreamLoop.Profile.{LoopInputProfile}
use llm_guard_proxy.StreamLoop.State.Bounds.{IsBounded, default_state-IsBounded}
use llm_guard_proxy.StreamLoop.Detector.{
  loop_argument_hash_count_cap, loop_fingerprint_count_cap, loop_summary_signal_limit,
  ChannelizedLoopDetector, new_detector, record_signal, record_signals, tool_fingerprint_hash,
  observe_valid_tool_call, inspect_tool_call, observe_tool_call,
}

-- The channels and the maps are bounded, at most eight signals are retained, and the number of
-- signals is that of the retained ones and those left out, up to the largest `u64`.
pub record DetectorIsBounded (d : ChannelizedLoopDetector) : Type 0 where
  pub content_bounded : IsBounded d.config d.content
  pub reasoning_bounded : IsBounded d.config d.reasoning
  pub tool_arguments_bounded : IsBounded d.config d.tool_arguments
  pub argument_hashes : length d.tool_argument_json_counts ≤ 1024
  pub fingerprints : length d.tool_fingerprint_counts ≤ 1024
  pub retained : length d.signals ≤ 8
  pub balanced : d.signal_count ≡ min (length d.signals + d.capped_signal_count) u64_max

pub new_detector-IsBounded :
    (config : LoopGuardConfig) (profile : LoopInputProfile)
    → DetectorIsBounded (new_detector config profile)
unfolding new_detector
new_detector-IsBounded config profile = record {
  content_bounded = default_state-IsBounded config;
  reasoning_bounded = default_state-IsBounded config;
  tool_arguments_bounded = default_state-IsBounded config;
  argument_hashes = omega arith;
  fingerprints = omega arith;
  retained = omega arith;
  balanced = refl;
}

either :
    (b : Bool) (x y : ChannelizedLoopDetector)
    → (b ≡ true → DetectorIsBounded x)
    → (b ≡ false → DetectorIsBounded y)
    → DetectorIsBounded (if b then x else y)
either true x y h k = h refl
either false x y h k = k refl

record_signal-IsBounded :
    (signal : LoopSignal) (d : ChannelizedLoopDetector)
    → DetectorIsBounded d
    → DetectorIsBounded (record_signal signal d)
unfolding record_signal
record_signal-IsBounded signal d b =
    either (ltb (length d.signals) loop_summary_signal_limit) _ _
      (λ room. record {
        content_bounded = b.content_bounded;
        reasoning_bounded = b.reasoning_bounded;
        tool_arguments_bounded = b.tool_arguments_bounded;
        argument_hashes = b.argument_hashes;
        fingerprints = b.fingerprints;
        retained = omega (arith, length-append d.signals (signal ∷ []), ltb→lt _ _ room);
        balanced = omega (arith, length-append d.signals (signal ∷ []), b.balanced);
      })
      (λ full. record {
        content_bounded = b.content_bounded;
        reasoning_bounded = b.reasoning_bounded;
        tool_arguments_bounded = b.tool_arguments_bounded;
        argument_hashes = b.argument_hashes;
        fingerprints = b.fingerprints;
        retained = b.retained;
        balanced = omega (arith, b.balanced);
      })

pub record_signals-IsBounded :
    (signals : List LoopSignal) (d : ChannelizedLoopDetector)
    → DetectorIsBounded d
    → DetectorIsBounded (record_signals signals d)
unfolding record_signals
record_signals-IsBounded [] d b = b
record_signals-IsBounded (signal ∷ rest) d b =
    record_signals-IsBounded rest (record_signal signal d) (record_signal-IsBounded signal d b)

observe_valid_tool_call-IsBounded :
    (tool_name : List ℕ) (argument_hash : ℕ) (d : ChannelizedLoopDetector)
    → DetectorIsBounded d
    → DetectorIsBounded ((observe_valid_tool_call tool_name argument_hash d).0)
unfolding observe_valid_tool_call
observe_valid_tool_call-IsBounded tool_name argument_hash d b = record {
  content_bounded = b.content_bounded;
  reasoning_bounded = b.reasoning_bounded;
  tool_arguments_bounded = b.tool_arguments_bounded;
  argument_hashes =
      increment_count_with_cap-capped d.tool_argument_json_counts argument_hash
        loop_argument_hash_count_cap d.tool_argument_json_count_capped b.argument_hashes;
  fingerprints =
      increment_count_with_cap-capped d.tool_fingerprint_counts
        (tool_fingerprint_hash tool_name argument_hash) loop_fingerprint_count_cap
        d.tool_fingerprint_count_capped b.fingerprints;
  retained = b.retained;
  balanced = b.balanced;
}

pub observe_tool_call-IsBounded :
    (json : JsonText) (tool_name arguments : List ℕ) (d : ChannelizedLoopDetector)
    → DetectorIsBounded d
    → DetectorIsBounded ((observe_tool_call json tool_name arguments d).0)
unfolding observe_tool_call inspect_tool_call
observe_tool_call-IsBounded json tool_name arguments d b =
    inspected (canonical_json_hash json arguments)
  where
    inspect : Option ℕ → ChannelizedLoopDetector × List LoopSignal
    inspect none =
        (d, invalid_tool_arguments_signal (as_bytes arguments) (codes "invalid_json") ∷ [])
    inspect (some argument_hash) = observe_valid_tool_call tool_name argument_hash d

    inspected : (o : Option ℕ) → DetectorIsBounded (record_signals ((inspect o).1) ((inspect o).0))
    inspected none = record_signals-IsBounded ((inspect none).1) d b
    inspected (some argument_hash) =
        record_signals-IsBounded ((inspect (some argument_hash)).1)
          ((observe_valid_tool_call tool_name argument_hash d).0)
          (observe_valid_tool_call-IsBounded tool_name argument_hash d b)
