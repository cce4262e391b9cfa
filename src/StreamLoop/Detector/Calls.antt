-- ===== src/StreamLoop/Detector/Calls.antt =====
-- The detector's counts of tool calls against the history of the calls.
use mathlib.Core.Path.{subst}
use mathlib.Core.List.{append-nil}
use llm_guard_proxy.Prelude.{
  ℕ, suc, ◌<◌, min, ◌≡◌, refl, sym, ap, ◌∙◌, inl, inr, Bool, false, none, some, List, [], ◌∷◌, ◌++◌,
  arith,
}
use llm_guard_proxy.Prelude.Tests.{ltb, Option-cases}
use llm_guard_proxy.Prelude.Lists.{length, count}
use llm_guard_proxy.Prelude.Words.{u32_max}
use llm_guard_proxy.Prelude.Text.{codes, as_bytes, Unicode}
use llm_guard_proxy.StreamLoop.Counts.{contains}
use llm_guard_proxy.StreamLoop.Counts.Tally.{Tracks, count_tracked}
use llm_guard_proxy.StreamLoop.Signal.{StreamChannel, LoopSignal, invalid_tool_arguments_signal}
use llm_guard_proxy.StreamLoop.Json.{JsonText, canonical_json_hash}
use llm_guard_proxy.StreamLoop.State.{LoopDetectorInput}
use llm_guard_proxy.StreamLoop.Detector.{
  loop_fingerprint_count_cap, ChannelizedLoopDetector, record_signal, record_signals,
  tool_fingerprint_hash, observe_valid_tool_call, inspect_tool_call, observe_tool_call, observe_on,
  observe_input,
}
use llm_guard_proxy.StreamLoop.Detector.Abort.{aborts, invalid_quiet, valid_signals, valid_counts}

record_signal-counts :
    (signal : LoopSignal) (d : ChannelizedLoopDetector)
    → (record_signal signal d).tool_fingerprint_counts ≡ d.tool_fingerprint_counts
unfolding record_signal
record_signal-counts signal d = ground arith

-- What `record_signals` leaves alone.
record_signals-counts :
    (signals : List LoopSignal) (d : ChannelizedLoopDetector)
    → (record_signals signals d).tool_fingerprint_counts ≡ d.tool_fingerprint_counts
unfolding record_signals
record_signals-counts [] d = refl
record_signals-counts (signal ∷ rest) d =
    record_signals-counts rest (record_signal signal d) ∙ record_signal-counts signal d

observe_on-counts :
    (unicode : Unicode) (channel : StreamChannel) (input : LoopDetectorInput)
    (d : ChannelizedLoopDetector)
    → ((observe_on unicode channel input d).0).tool_fingerprint_counts ≡ d.tool_fingerprint_counts
unfolding observe_on
observe_on-counts unicode StreamChannel.content input d = refl
observe_on-counts unicode StreamChannel.reasoning input d = refl
observe_on-counts unicode StreamChannel.tool_arguments input d = refl
observe_on-counts unicode StreamChannel.tool_fingerprint input d = refl

-- The stream does not touch the counts of tool calls.
pub observe_input-counts :
    (unicode : Unicode) (input : LoopDetectorInput) (d : ChannelizedLoopDetector)
    → ((observe_input unicode input d).0).tool_fingerprint_counts ≡ d.tool_fingerprint_counts
unfolding observe_input
observe_input-counts unicode input d =
    let on = observe_on unicode input.channel input d in
    let recorded =
      record_signals-counts (on.1) (on.0) ∙ observe_on-counts unicode input.channel input d in
    ground (arith, recorded)

-- What a completed call adds to the fingerprints.
abbrev pub fingerprint_of : JsonText → List ℕ → List ℕ → List ℕ
fingerprint_of json tool_name arguments = elim (canonical_json_hash json arguments) [
  | none ↦ []
  | some argument_hash ↦ tool_fingerprint_hash tool_name argument_hash ∷ []
]

-- Does a completed call have a fingerprint of the history?
abbrev pub repeats_call : JsonText → List ℕ → List ℕ → List ℕ → Bool
repeats_call json history tool_name arguments = elim (canonical_json_hash json arguments) [
  | none ↦ false
  | some argument_hash ↦ contains (tool_fingerprint_hash tool_name argument_hash) history
]

-- A completed call: the signals, and the counts that it leaves.
pub record Called (json : JsonText) (tool_name arguments : List ℕ) (history : List ℕ)
    (d : ChannelizedLoopDetector) : Type 0 where
  pub verdict :
      aborts ((observe_tool_call json tool_name arguments d).1)
      ≡ repeats_call json history tool_name arguments
  pub tracks :
      Tracks
        (((observe_tool_call json tool_name arguments d).0).tool_fingerprint_counts)
        (history ++ fingerprint_of json tool_name arguments)

contains-count : (hash : ℕ) (xs : List ℕ) → contains hash xs ≡ ltb 0 (count hash xs)
unfolding contains
contains-count hash [] = refl
contains-count hash (x ∷ xs) = ground (arith, contains-count hash xs)

valid_Called :
    (tool_name : List ℕ) (argument_hash : ℕ) (history : List ℕ) (d : ChannelizedLoopDetector)
    → Tracks d.tool_fingerprint_counts history
    → length history < 1024
    → (aborts ((observe_valid_tool_call tool_name argument_hash d).1)
        ≡ contains (tool_fingerprint_hash tool_name argument_hash) history)
      × Tracks
          (((observe_valid_tool_call tool_name argument_hash d).0).tool_fingerprint_counts)
          (history ++ tool_fingerprint_hash tool_name argument_hash ∷ [])
valid_Called tool_name argument_hash history d t room =
    let hash = tool_fingerprint_hash tool_name argument_hash in
    let c =
      count_tracked d.tool_fingerprint_counts history hash loop_fingerprint_count_cap
        d.tool_fingerprint_count_capped t room in
    let seen_before : ltb 1 (min (suc (count hash history)) u32_max) ≡ ltb 0 (count hash history) =
      ground arith in
    (
      valid_signals tool_name argument_hash _ d c.found
          ∙ seen_before
          ∙ sym (contains-count hash history),
      subst (λ cs. Tracks cs (history ++ hash ∷ [])) (sym (valid_counts tool_name argument_hash d))
          c.tracks,
    )

inspect_valid :
    (json : JsonText) (tool_name arguments : List ℕ) (argument_hash : ℕ)
    (d : ChannelizedLoopDetector)
    → canonical_json_hash json arguments ≡ some argument_hash
    → inspect_tool_call json tool_name arguments d
      ≡ observe_valid_tool_call tool_name argument_hash d
unfolding inspect_tool_call
inspect_valid json tool_name arguments argument_hash d h = ground (arith, h)

inspect_invalid :
    (json : JsonText) (tool_name arguments : List ℕ) (d : ChannelizedLoopDetector)
    → canonical_json_hash json arguments ≡ none
    → inspect_tool_call json tool_name arguments d
      ≡ (d, invalid_tool_arguments_signal (as_bytes arguments) (codes "invalid_json") ∷ [])
unfolding inspect_tool_call
inspect_invalid json tool_name arguments d h = ground (arith, h)

-- Recording keeps the signals and the counts.
observe_tool_call-inspects :
    (json : JsonText) (tool_name arguments : List ℕ) (d : ChannelizedLoopDetector)
    → ((observe_tool_call json tool_name arguments d).1
        ≡ (inspect_tool_call json tool_name arguments d).1)
      × (((observe_tool_call json tool_name arguments d).0).tool_fingerprint_counts
          ≡ ((inspect_tool_call json tool_name arguments d).0).tool_fingerprint_counts)
unfolding observe_tool_call
observe_tool_call-inspects json tool_name arguments d =
    let inspected = inspect_tool_call json tool_name arguments d in
    (refl, record_signals-counts (inspected.1) (inspected.0))

no_hash :
    (json : JsonText) (tool_name arguments history : List ℕ)
    → canonical_json_hash json arguments ≡ none
    → (repeats_call json history tool_name arguments ≡ false)
      × (fingerprint_of json tool_name arguments ≡ [])
no_hash json tool_name arguments history h = (ground (arith, h), ground (arith, h))

a_hash :
    (json : JsonText) (tool_name arguments history : List ℕ) (argument_hash : ℕ)
    → canonical_json_hash json arguments ≡ some argument_hash
    → (repeats_call json history tool_name arguments
        ≡ contains (tool_fingerprint_hash tool_name argument_hash) history)
      × (fingerprint_of json tool_name arguments
          ≡ tool_fingerprint_hash tool_name argument_hash ∷ [])
a_hash json tool_name arguments history argument_hash h = (ground (arith, h), ground (arith, h))

pub observe_tool_call-Called :
    (json : JsonText) (tool_name arguments history : List ℕ) (d : ChannelizedLoopDetector)
    → Tracks d.tool_fingerprint_counts history
    → length history < 1024
    → Called json tool_name arguments history d
observe_tool_call-Called json tool_name arguments history d t room =
    let (signals, counts) = observe_tool_call-inspects json tool_name arguments d in
    elim (Option-cases (canonical_json_hash json arguments)) [
      | inl e ↦
          let step = inspect_invalid json tool_name arguments d e in
          let code = codes "invalid_json" in
          let none_aborts : aborts (invalid_tool_arguments_signal (as_bytes arguments) code ∷ [])
              ≡ false =
            ground (arith, invalid_quiet (as_bytes arguments) code) in
          record {
            verdict =
                ap aborts signals
                ∙ ap (λ o. aborts (o.1)) step
                ∙ none_aborts
                ∙ sym (no_hash json tool_name arguments history e).0;
            tracks =
                subst (λ cs. Tracks cs (history ++ fingerprint_of json tool_name arguments))
                  (sym (counts ∙ ap (λ o. (o.0).tool_fingerprint_counts) step))
                  (subst (λ hs. Tracks d.tool_fingerprint_counts (history ++ hs))
                    (sym (no_hash json tool_name arguments history e).1)
                    (subst (Tracks d.tool_fingerprint_counts) (sym (append-nil history)) t));
          }
      | inr (argument_hash, e) ↦
          let step = inspect_valid json tool_name arguments argument_hash d e in
          let called = valid_Called tool_name argument_hash history d t room in
          let hashed = a_hash json tool_name arguments history argument_hash e in
          record {
            verdict = ap aborts signals ∙ ap (λ o. aborts (o.1)) step ∙ called.0 ∙ sym hashed.0;
            tracks =
                subst (λ cs. Tracks cs (history ++ fingerprint_of json tool_name arguments))
                  (sym (counts ∙ ap (λ o. (o.0).tool_fingerprint_counts) step))
                  (subst
                    (λ hs.
                      Tracks
                        (((observe_valid_tool_call tool_name argument_hash d).0
                          ).tool_fingerprint_counts)
                        (history ++ hs))
                    (sym hashed.1) called.1);
          }
    ]
