-- ===== src/LoopGuard/Fragments.antt =====
-- When the loop guard fails a response on a fragment of its stream.
use llm_guard_proxy.StreamLoop.Detector
use llm_guard_proxy.Prelude.{
  ℕ, ◌≡◌, refl, sym, ap, ◌∙◌, inl, inr, Bool, true, false, not, ◌&&◌, ◌||◌, Option, none, some,
  List, [], arith,
}
use llm_guard_proxy.Prelude.Tests.{Bool-cases}
use llm_guard_proxy.Prelude.Lists.{is_empty}
use llm_guard_proxy.Prelude.Text.{Unicode}
use llm_guard_proxy.StreamLoop.Signal.{
  StreamChannel, DetectorEventKind, LoopReasonCode, low_progress_growth, approximate_repetition,
  is_abort, is_abort_candidate, severity_for_detection,
}
use llm_guard_proxy.StreamLoop.Detection.{FeatureDetection, into_signal}
use llm_guard_proxy.StreamLoop.State.{LoopDetectorInput, fragment_input}
use llm_guard_proxy.StreamLoop.Channel.{detect, signals_of, observe_channel}
use llm_guard_proxy.StreamLoop.Detector.Abort.{aborts}
use llm_guard_proxy.LoopGuard.{LoopDetector, enforces, observe_fragment}
use llm_guard_proxy.LoopGuard.Verdict.{is_err, apply_signals-aborts}

content_suspect :
    (reason : LoopReasonCode)
    → is_abort ((severity_for_detection reason StreamChannel.content).0) ≡ false
unfolding severity_for_detection
content_suspect low_progress_growth = refl
content_suspect _ = refl

reasoning_aborts :
    (reason : LoopReasonCode)
    → is_abort ((severity_for_detection reason StreamChannel.reasoning).0) ≡ true
unfolding severity_for_detection
reasoning_aborts approximate_repetition = refl
reasoning_aborts _ = refl

signal_severity :
    (detection : FeatureDetection) (channel : StreamChannel) (event_kind : DetectorEventKind)
    → is_abort_candidate (into_signal detection channel event_kind)
      ≡ is_abort ((severity_for_detection detection.reason_code channel).0)
unfolding is_abort_candidate into_signal
signal_severity detection channel event_kind = refl

content_signals :
    (found : Option FeatureDetection) (input : LoopDetectorInput)
    → input.channel ≡ StreamChannel.content
    → aborts (signals_of input found) ≡ false
content_signals none input h = refl
content_signals (some detection) input h =
    ap (λ b. b || false)
      (signal_severity detection input.channel input.event_kind
        ∙ ap (λ c. is_abort ((severity_for_detection detection.reason_code c).0)) h
        ∙ content_suspect detection.reason_code)

reasoning_signals :
    (found : Option FeatureDetection) (input : LoopDetectorInput)
    → input.channel ≡ StreamChannel.reasoning
    → aborts (signals_of input found) ≡ not (is_empty (signals_of input found))
reasoning_signals none input h = refl
reasoning_signals (some detection) input h =
    ap (λ b. b || false)
      (signal_severity detection input.channel input.event_kind
        ∙ ap (λ c. is_abort ((severity_for_detection detection.reason_code c).0)) h
        ∙ reasoning_aborts detection.reason_code)

module _ (unicode : Unicode) (input : LoopDetectorInput)
    (d : Detector.ChannelizedLoopDetector) where
  silent :
      is_empty input.fragment && Detector.is_fragment input.event_kind ≡ true
      → (Detector.observe_input unicode input d).1 ≡ []
  unfolding Detector.observe_input
  silent h = ground (arith, h)

  heard :
      is_empty input.fragment && Detector.is_fragment input.event_kind ≡ false
      → (Detector.observe_input unicode input d).1
        ≡ (Detector.observe_on unicode input.channel input d).1
  unfolding Detector.observe_input
  heard h = ground (arith, h)

  on_content :
      (Detector.observe_on unicode StreamChannel.content input d).1
      ≡ signals_of input ((detect unicode d.config d.input_profile input d.content).1)
  unfolding Detector.observe_on observe_channel
  on_content = refl

  on_reasoning :
      (Detector.observe_on unicode StreamChannel.reasoning input d).1
      ≡ signals_of input ((detect unicode d.config d.input_profile input d.reasoning).1)
  unfolding Detector.observe_on observe_channel
  on_reasoning = refl

  content_aborts :
      input.channel ≡ StreamChannel.content
      → aborts ((Detector.observe_input unicode input d).1) ≡ false
  content_aborts h =
      elim (Bool-cases (is_empty input.fragment && Detector.is_fragment input.event_kind)) [
        | inl e ↦ ap aborts (silent e)
        | inr e ↦
            ap aborts (heard e ∙ ap (λ c. (Detector.observe_on unicode c input d).1) h ∙ on_content)
            ∙ content_signals _ input h
      ]

  reasoning_aborts_all :
      input.channel ≡ StreamChannel.reasoning
      → aborts ((Detector.observe_input unicode input d).1)
        ≡ not (is_empty ((Detector.observe_input unicode input d).1))
  reasoning_aborts_all h =
      elim (Bool-cases (is_empty input.fragment && Detector.is_fragment input.event_kind)) [
        | inl e ↦ ap aborts (silent e) ∙ ap (λ xs. not (is_empty xs)) (sym (silent e))
        | inr e ↦
            let same =
              heard e ∙ ap (λ c. (Detector.observe_on unicode c input d).1) h ∙ on_reasoning in
            ap aborts same ∙ reasoning_signals _ input h ∙ ap (λ xs. not (is_empty xs)) (sym same)
      ]

guarded :
    (unicode : Unicode) (channel : StreamChannel) (text : List ℕ) (d : LoopDetector)
    → is_err ((observe_fragment unicode channel text d).1)
      ≡ enforces d.mode
        && aborts ((Detector.observe_input unicode (fragment_input channel text) d.detector).1)
unfolding observe_fragment
guarded unicode channel text d =
    let (observed, signals) =
      Detector.observe_input unicode (fragment_input channel text) d.detector in
    apply_signals-aborts (record d { detector = observed }) signals

input_channel :
    (channel : StreamChannel) (text : List ℕ) → (fragment_input channel text).channel ≡ channel
unfolding fragment_input
input_channel channel text = refl

-- A fragment of visible content never fails the response; a fragment of reasoning fails it exactly
-- where the guard enforces and the detector emits a signal, whatever the signal's reason.
pub fragment-refused :
    (unicode : Unicode) (text : List ℕ) (d : LoopDetector)
    → (is_err ((observe_fragment unicode StreamChannel.content text d).1) ≡ false)
      × (is_err ((observe_fragment unicode StreamChannel.reasoning text d).1)
          ≡ enforces d.mode
            && not (
                is_empty (
                  (Detector.observe_input unicode
                    (fragment_input StreamChannel.reasoning text)
                    d.detector).1)))
fragment-refused unicode text d =
    let quiet =
      guarded unicode StreamChannel.content text d
      ∙ ap (λ b. enforces d.mode && b)
          (content_aborts unicode (fragment_input StreamChannel.content text) d.detector
            (input_channel StreamChannel.content text)) in
    (
      quiet ∙ never (enforces d.mode),
      guarded unicode StreamChannel.reasoning text d
          ∙ ap (λ b. enforces d.mode && b)
              (reasoning_aborts_all unicode (fragment_input StreamChannel.reasoning text) d.detector
                (input_channel StreamChannel.reasoning text)),
    )
  where
    never : (b : Bool) → b && false ≡ false
    never true = refl
    never false = refl
