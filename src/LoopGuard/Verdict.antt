-- ===== src/LoopGuard/Verdict.antt =====
-- When the loop guard fails a response: on a tool call that repeats an earlier one, and never on
-- visible content.
use llm_guard_proxy.StreamLoop.Detector
use mathlib.Core.Path.{subst}
use mathlib.Core.List.{append-nil, append_assoc}
use llm_guard_proxy.Prelude.{
  ℕ, ◌<◌, ◌≡◌, refl, sym, ap, ◌∙◌, ◌≢◌, inl, inr, Bool, true, false, ◌&&◌, none, some, List, [],
  ◌∷◌, ◌++◌, arith,
}
use llm_guard_proxy.Prelude.Tests.{Bool-cases, Option-cases}
use llm_guard_proxy.Prelude.Lists.{length, length-append}
use llm_guard_proxy.Prelude.Text.{Unicode}
use llm_guard_proxy.StreamLoop.Counts.Tally.{Tracks, Tracks-nil}
use llm_guard_proxy.StreamLoop.Signal.{StreamChannel, LoopSignal}
use llm_guard_proxy.StreamLoop.Json.{JsonText}
use llm_guard_proxy.StreamLoop.State.{fragment_input}
use llm_guard_proxy.StreamLoop.Detector.Abort.{aborts}
use llm_guard_proxy.StreamLoop.Detector.Calls.{
  observe_input-counts, fingerprint_of, repeats_call, observe_tool_call-Called,
}
use llm_guard_proxy.LoopGuard.{
  Applied, ok, err, LoopInspectionContext, LoopDetector, detector_of, find_abort, enforces,
  apply_signals, observe_fragment, observe_completed_tool_call,
}

abbrev pub is_err : Applied → Bool
is_err ok = false
is_err (err error) = true

-- What a response brings: a fragment of a channel, or a completed tool call.
pub data Event : Type 0 where
  streamed : StreamChannel → List ℕ → Event
  called : List ℕ → List ℕ → Event

find_abort-aborts : (signals : List LoopSignal) → aborts signals ≡ true → find_abort signals ≢ none
unfolding find_abort
find_abort-aborts [] h e = cc h
find_abort-aborts (signal ∷ rest) h e = ground (arith, h, e, find_abort-aborts rest)

find_abort-none : (signals : List LoopSignal) → aborts signals ≡ false → find_abort signals ≡ none
unfolding find_abort
find_abort-none [] h = refl
find_abort-none (signal ∷ rest) h = ground (arith, h, find_abort-none rest)

-- The guard fails on the signals exactly in the enforcing mode, with a candidate among them.
pub apply_signals-aborts :
    (d : LoopDetector) (signals : List LoopSignal)
    → is_err (apply_signals d signals) ≡ enforces d.mode && aborts signals
unfolding apply_signals
apply_signals-aborts d signals = elim (Bool-cases (aborts signals)) [
  | inl h ↦ elim (Option-cases (find_abort signals)) [
    | inl e ↦ absurd (find_abort-aborts signals h e)
    | inr (signal, e) ↦ ground (arith, h, e)
  ]
  | inr h ↦ ground (arith, h, find_abort-none signals h)
]

module _ (unicode : Unicode) (json : JsonText) where
  abbrev pub observe_event : Event → LoopDetector → LoopDetector
  observe_event (streamed channel text) d = (observe_fragment unicode channel text d).0
  observe_event (called tool_name arguments) d =
      (observe_completed_tool_call json tool_name arguments d).0

  abbrev pub observe_events : List Event → LoopDetector → LoopDetector
  observe_events [] d = d
  observe_events (event ∷ rest) d = observe_events rest (observe_event event d)

  -- The fingerprints of the completed calls whose arguments are JSON.
  abbrev pub fingerprints : List Event → List ℕ
  fingerprints [] = []
  fingerprints (streamed channel text ∷ rest) = fingerprints rest
  fingerprints (called tool_name arguments ∷ rest) =
      fingerprint_of json tool_name arguments ++ fingerprints rest

  abbrev CountsTrack : LoopDetector → List ℕ → Type 0
  CountsTrack d history = Tracks d.detector.tool_fingerprint_counts history

  fragment_keeps :
      (channel : StreamChannel) (text : List ℕ) (d : LoopDetector)
      → (((observe_fragment unicode channel text d).0).mode ≡ d.mode)
        × (((observe_fragment unicode channel text d).0).detector.tool_fingerprint_counts
            ≡ d.detector.tool_fingerprint_counts)
  unfolding observe_fragment
  fragment_keeps channel text d =
      (refl, observe_input-counts unicode (fragment_input channel text) d.detector)

  call_keeps :
      (tool_name arguments history : List ℕ) (d : LoopDetector)
      → CountsTrack d history
      → length history < 1024
      → (((observe_completed_tool_call json tool_name arguments d).0).mode ≡ d.mode)
        × CountsTrack
            ((observe_completed_tool_call json tool_name arguments d).0)
            (history ++ fingerprint_of json tool_name arguments)
  unfolding observe_completed_tool_call
  call_keeps tool_name arguments history d t room =
      (refl, (observe_tool_call-Called json tool_name arguments history d.detector t room).tracks)

  call_verdict :
      (tool_name arguments history : List ℕ) (d : LoopDetector)
      → CountsTrack d history
      → length history < 1024
      → is_err ((observe_completed_tool_call json tool_name arguments d).1)
        ≡ enforces d.mode && repeats_call json history tool_name arguments
  unfolding observe_completed_tool_call
  call_verdict tool_name arguments history d t room =
      let (observed, signals) = Detector.observe_tool_call json tool_name arguments d.detector in
      apply_signals-aborts (record d { detector = observed }) signals
      ∙ ap (λ b. enforces d.mode && b)
          ((observe_tool_call-Called json tool_name arguments history d.detector t room).verdict)

  events_keep :
      (events : List Event) (history : List ℕ) (d : LoopDetector)
      → CountsTrack d history
      → length (history ++ fingerprints events) < 1024
      → ((observe_events events d).mode ≡ d.mode)
        × CountsTrack (observe_events events d) (history ++ fingerprints events)
  events_keep [] history d t room = (refl, subst (CountsTrack d) (sym (append-nil history)) t)
  events_keep (streamed channel text ∷ rest) history d t room =
      let (mode, counts) = fragment_keeps channel text d in
      let next = (observe_fragment unicode channel text d).0 in
      let (kept, tracks) =
        events_keep rest history next (subst (λ cs. Tracks cs history) (sym counts) t) room in
      (kept ∙ mode, tracks)
  events_keep (called tool_name arguments ∷ rest) history d t room =
      let fingerprint = fingerprint_of json tool_name arguments in
      let regroup : (history ++ fingerprint) ++ fingerprints rest
          ≡ history ++ (fingerprint ++ fingerprints rest) =
        append_assoc history fingerprint (fingerprints rest) in
      let size : length (history ++ fingerprint ++ fingerprints rest) < 1024 =
        subst (λ hs. length hs < 1024) (sym regroup) room in
      let (mode, tracks) =
        call_keeps tool_name arguments history d t
          (omega (arith, room, length-append history (fingerprint ++ fingerprints rest))) in
      let next = (observe_completed_tool_call json tool_name arguments d).0 in
      let (kept, tracks') = events_keep rest (history ++ fingerprint) next tracks size in
      (kept ∙ mode, subst (CountsTrack (observe_events rest next)) regroup tracks')

  fresh_counts :
      (context : LoopInspectionContext) (d : LoopDetector)
      → detector_of context ≡ some d
      → d.detector.tool_fingerprint_counts ≡ []
  unfolding detector_of Detector.new_detector
  fresh_counts context d h = ground (arith, h)

  fresh :
      (context : LoopInspectionContext) (d : LoopDetector)
      → detector_of context ≡ some d
      → CountsTrack d []
  fresh context d h = subst (λ cs. Tracks cs []) (sym (fresh_counts context d h)) Tracks-nil

-- A guard that has seen the events of a response from its start, with fewer than 1024 completed
-- calls whose arguments are JSON, fails on the next completed call exactly where it enforces, the
-- arguments are JSON, and the fingerprint is that of an earlier call; fragments in between make no
-- difference.
pub tool_call-refused :
    (unicode : Unicode) (json : JsonText) (context : LoopInspectionContext) (d : LoopDetector)
    (events : List Event) (tool_name arguments : List ℕ)
    → detector_of context ≡ some d
    → length (fingerprints unicode json events) < 1024
    → is_err (
        (observe_completed_tool_call json tool_name arguments
          (observe_events unicode json events d)).1)
      ≡ enforces d.mode && repeats_call json (fingerprints unicode json events) tool_name arguments
tool_call-refused unicode json context d events tool_name arguments h room =
    let (mode, tracks) =
      events_keep unicode json events [] d (fresh unicode json context d h) room in
    call_verdict unicode json tool_name arguments (fingerprints unicode json events)
      (observe_events unicode json events d) tracks room
    ∙ ap
        (λ m.
          enforces m && repeats_call json (fingerprints unicode json events) tool_name arguments)
        mode
