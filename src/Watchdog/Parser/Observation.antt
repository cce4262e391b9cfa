-- ===== src/Watchdog/Parser/Observation.antt =====
-- `emitted_progress` over the chunks of a framed stream.
use llm_guard_proxy.Prelude.{
  ℕ, ◌≡◌, refl, sym, ap, ◌∙◌, inl, inr, true, false, ◌&&◌, some, List, [], ◌∷◌, arith,
}
use llm_guard_proxy.Prelude.Tests.{ltb, Bool-cases, both_of_and}
use llm_guard_proxy.Prelude.Lists.{length, is_empty}
use llm_guard_proxy.Watchdog.Json.{Json}
use llm_guard_proxy.Watchdog.Content.{WatchdogProgressUnit}
use llm_guard_proxy.Watchdog.Sse.{
  max_pending_sse_residual_bytes, SseEventParser, is_drained, consume,
}
use llm_guard_proxy.Watchdog.Fast.{
  FastSseProgress, fast_sse_progress_outcome, complete_sse_progress_without_buffering,
}
use llm_guard_proxy.Watchdog.Fast.Agreement.{complete_sse_progress_without_buffering-agrees}
use llm_guard_proxy.Watchdog.Parser.{
  WatchdogProgressState, WatchdogProgressParser, is_oversize, progress_state, cleared,
  record_sse_progress, record_fast_sse_progress, judge, framed_chunk, emitted_progress,
  non_sse_progress_at_eof,
}

empty_nil : (xs : List ℕ) → is_empty xs ≡ true → xs ≡ []
empty_nil [] h = refl
empty_nil (x ∷ xs) h = cc

-- An empty event parser is the one that `clear` leaves.
is_drained-cleared : (p : SseEventParser) → is_drained p ≡ true → p ≡ cleared
unfolding is_drained
is_drained-cleared p h = ground (arith, h, empty_nil p.line, empty_nil p.event_data)

drained_case :
    (n : ℕ) (q : SseEventParser)
    → is_drained q ≡ true
    → fast_sse_progress_outcome n q ≡ FastSseProgress.drained n
unfolding fast_sse_progress_outcome
drained_case n q h = ground (arith, h)

residual_case :
    (n : ℕ) (q : SseEventParser)
    → is_drained q ≡ false
    → ltb 0 n ≡ true
    → fast_sse_progress_outcome n q ≡ FastSseProgress.progress_with_residual n q
unfolding fast_sse_progress_outcome
residual_case n q h k = ground (arith, h, k)

incomplete_case :
    (n : ℕ) (q : SseEventParser)
    → is_drained q ≡ false
    → ltb 0 n ≡ false
    → fast_sse_progress_outcome n q ≡ FastSseProgress.incomplete q
unfolding fast_sse_progress_outcome
incomplete_case n q h k = ground (arith, h, k)

progress_state-none :
    (n : ℕ) → ltb 0 n ≡ false → WatchdogProgressState.incomplete ≡ progress_state n
unfolding progress_state
progress_state-none n h = ground (arith, h)

-- An outcome is recorded as the residual and the progress it stands for.
record_outcome :
    (parser : WatchdogProgressParser) (q : SseEventParser) (n : ℕ)
    → record_fast_sse_progress parser (fast_sse_progress_outcome n q)
      ≡ record_sse_progress parser (some (q, n))
unfolding record_fast_sse_progress record_sse_progress
record_outcome parser q n = elim (Bool-cases (is_drained q)) [
  | inl e ↦
      rw (drained_case n q e) (
        ap (λ x. record parser { sse = x; state = progress_state n })
          (sym (is_drained-cleared q e)))
  | inr e ↦ elim (Bool-cases (ltb 0 n)) [
    | inl k ↦ rw (residual_case n q e k) refl
    | inr k ↦
        rw (incomplete_case n q e k)
          (ap (λ x. record parser { sse = q; state = x }) (progress_state-none n k))
  ]
]

module _ (json : Json) (progress_unit : WatchdogProgressUnit) (parser : WatchdogProgressParser)
    (chunk : List ℕ) where
  framed_case :
      is_oversize parser.state ≡ false
      → parser.sse_framing ≡ true
      → emitted_progress json progress_unit parser chunk
        ≡ framed_chunk json progress_unit parser chunk
  unfolding emitted_progress
  framed_case live framed = ground (arith, live, framed)

  fast_case :
      (is_drained parser.sse && ltb max_pending_sse_residual_bytes (length chunk)) ≡ true
      → framed_chunk json progress_unit parser chunk
        ≡ record_fast_sse_progress parser
            (complete_sse_progress_without_buffering (judge json progress_unit) chunk)
  unfolding framed_chunk
  fast_case h = ground (arith, h)

  slow_case :
      (is_drained parser.sse && ltb max_pending_sse_residual_bytes (length chunk)) ≡ false
      → framed_chunk json progress_unit parser chunk
        ≡ record_sse_progress parser (consume (judge json progress_unit) chunk parser.sse)
  unfolding framed_chunk
  slow_case h = ground (arith, h)

  -- While the stream is framed and not oversize, a chunk that the event parser accepts is recorded as
  -- the event parser reads it, whether it goes through the event parser or, oversized, past it.
  pub emitted_progress-consume :
      (q : SseEventParser) (n : ℕ)
      → is_oversize parser.state ≡ false
      → parser.sse_framing ≡ true
      → consume (judge json progress_unit) chunk parser.sse ≡ some (q, n)
      → emitted_progress json progress_unit parser chunk ≡ record_sse_progress parser (some (q, n))
  emitted_progress-consume q n live framed h =
      framed_case live framed
      ∙ elim (Bool-cases
          (is_drained parser.sse && ltb max_pending_sse_residual_bytes (length chunk))) [
            | inr slow ↦ slow_case slow ∙ ap (record_sse_progress parser) h
            | inl fast ↦
                let clear =
                  is_drained-cleared parser.sse (both_of_and (is_drained parser.sse) _ fast).0 in
                fast_case fast
                ∙ ap (record_fast_sse_progress parser) (
                    complete_sse_progress_without_buffering-agrees (judge json progress_unit) chunk
                      q n (sym (ap (consume (judge json progress_unit) chunk) clear) ∙ h))
                ∙ record_outcome parser q n
          ]

  -- Once oversize, always oversize: no later chunk, and not the end of the response, changes the
  -- parser.
  pub emitted_progress-oversize :
      is_oversize parser.state ≡ true
      → (emitted_progress json progress_unit parser chunk ≡ parser)
        × (non_sse_progress_at_eof json progress_unit parser ≡ parser)
  unfolding emitted_progress non_sse_progress_at_eof
  emitted_progress-oversize h = (ground (arith, h), ground (arith, h))
