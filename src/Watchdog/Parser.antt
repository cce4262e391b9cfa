-- ===== src/Watchdog/Parser.antt =====
-- `WatchdogProgressParser` of watchdog_progress.rs: `emitted_progress` on a chunk of a response, and
-- `non_sse_progress_at_eof` at its end.
pub mod Observation
use llm_guard_proxy.Prelude.{
  ℕ, ◌-◌, Bool, true, false, not, ◌&&◌, ◌||◌, Option, none, some, List, [], ◌++◌,
}
use llm_guard_proxy.Prelude.Tests.{ltb, ◌==◌, if◌then◌else◌}
use llm_guard_proxy.Prelude.Lists.{length, is_empty, is_some_and}
use llm_guard_proxy.Watchdog.Json.{Json}
use llm_guard_proxy.Watchdog.Content.{
  WatchdogProgressUnit, embedding, reranker, result_event_has_progress, sse_data_has_progress,
  complete_chat_or_completion_response,
}
use llm_guard_proxy.Watchdog.Sse.{
  max_pending_sse_residual_bytes, SseEventParser, bit, is_drained, consume,
}
use llm_guard_proxy.Watchdog.Fast.{
  FastSseProgress, drained, progress_with_residual, complete_sse_progress_without_buffering,
}
use llm_guard_proxy.Watchdog.Framing.{has_sse_framing}

abbrev pub max_pending_result_document_bytes : ℕ
max_pending_result_document_bytes = 8388608

pub data WatchdogProgressState : Type 0 where
  progress : ℕ → WatchdogProgressState
  incomplete unobservable_oversize : WatchdogProgressState

pub record WatchdogProgressParser : Type 0 where
  pub pending : List ℕ
  pub sse : SseEventParser
  pub sse_framing : Bool
  pub state : WatchdogProgressState

abbrev pub new : WatchdogProgressParser
new = record {
  pending = [];
  sse = record { line = []; event_data = []; has_data = false; skip_lf_after_cr = false };
  sse_framing = false;
  state = incomplete;
}

abbrev pub is_oversize : WatchdogProgressState → Bool
is_oversize unobservable_oversize = true
is_oversize _ = false

-- `Embedding | Reranker`
abbrev pub is_document : WatchdogProgressUnit → Bool
is_document embedding = true
is_document reranker = true
is_document _ = false

unfoldable pub progress_state : ℕ → WatchdogProgressState
progress_state n = if n == 0 then incomplete else progress n

abbrev pub cleared : SseEventParser
cleared = record { line = []; event_data = []; has_data = false; skip_lf_after_cr = false }

-- The result of each operation is the state that it leaves.
unfoldable pub mark_unobservable_oversize : WatchdogProgressParser → WatchdogProgressParser
mark_unobservable_oversize parser = record parser {
  pending = [];
  sse = cleared;
  state = unobservable_oversize;
}

unfoldable pub record_sse_progress :
    WatchdogProgressParser → Option (SseEventParser × ℕ) → WatchdogProgressParser
record_sse_progress parser none = mark_unobservable_oversize parser
record_sse_progress parser (some (sse, n)) = record parser { sse = sse; state = progress_state n }

unfoldable pub record_fast_sse_progress :
    WatchdogProgressParser → FastSseProgress → WatchdogProgressParser
record_fast_sse_progress parser (FastSseProgress.drained n) = record parser {
  sse = cleared;
  state = progress_state n;
}
record_fast_sse_progress parser (FastSseProgress.progress_with_residual n residual) =
    record parser { sse = residual; state = progress_state n }
record_fast_sse_progress parser (FastSseProgress.incomplete residual) = record parser {
  sse = residual;
  state = incomplete;
}
record_fast_sse_progress parser FastSseProgress.unobservable_oversize =
    mark_unobservable_oversize parser

unfoldable pub residual_cap : WatchdogProgressUnit → List ℕ → List ℕ → ℕ
residual_cap progress_unit pending chunk =
    if is_document progress_unit && not (has_sse_framing pending) && not (has_sse_framing chunk)
    then max_pending_result_document_bytes
    else max_pending_sse_residual_bytes

module _ (json : Json) (progress_unit : WatchdogProgressUnit) where
  abbrev pub judge : List ℕ → Bool
  judge text = sse_data_has_progress json progress_unit text

  unfoldable pub complete_progress_without_buffering : List ℕ → Option ℕ
  complete_progress_without_buffering chunk =
      if is_document progress_unit
      then elim (json.from_slice chunk) [
        | none ↦ none
        | some event ↦ some (bit (result_event_has_progress json progress_unit event))
      ]
      else none

  -- A chunk that does not fit in the buffer.
  unfoldable pub oversized_chunk : WatchdogProgressParser → List ℕ → WatchdogProgressParser
  oversized_chunk parser chunk =
      if not (is_empty parser.pending)
      then mark_unobservable_oversize parser
      else (if has_sse_framing chunk
          then record_fast_sse_progress (record parser { sse_framing = true })
              (complete_sse_progress_without_buffering judge chunk)
          else elim (complete_progress_without_buffering chunk) [
            | none ↦ mark_unobservable_oversize parser
            | some n ↦ record parser { state = progress_state n }
          ])

  -- What is buffered, as a document.
  unfoldable pub buffered_document : WatchdogProgressParser → WatchdogProgressParser
  buffered_document parser =
      if is_document progress_unit
      then elim (json.from_slice parser.pending) [
        | none ↦ record parser { state = incomplete }
        | some event ↦ record parser {
          pending = [];
          state = progress_state (bit (result_event_has_progress json progress_unit event));
        }
      ]
      else record parser { state = progress_state 0 }

  unfoldable pub buffered_chunk : WatchdogProgressParser → List ℕ → WatchdogProgressParser
  buffered_chunk parser chunk =
      let pending = parser.pending ++ chunk in
      if has_sse_framing pending
      then record_sse_progress (record parser { pending = []; sse_framing = true })
          (consume judge pending parser.sse)
      else buffered_document (record parser { pending = pending })

  unfoldable pub framed_chunk : WatchdogProgressParser → List ℕ → WatchdogProgressParser
  framed_chunk parser chunk =
      if is_drained parser.sse && ltb max_pending_sse_residual_bytes (length chunk)
      then record_fast_sse_progress parser (complete_sse_progress_without_buffering judge chunk)
      else record_sse_progress parser (consume judge chunk parser.sse)

  unfoldable pub emitted_progress : WatchdogProgressParser → List ℕ → WatchdogProgressParser
  emitted_progress parser chunk =
      if is_oversize parser.state
      then parser
      else (if parser.sse_framing
          then framed_chunk parser chunk
          else (if ltb (residual_cap progress_unit parser.pending chunk - length parser.pending)
                (length chunk)
              then oversized_chunk parser chunk
              else buffered_chunk parser chunk))

  abbrev pub completes : Option json.Value → Bool
  completes response = is_some_and (complete_chat_or_completion_response json) response

  unfoldable pub non_sse_progress_at_eof : WatchdogProgressParser → WatchdogProgressParser
  non_sse_progress_at_eof parser =
      if is_oversize parser.state || is_document progress_unit || parser.sse_framing
      then parser
      else record parser {
        pending = [];
        state = progress_state (bit (completes (json.from_slice parser.pending)));
      }
