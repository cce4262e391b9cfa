-- ===== src/Examples/WatchdogRuns.antt =====
-- Two server-sent events in chunks, for a judge that sees progress in every event.
use llm_guard_proxy.Prelude.{
  ℕ, ◌≡◌, refl, Bool, true, false, none, some, List, [], ◌∷◌, ◌++◌, arith,
}
use llm_guard_proxy.Guardian.MemInfo.{strip_prefix, trim_ascii}
use llm_guard_proxy.Watchdog.Json.{Json}
use llm_guard_proxy.Watchdog.Content.{
  embedding, non_empty_json_value, embedding_result_has_content, result_event_has_progress,
  sse_event_has_progress, sse_data_has_progress,
}
use llm_guard_proxy.Watchdog.Sse.{
  SseEventParser, new, retained_len, finish_field, finish_line, take_byte, consume_byte,
  consume_from, consume,
}
use llm_guard_proxy.Watchdog.Sse.Chunks.{followed, consume-append}
use llm_guard_proxy.Watchdog.Sse.Bounds.{IsBounded, consume-IsBounded}
use llm_guard_proxy.Watchdog.Fast.{
  fast_sse_progress_outcome, complete_sse_progress_without_buffering,
}
use llm_guard_proxy.Watchdog.Fast.Agreement.{complete_sse_progress_without_buffering-agrees}
use llm_guard_proxy.Watchdog.Parser.{
  WatchdogProgressState, WatchdogProgressParser, record_sse_progress, judge, emitted_progress,
}
use llm_guard_proxy.Watchdog.Parser.Observation.{emitted_progress-consume}

abbrev always : List ℕ → Bool
always text = true

-- `data: a`, `data:b`, a blank line ended by CR LF, and the start of another line.
abbrev first_chunk : List ℕ
first_chunk =
    b'd' ∷ b'a' ∷ b't' ∷ b'a' ∷ b':' ∷ 32 ∷ b'a' ∷ 10 ∷ b'd' ∷ b'a' ∷ b't' ∷ b'a' ∷ b':' ∷ b'b' ∷ 13
    ∷ 10 ∷ 13 ∷ []

abbrev second_chunk : List ℕ
second_chunk = 10 ∷ b'd' ∷ b'a' ∷ []

abbrev residual : SseEventParser
residual = record {
  line = b'd' ∷ b'a' ∷ [];
  event_data = [];
  has_data = false;
  skip_lf_after_cr = false;
}

whole_run : consume always (first_chunk ++ second_chunk) new ≡ some (residual, 1)
unfolding consume consume_from consume_byte take_byte finish_line finish_field retained_len
    strip_prefix
whole_run = refl

consume-append_example :
    consume always (first_chunk ++ second_chunk) new
    ≡ followed (consume always first_chunk new) (consume always second_chunk)
consume-append_example = consume-append always first_chunk second_chunk new

consume-IsBounded_example : IsBounded residual
consume-IsBounded_example =
    consume-IsBounded always (first_chunk ++ second_chunk) new residual 1 (omega arith) whole_run

complete_sse_progress_without_buffering-agrees_example :
    complete_sse_progress_without_buffering always (first_chunk ++ second_chunk)
    ≡ fast_sse_progress_outcome 1 residual
complete_sse_progress_without_buffering-agrees_example =
    complete_sse_progress_without_buffering-agrees always (first_chunk ++ second_chunk) residual 1
      whole_run

-- A JSON library whose values are all one array that holds itself.
abbrev arrays : Json
arrays = record {
  Value = ℕ;
  Object = ℕ;
  from_slice = λ text. some 0;
  get = λ name v. some v;
  field = λ name v. some v;
  as_array = λ v. some (v ∷ []);
  as_str = λ v. none;
  as_object = λ v. none;
  is_number = λ v. true;
}

abbrev framed : WatchdogProgressParser
framed = record {
  pending = [];
  sse = new;
  sse_framing = true;
  state = WatchdogProgressState.incomplete;
}

embedding_run :
    consume (judge arrays embedding) (first_chunk ++ second_chunk) new ≡ some (residual, 1)
unfolding consume consume_from consume_byte take_byte finish_line finish_field retained_len
    strip_prefix sse_data_has_progress sse_event_has_progress result_event_has_progress
    embedding_result_has_content non_empty_json_value trim_ascii
embedding_run = refl

emitted_progress-consume_example :
    emitted_progress arrays embedding framed (first_chunk ++ second_chunk)
    ≡ record_sse_progress framed (some (residual, 1))
emitted_progress-consume_example =
    emitted_progress-consume arrays embedding framed (first_chunk ++ second_chunk) residual 1 refl
      refl embedding_run

abbrev oversize : WatchdogProgressParser
oversize = record framed { state = WatchdogProgressState.unobservable_oversize }
