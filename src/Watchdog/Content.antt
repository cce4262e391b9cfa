-- ===== src/Watchdog/Content.antt =====
-- What counts as progress in one event of watchdog_progress.rs, over the JSON library.
use llm_guard_proxy.Prelude.{ℕ, Bool, false, not, ◌&&◌, ◌||◌, Option, List, [], ◌∷◌}
use llm_guard_proxy.Prelude.Lists.{any, is_empty, is_some_and, same_bytes}
use llm_guard_proxy.Watchdog.Json.{Json}
use llm_guard_proxy.Watchdog.Json.Names.{
  choices_name, text_name, delta_name, content_name, reasoning_content_name, reasoning_name,
  thinking_name, tool_calls_name, function_call_name, function_name, name_name, arguments_name,
  data_name, embedding_name, results_name, relevance_score_name, rerank_score_name, score_name,
}
use llm_guard_proxy.Guardian.MemInfo.{trim_ascii}

pub data WatchdogProgressUnit : Type 0 where
  chat completion embedding reranker : WatchdogProgressUnit

module _ (json : Json) where
  abbrev pub has_text : Option json.Value → Bool
  has_text v = is_some_and (λ w. is_some_and (λ t. not (is_empty t)) (json.as_str w)) v

  abbrev pub any_element : (json.Value → Bool) → Option json.Value → Bool
  any_element test v = is_some_and (λ w. is_some_and (any test) (json.as_array w)) v

  unfoldable pub function_fields_have_model_content : json.Object → Bool
  function_fields_have_model_content fields =
      any (λ name. has_text (json.field name fields)) (name_name ∷ arguments_name ∷ [])

  unfoldable pub function_call_has_model_content : json.Value → Bool
  function_call_has_model_content value =
      is_some_and function_fields_have_model_content (json.as_object value)

  unfoldable pub tool_call_has_model_content : json.Value → Bool
  tool_call_has_model_content value =
      is_some_and function_call_has_model_content (json.get function_name value)

  unfoldable pub tool_calls_have_model_content : json.Value → Bool
  tool_calls_have_model_content value =
      is_some_and (any tool_call_has_model_content) (json.as_array value)

  abbrev pub delta_has_model_content : json.Object → Bool
  delta_has_model_content delta =
      any (λ name. has_text (json.field name delta))
        (content_name ∷ reasoning_content_name ∷ reasoning_name ∷ thinking_name ∷ [])
      || is_some_and tool_calls_have_model_content (json.field tool_calls_name delta)
      || is_some_and function_call_has_model_content (json.field function_call_name delta)

  unfoldable pub sse_event_has_model_content : json.Value → Bool
  sse_event_has_model_content event =
      any_element
        (λ choice.
          is_some_and (λ delta. is_some_and delta_has_model_content (json.as_object delta))
            (json.get delta_name choice))
        (json.get choices_name event)

  unfoldable pub sse_event_has_completion_text : json.Value → Bool
  sse_event_has_completion_text event =
      any_element (λ choice. has_text (json.get text_name choice)) (json.get choices_name event)

  unfoldable pub non_empty_json_value : json.Value → Bool
  non_empty_json_value value =
      is_some_and (λ values. not (is_empty values)) (json.as_array value)
      || is_some_and (λ text. not (is_empty text)) (json.as_str value)

  unfoldable pub embedding_result_has_content : json.Value → Bool
  embedding_result_has_content result =
      is_some_and non_empty_json_value (json.get embedding_name result)

  unfoldable pub reranker_result_has_content : json.Value → Bool
  reranker_result_has_content result =
      is_some_and
        (λ fields.
          any (λ name. is_some_and json.is_number (json.field name fields))
            (relevance_score_name ∷ rerank_score_name ∷ score_name ∷ []))
        (json.as_object result)

  unfoldable pub result_event_has_progress : WatchdogProgressUnit → json.Value → Bool
  result_event_has_progress embedding event =
      any_element embedding_result_has_content (json.get data_name event)
  result_event_has_progress reranker event =
      any (λ name. any_element reranker_result_has_content (json.get name event))
        (results_name ∷ data_name ∷ [])
  result_event_has_progress _ event = false

  unfoldable pub sse_event_has_progress : WatchdogProgressUnit → json.Value → Bool
  sse_event_has_progress chat event = sse_event_has_model_content event
  sse_event_has_progress completion event = sse_event_has_completion_text event
  sse_event_has_progress embedding event = result_event_has_progress embedding event
  sse_event_has_progress reranker event = result_event_has_progress reranker event

  -- The data that ends a stream.
  abbrev pub done : List ℕ
  done = b'[' ∷ b'D' ∷ b'O' ∷ b'N' ∷ b'E' ∷ b']' ∷ []

  unfoldable pub sse_data_has_progress : WatchdogProgressUnit → List ℕ → Bool
  sse_data_has_progress progress_unit event_data =
      let trimmed = trim_ascii event_data in
      not (is_empty trimmed)
      && not (same_bytes trimmed done)
      && is_some_and (sse_event_has_progress progress_unit) (json.from_slice trimmed)

  unfoldable pub complete_chat_or_completion_response : json.Value → Bool
  complete_chat_or_completion_response response =
      is_some_and (λ v. is_some_and (λ choices. not (is_empty choices)) (json.as_array v))
        (json.get choices_name response)
