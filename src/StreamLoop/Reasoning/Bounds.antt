-- ===== src/StreamLoop/Reasoning/Bounds.antt =====
-- The detector of approximate repetition keeps its history and its token bounded. The tokens of the
-- window that is being read are not bounded: they stay where a repetition is found.
use llm_guard_proxy.Prelude.{ℕ, Bool, true, false, ◌&&◌, List, [], ◌∷◌, arith}
use llm_guard_proxy.Prelude.Tests.{ltb, leb, if◌then◌else◌}
use llm_guard_proxy.Prelude.Lists.{length, drop, is_empty, length-append, length-drop}
use llm_guard_proxy.Prelude.Words.{u32_max, saturating_add}
use llm_guard_proxy.Prelude.Text.{is_ascii_alphanumeric, to_ascii_lowercase}
use llm_guard_proxy.StreamLoop.Config.{LoopGuardConfig}
use llm_guard_proxy.StreamLoop.Signal.{DetectorEventKind}
use llm_guard_proxy.StreamLoop.Semantic.{SemanticWindow}
use llm_guard_proxy.StreamLoop.Profile.{LoopInputProfile}
use llm_guard_proxy.StreamLoop.State.{LoopDetectorInput, LoopChannelState, Outcome, closes}
use llm_guard_proxy.StreamLoop.State.Outcomes.{
  Keeps, kept, state_of, if-Keeps, returned-Keeps, found-Keeps,
}
use llm_guard_proxy.StreamLoop.State.Bounds.{IsBounded}
use llm_guard_proxy.StreamLoop.Reasoning.{
  remember_window, judge_semantic_window, finish_semantic_window, take_semantic_token,
  finish_semantic_token, push_semantic_char, newline_judges, newline_clears, observe_semantic_chars,
  is_reasoning, close_semantic, observe_semantic,
}

module _ (config : LoopGuardConfig) (profile : LoopInputProfile) where
  remember_window-IsBounded :
      (window : SemanticWindow) (st : LoopChannelState)
      → IsBounded config st
      → IsBounded config (remember_window config window st)
  unfolding remember_window
  remember_window-IsBounded window st b = ground (
    arith,
    b,
    length-drop 1 st.semantic_windows,
    length-append st.semantic_windows (window ∷ []),
    length-append (drop 1 st.semantic_windows) (window ∷ []),
  )

  judge_semantic_window-Keeps :
      (window : SemanticWindow) (similarity : ℕ) (st : LoopChannelState)
      → IsBounded config st
      → Keeps (IsBounded config) (judge_semantic_window config profile window similarity st)
  unfolding judge_semantic_window
  judge_semantic_window-Keeps window similarity st b =
      let matched = leb config.reasoning_semantic_similarity_threshold_percent similarity in
      let streak =
        if matched then saturating_add u32_max st.semantic_consecutive_repeat_count 1 else 0 in
      if-Keeps (IsBounded config)
        (matched && leb config.reasoning_semantic_repeat_window_count streak) _ _
        (kept (IsBounded config) _ _ b)
        (kept (IsBounded config) _ _ (
          remember_window-IsBounded window
            (record st { semantic_consecutive_repeat_count = streak }) b))

  finish_semantic_window-Keeps :
      (st : LoopChannelState)
      → IsBounded config st
      → Keeps (IsBounded config) (finish_semantic_window config profile st)
  unfolding finish_semantic_window
  finish_semantic_window-Keeps st b =
      if-Keeps (IsBounded config)
        (ltb (length st.semantic_window_tokens) config.reasoning_semantic_minimum_token_count) _ _
        (kept (IsBounded config) _ _ b) (judge_semantic_window-Keeps _ _ st b)

  finish_semantic_token-Keeps :
      (st : LoopChannelState)
      → IsBounded config st
      → Keeps (IsBounded config) (finish_semantic_token config profile st)
  unfolding finish_semantic_token take_semantic_token
  finish_semantic_token-Keeps st b =
      let taken = take_semantic_token st in
      let t : IsBounded config taken = (b.0, b.1, b.2, b.3, b.4, b.5, b.6, b.7, omega arith) in
      if-Keeps (IsBounded config) (is_empty st.semantic_current_token) _ _
        (kept (IsBounded config) _ _ b)
        (if-Keeps (IsBounded config)
          (leb config.reasoning_semantic_window_token_count (length taken.semantic_window_tokens)) _
          _ (finish_semantic_window-Keeps taken t) (kept (IsBounded config) _ _ t))

  push_semantic_char-IsBounded :
      (c : ℕ) (st : LoopChannelState)
      → IsBounded config st
      → IsBounded config (push_semantic_char c st)
  unfolding push_semantic_char
  push_semantic_char-IsBounded c st b =
      ground (arith, b, length-append st.semantic_current_token (to_ascii_lowercase c ∷ []))

  newline_clears-IsBounded :
      (c : ℕ) (st : LoopChannelState) → IsBounded config st → IsBounded config (newline_clears c st)
  newline_clears-IsBounded c st b = ground (arith, b)

  observe_semantic_chars-Keeps :
      (text : List ℕ) (st : LoopChannelState)
      → IsBounded config st
      → Keeps (IsBounded config) ((observe_semantic_chars config profile text st).0)
  unfolding observe_semantic_chars
  observe_semantic_chars-Keeps [] st b = kept (IsBounded config) _ _ b
  observe_semantic_chars-Keeps (c ∷ rest) st b =
      let (taken, found) = finish_semantic_token config profile st in
      let t : IsBounded config taken =
        state_of (IsBounded config) (taken, found) (finish_semantic_token-Keeps st b) in
      returned-Keeps (IsBounded config) (is_ascii_alphanumeric c) _ _
        (observe_semantic_chars-Keeps rest (push_semantic_char c st)
          (push_semantic_char-IsBounded c st b))
        (found-Keeps (IsBounded config) found _ _ (λ detection. kept (IsBounded config) _ _ t)
          (returned-Keeps (IsBounded config) (newline_judges config c taken) _ _
            (finish_semantic_window-Keeps taken t)
            (observe_semantic_chars-Keeps rest (newline_clears c taken)
              (newline_clears-IsBounded c taken t))))

  close_semantic-Keeps :
      (event_kind : DetectorEventKind) (o : Outcome) (returned : Bool)
      → Keeps (IsBounded config) o
      → Keeps (IsBounded config) (close_semantic config profile event_kind (o, returned))
  unfolding close_semantic
  close_semantic-Keeps event_kind o true k = k
  close_semantic-Keeps event_kind (st, found) false k =
      let b = state_of (IsBounded config) (st, found) k in
      if-Keeps (IsBounded config) (closes event_kind) _ _ (finish_semantic_token-Keeps st b)
        (kept (IsBounded config) _ _ b)

  pub observe_semantic-Keeps :
      (input : LoopDetectorInput) (st : LoopChannelState)
      → IsBounded config st
      → Keeps (IsBounded config) (observe_semantic config profile input st)
  unfolding observe_semantic
  observe_semantic-Keeps input st b =
      let (o, returned) = observe_semantic_chars config profile input.fragment st in
      if-Keeps (IsBounded config)
        (is_reasoning input.channel && config.reasoning_semantic_detection_enabled) _ _
        (close_semantic-Keeps input.event_kind o returned
          (observe_semantic_chars-Keeps input.fragment st b))
        (kept (IsBounded config) _ _ b)
