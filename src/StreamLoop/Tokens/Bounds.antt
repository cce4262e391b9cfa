-- ===== src/StreamLoop/Tokens/Bounds.antt =====
-- The detectors of repeated token windows and of low progress keep their state bounded.
use llm_guard_proxy.StreamLoop.Tokens
use llm_guard_proxy.Prelude.{ℕ, ◌-◌, ◌≤◌, Bool, List, [], ◌∷◌, ◌++◌, arith}
use llm_guard_proxy.Prelude.Tests.{◌==◌}
use llm_guard_proxy.Prelude.Lists.{length, is_empty, length-drop, take_last}
use llm_guard_proxy.Prelude.Text.{
  byte_len, as_bytes, Unicode, LowercaseIsShort, byte_len-append, byte_len-le,
}
use llm_guard_proxy.StreamLoop.Hash.{stable_hash, stable_hash_u64s}
use llm_guard_proxy.StreamLoop.Counts.{
  increment_count_with_cap, contains, increment_count_with_cap-capped,
  track_unique_hash_with_cap-capped,
}
use llm_guard_proxy.StreamLoop.Config.{LoopGuardConfig}
use llm_guard_proxy.StreamLoop.Profile.{LoopInputProfile, is_token_boundary, push_token_char}
use llm_guard_proxy.StreamLoop.State.{
  loop_output_token_window_count_cap, loop_output_unique_token_window_cap, LoopDetectorInput,
  LoopChannelState, closes,
}
use llm_guard_proxy.StreamLoop.State.Outcomes.{
  Keeps, kept, or_else-Keeps, option-Keeps, if-Keeps, test-Keeps,
}
use llm_guard_proxy.StreamLoop.State.Bounds.{IsBounded, note_overlap-IsBounded}
use llm_guard_proxy.StreamLoop.Tokens.{
  judge_window, count_token_window, finish_token, observe_tokens, observe_low_progress,
}

pub length-take_last {ℓ} : {A : Type ℓ} (n : ℕ) (xs : List A) → length (take_last n xs) ≤ n
length-take_last n xs = omega (arith, length-drop (length xs - n) xs)

module _ (unicode : Unicode) (config : LoopGuardConfig) (profile : LoopInputProfile) where
  judge_window-Keeps :
      (hash n : ℕ) (overlap : Bool) (st : LoopChannelState)
      → IsBounded config st
      → Keeps (IsBounded config) (judge_window config profile hash overlap n st)
  unfolding judge_window Keeps
  judge_window-Keeps hash n overlap st b = ground (arith, b)

  count_token_window-Keeps :
      (hash : ℕ) (st : LoopChannelState)
      → IsBounded config st
      → Keeps (IsBounded config) (count_token_window config profile hash st)
  unfolding count_token_window
  count_token_window-Keeps hash st b =
      let found =
        increment_count_with_cap st.token_window_counts hash loop_output_token_window_count_cap
          st.token_window_count_capped in
      let overlap = contains hash profile.repeated_token_window_hashes in
      let n = note_overlap-IsBounded config overlap st b in
      let windows =
        increment_count_with_cap-capped st.token_window_counts hash
          loop_output_token_window_count_cap st.token_window_count_capped b.2 in
      let unique =
        track_unique_hash_with_cap-capped st.unique_token_windows hash
          loop_output_unique_token_window_cap st.unique_token_window_capped b.3 in
      option-Keeps (IsBounded config) (found.0) _ _
        (kept (IsBounded config) _ _ (n.0, n.1, windows, unique, n.4, n.5, n.6, n.7, n.8))
        (λ k.
          judge_window-Keeps hash k overlap _ (n.0, n.1, windows, unique, n.4, n.5, n.6, n.7, n.8))

  finish_token-Keeps :
      (st : LoopChannelState)
      → IsBounded config st
      → Keeps (IsBounded config) (finish_token config profile st)
  unfolding finish_token byte_len
  finish_token-Keeps st b =
      let window =
        take_last config.output_token_window_size
          (st.recent_token_hashes ++ stable_hash (as_bytes st.current_token) ∷ []) in
      let recent =
        length-take_last config.output_token_window_size
          (st.recent_token_hashes ++ stable_hash (as_bytes st.current_token) ∷ []) in
      let cleared : byte_len [] ≤ 139 = omega arith in
      let pushed : LoopChannelState = record st {
        current_token = [];
        recent_token_hashes = window;
      } in
      let p : IsBounded config pushed = (b.0, b.1, b.2, b.3, recent, cleared, b.6, b.7, b.8) in
      if-Keeps (IsBounded config) (is_empty st.current_token) _ _ (kept (IsBounded config) _ _ b) (
        if-Keeps (IsBounded config) (length window == config.output_token_window_size) _ _
          (count_token_window-Keeps (stable_hash_u64s window) pushed p)
          (kept (IsBounded config) _ _ p))

  module _ (short : LowercaseIsShort unicode) where
    push_token_char-bounded :
        (c : ℕ) (token : List ℕ)
        → byte_len token ≤ 139
        → byte_len (push_token_char unicode c token) ≤ 139
    unfolding push_token_char
    push_token_char-bounded c token h = ground (
      arith,
      h,
      byte_len-append token (unicode.to_lowercase c),
      byte_len-le (unicode.to_lowercase c),
      short c,
    )

    observe_token_chars-Keeps :
        (text : List ℕ) (st : LoopChannelState)
        → IsBounded config st
        → Keeps (IsBounded config) (Tokens.observe_token_chars unicode config profile text st)
    unfolding Tokens.observe_token_chars
    observe_token_chars-Keeps [] st b = kept (IsBounded config) _ _ b
    observe_token_chars-Keeps (c ∷ rest) st b =
        test-Keeps (IsBounded config) (is_token_boundary unicode c) _ _
          (or_else-Keeps (IsBounded config) _ _ (finish_token-Keeps st b)
            (observe_token_chars-Keeps rest))
          (observe_token_chars-Keeps rest
            (record st { current_token = push_token_char unicode c st.current_token })
            (
              b.0,
              b.1,
              b.2,
              b.3,
              b.4,
              push_token_char-bounded c st.current_token b.5,
              b.6,
              b.7,
              b.8,
            ))

    pub observe_tokens-Keeps :
        (input : LoopDetectorInput) (st : LoopChannelState)
        → IsBounded config st
        → Keeps (IsBounded config) (observe_tokens unicode config profile input st)
    unfolding observe_tokens
    observe_tokens-Keeps input st b =
        or_else-Keeps (IsBounded config) _ _ (observe_token_chars-Keeps input.fragment st b)
          (λ last k.
            if-Keeps (IsBounded config) (closes input.event_kind) _ _ (finish_token-Keeps last k)
              (kept (IsBounded config) _ _ k))

  pub observe_low_progress-Keeps :
      (st : LoopChannelState)
      → IsBounded config st
      → Keeps (IsBounded config) (observe_low_progress config profile st)
  unfolding observe_low_progress Keeps
  observe_low_progress-Keeps st b = ground (arith, b)
