-- ===== src/StreamLoop/Lines/Bounds.antt =====
-- The detector of repeated lines keeps its state bounded.
use llm_guard_proxy.Prelude.{ℕ, ◌+◌, ◌≤◌, Bool, not, ◌&&◌, List, [], ◌∷◌, arith}
use llm_guard_proxy.Prelude.Tests.{◌==◌}
use llm_guard_proxy.Prelude.Lists.{is_empty}
use llm_guard_proxy.Prelude.Text.{len_utf8, byte_len, Unicode, len_utf8-bounds, byte_len-append}
use llm_guard_proxy.StreamLoop.Counts.{
  increment_count_with_cap, contains, increment_count_with_cap-capped,
}
use llm_guard_proxy.StreamLoop.Config.{LoopGuardConfig}
use llm_guard_proxy.StreamLoop.Signal.{DetectorEventKind}
use llm_guard_proxy.StreamLoop.Profile.{LoopInputProfile, normalized_line_hash}
use llm_guard_proxy.StreamLoop.State.{
  loop_output_line_count_cap, LoopDetectorInput, LoopChannelState, closes,
}
use llm_guard_proxy.StreamLoop.State.Outcomes.{
  Keeps, kept, state_of, or_else-Keeps, option-Keeps, if-Keeps, test-Keeps,
}
use llm_guard_proxy.StreamLoop.State.Bounds.{IsBounded, note_overlap-IsBounded}
use llm_guard_proxy.StreamLoop.Lines.{
  judge_line, count_line, finish_line, push_line_char, end_line, observe_line_chars, close_line,
  observe_lines,
}

one_char : (c : ℕ) → byte_len (c ∷ []) ≤ 4
unfolding byte_len
one_char c = omega (arith, len_utf8-bounds c)

module _ (unicode : Unicode) (config : LoopGuardConfig) (profile : LoopInputProfile) where
  judge_line-Keeps :
      (hash n first : ℕ) (overlap : Bool) (st : LoopChannelState)
      → IsBounded config st
      → Keeps (IsBounded config) (judge_line config profile hash overlap n first st)
  unfolding judge_line Keeps
  judge_line-Keeps hash n first overlap st b = ground (arith, b)

  count_line-Keeps :
      (hash : ℕ) (st : LoopChannelState)
      → IsBounded config st
      → Keeps (IsBounded config) (count_line config profile hash st)
  unfolding count_line
  count_line-Keeps hash st b =
      let found =
        increment_count_with_cap st.line_counts hash loop_output_line_count_cap
          st.line_count_capped in
      let overlap = contains hash profile.repeated_line_hashes in
      let n = note_overlap-IsBounded config overlap st b in
      let lines =
        increment_count_with_cap-capped st.line_counts hash loop_output_line_count_cap
          st.line_count_capped b.0 in
      option-Keeps (IsBounded config) (found.0) _ _
        (kept (IsBounded config) _ _ (lines, n.1, n.2, n.3, n.4, n.5, n.6, n.7, n.8))
        (λ k. judge_line-Keeps hash k _ overlap _ (lines, n.1, n.2, n.3, n.4, n.5, n.6, n.7, n.8))

  finish_line-Keeps :
      (st : LoopChannelState)
      → IsBounded config st
      → Keeps (IsBounded config) (finish_line unicode config profile st)
  unfolding finish_line
  finish_line-Keeps st b =
      option-Keeps (IsBounded config) (normalized_line_hash unicode st.pending_line) _ _
        (kept (IsBounded config) _ _ b) (λ hash. count_line-Keeps hash st b)

  end_line-Keeps :
      (end : ℕ) (st : LoopChannelState)
      → IsBounded config st
      → Keeps (IsBounded config) (end_line unicode config profile end st)
  unfolding end_line byte_len
  end_line-Keeps end st b =
      let k = state_of (IsBounded config) _ (finish_line-Keeps st b) in
      let cleared : byte_len [] ≤ 8195 = omega arith in
      kept (IsBounded config) _ _ (k.0, cleared, k.2, k.3, k.4, k.5, k.6, k.7, k.8)

  push_line_char-IsBounded :
      (c : ℕ) (st : LoopChannelState) → IsBounded config st → IsBounded config (push_line_char c st)
  unfolding push_line_char
  push_line_char-IsBounded c st b =
      ground (arith, b, byte_len-append st.pending_line (c ∷ []), one_char c)

  observe_line_chars-Keeps :
      (start index : ℕ) (text : List ℕ) (st : LoopChannelState)
      → IsBounded config st
      → Keeps (IsBounded config) (observe_line_chars unicode config profile start index text st)
  unfolding observe_line_chars
  observe_line_chars-Keeps start index [] st b = kept (IsBounded config) _ _ b
  observe_line_chars-Keeps start index (c ∷ rest) st b =
      test-Keeps (IsBounded config) (c == 10) _ _
        (or_else-Keeps (IsBounded config) _ _ (end_line-Keeps _ st b)
          (observe_line_chars-Keeps start (index + len_utf8 c) rest))
        (observe_line_chars-Keeps start (index + len_utf8 c) rest (push_line_char c st)
          (push_line_char-IsBounded c st b))

  close_line-Keeps :
      (event_kind : DetectorEventKind) (st : LoopChannelState)
      → IsBounded config st
      → Keeps (IsBounded config) (close_line unicode config profile event_kind st)
  unfolding close_line byte_len
  close_line-Keeps event_kind st b =
      let k = state_of (IsBounded config) _ (finish_line-Keeps st b) in
      let cleared : byte_len [] ≤ 8195 = omega arith in
      if-Keeps (IsBounded config) (closes event_kind && not (is_empty st.pending_line)) _ _
        (kept (IsBounded config) _ _ (k.0, cleared, k.2, k.3, k.4, k.5, k.6, k.7, k.8))
        (kept (IsBounded config) _ _ b)

  pub observe_lines-Keeps :
      (input : LoopDetectorInput) (start : ℕ) (st : LoopChannelState)
      → IsBounded config st
      → Keeps (IsBounded config) (observe_lines unicode config profile input start st)
  unfolding observe_lines
  observe_lines-Keeps input start st b =
      or_else-Keeps (IsBounded config) _ _ (observe_line_chars-Keeps start 0 input.fragment st b)
        (close_line-Keeps input.event_kind)
