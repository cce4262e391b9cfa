-- ===== src/StreamLoop/Channel/Bounds.antt =====
-- The state of a channel stays bounded, whatever the stream brings.
use llm_guard_proxy.StreamLoop.Suffix
use llm_guard_proxy.Prelude.{ℕ, ◌≤◌, Option, none, some, List, [], ◌∷◌, ◌++◌}
use llm_guard_proxy.Prelude.Tests.{leb}
use llm_guard_proxy.Prelude.Lists.{length, take_last}
use llm_guard_proxy.Prelude.Text.{Unicode, LowercaseIsShort}
use llm_guard_proxy.StreamLoop.Counts.{contains}
use llm_guard_proxy.StreamLoop.Config.{LoopGuardConfig}
use llm_guard_proxy.StreamLoop.Profile.{LoopInputProfile}
use llm_guard_proxy.StreamLoop.State.{
  loop_max_recent_chars, LoopDetectorInput, LoopChannelState, Outcome, adjusted_threshold,
}
use llm_guard_proxy.StreamLoop.State.Outcomes.{Keeps, kept, state_of, or_else-Keeps, if-Keeps}
use llm_guard_proxy.StreamLoop.State.Bounds.{IsBounded, note_overlap-IsBounded}
use llm_guard_proxy.StreamLoop.Lines.Bounds.{observe_lines-Keeps}
use llm_guard_proxy.StreamLoop.Tokens.Bounds.{
  length-take_last, observe_tokens-Keeps, observe_low_progress-Keeps,
}
use llm_guard_proxy.StreamLoop.Reasoning.Bounds.{observe_semantic-Keeps}
use llm_guard_proxy.StreamLoop.Channel.{
  push_recent_chars, observe_recent_chars, judge_cycle, observe_suffix_cycle, count_fragment,
  detect, observe_channel,
}

push_recent_chars-bounded :
    (unicode : Unicode) (text recent : List ℕ)
    → length recent ≤ 4096
    → length (push_recent_chars unicode text recent) ≤ 4096
unfolding push_recent_chars
push_recent_chars-bounded unicode [] recent h = h
push_recent_chars-bounded unicode (c ∷ rest) recent h =
    push_recent_chars-bounded unicode rest
      (take_last loop_max_recent_chars (recent ++ unicode.to_lowercase c))
      (length-take_last loop_max_recent_chars (recent ++ unicode.to_lowercase c))

observe_recent_chars-IsBounded :
    (unicode : Unicode) (config : LoopGuardConfig) (text : List ℕ) (st : LoopChannelState)
    → IsBounded config st
    → IsBounded config (observe_recent_chars unicode text st)
unfolding observe_recent_chars
observe_recent_chars-IsBounded unicode config text st b = (
  b.0,
  b.1,
  b.2,
  b.3,
  b.4,
  b.5,
  push_recent_chars-bounded unicode text st.recent_chars b.6,
  b.7,
  b.8,
)

module _ (unicode : Unicode) (config : LoopGuardConfig) (profile : LoopInputProfile) where
  judge_cycle-Keeps :
      (cycle : Suffix.SuffixCycle) (st : LoopChannelState)
      → IsBounded config st
      → Keeps (IsBounded config) (judge_cycle config profile cycle st)
  unfolding judge_cycle
  judge_cycle-Keeps cycle st b =
      let overlap = contains cycle.unit_hash profile.repeated_line_hashes in
      let n = note_overlap-IsBounded config overlap st b in
      if-Keeps (IsBounded config)
        (leb (adjusted_threshold config.output_suffix_cycle_threshold overlap config)
          cycle.repetitions)
        _ _ (kept (IsBounded config) _ _ n) (kept (IsBounded config) _ _ n)

  observe_suffix_cycle-Keeps :
      (st : LoopChannelState)
      → IsBounded config st
      → Keeps (IsBounded config) (observe_suffix_cycle config profile st)
  unfolding observe_suffix_cycle
  observe_suffix_cycle-Keeps st b =
      cycle-Keeps (Suffix.suffix_cycle st.recent_chars config.output_suffix_cycle_threshold)
    where
      cycle-Keeps :
          (o : Option Suffix.SuffixCycle)
          → Keeps (IsBounded config) (elim o as (λ _. Outcome) [
            | none ↦ (st, none)
            | some cycle ↦ judge_cycle config profile cycle st
          ])
      cycle-Keeps none = kept (IsBounded config) st none b
      cycle-Keeps (some cycle) = judge_cycle-Keeps cycle st b

  detect-Keeps :
      LowercaseIsShort unicode
      → (input : LoopDetectorInput) (st : LoopChannelState) → IsBounded config st
      → Keeps (IsBounded config) (detect unicode config profile input st)
  unfolding detect count_fragment
  detect-Keeps short input st b =
      or_else-Keeps (IsBounded config) _ _
        (observe_lines-Keeps unicode config profile input st.bytes_seen (count_fragment input st) b)
        (λ lined l.
          or_else-Keeps (IsBounded config) _ _
            (observe_tokens-Keeps unicode config profile short input lined l)
            (λ tokened t.
              or_else-Keeps (IsBounded config) _ _
                (observe_suffix_cycle-Keeps (observe_recent_chars unicode input.fragment tokened)
                  (observe_recent_chars-IsBounded unicode config input.fragment tokened t))
                (λ cycled c.
                  or_else-Keeps (IsBounded config) _ _
                    (observe_semantic-Keeps config profile input cycled c)
                    (observe_low_progress-Keeps unicode config profile))))

  pub observe_channel-IsBounded :
      LowercaseIsShort unicode
      → (input : LoopDetectorInput) (st : LoopChannelState) → IsBounded config st
      → IsBounded config ((observe_channel unicode config profile input st).0)
  unfolding observe_channel
  observe_channel-IsBounded short input st b =
      state_of (IsBounded config) (detect unicode config profile input st)
        (detect-Keeps short input st b)
