-- ===== src/StreamLoop/Lines/Judged.antt =====
-- The end of one line, against the history of the lines before it.
use mathlib.Core.Path.{subst}
use mathlib.Core.List.{append-nil}
use llm_guard_proxy.Prelude.{ℕ, ◌<◌, ◌≡◌, refl, sym, ◌∙◌, Option, none, some, List, [], ◌++◌, arith}
use llm_guard_proxy.Prelude.Tests.{if◌then◌else◌}
use llm_guard_proxy.Prelude.Lists.{length}
use llm_guard_proxy.Prelude.Text.{Unicode}
use llm_guard_proxy.StreamLoop.Config.{LoopGuardConfig}
use llm_guard_proxy.StreamLoop.Profile.{LoopInputProfile, normalized_line_hash}
use llm_guard_proxy.StreamLoop.Signal.{StreamChannel}
use llm_guard_proxy.StreamLoop.State.{LoopChannelState, note_overlap, Outcome}
use llm_guard_proxy.StreamLoop.Lines.{end_line, count_line, judge_line}
use llm_guard_proxy.StreamLoop.Lines.History.{Line, is_found, Follows, count_line-Seen}
use llm_guard_proxy.StreamLoop.Lines.Stream.{
  finish_none, finish_some, end_line_as, with_line, is_repeated, first_place,
}

count_line_bytes :
    (config : LoopGuardConfig) (profile : LoopInputProfile) (hash : ℕ) (st : LoopChannelState)
    → ((count_line config profile hash st).0).bytes_seen ≡ st.bytes_seen
unfolding count_line judge_line note_overlap
count_line_bytes config profile hash st = ground arith

module _ (unicode : Unicode) (config : LoopGuardConfig) (profile : LoopInputProfile)
    (channel : StreamChannel) where
  -- A channel between two lines, at a byte of the stream, which is the number of bytes seen.
  pub record Stands (st : LoopChannelState) (end : ℕ) (history : List Line) : Type 0 where
    pub follows : Follows config profile st history
    pub pending : st.pending_line ≡ []
    pub start : st.pending_line_start_byte ≡ end
    pub bytes : st.bytes_seen ≡ end

  pub record Judged (history : List Line) (hash : Option ℕ) (last : Option ℕ) (o : Outcome)
      (end next : ℕ) : Type 0 where
    pub verdict : is_found (o.1) ≡ is_repeated config profile hash history
    pub offset : (o.0).last_repeated_line_first_byte_offset ≡ (
        if is_repeated config profile hash history
        then first_place hash (history ++ with_line hash end [])
        else last)
    pub stands : Stands (o.0) next (history ++ with_line hash end [])

  line_without_hash :
      (history : List Line) (st : LoopChannelState) (next : ℕ)
      → normalized_line_hash unicode st.pending_line ≡ none
      → st.bytes_seen ≡ next
      → Follows config profile st history
      → Judged history none st.last_repeated_line_first_byte_offset
          (end_line unicode config profile next st)
          st.pending_line_start_byte
          next
  line_without_hash history st next h b f =
      subst
        (λ o.
          Judged history none st.last_repeated_line_first_byte_offset o st.pending_line_start_byte
            next)
        (sym (
          end_line_as unicode config profile channel next st _
            (finish_none unicode config profile channel st h)))
        (record {
          verdict = refl;
          offset = refl;
          stands = record {
            follows =
                subst (Follows config profile _) (sym (append-nil history))
                  (record { tracks = f.tracks; offsets = f.offsets });
            pending = refl;
            start = refl;
            bytes = b;
          };
        })

  line_with_hash :
      (history : List Line) (hash : ℕ) (st : LoopChannelState) (next : ℕ)
      → normalized_line_hash unicode st.pending_line ≡ some hash
      → st.bytes_seen ≡ next
      → Follows config profile st history
      → length history < 4096
      → Judged history
          (some hash)
          st.last_repeated_line_first_byte_offset
          (end_line unicode config profile next st)
          st.pending_line_start_byte
          next
  line_with_hash history hash st next h b f room =
      let seen = count_line-Seen config profile history hash st f room in
      subst
        (λ o.
          Judged history (some hash) st.last_repeated_line_first_byte_offset o
            st.pending_line_start_byte next)
        (sym (
          end_line_as unicode config profile channel next st _
            (finish_some unicode config profile channel st hash h)))
        (record {
          verdict = seen.verdict;
          offset = seen.offset;
          stands = record {
            follows = record { tracks = seen.follows.tracks; offsets = seen.follows.offsets };
            pending = refl;
            start = refl;
            bytes = count_line_bytes config profile hash st ∙ b;
          };
        })

  pub any_line :
      (history : List Line) (hash : Option ℕ) (st : LoopChannelState) (next : ℕ)
      → normalized_line_hash unicode st.pending_line ≡ hash
      → st.bytes_seen ≡ next
      → Follows config profile st history
      → length history < 4096
      → Judged history hash st.last_repeated_line_first_byte_offset
          (end_line unicode config profile next st)
          st.pending_line_start_byte
          next
  any_line history none st next h b f room = line_without_hash history st next h b f
  any_line history (some hash) st next h b f room = line_with_hash history hash st next h b f room
