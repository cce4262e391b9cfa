-- ===== src/StreamLoop/Lines/Verdict.antt =====
-- The detector of repeated lines on a stream of lines, against the history of those lines.
use native.Mathlib.Nat.{zero-add}
use mathlib.Core.Path.{subst}
use mathlib.Core.List.{append-nil}
use llm_guard_proxy.Prelude.{ℕ, ◌+◌, ◌≤◌, ◌<◌, ◌≡◌, refl, sym, ap, List, [], ◌∷◌, ◌++◌, arith}
use llm_guard_proxy.Prelude.Tests.{if◌then◌else◌}
use llm_guard_proxy.Prelude.Lists.{length}
use llm_guard_proxy.Prelude.Words.{u64_max}
use llm_guard_proxy.Prelude.Text.{len_utf8, byte_len, byte_len-append, Unicode}
use llm_guard_proxy.StreamLoop.Config.{LoopGuardConfig}
use llm_guard_proxy.StreamLoop.Profile.{LoopInputProfile, normalized_line_hash}
use llm_guard_proxy.StreamLoop.Signal.{StreamChannel}
use llm_guard_proxy.StreamLoop.State.{fragment_input, LoopChannelState, default_state}
use llm_guard_proxy.StreamLoop.Channel.{count_fragment}
use llm_guard_proxy.StreamLoop.Lines.History.{Line, is_found, default-Follows}
use llm_guard_proxy.StreamLoop.Lines.Stream.{
  kept_line, IsLine, AreLines, stream_len, with_line, with_line-append, length-with_line, line_hash,
  history_from, length-history_from, line_input, see, see_all, is_repeated, first_place, holding,
  lines_end,
}
use llm_guard_proxy.StreamLoop.Lines.Judged.{Stands, Judged, any_line}

break_len : byte_len (10 ∷ []) ≡ 1
unfolding byte_len len_utf8
break_len = refl

module _ (unicode : Unicode) (config : LoopGuardConfig) (profile : LoopInputProfile)
    (channel : StreamChannel) where
  -- The bytes of a fragment are counted.
  counted_bytes :
      (line : List ℕ) (st : LoopChannelState)
      → st.bytes_seen + (byte_len line + 1) ≤ u64_max
      → (count_fragment (line_input unicode config profile channel line) st).bytes_seen
        ≡ st.bytes_seen + (byte_len line + 1)
  unfolding count_fragment fragment_input
  counted_bytes line st small = omega (arith, small, byte_len-append line (10 ∷ []), break_len)

  see-Judged :
      (history : List Line) (end : ℕ) (line : List ℕ) (st : LoopChannelState)
      → Stands unicode config profile channel st end history
      → length history < 4096
      → IsLine line
      → end + (byte_len line + 1) ≤ u64_max
      → Judged unicode config profile channel history
          (line_hash unicode line)
          st.last_repeated_line_first_byte_offset
          (see unicode config profile channel line st)
          end
          (end + (byte_len line + 1))
  unfolding count_fragment
  see-Judged history end line st s room h small =
      let counted = count_fragment (line_input unicode config profile channel line) st in
      let next = st.bytes_seen + (byte_len line + 1) in
      let fits : next ≤ u64_max = omega (arith, small, s.bytes) in
      let hash : normalized_line_hash unicode (kept_line st.pending_line line)
          ≡ line_hash unicode line =
        ap (λ pending. normalized_line_hash unicode (kept_line pending line)) s.pending in
      let judged =
        any_line unicode config profile channel history (line_hash unicode line)
          (holding line counted) next hash (counted_bytes line st fits)
          (record { tracks = s.follows.tracks; offsets = s.follows.offsets }) room in
      let last = st.last_repeated_line_first_byte_offset in
      let o = see unicode config profile channel line st in
      let seen : Judged unicode config profile channel history (line_hash unicode line) last o
          st.pending_line_start_byte next =
        subst
          (λ p.
            Judged unicode config profile channel history (line_hash unicode line) last p
              st.pending_line_start_byte next)
          (sym (lines_end unicode config profile channel st.bytes_seen line counted h fits))
          judged in
      subst
        (λ e.
          Judged unicode config profile channel history (line_hash unicode line) last o end
            (e + (byte_len line + 1)))
        s.bytes
        (subst
          (λ e.
            Judged unicode config profile channel history (line_hash unicode line) last o e next)
          s.start seen)

  see_all-Stands :
      (history : List Line) (start : ℕ) (lines : List (List ℕ)) (st : LoopChannelState)
      → Stands unicode config profile channel st start history
      → AreLines lines
      → length history + length lines ≤ 4096
      → start + stream_len lines ≤ u64_max
      → Stands unicode config profile channel
          (see_all unicode config profile channel lines st)
          (start + stream_len lines)
          (history ++ history_from unicode start lines)
  see_all-Stands history start [] st s h room small =
      subst (λ e. Stands unicode config profile channel st e (history ++ [])) (omega arith)
        (subst (Stands unicode config profile channel st start) (sym (append-nil history)) s)
  see_all-Stands history start (line ∷ rest) st s h room small =
      let hash = line_hash unicode line in
      let next = start + (byte_len line + 1) in
      let judged =
        see-Judged history start line st s (omega (arith, room)) h.0 (omega (arith, small)) in
      let later =
        see_all-Stands (history ++ with_line hash start []) next rest
          ((see unicode config profile channel line st).0) judged.stands h.1
          (omega (arith, length-with_line hash start history, room)) (omega (arith, small)) in
      subst
        (λ e.
          Stands unicode config profile channel
            (see_all unicode config profile channel (line ∷ rest) st) e
            (history ++ history_from unicode start (line ∷ rest)))
        (omega arith)
        (subst
          (Stands unicode config profile channel
            (see_all unicode config profile channel (line ∷ rest) st) (next + stream_len rest))
          (with_line-append hash start history (history_from unicode next rest)) later)

  default-Stands : Stands unicode config profile channel default_state 0 []
  unfolding default_state
  default-Stands = record {
    follows = record {
      tracks = (default-Follows config profile).tracks;
      offsets = (default-Follows config profile).offsets;
    };
    pending = refl;
    start = refl;
    bytes = refl;
  }

-- A new channel that has seen lines of a stream, fewer than 4096 and each with its break in a fragment
-- of its own, finds the next line repeated exactly where the line has a hash and its threshold is at
-- most the number of the lines with that hash, this one included; the byte that it then reports is
-- the one of the stream that the first of them starts at, and else it reports what it did before.
-- The stream ends within the 2^64 bytes that an offset can tell, and no event but fragments comes.
pub observe_lines-verdict :
    (unicode : Unicode) (config : LoopGuardConfig) (profile : LoopInputProfile)
    (channel : StreamChannel) (lines : List (List ℕ)) (line : List ℕ)
    → AreLines lines
    → IsLine line
    → length lines < 4096
    → stream_len lines + (byte_len line + 1) ≤ u64_max
    → let before = see_all unicode config profile channel lines default_state in
      let o = see unicode config profile channel line before in
      let history = history_from unicode 0 lines in
      let hash = line_hash unicode line in
      (is_found (o.1) ≡ is_repeated config profile hash history)
      × ((o.0).last_repeated_line_first_byte_offset ≡ (
          if is_repeated config profile hash history
          then first_place hash (history ++ with_line hash (stream_len lines) [])
          else before.last_repeated_line_first_byte_offset))
observe_lines-verdict unicode config profile channel lines line are is room small =
    let stood =
      see_all-Stands unicode config profile channel [] 0 lines default_state
        (default-Stands unicode config profile channel) are (omega (arith, room))
        (omega (arith, small)) in
    let before =
      subst
        (λ e.
          Stands unicode config profile channel
            (see_all unicode config profile channel lines default_state) e
            (history_from unicode 0 lines))
        (zero-add (stream_len lines)) stood in
    let judged =
      see-Judged unicode config profile channel (history_from unicode 0 lines) (stream_len lines)
        line _ before (omega (arith, length-history_from unicode 0 lines, room)) is
        (omega (arith, small)) in
    (judged.verdict, judged.offset)
