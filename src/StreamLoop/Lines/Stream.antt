-- ===== src/StreamLoop/Lines/Stream.antt =====
-- The detector of repeated lines on a stream of lines, each in a fragment of its own: the offsets are
-- those of the stream.
use mathlib.Core.List.{append-nil, append_assoc}
use llm_guard_proxy.Prelude.{
  ℕ, suc, ◌+◌, ◌≤◌, ◌≡◌, refl, ap, ◌∙◌, inl, inr, Bool, false, not, ◌&&◌, Option, none, some, List,
  [], ◌∷◌, ◌++◌, arith,
}
use llm_guard_proxy.Prelude.Tests.{ltb, ◌==◌, if◌then◌else◌, Bool-cases}
use llm_guard_proxy.Prelude.Lists.{length, any, length-append}
use llm_guard_proxy.Prelude.Words.{u64_max, saturating_add}
use llm_guard_proxy.Prelude.Text.{len_utf8, byte_len, Unicode}
use llm_guard_proxy.StreamLoop.Config.{LoopGuardConfig}
use llm_guard_proxy.StreamLoop.Profile.{LoopInputProfile, normalized_line_hash}
use llm_guard_proxy.StreamLoop.Signal.{StreamChannel}
use llm_guard_proxy.StreamLoop.State.{
  loop_max_pending_line_bytes, LoopDetectorInput, fragment_input, LoopChannelState, Outcome,
  or_else,
}
use llm_guard_proxy.StreamLoop.State.Outcomes.{or_else_same, or_else-nothing, first_none}
use llm_guard_proxy.StreamLoop.Lines.{
  count_line, finish_line, push_line_char, end_line, observe_line_chars, observe_lines,
}
use llm_guard_proxy.StreamLoop.Lines.History.{Line, first_start, is_repeat}
use llm_guard_proxy.StreamLoop.Channel.Pieces.{line_break, line_char, no_chars, lines-append}
use llm_guard_proxy.StreamLoop.Channel.Fragments.{fragment_lines}
use llm_guard_proxy.StreamLoop.Channel.{count_fragment}

-- What a channel keeps of a line: no carriage return, and no character from 8192 bytes on.
abbrev pub kept_line : List ℕ → List ℕ → List ℕ
kept_line pending [] = pending
kept_line pending (c ∷ rest) =
    kept_line
      (if not (c == 13) && ltb (byte_len pending) loop_max_pending_line_bytes
        then pending ++ c ∷ []
        else pending)
      rest

abbrev pub IsLine : List ℕ → Type 0
IsLine line = any (λ c. c == 10) line ≡ false

abbrev pub AreLines : List (List ℕ) → Type 0
AreLines [] = Unit {0}
AreLines (line ∷ rest) = IsLine line × AreLines rest

-- The bytes of lines with their breaks.
abbrev pub stream_len : List (List ℕ) → ℕ
stream_len [] = 0
stream_len (line ∷ rest) = byte_len line + 1 + stream_len rest

abbrev pub with_line : Option ℕ → ℕ → List Line → List Line
with_line none start history = history
with_line (some hash) start history = (hash, start) ∷ history

pub with_line-append :
    (hash : Option ℕ) (start : ℕ) (history rest : List Line)
    → (history ++ with_line hash start []) ++ rest ≡ history ++ with_line hash start rest
with_line-append none start history rest = ap (λ xs. xs ++ rest) (append-nil history)
with_line-append (some hash) start history rest = append_assoc history ((hash, start) ∷ []) rest

pub length-with_line :
    (hash : Option ℕ) (start : ℕ) (history : List Line)
    → length (history ++ with_line hash start []) ≤ suc (length history)
length-with_line none start history = omega (arith, ap length (append-nil history))
length-with_line (some hash) start history =
    omega (arith, length-append history ((hash, start) ∷ []))

-- Whether a line with that hash, if it has one, is one too many after a history, and where the first
-- line with it starts.
abbrev pub is_repeated : LoopGuardConfig → LoopInputProfile → Option ℕ → List Line → Bool
is_repeated config profile none history = false
is_repeated config profile (some hash) history = is_repeat config profile hash history

abbrev pub first_place : Option ℕ → List Line → Option ℕ
first_place none history = none
first_place (some hash) history = first_start hash history

-- The channel with the line in hand, before it is judged.
abbrev pub holding : List ℕ → LoopChannelState → LoopChannelState
holding line st = record st { pending_line = kept_line st.pending_line line }

module _ (unicode : Unicode) where
  abbrev pub line_hash : List ℕ → Option ℕ
  line_hash line = normalized_line_hash unicode (kept_line [] line)

  -- The lines that have a hash, with the byte of the stream that each starts at.
  abbrev pub history_from : ℕ → List (List ℕ) → List Line
  history_from start [] = []
  history_from start (line ∷ rest) =
      with_line (line_hash line) start (history_from (start + (byte_len line + 1)) rest)

  pub length-history_from :
      (start : ℕ) (lines : List (List ℕ)) → length (history_from start lines) ≤ length lines
  length-history_from start [] = omega arith
  length-history_from start (line ∷ rest) =
      added (line_hash line) (history_from (start + (byte_len line + 1)) rest) (length rest)
        (length-history_from (start + (byte_len line + 1)) rest)
    where
      added :
          (hash : Option ℕ) (history : List Line) (n : ℕ)
          → length history ≤ n
          → length (with_line hash start history) ≤ suc n
      added none history n h = omega (arith, h)
      added (some hash) history n h = omega (arith, h)

module _ (unicode : Unicode) (config : LoopGuardConfig) (profile : LoopInputProfile)
    (channel : StreamChannel) where
  -- A line and its break in a fragment of its own, as `observe` gives it to the detector of lines: at
  -- the bytes seen before it, which the fragment then adds to.
  abbrev pub line_input : List ℕ → LoopDetectorInput
  line_input line = fragment_input channel (line ++ 10 ∷ [])

  abbrev pub see : List ℕ → LoopChannelState → Outcome
  see line st =
      observe_lines unicode config profile (line_input line) st.bytes_seen
        (count_fragment (line_input line) st)

  abbrev pub see_all : List (List ℕ) → LoopChannelState → LoopChannelState
  see_all [] st = st
  see_all (line ∷ rest) st = see_all rest ((see line st).0)

  line_pushed :
      (c : ℕ) (rest : List ℕ) (st : LoopChannelState)
      → ◌≡◌ {A = LoopChannelState}
          (record (push_line_char c st) {
            pending_line = kept_line (push_line_char c st).pending_line rest;
          })
          (record st { pending_line = kept_line st.pending_line (c ∷ rest) })
  unfolding push_line_char
  line_pushed c rest st =
      elim (Bool-cases
        (not (c == 13) && ltb (byte_len st.pending_line) loop_max_pending_line_bytes)) [
          | inl e ↦ rw e refl
          | inr e ↦ rw e refl
        ]

  line_chars :
      (start index : ℕ) (line : List ℕ) (st : LoopChannelState)
      → IsLine line
      → observe_line_chars unicode config profile start index line st
        ≡ (record st { pending_line = kept_line st.pending_line line }, none)
  line_chars start index [] st h = no_chars unicode config profile start index st
  line_chars start index (c ∷ rest) st h =
      let inside : (c == 10) ≡ false = ground (arith, h) in
      let later : IsLine rest = ground (arith, h) in
      line_char unicode config profile start index c rest st inside
      ∙ line_chars start (index + len_utf8 c) rest (push_line_char c st) later
      ∙ ap (λ s. (s, none)) (line_pushed c rest st)

  break_ends :
      (start index : ℕ) (st : LoopChannelState)
      → start + (index + 1) ≤ u64_max
      → observe_line_chars unicode config profile start index (10 ∷ []) st
        ≡ end_line unicode config profile (start + (index + 1)) st
  unfolding len_utf8
  break_ends start index st h =
      let end : saturating_add u64_max start (saturating_add u64_max index (len_utf8 10))
          ≡ start + (index + 1) =
        omega (arith, h) in
      line_break unicode config profile start index 10 [] st refl
      ∙ or_else_same _ _ _ (λ s. no_chars unicode config profile start (index + len_utf8 10) s)
      ∙ or_else-nothing _
      ∙ ap (λ e. end_line unicode config profile e st) end

  -- A line and its break are the end of that line.
  pub lines_end :
      (start : ℕ) (line : List ℕ) (st : LoopChannelState)
      → IsLine line
      → start + (byte_len line + 1) ≤ u64_max
      → observe_lines unicode config profile (line_input line) start st
        ≡ end_line unicode config profile (start + (byte_len line + 1)) (holding line st)
  lines_end start line st h room =
      fragment_lines unicode config profile channel (line ++ 10 ∷ []) start st
      ∙ lines-append unicode config profile start 0 line (10 ∷ []) st
      ∙ ap
          (λ o.
            or_else o
              (observe_line_chars unicode config profile start (0 + byte_len line) (10 ∷ [])))
          (line_chars start 0 line st h)
      ∙ first_none (holding line st) _
      ∙ break_ends start (0 + byte_len line) (holding line st) (omega (arith, room))
      ∙ ap (λ n. end_line unicode config profile (start + n) (holding line st)) (omega arith)

  pub finish_none :
      (st : LoopChannelState)
      → normalized_line_hash unicode st.pending_line ≡ none
      → finish_line unicode config profile st ≡ (st, none)
  unfolding finish_line
  finish_none st h = rw (h, finish_line) refl

  pub finish_some :
      (st : LoopChannelState) (hash : ℕ)
      → normalized_line_hash unicode st.pending_line ≡ some hash
      → finish_line unicode config profile st ≡ count_line config profile hash st
  unfolding finish_line
  finish_some st hash h = rw (h, finish_line) refl

  abbrev pub between : ℕ → Outcome → Outcome
  between next (st, found) =
      (record st { pending_line = []; pending_line_start_byte = next }, found)

  pub end_line_as :
      (next : ℕ) (st : LoopChannelState) (o : Outcome)
      → finish_line unicode config profile st ≡ o
      → end_line unicode config profile next st ≡ between next o
  unfolding end_line
  end_line_as next st o h = ap (between next) h
