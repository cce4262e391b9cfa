-- ===== src/StreamLoop/Lines.antt =====
-- The detector of repeated lines in loop_detector.rs: observe_lines and finish_line.
pub mod History
pub mod Stream
pub mod Judged
pub mod Verdict
pub mod Bounds
use llm_guard_proxy.Prelude.{
  ℕ, ◌+◌, Bool, true, false, not, ◌&&◌, Option, none, some, List, [], ◌∷◌, ◌++◌,
}
use llm_guard_proxy.Prelude.Tests.{ltb, leb, ◌==◌, if◌then◌else◌}
use llm_guard_proxy.Prelude.Lists.{is_empty}
use llm_guard_proxy.Prelude.Words.{u64_max, saturating_add}
use llm_guard_proxy.Prelude.Maps.{insert}
use llm_guard_proxy.Prelude.Text.{len_utf8, byte_len, Unicode}
use llm_guard_proxy.StreamLoop.Counts.{increment_count_with_cap, contains}
use llm_guard_proxy.StreamLoop.Config.{LoopGuardConfig}
use llm_guard_proxy.StreamLoop.Signal.{DetectorEventKind, fragment, repeated_line}
use llm_guard_proxy.StreamLoop.Detection.{new_detection}
use llm_guard_proxy.StreamLoop.Profile.{LoopInputProfile, normalized_line_hash}
use llm_guard_proxy.StreamLoop.State.{
  loop_max_pending_line_bytes, loop_output_line_count_cap, LoopDetectorInput, LoopChannelState,
  Outcome, or_else, closes, adjusted_threshold, feature_evidence, note_overlap,
}

-- `finish_line` from the test of the count on.
unfoldable pub judge_line :
    LoopGuardConfig → LoopInputProfile → ℕ → Bool → ℕ → ℕ → LoopChannelState → Outcome
unfolding adjusted_threshold feature_evidence new_detection
judge_line config profile hash input_overlap n first_byte_offset st =
    let threshold = adjusted_threshold config.output_repeated_line_threshold input_overlap config in
    if leb threshold n
    then (
      record st { last_repeated_line_first_byte_offset = some first_byte_offset },
      some (
          new_detection repeated_line (feature_evidence profile st n threshold hash input_overlap)),
    )
    else (st, none)

abbrev pub unwrap_or : Option ℕ → ℕ → ℕ
unwrap_or none d = d
unwrap_or (some n) d = n

-- `finish_line` where the line has a hash.
unfoldable pub count_line : LoopGuardConfig → LoopInputProfile → ℕ → LoopChannelState → Outcome
unfolding contains note_overlap increment_count_with_cap judge_line
count_line config profile hash st =
    let input_overlap = contains hash profile.repeated_line_hashes in
    let (found, counts, capped) =
      increment_count_with_cap st.line_counts hash loop_output_line_count_cap
        st.line_count_capped in
    let counted : LoopChannelState = record (note_overlap input_overlap st) {
      line_counts = counts;
      line_count_capped = capped;
    } in
    elim found [
      | none ↦ (counted, none)
      | some n ↦
          let first_byte_offset =
            unwrap_or (st.line_first_byte_offsets hash) st.pending_line_start_byte in
          judge_line config profile hash input_overlap n first_byte_offset (record counted {
            line_first_byte_offsets = insert hash first_byte_offset st.line_first_byte_offsets;
          })
    ]

unfoldable pub finish_line :
    Unicode → LoopGuardConfig → LoopInputProfile → LoopChannelState → Outcome
unfolding normalized_line_hash count_line
finish_line unicode config profile st = elim (normalized_line_hash unicode st.pending_line) [
  | none ↦ (st, none)
  | some hash ↦ count_line config profile hash st
]

unfoldable pub push_line_char : ℕ → LoopChannelState → LoopChannelState
push_line_char c st =
    if not (c == 13) && ltb (byte_len st.pending_line) loop_max_pending_line_bytes
    then record st { pending_line = st.pending_line ++ c ∷ [] }
    else st

-- A line ends: it is judged, and the next one starts after the byte `end`.
unfoldable pub end_line :
    Unicode → LoopGuardConfig → LoopInputProfile → ℕ → LoopChannelState → Outcome
unfolding finish_line
end_line unicode config profile end st =
    let (judged, found) = finish_line unicode config profile st in
    (record judged { pending_line = []; pending_line_start_byte = end }, found)

-- The loop over `char_indices`; `index` is the byte that a character starts at.
unfoldable pub observe_line_chars :
    Unicode → LoopGuardConfig → LoopInputProfile → ℕ → ℕ → List ℕ → LoopChannelState → Outcome
unfolding end_line push_line_char or_else
observe_line_chars unicode config profile start index [] st = (st, none)
observe_line_chars unicode config profile start index (c ∷ rest) st = elim (c == 10) [
  | true ↦
      or_else
        (end_line unicode config profile
          (saturating_add u64_max start (saturating_add u64_max index (len_utf8 c))) st)
        (observe_line_chars unicode config profile start (index + len_utf8 c) rest)
  | false ↦
      observe_line_chars unicode config profile start (index + len_utf8 c) rest
        (push_line_char c st)
]

-- The rest of `observe_lines`, for an event that closes the pending line.
unfoldable pub close_line :
    Unicode → LoopGuardConfig → LoopInputProfile → DetectorEventKind → LoopChannelState → Outcome
unfolding finish_line
close_line unicode config profile event_kind st =
    let (judged, found) = finish_line unicode config profile st in
    if closes event_kind && not (is_empty st.pending_line)
    then (record judged { pending_line = [] }, found)
    else (st, none)

unfoldable pub observe_lines :
    Unicode
    → LoopGuardConfig
    → LoopInputProfile
    → LoopDetectorInput
    → ℕ
    → LoopChannelState
    → Outcome
unfolding observe_line_chars close_line or_else
observe_lines unicode config profile input start st =
    or_else (observe_line_chars unicode config profile start 0 input.fragment st)
      (close_line unicode config profile input.event_kind)
