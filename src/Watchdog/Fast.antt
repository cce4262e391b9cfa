-- ===== src/Watchdog/Fast.antt =====
-- `complete_sse_progress_without_buffering` of watchdog_progress.rs: the parser of an oversized chunk,
-- line by line.
pub mod Lines
pub mod Agreement
use llm_guard_proxy.Prelude.{
  ℕ, zero, suc, Bool, true, false, not, ◌&&◌, ◌||◌, Option, none, some, List, [], ◌∷◌,
}
use llm_guard_proxy.Prelude.Tests.{ltb, ◌==◌, if◌then◌else◌}
use llm_guard_proxy.Prelude.Lists.{length, is_empty}
use llm_guard_proxy.Prelude.Words.{u64_max, saturating_add}
use llm_guard_proxy.Guardian.MemInfo.{strip_prefix}
use llm_guard_proxy.Watchdog.Sse.{
  max_pending_sse_residual_bytes, SseEventParser, bit, retained_len, is_drained, data_prefix,
  strip_space, joined_len, join_data,
}

pub data FastSseProgress : Type 0 where
  drained : ℕ → FastSseProgress
  progress_with_residual : ℕ → SseEventParser → FastSseProgress
  incomplete : SseEventParser → FastSseProgress
  unobservable_oversize : FastSseProgress

pub record FastState : Type 0 where
  pub progress : ℕ
  pub event_data : List ℕ
  pub large_single_data : Option (List ℕ)
  pub has_data : Bool
  pub skip_lf_after_cr : Bool

-- A line, what follows its end, and whether the end is a carriage return with no line feed.
pub record SseLine : Type 0 where
  pub line : List ℕ
  pub rest : List ℕ
  pub ends_in_cr : Bool

-- The end of a line at a carriage return.
abbrev pub after_cr : List ℕ → SseLine
after_cr [] = record { line = []; rest = []; ends_in_cr = true }
after_cr (c ∷ rest) =
    if c == 10
    then record { line = []; rest = rest; ends_in_cr = false }
    else record { line = []; rest = c ∷ rest; ends_in_cr = true }

abbrev pub push_line : ℕ → Option SseLine → Option SseLine
push_line c none = none
push_line c (some l) = some (record l { line = c ∷ l.line })

-- The input is what stands from the offset on.
unfoldable pub next_sse_line : List ℕ → Option SseLine
next_sse_line [] = none
next_sse_line (c ∷ rest) =
    let found = next_sse_line rest in
    if c == 10
    then some (record { line = []; rest = rest; ends_in_cr = false })
    else (if c == 13 then some (after_cr rest) else push_line c found)

unfoldable pub fast_sse_progress_outcome : ℕ → SseEventParser → FastSseProgress
fast_sse_progress_outcome progress residual =
    if is_drained residual
    then drained progress
    else (if ltb 0 progress then progress_with_residual progress residual else incomplete residual)

-- `large_single_data.unwrap_or(&data)`
abbrev pub dispatched : FastState → List ℕ
dispatched s = elim s.large_single_data [ none ↦ s.event_data | some field ↦ field ]

abbrev pub is_large : Option (List ℕ) → Bool
is_large none = false
is_large (some field) = true

-- A `data:` field; `none` is the oversize that ends the observation.
unfoldable pub fast_field : FastState → Bool → List ℕ → Option FastState
fast_field s skip field =
    if is_large s.large_single_data
    then none
    else (if not s.has_data && ltb max_pending_sse_residual_bytes (length field)
        then some (record s { large_single_data = some field; has_data = true })
        else (if ltb max_pending_sse_residual_bytes (joined_len s.event_data s.has_data field)
            then none
            else some (record s {
              event_data = join_data s.event_data s.has_data field;
              has_data = true;
              skip_lf_after_cr = skip;
            })))

-- One line of the chunk; `skip` is the value that the end of the round gives to `skip_lf_after_cr`.
unfoldable pub fast_line : (List ℕ → Bool) → FastState → Bool → List ℕ → Option FastState
fast_line judge s skip line =
    if is_empty line
    then some (record s {
      progress =
          if s.has_data
          then saturating_add u64_max s.progress (bit (judge (dispatched s)))
          else s.progress;
      event_data = [];
      large_single_data = none;
      has_data = false;
      skip_lf_after_cr = skip;
    })
    else elim (strip_prefix data_prefix line) [
      | none ↦ some (record s { skip_lf_after_cr = skip })
      | some rest ↦ fast_field s skip (strip_space rest)
    ]

-- After the last line that ends in the chunk: `line` is what follows it.
unfoldable pub fast_end : FastState → Bool → List ℕ → FastSseProgress
fast_end s skip line =
    let residual : SseEventParser = record {
      line = line;
      event_data = s.event_data;
      has_data = s.has_data;
      skip_lf_after_cr = skip;
    } in
    if is_large s.large_single_data
      || (not (is_empty line) && ltb max_pending_sse_residual_bytes (retained_len residual))
    then unobservable_oversize
    else fast_sse_progress_outcome s.progress residual

-- The loop; each round takes a byte at least, so as many rounds as bytes are enough.
unfoldable pub fast_loop : ℕ → (List ℕ → Bool) → FastState → List ℕ → FastSseProgress
fast_loop rounds judge s [] = fast_end s s.skip_lf_after_cr []
fast_loop zero judge s (c ∷ input) = unobservable_oversize
fast_loop (suc rounds) judge s (c ∷ input) = elim (next_sse_line (c ∷ input)) [
  | none ↦ fast_end s false (c ∷ input)
  | some l ↦ elim (fast_line judge s (is_empty l.rest && l.ends_in_cr) l.line) [
    | none ↦ unobservable_oversize
    | some next ↦ fast_loop rounds judge next l.rest
  ]
]

abbrev pub fast_start : FastState
fast_start = record {
  progress = 0;
  event_data = [];
  large_single_data = none;
  has_data = false;
  skip_lf_after_cr = false;
}

unfoldable pub complete_sse_progress_without_buffering : (List ℕ → Bool) → List ℕ → FastSseProgress
complete_sse_progress_without_buffering judge chunk =
    fast_loop (length chunk) judge fast_start chunk
