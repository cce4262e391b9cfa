-- ===== src/StreamLoop/Lines/History.antt =====
-- The detector of repeated lines against the history of the lines of a channel: a line is reported
-- from its threshold on, with the place where it stood first.
use mathlib.Core.Path.{subst, ap₂}
use llm_guard_proxy.Prelude.{
  ℕ, suc, ◌<◌, min, ◌≡◌, refl, sym, ap, ◌∙◌, Bool, true, false, Option, none, some, List, [], ◌∷◌,
  ◌++◌, arith,
}
use llm_guard_proxy.Prelude.Tests.{leb, ◌==◌, if◌then◌else◌, ==_iff, ==_self, Option-cases}
use llm_guard_proxy.Prelude.Lists.{length, count, count-le-length}
use llm_guard_proxy.Prelude.Words.{u32_max}
use llm_guard_proxy.Prelude.Maps.{Map, insert}
use llm_guard_proxy.StreamLoop.Counts.{increment_count_with_cap, contains}
use llm_guard_proxy.StreamLoop.Counts.Tally.{Tracks, Tracks-nil, count_tracked}
use llm_guard_proxy.StreamLoop.Config.{LoopGuardConfig}
use llm_guard_proxy.StreamLoop.Detection.{FeatureDetection}
use llm_guard_proxy.StreamLoop.Profile.{LoopInputProfile}
use llm_guard_proxy.StreamLoop.State.{
  loop_output_line_count_cap, LoopChannelState, default_state, adjusted_threshold, note_overlap,
}
use llm_guard_proxy.StreamLoop.Lines.{judge_line, unwrap_or, count_line}

-- A line that has a hash: the hash, and the byte that the line starts at.
abbrev pub Line : Type 0
Line = ℕ × ℕ

abbrev pub hashes : List Line → List ℕ
hashes [] = []
hashes ((hash, start) ∷ rest) = hash ∷ hashes rest

-- Where the first line with that hash starts.
abbrev pub first_start : ℕ → List Line → Option ℕ
first_start hash [] = none
first_start hash ((h, start) ∷ rest) = if h == hash then some start else first_start hash rest

first_start-append :
    (key hash start : ℕ) (history : List Line)
    → first_start key (history ++ (hash, start) ∷ []) ≡ elim (first_start key history) [
      | some v ↦ some v
      | none ↦ if hash == key then some start else none
    ]
first_start-append key hash start [] = refl
first_start-append key hash start ((h, s) ∷ rest) =
    ground (arith, first_start-append key hash start rest)

hashes-append :
    (history : List Line) (hash start : ℕ)
    → hashes (history ++ (hash, start) ∷ []) ≡ hashes history ++ hash ∷ []
hashes-append [] hash start = refl
hashes-append ((h, s) ∷ rest) hash start = ap (λ xs. h ∷ xs) (hashes-append rest hash start)

length-hashes : (history : List Line) → length (hashes history) ≡ length history
length-hashes [] = refl
length-hashes ((h, s) ∷ rest) = omega (arith, length-hashes rest)

abbrev pub is_found : Option FeatureDetection → Bool
is_found none = false
is_found (some detection) = true

module _ (config : LoopGuardConfig) (profile : LoopInputProfile) where
  abbrev pub line_threshold : ℕ → ℕ
  line_threshold hash =
      adjusted_threshold config.output_repeated_line_threshold
        (contains hash profile.repeated_line_hashes) config

  -- The state that `count_line` judges.
  abbrev counted_line : ℕ → LoopChannelState → LoopChannelState
  counted_line hash st =
      let (found, counts, capped) =
        increment_count_with_cap st.line_counts hash loop_output_line_count_cap
          st.line_count_capped in
      record (note_overlap (contains hash profile.repeated_line_hashes) st) {
        line_counts = counts;
        line_count_capped = capped;
        line_first_byte_offsets =
            insert hash (unwrap_or (st.line_first_byte_offsets hash) st.pending_line_start_byte)
              st.line_first_byte_offsets;
      }

  count_line_found :
      (hash n : ℕ) (st : LoopChannelState)
      → (increment_count_with_cap st.line_counts hash loop_output_line_count_cap
          st.line_count_capped).0
        ≡ some n
      → count_line config profile hash st
        ≡ judge_line config profile hash
            (contains hash profile.repeated_line_hashes)
            n
            (unwrap_or (st.line_first_byte_offsets hash) st.pending_line_start_byte)
            (counted_line hash st)
  unfolding count_line
  count_line_found hash n st h = ground (arith, h)

  note_overlap_last :
      (overlap : Bool) (st : LoopChannelState)
      → (note_overlap overlap st).last_repeated_line_first_byte_offset
        ≡ st.last_repeated_line_first_byte_offset
  unfolding note_overlap
  note_overlap_last true st = refl
  note_overlap_last false st = refl

  -- What `judge_line` leaves alone, and what it finds.
  judge_line_counts :
      (hash n first : ℕ) (overlap : Bool) (st : LoopChannelState)
      → (((judge_line config profile hash overlap n first st).0).line_counts ≡ st.line_counts)
        × (((judge_line config profile hash overlap n first st).0).line_first_byte_offsets
            ≡ st.line_first_byte_offsets)
  unfolding judge_line
  judge_line_counts hash n first overlap st = ground arith

  judge_line_verdict :
      (hash n first : ℕ) (overlap : Bool) (st : LoopChannelState)
      → (is_found ((judge_line config profile hash overlap n first st).1)
          ≡ leb (adjusted_threshold config.output_repeated_line_threshold overlap config) n)
        × (((judge_line config profile hash overlap n first st).0
              ).last_repeated_line_first_byte_offset
            ≡ (if leb (adjusted_threshold config.output_repeated_line_threshold overlap config) n
                then some first
                else st.last_repeated_line_first_byte_offset))
  unfolding judge_line
  judge_line_verdict hash n first overlap st = ground arith

  -- The state of the channel after the lines of a history.
  pub record Follows (st : LoopChannelState) (history : List Line) : Type 0 where
    pub tracks : Tracks st.line_counts (hashes history)
    pub offsets : (hash : ℕ) → st.line_first_byte_offsets hash ≡ first_start hash history

  offsets_step :
      (history : List Line) (hash start key : ℕ) (offsets : Map ℕ)
      → ((k : ℕ) → offsets k ≡ first_start k history)
      → insert hash (unwrap_or (offsets hash) start) offsets key
        ≡ first_start key (history ++ (hash, start) ∷ [])
  offsets_step history hash start key offsets h = ground (
    arith,
    h hash,
    h key,
    first_start-append key hash start history,
    Option-cases (first_start hash history),
    Option-cases (first_start key history),
    ==_iff key hash,
  )

  -- Whether the next line with that hash is one too many, and what the channel then reports.
  abbrev pub is_repeat : ℕ → List Line → Bool
  is_repeat hash history = leb (line_threshold hash) (suc (count hash (hashes history)))

  -- The end of one more line: what is found, what stays remembered, and what the state says
  -- afterwards.
  pub record Seen (history : List Line) (hash : ℕ) (st : LoopChannelState) : Type 0 where
    pub verdict : is_found ((count_line config profile hash st).1) ≡ is_repeat hash history
    pub offset : ((count_line config profile hash st).0).last_repeated_line_first_byte_offset ≡ (
        if is_repeat hash history
        then first_start hash (history ++ (hash, st.pending_line_start_byte) ∷ [])
        else st.last_repeated_line_first_byte_offset)
    pub follows :
        Follows
          ((count_line config profile hash st).0)
          (history ++ (hash, st.pending_line_start_byte) ∷ [])

  pub count_line-Seen :
      (history : List Line) (hash : ℕ) (st : LoopChannelState)
      → Follows st history
      → length history < 4096
      → Seen history hash st
  count_line-Seen history hash st f room =
      let c =
        count_tracked st.line_counts (hashes history) hash loop_output_line_count_cap
          st.line_count_capped f.tracks (omega (arith, length-hashes history)) in
      let start = st.pending_line_start_byte in
      let overlap = contains hash profile.repeated_line_hashes in
      let n = suc (count hash (hashes history)) in
      let first = unwrap_or (st.line_first_byte_offsets hash) start in
      let small : min n u32_max ≡ n =
        omega (arith, count-le-length hash (hashes history), length-hashes history) in
      let step = count_line_found hash n st (c.found ∙ ap some small) in
      let judged = judge_line_verdict hash n first overlap (counted_line hash st) in
      let kept = judge_line_counts hash n first overlap (counted_line hash st) in
      let place : some first ≡ first_start hash (history ++ (hash, start) ∷ []) =
        sym (rw (==_self hash)) ∙ offsets_step history hash start hash _ f.offsets in
      record {
        verdict = ap (λ o. is_found (o.1)) step ∙ judged.0;
        offset =
            ap (λ o. (o.0).last_repeated_line_first_byte_offset) step
            ∙ judged.1
            ∙ ap₂ (λ x y. if leb (line_threshold hash) n then x else y) place
                (note_overlap_last overlap st);
        follows = record {
          tracks =
              subst (λ cs. Tracks cs (hashes (history ++ (hash, start) ∷ [])))
                (sym (ap (λ o. (o.0).line_counts) step ∙ kept.0))
                (rw (hashes-append history hash start) c.tracks);
          offsets = λ key.
              ap (λ o. (o.0).line_first_byte_offsets key) step
              ∙ ap (λ m. m key) kept.1
              ∙ offsets_step history hash start key _ f.offsets;
        };
      }

  pub default-Follows : Follows default_state []
  unfolding default_state
  default-Follows = record { tracks = Tracks-nil; offsets = λ hash. refl }
