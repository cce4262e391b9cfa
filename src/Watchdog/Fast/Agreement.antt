-- ===== src/Watchdog/Fast/Agreement.antt =====
-- The parser of oversized chunks agrees with the event parser wherever that accepts the chunk.
use mathlib.Core.Path.{subst}
use llm_guard_proxy.Prelude.{
  ℕ, zero, suc, ◌≤◌, ◌<◌, ◌≡◌, refl, sym, ap, ◌∙◌, inl, inr, Bool, true, false, ◌&&◌, none, some,
  List, [], ◌∷◌, arith,
}
use llm_guard_proxy.Prelude.Tests.{◌==◌, Bool-cases, Option-cases}
use llm_guard_proxy.Prelude.Lists.{length, is_empty}
use llm_guard_proxy.Prelude.Words.{u64_max, saturating_add}
use llm_guard_proxy.Guardian.MemInfo.{strip_prefix}
use llm_guard_proxy.Watchdog.Sse.{
  max_pending_sse_residual_bytes, SseEventParser, new, retained_len, data_prefix, strip_space,
  finish_field, finish_line, consume_byte, consume_from, consume,
}
use llm_guard_proxy.Watchdog.Sse.Bounds.{
  IsBounded, length-join_data, BoundedResult, consume_from-BoundedResult,
}
use llm_guard_proxy.Watchdog.Fast.{
  FastState, SseLine, after_cr, next_sse_line, fast_sse_progress_outcome, fast_field, fast_line,
  fast_end, fast_loop, complete_sse_progress_without_buffering,
}
use llm_guard_proxy.Watchdog.Fast.Lines.{
  at, some_injective, line_injective, next_lf, next_cr, next_push, scan_none, finish_line-skip,
  scan_some,
}

abbrev starts_lf : List ℕ → Bool
starts_lf [] = false
starts_lf (c ∷ input) = c == 10

-- A line takes a byte, and a carriage return before a line feed ends no line alone.
abbrev Advances : List ℕ → SseLine → Type 0
Advances input l = (length l.rest < length input) × (l.ends_in_cr && starts_lf l.rest ≡ false)

after_cr-Advances : (c : ℕ) (input : List ℕ) → Advances (c ∷ input) (after_cr input)
after_cr-Advances c [] = ground arith
after_cr-Advances c (d ∷ input) = ground arith

next_sse_line-Advances :
    (input : List ℕ) (l : SseLine) → next_sse_line input ≡ some l → Advances input l
next_sse_line-Advances [] l h = absurd (unfold next_sse_line in cc)
next_sse_line-Advances (c ∷ input) l h = elim (Bool-cases (c == 10)) [
  | inl lf ↦
      subst (Advances (c ∷ input)) (line_injective _ l (sym (next_lf c input lf) ∙ h))
        (omega arith, refl)
  | inr lf ↦ elim (Bool-cases (c == 13)) [
    | inl cr ↦
        subst (Advances (c ∷ input)) (line_injective _ l (sym (next_cr c input lf cr) ∙ h))
          (after_cr-Advances c input)
    | inr cr ↦
        let (l', found, same) = next_push c input l lf cr h in
        let (shorter, clean) = next_sse_line-Advances input l' found in
        subst (Advances (c ∷ input)) same (omega (arith, shorter), clean)
  ]
]

-- A state of the loop with no large field.
abbrev plain : ℕ → List ℕ → Bool → Bool → FastState
plain n text has_data skip = record {
  progress = n;
  event_data = text;
  large_single_data = none;
  has_data = has_data;
  skip_lf_after_cr = skip;
}

fast_line-finish_line :
    (judge : List ℕ → Bool) (m : ℕ) (text : List ℕ) (has_data old skip : Bool) (line : List ℕ)
    (q : SseEventParser) (n : ℕ)
    → m ≤ u64_max
    → finish_line judge (at line text has_data false) ≡ some (q, n)
    → fast_line judge (plain m text has_data old) skip line
      ≡ some (plain (saturating_add u64_max m n) q.event_data q.has_data skip)
unfolding finish_line finish_field fast_line fast_field
fast_line-finish_line judge m text has_data old skip line q n b h =
    elim (Option-cases (strip_prefix data_prefix line)) [
      | inl e ↦ ground (arith, e, h, b)
      | inr (rest, e) ↦ ground (arith, e, h, b)
    ]

module _ (judge : List ℕ → Bool) where
  -- The flag of a parser whose input does not start with a line feed has no effect.
  consume_from-skip :
      (c : ℕ) (input : List ℕ) (m : ℕ) (text : List ℕ) (has_data skip : Bool)
      → (skip && (c == 10)) ≡ false
      → consume_from judge (c ∷ input) m (at [] text has_data skip)
        ≡ consume_from judge (c ∷ input) m (at [] text has_data false)
  unfolding consume_from consume_byte
  consume_from-skip c input m text has_data skip h = rw h refl

  fast_end-outcome :
      (c : ℕ) (input : List ℕ) (m : ℕ) (text : List ℕ) (has_data old : Bool)
      → IsBounded (at (c ∷ input) text has_data false)
      → fast_end (plain m text has_data old) false (c ∷ input)
        ≡ fast_sse_progress_outcome m (at (c ∷ input) text has_data false)
  unfolding fast_end retained_len
  fast_end-outcome c input m text has_data old b = ground (arith, b)

  last_case :
      (rounds c : ℕ) (input : List ℕ) (s : FastState)
      → next_sse_line (c ∷ input) ≡ none
      → fast_loop (suc rounds) judge s (c ∷ input) ≡ fast_end s false (c ∷ input)
  unfolding fast_loop
  last_case rounds c input s h = ground (arith, h)

  line_case :
      (rounds c : ℕ) (input : List ℕ) (s next : FastState) (l : SseLine)
      → next_sse_line (c ∷ input) ≡ some l
      → fast_line judge s (is_empty l.rest && l.ends_in_cr) l.line ≡ some next
      → fast_loop (suc rounds) judge s (c ∷ input) ≡ fast_loop rounds judge next l.rest
  unfolding fast_loop
  line_case rounds c input s next l h k = ground (arith, h, k)

  consume_done : (m : ℕ) (p : SseEventParser) → consume_from judge [] m p ≡ some (p, m)
  unfolding consume_from
  consume_done m p = refl

  end_case :
      (rounds : ℕ) (s : FastState)
      → s.large_single_data ≡ none
      → fast_loop rounds judge s []
        ≡ fast_sse_progress_outcome s.progress (at [] s.event_data s.has_data s.skip_lf_after_cr)
  unfolding fast_loop fast_end
  end_case zero s h = ground (arith, h)
  end_case (suc rounds) s h = ground (arith, h)

  finish_line-small :
      (text : List ℕ) (has_data : Bool) (line : List ℕ) (q : SseEventParser) (n : ℕ)
      → length text ≤ max_pending_sse_residual_bytes
      → finish_line judge (at line text has_data false) ≡ some (q, n)
      → length q.event_data ≤ max_pending_sse_residual_bytes
  unfolding finish_line finish_field
  finish_line-small text has_data line q n small h =
      elim (Option-cases (strip_prefix data_prefix line)) [
        | inl e ↦ ground (arith, e, h, small)
        | inr (rest, e) ↦
            ground (arith, e, h, small, length-join_data text has_data (strip_space rest))
      ]

  fast_loop-agrees :
      (rounds : ℕ) (input : List ℕ) (m : ℕ) (text : List ℕ) (has_data old skip : Bool)
      (q : SseEventParser) (n : ℕ)
      → length input ≤ rounds
      → m ≤ u64_max
      → length text ≤ max_pending_sse_residual_bytes
      → (skip && starts_lf input) ≡ false
      → (is_empty input ≡ true → old ≡ skip)
      → consume_from judge input m (at [] text has_data skip) ≡ some (q, n)
      → fast_loop rounds judge (plain m text has_data old) input ≡ fast_sse_progress_outcome n q
  fast_loop-agrees rounds [] m text has_data old skip q n fuel b small clean same h =
      let end =
        some_injective (at [] text has_data skip, m) (q, n)
          (sym (consume_done m (at [] text has_data skip)) ∙ h) in
      end_case rounds (plain m text has_data old) refl
      ∙ ap (λ x. fast_sse_progress_outcome m (at [] text has_data x)) (same refl)
      ∙ ap (λ x. fast_sse_progress_outcome x.1 x.0) end
  fast_loop-agrees zero (c ∷ input) m text has_data old skip q n fuel b small clean same h =
      absurd (omega (arith, fuel))
  fast_loop-agrees (suc rounds) (c ∷ input) m text has_data old skip q n fuel b small clean same h =
      let whole = sym (consume_from-skip c input m text has_data skip clean) ∙ h in
      elim (Option-cases (next_sse_line (c ∷ input))) [
        | inl e ↦
            let end = scan_none judge text has_data (c ∷ input) [] m (q, n) b e whole in
            let bounded = subst BoundedResult h (
              consume_from-BoundedResult judge (c ∷ input) m (at [] text has_data skip)
                (omega (arith, small))) in
            last_case rounds c input (plain m text has_data old) e
            ∙ fast_end-outcome c input m text has_data old (subst (λ x. IsBounded x.0) end bounded)
            ∙ ap (λ x. fast_sse_progress_outcome x.1 x.0) (sym end)
        | inr (l, e) ↦
            let (q', n', f, rest) =
              scan_some judge text has_data (c ∷ input) [] m (q, n) l b e whole in
            let (shorter, clean') = next_sse_line-Advances (c ∷ input) l e in
            let new_skip = is_empty l.rest && l.ends_in_cr in
            line_case rounds c input (plain m text has_data old)
              (plain (saturating_add u64_max m n') q'.event_data q'.has_data new_skip) l e
              (fast_line-finish_line judge m text has_data old new_skip l.line q' n' b f)
            ∙ fast_loop-agrees rounds l.rest (saturating_add u64_max m n') q'.event_data q'.has_data
                new_skip l.ends_in_cr q n (omega (arith, shorter, fuel)) (omega arith)
                (finish_line-small text has_data l.line q' n' small f) clean'
                (λ k. ground (arith, k))
                (ap
                    (λ x.
                      consume_from judge l.rest (saturating_add u64_max m n')
                        (record x { skip_lf_after_cr = l.ends_in_cr }))
                    (sym (finish_line-skip judge text has_data l.line q' n' f))
                  ∙ rest)
      ]

  -- Wherever the event parser accepts a chunk from its empty state, the parser of oversized chunks
  -- gives the outcome of the same progress and the same residual.
  pub complete_sse_progress_without_buffering-agrees :
      (chunk : List ℕ) (q : SseEventParser) (n : ℕ)
      → consume judge chunk new ≡ some (q, n)
      → complete_sse_progress_without_buffering judge chunk ≡ fast_sse_progress_outcome n q
  unfolding complete_sse_progress_without_buffering consume
  complete_sse_progress_without_buffering-agrees chunk q n h =
      fast_loop-agrees (length chunk) chunk 0 [] false false false q n (omega arith) (omega arith)
        (omega arith) refl (λ k. refl) h
