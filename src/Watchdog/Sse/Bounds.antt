-- ===== src/Watchdog/Sse/Bounds.antt =====
-- What the event parser retains is bounded.
use mathlib.Core.Path.{subst}
use llm_guard_proxy.Prelude.{
  ℕ, ◌+◌, ◌≤◌, ◌≡◌, inl, inr, Bool, true, false, ◌&&◌, Option, none, some, List, [], ◌∷◌, ◌++◌,
  arith,
}
use llm_guard_proxy.Prelude.Tests.{ltb, ◌==◌, if◌then◌else◌, Bool-cases, Option-cases}
use llm_guard_proxy.Prelude.Lists.{length, is_empty, length-append}
use llm_guard_proxy.Prelude.Words.{u64_max, saturating_add}
use llm_guard_proxy.Guardian.MemInfo.{strip_prefix}
use llm_guard_proxy.Watchdog.Sse.{
  max_pending_sse_residual_bytes, SseEventParser, bit, retained_len, data_prefix, strip_space,
  join_data, finish_field, finish_line, set_skip, take_byte, consume_byte, consume_from, consume,
}
use llm_guard_proxy.Watchdog.Sse.Chunks.{consume_stop, consume_next}

-- The bytes that a parser holds, at most the cap.
abbrev pub IsBounded : SseEventParser → Type 0
IsBounded p = length p.line + length p.event_data ≤ max_pending_sse_residual_bytes

pub length-join_data :
    (text : List ℕ) (has_data : Bool) (field : List ℕ)
    → length (join_data text has_data field) ≡ length text + bit has_data + length field
length-join_data text true field = omega (arith, length-append text (10 ∷ field))
length-join_data text false field = omega (arith, length-append text field)

-- The same in a result.
abbrev pub BoundedResult : Option (SseEventParser × ℕ) → Type 0
BoundedResult none = Unit {0}
BoundedResult (some (p, n)) = IsBounded p

module _ (judge : List ℕ → Bool) where
  finish_field-BoundedResult :
      (p : SseEventParser) (field : Option (List ℕ))
      → IsBounded p
      → BoundedResult (finish_field p field)
  unfolding finish_field
  finish_field-BoundedResult p none b = omega (arith, b)
  finish_field-BoundedResult p (some rest) b =
      ground (arith, length-join_data p.event_data p.has_data (strip_space rest))

  finish_line-BoundedResult :
      (p : SseEventParser) → IsBounded p → BoundedResult (finish_line judge p)
  unfolding finish_line
  finish_line-BoundedResult p b = elim (Bool-cases (is_empty p.line)) [
    | inl e ↦ rw e (omega arith)
    | inr e ↦ rw e (finish_field-BoundedResult p (strip_prefix data_prefix p.line) b)
  ]

  set_skip-BoundedResult :
      (r : Option (SseEventParser × ℕ)) → BoundedResult r → BoundedResult (set_skip true r)
  set_skip-BoundedResult none b = tt
  set_skip-BoundedResult (some (p, n)) b = b

  pushed_BoundedResult :
      (q : SseEventParser)
      → BoundedResult
          (if ltb max_pending_sse_residual_bytes (retained_len q) then none else some (q, 0))
  unfolding retained_len
  pushed_BoundedResult q = elim (Bool-cases (ltb max_pending_sse_residual_bytes (retained_len q))) [
    | inl e ↦ rw e tt
    | inr e ↦ rw e (ground (arith, e))
  ]

  take_byte-BoundedResult :
      (byte : ℕ) (p : SseEventParser) → IsBounded p → BoundedResult (take_byte judge byte p)
  unfolding take_byte
  take_byte-BoundedResult byte p b = elim (Bool-cases (byte == 13)) [
    | inl e ↦ rw e (set_skip-BoundedResult _ (finish_line-BoundedResult p b))
    | inr e ↦ elim (Bool-cases (byte == 10)) [
      | inl k ↦ rw (e, k) (finish_line-BoundedResult p b)
      | inr k ↦ rw (e, k) (pushed_BoundedResult (record p { line = p.line ++ byte ∷ [] }))
    ]
  ]

  consume_byte-BoundedResult :
      (byte : ℕ) (p : SseEventParser) → IsBounded p → BoundedResult (consume_byte judge byte p)
  unfolding consume_byte
  consume_byte-BoundedResult byte p b = elim (Bool-cases (p.skip_lf_after_cr && (byte == 10))) [
    | inl e ↦ rw e b
    | inr e ↦ rw e (take_byte-BoundedResult byte (record p { skip_lf_after_cr = false }) b)
  ]

  pub consume_from-BoundedResult :
      (chunk : List ℕ) (m : ℕ) (p : SseEventParser)
      → IsBounded p
      → BoundedResult (consume_from judge chunk m p)
  consume_from-BoundedResult [] m p b = unfold consume_from in b
  consume_from-BoundedResult (byte ∷ chunk) m p b =
      elim (Option-cases (consume_byte judge byte p)) [
        | inl e ↦ rw (consume_stop judge byte chunk m p e) tt
        | inr ((q, n), e) ↦ rw (consume_next judge byte chunk m p q n e) (
            consume_from-BoundedResult chunk (saturating_add u64_max m n) q
              (subst BoundedResult e (consume_byte-BoundedResult byte p b)))
      ]

  -- A parser that holds at most 64 KiB holds at most 64 KiB after any chunk that it accepts.
  pub consume-IsBounded :
      (chunk : List ℕ) (p q : SseEventParser) (n : ℕ)
      → IsBounded p
      → consume judge chunk p ≡ some (q, n)
      → IsBounded q
  unfolding consume
  consume-IsBounded chunk p q n b h = subst BoundedResult h (consume_from-BoundedResult chunk 0 p b)
