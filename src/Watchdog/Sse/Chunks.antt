-- ===== src/Watchdog/Sse/Chunks.antt =====
-- The events of a stream do not depend on where it is cut into chunks.
use llm_guard_proxy.Prelude.{
  ℕ, ◌≤◌, ◌≡◌, refl, sym, ap, ◌∙◌, inl, inr, Bool, Option, none, some, List, [], ◌∷◌, ◌++◌, arith,
}
use llm_guard_proxy.Prelude.Tests.{Option-cases}
use llm_guard_proxy.Prelude.Words.{u64_max, saturating_add}
use llm_guard_proxy.Watchdog.Sse.{SseEventParser, consume_byte, consume_from, consume}

-- A second parse behind a first, with its progress added.
abbrev pub add_progress : ℕ → Option (SseEventParser × ℕ) → Option (SseEventParser × ℕ)
add_progress m none = none
add_progress m (some (p, n)) = some (p, saturating_add u64_max m n)

abbrev pub followed :
    Option (SseEventParser × ℕ)
    → (SseEventParser → Option (SseEventParser × ℕ))
    → Option (SseEventParser × ℕ)
followed none second = none
followed (some (p, m)) second = add_progress m (second p)

module _ (judge : List ℕ → Bool) where
  pub consume_stop :
      (byte : ℕ) (chunk : List ℕ) (m : ℕ) (p : SseEventParser)
      → consume_byte judge byte p ≡ none
      → consume_from judge (byte ∷ chunk) m p ≡ none
  unfolding consume_from
  consume_stop byte chunk m p h = ground (arith, h)

  pub consume_next :
      (byte : ℕ) (chunk : List ℕ) (m : ℕ) (p q : SseEventParser) (n : ℕ)
      → consume_byte judge byte p ≡ some (q, n)
      → consume_from judge (byte ∷ chunk) m p
        ≡ consume_from judge chunk (saturating_add u64_max m n) q
  unfolding consume_from
  consume_next byte chunk m p q n h = ground (arith, h)

  add_progress_twice :
      (m n : ℕ) (r : Option (SseEventParser × ℕ))
      → add_progress (saturating_add u64_max m n) r ≡ add_progress m (add_progress n r)
  add_progress_twice m n none = refl
  add_progress_twice m n (some (p, k)) = ap (λ x. some (p, x)) (omega arith)

  -- The counter only adds to what is counted, up to the largest u64.
  pub consume_from-add_progress :
      (chunk : List ℕ) (m n : ℕ) (p : SseEventParser)
      → consume_from judge chunk (saturating_add u64_max m n) p
        ≡ add_progress m (consume_from judge chunk n p)
  consume_from-add_progress [] m n p = unfold consume_from in refl
  consume_from-add_progress (byte ∷ chunk) m n p = elim (Option-cases (consume_byte judge byte p)) [
    | inl e ↦
        rw (consume_stop byte chunk (saturating_add u64_max m n) p e, consume_stop byte chunk n p e)
          refl
    | inr ((q, k), e) ↦
        consume_next byte chunk (saturating_add u64_max m n) p q k e
        ∙ ap (λ x. consume_from judge chunk x q) (omega arith)
        ∙ consume_from-add_progress chunk m (saturating_add u64_max n k) q
        ∙ ap (add_progress m) (sym (consume_next byte chunk n p q k e))
  ]

  consume_from-append :
      (a b : List ℕ) (m : ℕ) (p : SseEventParser)
      → m ≤ u64_max
      → consume_from judge (a ++ b) m p
        ≡ followed (consume_from judge a m p) (λ q. consume_from judge b 0 q)
  consume_from-append [] b m p h =
      ap (λ x. consume_from judge b x p) (omega (arith, h))
      ∙ consume_from-add_progress b m 0 p
      ∙ unfold consume_from in refl
  consume_from-append (byte ∷ a) b m p h = elim (Option-cases (consume_byte judge byte p)) [
    | inl e ↦ rw (consume_stop byte (a ++ b) m p e, consume_stop byte a m p e) refl
    | inr ((q, n), e) ↦
        consume_next byte (a ++ b) m p q n e
        ∙ consume_from-append a b (saturating_add u64_max m n) q (omega arith)
        ∙ ap (λ x. followed x (λ r. consume_from judge b 0 r)) (sym (consume_next byte a m p q n e))
  ]

  -- A stream in two chunks gives the parser, the progress and the oversize that it gives in one.
  pub consume-append :
      (a b : List ℕ) (p : SseEventParser)
      → consume judge (a ++ b) p ≡ followed (consume judge a p) (consume judge b)
  unfolding consume
  consume-append a b p = consume_from-append a b 0 p (omega arith)
