-- ===== src/Examples/RetryAfterRuns.antt =====
-- The replay budget and the Retry-After header on concrete requests.
use llm_guard_proxy.Prelude.{ℕ, ◌*◌, ◌≤◌, ◌≡◌, refl, ◌⊎◌, Option, none, some, List, [], ◌∷◌, arith}
use llm_guard_proxy.RetryAfter.{
  nanos_per_sec, HeaderMap, bounded_delay, sanitize, default, claim_usable, ordinary_attempt_number,
}
use llm_guard_proxy.RetryAfter.Budget.{
  rate_limited, recovered, granted, granted-le-one, claim_usable-rung,
}
use llm_guard_proxy.RetryAfter.Header.{Forwards, sanitize-bounded_delay}
use llm_guard_proxy.Prelude.Decimal.{read_digits, parse_unsigned, print_unsigned}

-- Headers that hold one value at most, and values that are texts.
abbrev one_value : HeaderMap
one_value = record {
  Headers = Option (List ℕ);
  Value = List ℕ;
  get = λ headers. headers;
  clear = λ headers. none;
  put = λ value headers. some value;
  to_str = λ value. some value;
  from_str = λ text. some text;
  get_clear = λ headers. refl;
  get_put = λ value headers. refl;
  from_visible = λ text h. (text, refl, refl);
}

-- "+7", which parses, and is forwarded as "7".
plus_seven_forwarded :
    sanitize one_value (some (b'+' ∷ b'7' ∷ [])) (10 * nanos_per_sec) ≡ some (b'7' ∷ [])
unfolding sanitize parse_unsigned print_unsigned read_digits
plus_seven_forwarded = refl

-- Neither the header that asks for nothing, nor one out of bounds, is forwarded.
zero_removed : sanitize one_value (some (b'0' ∷ [])) (10 * nanos_per_sec) ≡ none
unfolding sanitize parse_unsigned read_digits
zero_removed = refl

sanitize-bounded_delay_example :
    let headers : Option (List ℕ) = some (b'+' ∷ b'7' ∷ []) in
    let maximum = 10 * nanos_per_sec in
    ((bounded_delay one_value headers maximum ≡ none) × (sanitize one_value headers maximum ≡ none))
    ⊎ ((delay : ℕ) × (bounded_delay one_value headers maximum ≡ some delay)
        × Forwards one_value headers maximum delay
        × (bounded_delay one_value (sanitize one_value headers maximum) maximum ≡ some delay))
sanitize-bounded_delay_example =
    sanitize-bounded_delay one_value (some (b'+' ∷ b'7' ∷ [])) (10 * nanos_per_sec)

claim_usable-rung_example :
    ordinary_attempt_number (claim_usable default (some 5) 2).0 3
    ≡ ordinary_attempt_number default 2
unfolding default
claim_usable-rung_example = (claim_usable-rung default 5 2 1 refl (omega arith) (omega arith)).1

granted-le-one_example :
    granted default (rate_limited (some 5) 1 ∷ recovered 2 ∷ rate_limited (some 5) 3 ∷ []) ≤ 1
granted-le-one_example =
    granted-le-one default (rate_limited (some 5) 1 ∷ recovered 2 ∷ rate_limited (some 5) 3 ∷ [])
