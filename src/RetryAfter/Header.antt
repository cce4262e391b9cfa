-- ===== src/RetryAfter/Header.antt =====
-- The Retry-After header that goes downstream.
use llm_guard_proxy.Prelude.{
  ℕ, ◌/◌, ◌%◌, ◌≤◌, ◌<◌, ◌≡◌, ap, ◌∙◌, ◌⊎◌, inl, inr, none, some, List, arith,
}
use llm_guard_proxy.Prelude.Tests.{Option-cases}
use llm_guard_proxy.Prelude.Words.{u64_max}
use llm_guard_proxy.RetryAfter.{
  nanos_per_sec, HeaderMap, usable_delay, bounded_delay, sanitized, sanitize,
}
use llm_guard_proxy.Prelude.Decimal.{
  parse_unsigned, print_unsigned, print_unsigned-AllDigits, parse_unsigned-print,
  parse_unsigned-bound,
}

module _ (http : HeaderMap) (headers : http.Headers) (maximum : ℕ) where
  bounded_delay-absent : http.get headers ≡ none → bounded_delay http headers maximum ≡ none
  unfolding bounded_delay
  bounded_delay-absent h = ground arith

  bounded_delay-present :
      (value : http.Value) (text : List ℕ) (seconds : ℕ)
      → http.get headers ≡ some value
      → http.to_str value ≡ some text
      → parse_unsigned text ≡ some seconds
      → bounded_delay http headers maximum ≡ usable_delay maximum seconds
  unfolding bounded_delay
  bounded_delay-present value text seconds e f g = ground arith

  sanitize-unusable :
      bounded_delay http headers maximum ≡ none → sanitize http headers maximum ≡ http.clear headers
  unfolding sanitize sanitized
  sanitize-unusable h = ground arith

  sanitize-usable :
      (delay : ℕ) (value : http.Value)
      → bounded_delay http headers maximum ≡ some delay
      → http.from_str (print_unsigned (delay / nanos_per_sec)) ≡ some value
      → sanitize http headers maximum ≡ http.put value (http.clear headers)
  unfolding sanitize sanitized
  sanitize-usable delay value h k = ground arith

module _ (http : HeaderMap) (headers : http.Headers) (maximum : ℕ) where
  -- A usable delay is a whole positive number of seconds within the maximum.
  pub bounded_delay_bounds :
      (delay : ℕ)
      → bounded_delay http headers maximum ≡ some delay
      → (0 < delay) × (delay ≤ maximum) × (delay % nanos_per_sec ≡ 0)
  unfolding bounded_delay
  bounded_delay_bounds delay h = ground arith

  seconds_of :
      (delay : ℕ)
      → bounded_delay http headers maximum ≡ some delay
      → (seconds : ℕ) × (seconds ≤ u64_max) × (usable_delay maximum seconds ≡ some delay)
  unfolding bounded_delay
  seconds_of delay h = elim (Option-cases (http.get headers)) [
    | inl e ↦ absurd (ground (arith, e))
    | inr (value, e) ↦ elim (Option-cases (http.to_str value)) [
      | inl f ↦ absurd (ground (arith, e, f))
      | inr (text, f) ↦ elim (Option-cases (parse_unsigned text)) [
        | inl g ↦ absurd (ground (arith, e, f, g))
        | inr (seconds, g) ↦ (seconds, parse_unsigned-bound text seconds g, ground (arith, e, f, g))
      ]
    ]
  ]

  usable_delay-seconds :
      (seconds delay : ℕ)
      → usable_delay maximum seconds ≡ some delay
      → delay / nanos_per_sec ≡ seconds
  unfolding usable_delay
  usable_delay-seconds seconds delay h = ground arith

  -- The header in decimal that stands for a delay.
  pub record Forwards (delay : ℕ) : Type 0 where
    pub value : http.Value
    pub sent : http.get (sanitize http headers maximum) ≡ some value
    pub reads : http.to_str value ≡ some (print_unsigned (delay / nanos_per_sec))

  sanitize-absent :
      bounded_delay http headers maximum ≡ none → http.get (sanitize http headers maximum) ≡ none
  sanitize-absent e = rw (sanitize-unusable http headers maximum e) (http.get_clear headers)

  sanitize-Forwards : (delay : ℕ) → bounded_delay http headers maximum ≡ some delay → Forwards delay
  sanitize-Forwards delay e =
      let (value, made, reads) =
        http.from_visible (print_unsigned (delay / nanos_per_sec))
          (print_unsigned-AllDigits (delay / nanos_per_sec)) in
      record {
        value = value;
        sent = rw (sanitize-usable http headers maximum delay value e made) (http.get_put value _);
        reads = reads;
      }

  read_again :
      (delay : ℕ)
      → bounded_delay http headers maximum ≡ some delay
      → bounded_delay http (sanitize http headers maximum) maximum ≡ some delay
  read_again delay e =
      let (seconds, small, usable) = seconds_of delay e in
      let f = sanitize-Forwards delay e in
      let text : http.to_str f.value ≡ some (print_unsigned seconds) =
        f.reads ∙ ap (λ n. some (print_unsigned n)) (usable_delay-seconds seconds delay usable) in
      bounded_delay-present http _ maximum f.value (print_unsigned seconds) seconds f.sent text
        (parse_unsigned-print seconds small)
      ∙ usable

  -- Where the delay of the response is unusable, or there is none, `sanitize` leaves no header; where
  -- it is usable, `sanitize` leaves the delay in seconds as a plain decimal number, whatever the
  -- response had written, and the client reads from it the delay that the proxy read.
  pub sanitize-bounded_delay :
      ((bounded_delay http headers maximum ≡ none)
        × (http.get (sanitize http headers maximum) ≡ none))
      ⊎ ((delay : ℕ) × (bounded_delay http headers maximum ≡ some delay)
          × Forwards delay
          × (bounded_delay http (sanitize http headers maximum) maximum ≡ some delay))
  sanitize-bounded_delay = elim (Option-cases (bounded_delay http headers maximum)) [
    | inl e ↦ inl (e, sanitize-absent e)
    | inr (delay, e) ↦ inr (delay, e, sanitize-Forwards delay e, read_again delay e)
  ]
