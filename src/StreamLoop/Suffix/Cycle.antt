-- ===== src/StreamLoop/Suffix/Cycle.antt =====
-- `suffix_cycle` finds what the text ends in: a cycle that it returns is there, and where it
-- returns none there is no unit with enough copies.
use native.Mathlib.Decide.{dec_lt}
use llm_guard_proxy.Prelude.{
  ℕ, zero, suc, ◌+◌, ◌-◌, ◌*◌, ◌≤◌, ◌<◌, ◌≡◌, refl, sym, ap, ◌∙◌, inl, inr, true, false, List, ◌++◌,
  arith,
}
use llm_guard_proxy.Prelude.Tests.{le→leb, leb→le, Bool-cases}
use llm_guard_proxy.Prelude.Lists.{
  length, drop, length-append, same_bytes, same_bytes-eq, same_bytes_self,
}
use llm_guard_proxy.Prelude.Words.{u64_max, saturating_mul}
use llm_guard_proxy.Prelude.Text.{take}
use llm_guard_proxy.StreamLoop.Suffix.{fits, again, count_repetitions}
use llm_guard_proxy.StreamLoop.Suffix.Copies.{copies, length-copies, one_more_copy, slice-copies}

module _ (chars : List ℕ) (unit_len : ℕ) (unit : List ℕ) where
  count_zero : (r : ℕ) → count_repetitions zero chars unit_len unit r ≡ r
  unfolding count_repetitions
  count_zero r = refl

  count_again :
      (rounds r : ℕ)
      → fits chars unit_len r ≡ true
      → again chars unit_len unit r ≡ true
      → count_repetitions (suc rounds) chars unit_len unit r
        ≡ count_repetitions rounds chars unit_len unit (r + 1)
  unfolding count_repetitions
  count_again rounds r h k = ground (arith, h, k)

  count_short :
      (rounds r : ℕ)
      → fits chars unit_len r ≡ false
      → count_repetitions (suc rounds) chars unit_len unit r ≡ r
  unfolding count_repetitions
  count_short rounds r h = ground (arith, h)

  count_other :
      (rounds r : ℕ)
      → fits chars unit_len r ≡ true
      → again chars unit_len unit r ≡ false
      → count_repetitions (suc rounds) chars unit_len unit r ≡ r
  unfolding count_repetitions
  count_other rounds r h k = ground (arith, h, k)

-- The text ends in `r` copies of the unit.
abbrev pub EndsIn : List ℕ → ℕ → List ℕ → Type 0
EndsIn chars r unit = (pre : List ℕ) × (chars ≡ pre ++ copies r unit)

module _ (chars unit : List ℕ) (bounded : length chars < u64_max) where
  start_unsaturated :
      (r : ℕ)
      → fits chars (length unit) r ≡ true
      → saturating_mul u64_max (length unit) (r + 1) ≡ length unit * (r + 1)
  unfolding fits
  start_unsaturated r h = omega (arith, leb→le _ _ h)

  extend :
      (r : ℕ)
      → EndsIn chars r unit
      → fits chars (length unit) r ≡ true
      → again chars (length unit) unit r ≡ true
      → EndsIn chars (r + 1) unit
  unfolding fits again
  extend r (pre, e) h k =
      let start = length chars - saturating_mul u64_max (length unit) (r + 1) in
      let room : length pre ≡ start + length unit = omega (
        arith,
        start_unsaturated r h,
        leb→le _ _ h,
        ap length e,
        length-append pre (copies r unit),
        length-copies r unit,
      ) in
      let sum : suc r ≡ r + 1 = omega arith in
      (
        take start pre,
        e
            ∙ one_more_copy pre unit r start room
                (ap (λ xs. take (length unit) (drop start xs)) (sym e) ∙ same_bytes-eq _ unit k)
            ∙ ap (λ n. take start pre ++ copies n unit) sum,
      )

  pub count_repetitions-EndsIn :
      (rounds r : ℕ)
      → EndsIn chars r unit
      → EndsIn chars (count_repetitions rounds chars (length unit) unit r) unit
  count_repetitions-EndsIn zero r h = rw (count_zero chars (length unit) unit r) h
  count_repetitions-EndsIn (suc rounds) r h = elim (Bool-cases (fits chars (length unit) r)) [
    | inr short ↦ rw (count_short chars (length unit) unit rounds r short) h
    | inl fit ↦ elim (Bool-cases (again chars (length unit) unit r)) [
      | inr other ↦ rw (count_other chars (length unit) unit rounds r fit other) h
      | inl more ↦
          rw (count_again chars (length unit) unit rounds r fit more)
            (count_repetitions-EndsIn rounds (r + 1) (extend r h fit more))
    ]
  ]

  -- Where there are more copies, the loop goes on.
  goes_on :
      (r m : ℕ)
      → EndsIn chars m unit
      → r < m
      → (fits chars (length unit) r ≡ true) × (again chars (length unit) unit r ≡ true)
  unfolding fits again
  goes_on r m (pre, e) h =
      let size : length chars ≡ length pre + length unit * m =
        omega (arith, ap length e, length-append pre (copies m unit), length-copies m unit) in
      let fewer : length unit * (r + 1) ≤ length unit * m =
        native.Mathlib.Nat.mul-le-mul_left (length unit) (omega arith) in
      let fit : fits chars (length unit) r ≡ true = le→leb _ _ (omega arith) in
      let start = length chars - saturating_mul u64_max (length unit) (r + 1) in
      let at_start : start + length unit * (r + 1) ≡ length (pre ++ copies m unit) =
        omega (arith, start_unsaturated r fit, ap length e) in
      let same : take (length unit) (drop start chars) ≡ unit =
        ap (λ xs. take (length unit) (drop start xs)) e
        ∙ slice-copies pre unit r m start h at_start in
      (fit, ap (λ xs. same_bytes xs unit) same ∙ same_bytes_self unit)

  at_least : (rounds r : ℕ) → r ≤ count_repetitions rounds chars (length unit) unit r
  unfolding count_repetitions
  at_least zero r = omega arith
  at_least (suc rounds) r = ground (arith, at_least rounds (r + 1))

  pub count_repetitions-enough :
      (rounds r m : ℕ)
      → EndsIn chars m unit
      → m ≤ r + rounds
      → m ≤ count_repetitions rounds chars (length unit) unit r
  count_repetitions-enough zero r m h k = omega (arith, at_least zero r)
  count_repetitions-enough (suc rounds) r m h k = elim (native.Mathlib.Decide.dec_lt r m) [
    | yes less ↦
        let (fit, more) = goes_on r m h less in
        rw (count_again chars (length unit) unit rounds r fit more)
          (count_repetitions-enough rounds (r + 1) m h (omega arith))
    | no more ↦ omega (arith, at_least (suc rounds) r)
  ]
