-- ===== src/StreamLoop/Suffix/Search.antt =====
-- The search over the lengths of a unit: what `suffix_cycle` returns, and when it returns none.
use native.Mathlib.Decide.{ℕ_discrete}
use mathlib.Core.Path.{subst}
use mathlib.Core.List.{append-nil, append_assoc}
use llm_guard_proxy.Prelude.{
  ℕ, zero, suc, ◌+◌, ◌-◌, ◌*◌, ◌≤◌, ◌<◌, ◌≡◌, refl, sym, ap, ◌∙◌, ◌≢◌, ◌⊎◌, inl, inr, none, some,
  List, ◌++◌, arith,
}
use llm_guard_proxy.Prelude.Tests.{Option-cases}
use llm_guard_proxy.Prelude.Lists.{length, drop, length-append, length-drop}
use llm_guard_proxy.Prelude.Words.{u64_max, saturating_mul}
use llm_guard_proxy.Prelude.Text.{as_bytes, take}
use llm_guard_proxy.StreamLoop.Hash.{stable_hash}
use llm_guard_proxy.StreamLoop.Suffix.{
  SuffixCycle, count_repetitions, try_unit, search_units, suffix_cycle,
}
use llm_guard_proxy.StreamLoop.Suffix.Copies.{
  drop-append_all, take-drop, copies, length-copies, copies-add,
}
use llm_guard_proxy.StreamLoop.Suffix.Cycle.{
  EndsIn, count_repetitions-EndsIn, count_repetitions-enough,
}

-- The unit behind a cycle, and what the text before it is.
pub record Found (chars : List ℕ) (minimum_repetitions : ℕ) (cycle : SuffixCycle) : Type 0 where
  pub unit : List ℕ
  pub ends : EndsIn chars cycle.repetitions unit
  pub at_least_min : 4 ≤ length unit
  pub at_most_max : length unit ≤ 64
  pub often : minimum_repetitions ≤ cycle.repetitions
  pub hashed : cycle.unit_hash ≡ stable_hash (as_bytes unit)

last_copy :
    (chars pre unit : List ℕ) (m : ℕ)
    → 0 < m
    → chars ≡ pre ++ copies m unit
    → drop (length chars - length unit) chars ≡ unit
last_copy chars pre unit m positive e =
    let sum : m ≡ (m - 1) + 1 = omega arith in
    let parts : chars ≡ (pre ++ copies (m - 1) unit) ++ unit =
      e
      ∙ ap (λ n. pre ++ copies n unit) sum
      ∙ ap (λ xs. pre ++ xs) (sym (copies-add (m - 1) 1 unit))
      ∙ ap (λ xs. pre ++ (copies (m - 1) unit ++ xs)) (append-nil unit)
      ∙ sym (append_assoc pre (copies (m - 1) unit) unit) in
    let start : length chars - length unit ≡ length (pre ++ copies (m - 1) unit) =
      omega (arith, ap length parts, length-append (pre ++ copies (m - 1) unit) unit) in
    ap (λ n. drop n chars) start
    ∙ ap (drop (length (pre ++ copies (m - 1) unit))) parts
    ∙ drop-append_all (pre ++ copies (m - 1) unit) unit

module _ (chars : List ℕ) (m : ℕ) (bounded : length chars < u64_max) (positive : 0 < m) where
  abbrev suffix_of : ℕ → List ℕ
  suffix_of unit_len = drop (length chars - unit_len) chars

  abbrev counted : ℕ → ℕ
  counted unit_len = count_repetitions (length chars) chars unit_len (suffix_of unit_len) 1

  try_some :
      (unit_len : ℕ) (cycle : SuffixCycle)
      → try_unit chars m unit_len ≡ some cycle
      → (saturating_mul u64_max unit_len m ≤ length chars)
        × (m ≤ cycle.repetitions)
        × (cycle.repetitions ≡ counted unit_len)
        × (cycle.unit_hash ≡ stable_hash (as_bytes (suffix_of unit_len)))
  unfolding try_unit
  try_some unit_len cycle h = ground arith

  try_none :
      (unit_len : ℕ)
      → try_unit chars m unit_len ≡ none
      → (length chars < saturating_mul u64_max unit_len m) ⊎ (counted unit_len < m)
  unfolding try_unit
  try_none unit_len h = ground arith

  -- A unit at which the text is long enough: its suffix is one copy, and the loop counts copies.
  unit_Found :
      (unit_len : ℕ) (cycle : SuffixCycle)
      → 4 ≤ unit_len
      → unit_len ≤ 64
      → try_unit chars m unit_len ≡ some cycle
      → Found chars m cycle
  unit_Found unit_len cycle low high h =
      let (long, often, counts, hashed) = try_some unit_len cycle h in
      let unit = suffix_of unit_len in
      let once : unit_len * 1 ≤ unit_len * m =
        native.Mathlib.Nat.mul-le-mul_left unit_len positive in
      let size : length unit ≡ unit_len =
        omega (arith, length-drop (length chars - unit_len) chars) in
      let start : EndsIn chars 1 unit = (
        take (length chars - unit_len) chars,
        sym (take-drop (length chars - unit_len) chars)
            ∙ ap (λ xs. take (length chars - unit_len) chars ++ xs) (sym (append-nil unit)),
      ) in
      let ends : EndsIn chars (counted unit_len) unit =
        subst (λ n. EndsIn chars (count_repetitions (length chars) chars n unit 1) unit) size
          (count_repetitions-EndsIn chars unit bounded (length chars) 1 start) in
      record {
        unit = unit;
        ends = subst (λ n. EndsIn chars n unit) (sym counts) ends;
        at_least_min = omega (arith, size);
        at_most_max = omega (arith, size);
        often = often;
        hashed = hashed;
      }

  search_here :
      (rounds unit_len : ℕ) (cycle : SuffixCycle)
      → try_unit chars m unit_len ≡ some cycle
      → search_units (suc rounds) chars m unit_len ≡ some cycle
  unfolding search_units
  search_here rounds unit_len cycle e = ground (arith, e)

  search_next :
      (rounds unit_len : ℕ)
      → try_unit chars m unit_len ≡ none
      → search_units (suc rounds) chars m unit_len ≡ search_units rounds chars m (unit_len + 1)
  unfolding search_units
  search_next rounds unit_len e = ground (arith, e)

  search_end : (unit_len : ℕ) → search_units zero chars m unit_len ≡ none
  unfolding search_units
  search_end unit_len = refl

  search_units-Found :
      (rounds unit_len : ℕ) (cycle : SuffixCycle)
      → 4 ≤ unit_len
      → unit_len + rounds ≤ 65
      → search_units rounds chars m unit_len ≡ some cycle
      → Found chars m cycle
  search_units-Found zero unit_len cycle low high h = absurd (cc (h, search_end unit_len))
  search_units-Found (suc rounds) unit_len cycle low high h =
      elim (Option-cases (try_unit chars m unit_len)) [
        | inl e ↦
            search_units-Found rounds (unit_len + 1) cycle (omega arith) (omega arith)
              (sym (search_next rounds unit_len e) ∙ h)
        | inr (found, e) ↦
            unit_Found unit_len cycle low (omega arith)
              (e ∙ sym (search_here rounds unit_len found e) ∙ h)
      ]

  unit_none :
      (pre unit : List ℕ)
      → 4 ≤ length unit
      → chars ≡ pre ++ copies m unit
      → try_unit chars m (length unit) ≢ none
  unit_none pre unit low e h =
      let size : length chars ≡ length pre + length unit * m =
        omega (arith, ap length e, length-append pre (copies m unit), length-copies m unit) in
      let one : 1 * m ≤ length unit * m = native.Mathlib.Nat.mul-le-mul_right m (omega arith) in
      let same : suffix_of (length unit) ≡ unit = last_copy chars pre unit m positive e in
      let enough : m ≤ counted (length unit) =
        subst (λ xs. m ≤ count_repetitions (length chars) chars (length unit) xs 1) (sym same)
          (count_repetitions-enough chars unit bounded (length chars) 1 m (pre, e) (omega arith)) in
      elim (try_none (length unit) h) [
        | inl short ↦ omega (arith, size)
        | inr few ↦ omega (arith, enough)
      ]

  search_units-tried :
      (rounds unit_len tried : ℕ)
      → search_units rounds chars m unit_len ≡ none
      → unit_len ≤ tried
      → tried < unit_len + rounds
      → try_unit chars m tried ≡ none
  search_units-tried zero unit_len tried h low high = absurd (omega arith)
  search_units-tried (suc rounds) unit_len tried h low high =
      elim (Option-cases (try_unit chars m unit_len)) [
        | inr (found, e) ↦ absurd (cc (h, search_here rounds unit_len found e))
        | inl e ↦ elim (native.Mathlib.Decide.ℕ_discrete unit_len tried) [
          | yes here ↦ subst (λ n. try_unit chars m n ≡ none) here e
          | no later ↦
              search_units-tried rounds (unit_len + 1) tried
                (sym (search_next rounds unit_len e) ∙ h) (omega (arith, later)) (omega arith)
        ]
      ]

-- A cycle that is found is there: the text, of fewer than 2^64 - 1 characters, ends in so many
-- copies of a unit of 4 to 64 characters, as many as asked for at least, and the hash is that of
-- the unit; one copy at least is asked for.
pub suffix_cycle-Found :
    (chars : List ℕ) (m : ℕ) (cycle : SuffixCycle)
    → length chars < u64_max
    → 0 < m
    → suffix_cycle chars m ≡ some cycle
    → Found chars m cycle
unfolding suffix_cycle
suffix_cycle-Found chars m cycle bounded positive h =
    search_units-Found chars m bounded positive 61 4 cycle (omega arith) (omega arith) h

-- Where no cycle is found, a text of fewer than 2^64 - 1 characters does not end in as many copies
-- of any unit of 4 to 64 characters as are asked for, one at least.
pub suffix_cycle-none :
    (chars : List ℕ) (m : ℕ)
    → length chars < u64_max
    → 0 < m
    → suffix_cycle chars m ≡ none
    → (pre unit : List ℕ) → 4 ≤ length unit
    → length unit ≤ 64
    → chars ≢ pre ++ copies m unit
unfolding suffix_cycle
suffix_cycle-none chars m bounded positive h pre unit low high e =
    unit_none chars m bounded positive pre unit low e
      (search_units-tried chars m bounded positive 61 4 (length unit) h low (omega arith))
