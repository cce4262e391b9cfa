-- ===== src/StreamLoop/Suffix.antt =====
-- `suffix_cycle` of loop_detector.rs: the shortest unit of 4 to 64 characters that the text ends in
-- often enough. The `while` loop takes a round for each character, since a repetition has four at
-- least; the `for` loop takes a round for each length of a unit.
pub mod Copies
pub mod Cycle
pub mod Search
use llm_guard_proxy.Prelude.{ℕ, zero, suc, ◌+◌, ◌-◌, Bool, true, false, Option, none, some, List}
use llm_guard_proxy.Prelude.Tests.{ltb, leb, if◌then◌else◌}
use llm_guard_proxy.Prelude.Lists.{length, drop, same_bytes}
use llm_guard_proxy.Prelude.Words.{u64_max, saturating_mul}
use llm_guard_proxy.Prelude.Text.{as_bytes, take}
use llm_guard_proxy.StreamLoop.Hash.{stable_hash}

abbrev pub loop_suffix_min_unit_chars : ℕ
loop_suffix_min_unit_chars = 4

abbrev pub loop_suffix_max_unit_chars : ℕ
loop_suffix_max_unit_chars = 64

pub record SuffixCycle : Type 0 where
  pub unit_hash : ℕ
  pub repetitions : ℕ

-- `chars[start..start + unit_len]`
abbrev pub slice : List ℕ → ℕ → ℕ → List ℕ
slice chars start unit_len = take unit_len (drop start chars)

-- `chars.len() >= unit_len * (repetitions + 1)`
unfoldable pub fits : List ℕ → ℕ → ℕ → Bool
fits chars unit_len repetitions =
    leb (saturating_mul u64_max unit_len (repetitions + 1)) (length chars)

-- `chars[start..end] == suffix`
unfoldable pub again : List ℕ → ℕ → List ℕ → ℕ → Bool
again chars unit_len suffix repetitions =
    same_bytes
      (slice chars (length chars - saturating_mul u64_max unit_len (repetitions + 1)) unit_len)
      suffix

unfoldable pub count_repetitions : ℕ → List ℕ → ℕ → List ℕ → ℕ → ℕ
unfolding fits again
count_repetitions zero chars unit_len suffix repetitions = repetitions
count_repetitions (suc rounds) chars unit_len suffix repetitions =
    elim (fits chars unit_len repetitions) [
      | false ↦ repetitions
      | true ↦ elim (again chars unit_len suffix repetitions) [
        | false ↦ repetitions
        | true ↦ count_repetitions rounds chars unit_len suffix (repetitions + 1)
      ]
    ]

-- The repetitions of one unit length, where the text is long enough.
unfoldable pub try_unit : List ℕ → ℕ → ℕ → Option SuffixCycle
unfolding count_repetitions
try_unit chars minimum_repetitions unit_len =
    let suffix = drop (length chars - unit_len) chars in
    let repetitions = count_repetitions (length chars) chars unit_len suffix 1 in
    if ltb (length chars) (saturating_mul u64_max unit_len minimum_repetitions)
    then none
    else if leb minimum_repetitions repetitions
    then some (record { unit_hash = stable_hash (as_bytes suffix); repetitions = repetitions })
    else none

unfoldable pub search_units : ℕ → List ℕ → ℕ → ℕ → Option SuffixCycle
unfolding try_unit
search_units zero chars minimum_repetitions unit_len = none
search_units (suc rounds) chars minimum_repetitions unit_len =
    elim (try_unit chars minimum_repetitions unit_len) [
      | some cycle ↦ some cycle
      | none ↦ search_units rounds chars minimum_repetitions (unit_len + 1)
    ]

unfoldable pub suffix_cycle : List ℕ → ℕ → Option SuffixCycle
unfolding search_units
suffix_cycle chars minimum_repetitions =
    search_units 61 chars minimum_repetitions loop_suffix_min_unit_chars
