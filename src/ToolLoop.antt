-- ===== src/ToolLoop.antt =====
-- `ToolLoopDetector` of crates/llm-guard-proxy-core/src/loop_detector.rs: the detector of repeated
-- tool fingerprints, two-tool alternation and unchanged tool output. A method returns the new state
-- beside its result. `BTreeMap<u64, u32>` is a map from numbers; a `u32` count saturates. A risk
-- (an `f64` in 0.0 to 1.0) is given in hundredths, without the rounding of binary floats.
pub mod Window
pub mod Alternation
pub mod History
pub mod Emitted
use llm_guard_proxy.Prelude.{
  ℕ, ◌+◌, ◌-◌, ◌*◌, min, true, false, not, ◌&&◌, Option, none, some, List, [], ◌∷◌, ◌++◌,
}
use llm_guard_proxy.Prelude.Tests.{ltb, leb, ◌==◌, if◌then◌else◌}
use llm_guard_proxy.Prelude.Lists.{length, get_or}
use llm_guard_proxy.Prelude.Words.{u32_max, saturating_add}
use llm_guard_proxy.Prelude.Maps.{Map, empty, insert, remove}

abbrev pub tool_fingerprint_repeat_threshold : ℕ
tool_fingerprint_repeat_threshold = 3

abbrev pub tool_output_blocked_threshold : ℕ
tool_output_blocked_threshold = 2

abbrev pub tool_alternation_cycle_length : ℕ
tool_alternation_cycle_length = 4

abbrev pub tool_alternation_risk : ℕ
tool_alternation_risk = 75

-- The reason codes that this detector emits.
pub data ReasonCode : Type 0 where
  tool_fingerprint_repeat tool_alternation_cycle tool_output_blocked_echo : ReasonCode

pub record ToolLoopSignal : Type 0 where
  pub reason_code : ReasonCode
  pub fingerprint_hash : ℕ
  pub repeat_count : ℕ
  pub risk : ℕ

pub record ToolLoopDetector : Type 0 where
  pub max_history : ℕ
  pub fingerprints : List ℕ
  pub fingerprint_counts : Map ℕ
  pub output_counts : Map ℕ
  pub signals : List ToolLoopSignal

unfoldable pub new : ℕ → ToolLoopDetector
new max_history = record {
  max_history = max_history;
  fingerprints = [];
  fingerprint_counts = empty;
  output_counts = empty;
  signals = [];
}

-- `entry(key).and_modify(|count| *count = count.saturating_add(1)).or_insert(1)`
unfoldable pub increment : ℕ → Map ℕ → Map ℕ
increment key counts = elim (counts key) [
  | none ↦ insert key 1 counts
  | some n ↦ insert key (saturating_add u32_max n 1) counts
]

-- `get_mut`, `saturating_sub(1)`, and `remove` at zero.
unfoldable pub decrement : ℕ → Map ℕ → Map ℕ
decrement key counts = elim (counts key) [
  | none ↦ counts
  | some n ↦ if n - 1 == 0 then remove key counts else insert key (n - 1) counts
]

-- The `while` loop of `push_fingerprint`: it pops the front until the window fits.
unfoldable pub evict : ℕ → List ℕ → Map ℕ → List ℕ × Map ℕ
unfolding decrement
evict max_history [] counts = ([], counts)
evict max_history (evicted ∷ rest) counts = elim (ltb max_history (length (evicted ∷ rest))) [
  | true ↦ evict max_history rest (decrement evicted counts)
  | false ↦ (evicted ∷ rest, counts)
]

unfoldable pub push_fingerprint : ToolLoopDetector → ℕ → ToolLoopDetector
unfolding evict increment
push_fingerprint d hash =
    let (window, counts) = evict d.max_history (d.fingerprints ++ hash ∷ []) d.fingerprint_counts in
    record d { fingerprints = window; fingerprint_counts = increment hash counts }

-- 3 repeats give 0.6, each further one adds 0.1, up to 1.0.
unfoldable pub fingerprint_repeat_risk : ℕ → ℕ
fingerprint_repeat_risk n = min (60 + (n - tool_fingerprint_repeat_threshold) * 10) 100

-- 2 repeats give 0.5, each further one adds 0.15, up to 1.0.
unfoldable pub output_blocked_risk : ℕ → ℕ
output_blocked_risk n = min (50 + (n - tool_output_blocked_threshold) * 15) 100

-- The test on the last four entries.
unfoldable pub alternation : ℕ → ℕ → ℕ → ℕ → Option ToolLoopSignal
alternation first second third fourth =
    if first == third && (second == fourth && not (first == second))
    then some (record {
      reason_code = tool_alternation_cycle;
      fingerprint_hash = first;
      repeat_count = 2;
      risk = tool_alternation_risk;
    })
    else none

-- The indices are in range, so the default of `get_or` is never read.
unfoldable pub detect_alternation : List ℕ → Option ToolLoopSignal
unfolding alternation
detect_alternation window =
    let n = length window in
    if ltb n tool_alternation_cycle_length
    then none
    else alternation (get_or window (n - 4) 0) (get_or window (n - 3) 0) (get_or window (n - 2) 0)
        (get_or window (n - 1) 0)

-- The first `if let` of `observe_fingerprint`.
unfoldable pub detect_repeat : ℕ → Map ℕ → Option ToolLoopSignal
unfolding fingerprint_repeat_risk
detect_repeat hash counts = elim (counts hash) [
  | none ↦ none
  | some n ↦
      if leb tool_fingerprint_repeat_threshold n
      then some (record {
        reason_code = tool_fingerprint_repeat;
        fingerprint_hash = hash;
        repeat_count = n;
        risk = fingerprint_repeat_risk n;
      })
      else none
]

abbrev pub to_list : Option ToolLoopSignal → List ToolLoopSignal
to_list none = []
to_list (some signal) = signal ∷ []

-- Of the `ToolFingerprint` argument the method reads the hash alone.
unfoldable pub observe_fingerprint : ToolLoopDetector → ℕ → ToolLoopDetector × List ToolLoopSignal
unfolding push_fingerprint detect_repeat detect_alternation
observe_fingerprint d hash =
    let pushed = push_fingerprint d hash in
    let emitted =
      to_list (detect_repeat hash pushed.fingerprint_counts)
      ++ to_list (detect_alternation pushed.fingerprints) in
    (record pushed { signals = pushed.signals ++ emitted }, emitted)

abbrev pub blocked_signal : ℕ → ToolLoopSignal
unfolding output_blocked_risk
blocked_signal n = record {
  reason_code = tool_output_blocked_echo;
  fingerprint_hash = 0;
  repeat_count = n;
  risk = output_blocked_risk n;
}

-- The count after the call; the entry API leaves a value there, so the case `none` is not reached.
unfoldable pub observe_tool_output : ToolLoopDetector → ℕ → ToolLoopDetector × List ToolLoopSignal
unfolding increment blocked_signal
observe_tool_output d output_hash =
    let counts = increment output_hash d.output_counts in
    let counted = record d { output_counts = counts } in
    elim (counts output_hash) [
      | none ↦ (counted, [])
      | some n ↦
          if leb tool_output_blocked_threshold n
          then (
            record counted { signals = d.signals ++ blocked_signal n ∷ [] },
            blocked_signal n ∷ [],
          )
          else (counted, [])
    ]
