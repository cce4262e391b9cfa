-- ===== src/StreamLoop/Detector/Abort.antt =====
-- Which signals of a tool call are candidates to abort on.
use llm_guard_proxy.Prelude.{
  ℕ, ◌≡◌, refl, Bool, true, false, ◌||◌, Option, none, some, List, [], ◌∷◌, ◌++◌, arith,
}
use llm_guard_proxy.Prelude.Tests.{ltb}
use llm_guard_proxy.Prelude.Lists.{any}
use llm_guard_proxy.Prelude.Text.{as_bytes}
use llm_guard_proxy.StreamLoop.Hash.{stable_hash}
use llm_guard_proxy.StreamLoop.Counts.{Counts, increment_count_with_cap}
use llm_guard_proxy.StreamLoop.Signal.{
  LoopSignal, is_abort_candidate, tool_arguments_completed_signal, repeated_tool_arguments_signal,
  repeated_tool_fingerprint_signal, invalid_tool_arguments_signal,
}
use llm_guard_proxy.StreamLoop.Detector.{
  loop_argument_hash_count_cap, loop_fingerprint_count_cap, ChannelizedLoopDetector, push_repeated,
  tool_fingerprint_hash, observe_valid_tool_call,
}

-- Is one of the signals a candidate to abort on?
abbrev pub aborts : List LoopSignal → Bool
aborts signals = any is_abort_candidate signals

abbrev pub fingerprint_step : ChannelizedLoopDetector → ℕ → Option ℕ × Counts × ℕ
fingerprint_step d hash =
    increment_count_with_cap d.tool_fingerprint_counts hash loop_fingerprint_count_cap
      d.tool_fingerprint_count_capped

aborts-append : (xs ys : List LoopSignal) → aborts (xs ++ ys) ≡ aborts xs || aborts ys
aborts-append [] ys = refl
aborts-append (x ∷ xs) ys = ground (arith, aborts-append xs ys)

three_parts :
    (first : LoopSignal) (xs ys : List LoopSignal) (b : Bool)
    → is_abort_candidate first ≡ false
    → aborts xs ≡ false
    → aborts ys ≡ b
    → aborts (first ∷ (xs ++ ys)) ≡ b
three_parts first xs ys b h k l = ground (arith, h, k, l, aborts-append xs ys)

quiet :
    (found : Option ℕ) (signal : ℕ → LoopSignal)
    → ((n : ℕ) → is_abort_candidate (signal n) ≡ false)
    → aborts (push_repeated found signal) ≡ false
unfolding push_repeated
quiet none signal h = refl
quiet (some n) signal h = ground (arith, h n)

loud :
    (found : Option ℕ) (n : ℕ) (signal : ℕ → LoopSignal)
    → found ≡ some n
    → ((k : ℕ) → is_abort_candidate (signal k) ≡ true)
    → aborts (push_repeated found signal) ≡ ltb 1 n
unfolding push_repeated
loud none n signal e h = absurd (cc e)
loud (some m) n signal e h = ground (arith, e, h m)

completed_quiet :
    (argument_hash capped : ℕ)
    → is_abort_candidate (tool_arguments_completed_signal argument_hash capped) ≡ false
unfolding is_abort_candidate tool_arguments_completed_signal
completed_quiet argument_hash capped = refl

repeated_arguments_quiet :
    (argument_hash n capped : ℕ)
    → is_abort_candidate (repeated_tool_arguments_signal argument_hash n capped) ≡ false
unfolding is_abort_candidate repeated_tool_arguments_signal
repeated_arguments_quiet argument_hash n capped = refl

repeated_fingerprint_loud :
    (name_hash argument_hash hash n capped : ℕ)
    → is_abort_candidate (repeated_tool_fingerprint_signal name_hash argument_hash hash n capped)
      ≡ true
unfolding is_abort_candidate repeated_tool_fingerprint_signal
repeated_fingerprint_loud name_hash argument_hash hash n capped = refl

pub invalid_quiet :
    (arguments code : List ℕ)
    → is_abort_candidate (invalid_tool_arguments_signal arguments code) ≡ false
unfolding is_abort_candidate invalid_tool_arguments_signal
invalid_quiet arguments code = refl

pub valid_signals :
    (tool_name : List ℕ) (argument_hash n : ℕ) (d : ChannelizedLoopDetector)
    → (fingerprint_step d (tool_fingerprint_hash tool_name argument_hash)).0 ≡ some n
    → aborts ((observe_valid_tool_call tool_name argument_hash d).1) ≡ ltb 1 n
unfolding observe_valid_tool_call
valid_signals tool_name argument_hash n d h =
    let (argument_count, argument_counts, argument_capped) =
      increment_count_with_cap d.tool_argument_json_counts argument_hash
        loop_argument_hash_count_cap d.tool_argument_json_count_capped in
    let hash = tool_fingerprint_hash tool_name argument_hash in
    three_parts (tool_arguments_completed_signal argument_hash d.tool_argument_json_count_capped)
      (push_repeated argument_count
        (λ k. repeated_tool_arguments_signal argument_hash k argument_capped))
      (push_repeated ((fingerprint_step d hash).0) (λ k.
        repeated_tool_fingerprint_signal (stable_hash (as_bytes tool_name)) argument_hash hash k
          ((fingerprint_step d hash).2)))
      (ltb 1 n) (completed_quiet argument_hash d.tool_argument_json_count_capped)
      (quiet argument_count _ (λ k. repeated_arguments_quiet argument_hash k argument_capped))
      (loud ((fingerprint_step d hash).0) n _ h (λ k.
        repeated_fingerprint_loud (stable_hash (as_bytes tool_name)) argument_hash hash k
          ((fingerprint_step d hash).2)))

pub valid_counts :
    (tool_name : List ℕ) (argument_hash : ℕ) (d : ChannelizedLoopDetector)
    → ((observe_valid_tool_call tool_name argument_hash d).0).tool_fingerprint_counts
      ≡ (fingerprint_step d (tool_fingerprint_hash tool_name argument_hash)).1
unfolding observe_valid_tool_call
valid_counts tool_name argument_hash d = refl
