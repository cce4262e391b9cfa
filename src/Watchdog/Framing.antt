-- ===== src/Watchdog/Framing.antt =====
-- `has_sse_framing` of watchdog_progress.rs.
use llm_guard_proxy.Prelude.{
  ℕ, zero, suc, Bool, true, false, ◌||◌, Option, none, some, List, [], ◌∷◌,
}
use llm_guard_proxy.Prelude.Lists.{length, any}
use llm_guard_proxy.Guardian.MemInfo.{strip_prefix}
use llm_guard_proxy.Watchdog.Sse.{data_prefix}
use llm_guard_proxy.Watchdog.Fast.{next_sse_line}

-- `event:`, `id:` and `retry:`
abbrev pub event_prefix : List ℕ
event_prefix = b'e' ∷ b'v' ∷ b'e' ∷ b'n' ∷ b't' ∷ b':' ∷ []

abbrev pub id_prefix : List ℕ
id_prefix = b'i' ∷ b'd' ∷ b':' ∷ []

abbrev pub retry_prefix : List ℕ
retry_prefix = b'r' ∷ b'e' ∷ b't' ∷ b'r' ∷ b'y' ∷ b':' ∷ []

abbrev pub is_present : Option (List ℕ) → Bool
is_present none = false
is_present (some rest) = true

abbrev pub starts_with : List ℕ → List ℕ → Bool
starts_with text prefix = is_present (strip_prefix prefix text)

unfoldable pub starts_sse_field : List ℕ → Bool
starts_sse_field text =
    any (starts_with text)
      (data_prefix ∷ event_prefix ∷ id_prefix ∷ retry_prefix ∷ (b':' ∷ []) ∷ [])

-- The loop, from the start of a line on; a line takes a byte at least.
unfoldable pub framing_loop : ℕ → List ℕ → Bool
framing_loop rounds [] = false
framing_loop zero (c ∷ bytes) = false
framing_loop (suc rounds) (c ∷ bytes) =
    starts_sse_field (c ∷ bytes)
    || elim (next_sse_line (c ∷ bytes)) [ none ↦ false | some l ↦ framing_loop rounds l.rest ]

unfoldable pub has_sse_framing : List ℕ → Bool
has_sse_framing bytes = framing_loop (length bytes) bytes
