-- ===== src/Watchdog/Sse.antt =====
-- `SseEventParser` of watchdog_progress.rs, byte by byte, and the parser of oversized chunks, line by
-- line. `judge` is `sse_data_has_progress` for the unit of the route.
pub mod Chunks
pub mod Bounds
use llm_guard_proxy.Prelude.{
  ℕ, Bool, true, false, not, ◌&&◌, Option, none, some, List, [], ◌∷◌, ◌++◌,
}
use llm_guard_proxy.Prelude.Tests.{ltb, ◌==◌, if◌then◌else◌}
use llm_guard_proxy.Prelude.Lists.{length, is_empty}
use llm_guard_proxy.Prelude.Words.{u64_max, saturating_add}
use llm_guard_proxy.Guardian.MemInfo.{strip_prefix}

abbrev pub max_pending_sse_residual_bytes : ℕ
max_pending_sse_residual_bytes = 65536

pub record SseEventParser : Type 0 where
  pub line : List ℕ
  pub event_data : List ℕ
  pub has_data : Bool
  pub skip_lf_after_cr : Bool

abbrev pub new : SseEventParser
new = record { line = []; event_data = []; has_data = false; skip_lf_after_cr = false }

abbrev pub bit : Bool → ℕ
bit true = 1
bit false = 0

unfoldable pub retained_len : SseEventParser → ℕ
retained_len p = saturating_add u64_max (length p.line) (length p.event_data)

unfoldable pub is_drained : SseEventParser → Bool
is_drained p = is_empty p.line && is_empty p.event_data && not p.has_data && not p.skip_lf_after_cr

-- `data:`
abbrev pub data_prefix : List ℕ
data_prefix = b'd' ∷ b'a' ∷ b't' ∷ b'a' ∷ b':' ∷ []

-- `strip_prefix(b" ").unwrap_or(data)`
abbrev pub strip_space : List ℕ → List ℕ
strip_space [] = []
strip_space (c ∷ rest) = if c == 32 then rest else c ∷ rest

abbrev pub joined_len : List ℕ → Bool → List ℕ → ℕ
joined_len event_data has_data field =
    saturating_add u64_max (saturating_add u64_max (length event_data) (bit has_data))
      (length field)

abbrev pub join_data : List ℕ → Bool → List ℕ → List ℕ
join_data event_data has_data field =
    if has_data then event_data ++ 10 ∷ field else event_data ++ field

-- The part of `finish_line` for a line that is not empty, given what follows `data:` in it.
unfoldable pub finish_field : SseEventParser → Option (List ℕ) → Option (SseEventParser × ℕ)
finish_field p none = some (record p { line = [] }, 0)
finish_field p (some rest) =
    let field = strip_space rest in
    if ltb max_pending_sse_residual_bytes (joined_len p.event_data p.has_data field)
    then none
    else some (
      record p { line = []; event_data = join_data p.event_data p.has_data field; has_data = true },
      0,
    )

-- `none` is `Err(())`, after which the caller clears the parser.
unfoldable pub finish_line : (List ℕ → Bool) → SseEventParser → Option (SseEventParser × ℕ)
finish_line judge p =
    if is_empty p.line
    then some (
      record p { line = []; event_data = []; has_data = false },
      bit (p.has_data && judge p.event_data),
    )
    else finish_field p (strip_prefix data_prefix p.line)

abbrev pub set_skip : Bool → Option (SseEventParser × ℕ) → Option (SseEventParser × ℕ)
set_skip skip none = none
set_skip skip (some (p, n)) = some (record p { skip_lf_after_cr = skip }, n)

-- The `match` on a byte.
unfoldable pub take_byte : (List ℕ → Bool) → ℕ → SseEventParser → Option (SseEventParser × ℕ)
take_byte judge byte p =
    if byte == 13
    then set_skip true (finish_line judge p)
    else (if byte == 10
        then finish_line judge p
        else (let q = record p { line = p.line ++ byte ∷ [] } in
            if ltb max_pending_sse_residual_bytes (retained_len q) then none else some (q, 0)))

unfoldable pub consume_byte : (List ℕ → Bool) → ℕ → SseEventParser → Option (SseEventParser × ℕ)
consume_byte judge byte p =
    let q = record p { skip_lf_after_cr = false } in
    if p.skip_lf_after_cr && (byte == 10) then some (q, 0) else take_byte judge byte q

-- The loop of `consume`, from the progress that it has counted.
unfoldable pub consume_from :
    (List ℕ → Bool) → List ℕ → ℕ → SseEventParser → Option (SseEventParser × ℕ)
consume_from judge [] progress p = some (p, progress)
consume_from judge (byte ∷ chunk) progress p = elim (consume_byte judge byte p) [
  | none ↦ none
  | some result ↦ consume_from judge chunk (saturating_add u64_max progress result.1) result.0
]

unfoldable pub consume : (List ℕ → Bool) → List ℕ → SseEventParser → Option (SseEventParser × ℕ)
consume judge chunk p = consume_from judge chunk 0 p
