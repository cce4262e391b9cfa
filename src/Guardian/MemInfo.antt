-- ===== src/Guardian/MemInfo.antt =====
-- `parse_mem_available` of crates/llm-guard-proxy-host-guardian/src/monitor.rs, over lists of bytes.
pub mod Reading
pub mod Text
use llm_guard_proxy.Prelude.{
  ℕ, Bool, true, false, not, ◌&&◌, ◌||◌, Option, none, some, List, [], ◌∷◌,
}
use llm_guard_proxy.Prelude.Tests.{◌==◌, if◌then◌else◌, ◌>>=◌}
use llm_guard_proxy.Prelude.Words.{u64_max, checked_mul}
use llm_guard_proxy.Prelude.Decimal.{is_digit, push_digit}

pub data MemInfoError : Type 0 where
  read too_large missing duplicate malformed overflow : MemInfoError

pub data MemInfoResult : Type 0 where
  ok : ℕ → MemInfoResult
  err : MemInfoError → MemInfoResult

-- `slice::split` at a byte: always at least one piece.
abbrev pub push_front : ℕ → List (List ℕ) → List (List ℕ)
push_front c [] = (c ∷ []) ∷ []
push_front c (line ∷ lines) = (c ∷ line) ∷ lines

unfoldable pub split : ℕ → List ℕ → List (List ℕ)
split byte [] = [] ∷ []
split byte (c ∷ rest) = if c == byte then [] ∷ split byte rest else push_front c (split byte rest)

unfoldable pub strip_prefix : List ℕ → List ℕ → Option (List ℕ)
strip_prefix [] text = some text
strip_prefix (p ∷ prefix) [] = none
strip_prefix (p ∷ prefix) (c ∷ text) = if p == c then strip_prefix prefix text else none

-- Space, tab, line feed, form feed and carriage return.
unfoldable pub is_ascii_whitespace : ℕ → Bool
is_ascii_whitespace c = (c == 32) || (c == 9) || (c == 10) || (c == 12) || (c == 13)

-- The two loops of `trim_ascii`.
unfoldable pub trim_start : List ℕ → List ℕ
unfolding is_ascii_whitespace
trim_start [] = []
trim_start (c ∷ rest) = if is_ascii_whitespace c then trim_start rest else c ∷ rest

abbrev pub keep_last : ℕ → List ℕ → List ℕ
unfolding is_ascii_whitespace
keep_last c [] = if is_ascii_whitespace c then [] else c ∷ []
keep_last c (d ∷ rest) = c ∷ d ∷ rest

unfoldable pub trim_end : List ℕ → List ℕ
unfolding is_ascii_whitespace
trim_end [] = []
trim_end (c ∷ rest) = keep_last c (trim_end rest)

unfoldable pub trim_ascii : List ℕ → List ℕ
unfolding trim_start trim_end
trim_ascii bytes = trim_end (trim_start bytes)

-- `position(is_ascii_whitespace)` with `split_at`.
unfoldable pub split_word : List ℕ → Option (List ℕ × List ℕ)
unfolding is_ascii_whitespace
split_word [] = none
split_word (c ∷ rest) =
    if is_ascii_whitespace c
    then some ([], c ∷ rest)
    else (do (word, after) ← split_word rest; some (c ∷ word, after))

unfoldable pub all_digits : List ℕ → Bool
unfolding is_digit
all_digits [] = true
all_digits (c ∷ rest) = is_digit c && all_digits rest

-- The loop over the digits; `none` is the overflow.
unfoldable pub accumulate : ℕ → List ℕ → Option ℕ
unfolding push_digit
accumulate kib [] = some kib
accumulate kib (digit ∷ rest) = do kib' ← push_digit kib digit; accumulate kib' rest

unfoldable pub is_kb : List ℕ → Bool
is_kb (k ∷ b ∷ []) = (k == b'k') && (b == b'B')
is_kb _ = false

abbrev is_empty : List ℕ → Bool
is_empty [] = true
is_empty (c ∷ rest) = false

-- The value of one field, from what follows its label.
unfoldable pub parse_field : List ℕ → MemInfoResult
parse_field rest = elim (split_word (trim_ascii rest)) [
  | none ↦ err malformed
  | some (digits, unit) ↦
      if is_empty digits || not (all_digits digits) || not (is_kb (trim_ascii unit))
      then err malformed
      else elim (accumulate 0 digits) [
        | none ↦ err overflow
        | some kib ↦ elim (checked_mul u64_max kib 1024) [
          | none ↦ err overflow
          | some bytes ↦ ok bytes
        ]
      ]
]

-- "MemAvailable:"
abbrev pub label : List ℕ
label =
    b'M' ∷ b'e' ∷ b'm' ∷ b'A' ∷ b'v' ∷ b'a' ∷ b'i' ∷ b'l' ∷ b'a' ∷ b'b' ∷ b'l' ∷ b'e' ∷ b':' ∷ []

-- The loop over the lines, with the value found so far.
unfoldable pub parse_lines : Option ℕ → List (List ℕ) → MemInfoResult
parse_lines none [] = err missing
parse_lines (some bytes) [] = ok bytes
parse_lines found (line ∷ lines) = elim (strip_prefix label line) [
  | none ↦ parse_lines found lines
  | some rest ↦ elim found [
    | some bytes ↦ err duplicate
    | none ↦ elim (parse_field rest) [ ok bytes ↦ parse_lines (some bytes) lines | err e ↦ err e ]
  ]
]

unfoldable pub parse_mem_available : List ℕ → MemInfoResult
parse_mem_available meminfo = parse_lines none (split 10 meminfo)
