-- ===== src/Watchdog/Json.antt =====
-- The JSON library that crates/llm-guard-proxy/src/proxy/watchdog_progress.rs reads events with: a
-- parameter, with the accessors of its values that the code calls.
pub mod Names
use llm_guard_proxy.Prelude.{ℕ, Bool, Option, List}

-- `serde_json::Value`; `get` is `Value::get` on a name, and `field` that of an object.
pub record Json : Type 1 where
  pub Value : Type 0
  pub Object : Type 0
  pub from_slice : List ℕ → Option Value
  pub get : List ℕ → Value → Option Value
  pub field : List ℕ → Object → Option Value
  pub as_array : Value → Option (List Value)
  pub as_str : Value → Option (List ℕ)
  pub as_object : Value → Option Object
  pub is_number : Value → Bool
