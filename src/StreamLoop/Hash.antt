-- ===== src/StreamLoop/Hash.antt =====
-- The FNV-1a hashes of loop_detector.rs, and how a hash is printed.
use Prim.Native.Nat.{bit_xor}
use llm_guard_proxy.Prelude.{
  ℕ, zero, suc, ◌+◌, ◌-◌, ◌*◌, ◌/◌, ◌%◌, ◌^◌, ◌≤◌, List, [], ◌∷◌, ◌++◌, arith,
}
use llm_guard_proxy.Prelude.Tests.{ltb, if◌then◌else◌}
use llm_guard_proxy.Prelude.Words.{u64_max}
use llm_guard_proxy.Prelude.Text.{codes}

abbrev pub fnv64_offset_basis : ℕ
fnv64_offset_basis = 0xcbf29ce484222325

abbrev pub fnv64_prime : ℕ
fnv64_prime = 0x00000100000001b3

-- `stable_hash_step`: the bytes folded into a hash.
unfoldable pub stable_hash_step : ℕ → List ℕ → ℕ
stable_hash_step hash [] = hash
stable_hash_step hash (byte ∷ rest) =
    stable_hash_step (bit_xor hash byte * fnv64_prime % 2 ^ 64) rest

unfoldable pub stable_hash : List ℕ → ℕ
unfolding stable_hash_step
stable_hash bytes = stable_hash_step fnv64_offset_basis bytes

-- `to_le_bytes`: as many bytes as the first argument says, the lowest first.
unfoldable pub le_bytes : ℕ → ℕ → List ℕ
le_bytes zero n = []
le_bytes (suc rounds) n = n % 256 ∷ le_bytes rounds (n / 256)

unfoldable pub hash_u64s : ℕ → List ℕ → ℕ
unfolding le_bytes stable_hash_step
hash_u64s hash [] = hash
hash_u64s hash (value ∷ rest) = hash_u64s (stable_hash_step hash (le_bytes 8 value)) rest

unfoldable pub stable_hash_u64s : List ℕ → ℕ
unfolding hash_u64s
stable_hash_u64s values = hash_u64s fnv64_offset_basis values

-- One digit of `{:016x}`.
abbrev hex_digit : ℕ → ℕ
hex_digit n = if ltb n 10 then b'0' + n else b'a' + (n - 10)

unfoldable pub hex_digits : ℕ → ℕ → List ℕ
hex_digits zero n = []
hex_digits (suc rounds) n = hex_digits rounds (n / 16) ++ hex_digit (n % 16) ∷ []

unfoldable pub format_hash : ℕ → List ℕ
unfolding hex_digits
format_hash hash = codes "fnv64:" ++ hex_digits 16 hash

step_bounded : (hash : ℕ) (bytes : List ℕ) → hash ≤ u64_max → stable_hash_step hash bytes ≤ u64_max
unfolding stable_hash_step
step_bounded hash [] h = h
step_bounded hash (byte ∷ rest) h =
    step_bounded (bit_xor hash byte * fnv64_prime % 2 ^ 64) rest (omega arith)

-- A hash is a `u64`.
pub stable_hash-bounded : (bytes : List ℕ) → stable_hash bytes ≤ u64_max
unfolding stable_hash
stable_hash-bounded bytes = step_bounded fnv64_offset_basis bytes (omega arith)
