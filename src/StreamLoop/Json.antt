-- ===== src/StreamLoop/Json.antt =====
-- The canonical form of tool arguments in loop_detector.rs, and the keys of a request that its
-- profile leaves out. `Value` is `serde_json::Value` as the code matches on it; a number is the
-- text that it prints. Reading a text and quoting a string are serde_json's, the record JsonText.
pub mod Order
use llm_guard_proxy.Prelude.{ℕ, Bool, true, false, Option, none, some, List, [], ◌∷◌, ◌++◌}
use llm_guard_proxy.Prelude.Tests.{ltb, ◌==◌, if◌then◌else◌}
use llm_guard_proxy.Prelude.Lists.{any, same_bytes}
use llm_guard_proxy.Prelude.Text.{
  codes, as_bytes, is_ascii_alphanumeric, to_ascii_lowercase, print_bool,
}
use llm_guard_proxy.StreamLoop.Hash.{stable_hash}

-- Lists of values and the entries of an object (in their order) stand in the block of the type.
mutual
  pub data Value : Type 0 where
    null : Value
    bool : Bool → Value
    number string : List ℕ → Value
    array : Items → Value
    object : Entries → Value

  pub data Items : Type 0 where
    no_items : Items
    item : Value → Items → Items

  pub data Entries : Type 0 where
    no_entries : Entries
    entry : List ℕ → Value → Entries → Entries

-- `serde_json::from_str` and `from_slice`, and `to_string` of a text.
pub record JsonText : Type 0 where
  pub from_str : List ℕ → Option Value
  pub from_slice : List ℕ → Option Value
  pub to_string : List ℕ → Option (List ℕ)

-- `unwrap_or_else(|_error| String::from("\"\""))`
unfoldable pub quoted : JsonText → List ℕ → List ℕ
quoted json text = elim (json.to_string text) [ none ↦ b'"' ∷ b'"' ∷ [] | some out ↦ out ]

-- `str::cmp`, which is that of the characters: is the first text the smaller?
unfoldable pub key_less : List ℕ → List ℕ → Bool
key_less xs [] = false
key_less [] (y ∷ ys) = true
key_less (x ∷ xs) (y ∷ ys) = if ltb x y then true else if ltb y x then false else key_less xs ys

-- A key with the canonical text of its value.
abbrev pub Written : Type 0
Written = List ℕ × List ℕ

-- `sort_by` on the keys, which keeps the order of equal ones.
unfoldable pub insert_entry : Written → List Written → List Written
unfolding key_less
insert_entry e [] = e ∷ []
insert_entry e (x ∷ xs) = if key_less (x.0) (e.0) then x ∷ insert_entry e xs else e ∷ x ∷ xs

unfoldable pub sort_entries : List Written → List Written
unfolding insert_entry
sort_entries [] = []
sort_entries (e ∷ rest) = insert_entry e (sort_entries rest)

-- A comma before each but the first.
unfoldable pub write_entries : JsonText → Bool → List Written → List ℕ
unfolding quoted
write_entries json first [] = []
write_entries json first ((key, text) ∷ rest) =
    (if first then [] else b',' ∷ [])
    ++ (quoted json key ++ (b':' ∷ []) ++ text)
    ++ write_entries json false rest

unfoldable mutual
  unfolding sort_entries write_entries quoted

  pub write_canonical_json : JsonText → Value → List ℕ
  write_canonical_json json null = codes "null"
  write_canonical_json json (bool value) = print_bool value
  write_canonical_json json (number text) = text
  write_canonical_json json (string text) = quoted json text
  write_canonical_json json (array values) = b'[' ∷ (write_items json true values ++ b']' ∷ [])
  write_canonical_json json (object entries) =
      b'{' ∷ (write_entries json true (sort_entries (written json entries)) ++ b'}' ∷ [])

  pub write_items : JsonText → Bool → Items → List ℕ
  write_items json first no_items = []
  write_items json first (item value rest) =
      (if first then [] else b',' ∷ [])
      ++ write_canonical_json json value
      ++ write_items json false rest

  pub written : JsonText → Entries → List Written
  written json no_entries = []
  written json (entry key value rest) = (key, write_canonical_json json value) ∷ written json rest

unfoldable pub canonical_json_hash : JsonText → List ℕ → Option ℕ
unfolding write_canonical_json
canonical_json_hash json arguments = elim (json.from_str arguments) [
  | none ↦ none
  | some value ↦ some (stable_hash (as_bytes (write_canonical_json json value)))
]

-- The letters and digits of a key, in lower case.
unfoldable pub plain_key : List ℕ → List ℕ
plain_key [] = []
plain_key (c ∷ rest) =
    if is_ascii_alphanumeric c then to_ascii_lowercase c ∷ plain_key rest else plain_key rest

abbrev starts_with : List ℕ → List ℕ → Bool
starts_with [] text = true
starts_with (x ∷ xs) [] = false
starts_with (x ∷ xs) (y ∷ ys) = if x == y then starts_with xs ys else false

-- `str::contains`
unfoldable pub contains_text : List ℕ → List ℕ → Bool
contains_text marker [] = starts_with marker []
contains_text marker (c ∷ rest) =
    if starts_with marker (c ∷ rest) then true else contains_text marker rest

unfoldable pub is_sensitive_input_key : List ℕ → Bool
unfolding plain_key contains_text
is_sensitive_input_key key =
    let normalized = plain_key key in
    if any (same_bytes normalized) (
      codes "maxtokens"
      ∷ codes "maxcompletiontokens"
      ∷ codes "maxoutputtokens"
      ∷ codes "budgettokens"
      ∷ [])
    then false
    else any (λ marker. contains_text marker normalized)
        (codes "authorization"
          ∷ codes "apikey"
          ∷ codes "accesskey"
          ∷ codes "privatekey"
          ∷ codes "secret"
          ∷ codes "password"
          ∷ codes "credential"
          ∷ codes "credentials"
          ∷ codes "bearer"
          ∷ codes "token"
          ∷ [])
