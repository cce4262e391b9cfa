-- ===== src/StreamLoop/Profile.antt =====
-- LoopInputProfile of loop_detector.rs: the lines and token windows that a request repeats. The two
-- maps of counts that the methods share go along with the profile, in the record Profiling.
use llm_guard_proxy.Prelude.{ℕ, Bool, true, false, not, Option, none, some, List, [], ◌∷◌, ◌++◌}
use llm_guard_proxy.Prelude.Tests.{ltb, leb, ◌==◌, if◌then◌else◌}
use llm_guard_proxy.Prelude.Lists.{length, take_last}
use llm_guard_proxy.Prelude.Text.{byte_len, as_bytes, Unicode, join_words}
use llm_guard_proxy.StreamLoop.Hash.{stable_hash, stable_hash_u64s}
use llm_guard_proxy.StreamLoop.Counts.{Counts, increment_count_with_cap, insert_hash}
use llm_guard_proxy.StreamLoop.Detection.{LoopStateCapping, no_capping}
use llm_guard_proxy.StreamLoop.Json.{
  Value, string, array, object, Items, no_items, item, Entries, no_entries, entry, JsonText,
  is_sensitive_input_key,
}

abbrev pub loop_min_line_chars : ℕ
loop_min_line_chars = 8

abbrev pub loop_max_token_bytes : ℕ
loop_max_token_bytes = 128

abbrev pub loop_input_line_count_cap : ℕ
loop_input_line_count_cap = 4096

abbrev pub loop_input_token_window_count_cap : ℕ
loop_input_token_window_count_cap = 8192

pub record LoopInputProfile : Type 0 where
  pub repeated_line_hashes : List ℕ
  pub repeated_token_window_hashes : List ℕ
  pub state_capping : LoopStateCapping

abbrev pub default_profile : LoopInputProfile
default_profile = record {
  repeated_line_hashes = [];
  repeated_token_window_hashes = [];
  state_capping = no_capping;
}

pub record Profiling : Type 0 where
  pub profile : LoopInputProfile
  pub line_counts : Counts
  pub token_window_counts : Counts

unfoldable pub normalized_line_hash : Unicode → List ℕ → Option ℕ
unfolding join_words
normalized_line_hash unicode line =
    let normalized = join_words false false line in
    if leb loop_min_line_chars (length normalized)
    then some (stable_hash (as_bytes (unicode.lowercase_text normalized)))
    else none

-- `count > 1`, for a count that is there.
abbrev pub repeats : Option ℕ → Bool
repeats none = false
repeats (some n) = ltb 1 n

unfoldable pub count_input_line : ℕ → Profiling → Profiling
unfolding increment_count_with_cap insert_hash
count_input_line hash p =
    let (found, counts, capped) =
      increment_count_with_cap p.line_counts hash loop_input_line_count_cap
        p.profile.state_capping.input_lines in
    let capping : LoopStateCapping = record p.profile.state_capping { input_lines = capped } in
    let profile : LoopInputProfile = record p.profile {
      repeated_line_hashes =
          if repeats found
          then insert_hash hash p.profile.repeated_line_hashes
          else p.profile.repeated_line_hashes;
      state_capping = capping;
    } in
    record p { profile = profile; line_counts = counts }

unfoldable pub count_input_window : ℕ → Profiling → Profiling
unfolding increment_count_with_cap insert_hash
count_input_window hash p =
    let (found, counts, capped) =
      increment_count_with_cap p.token_window_counts hash loop_input_token_window_count_cap
        p.profile.state_capping.input_token_windows in
    let capping : LoopStateCapping = record p.profile.state_capping {
      input_token_windows = capped;
    } in
    let profile : LoopInputProfile = record p.profile {
      repeated_token_window_hashes =
          if repeats found
          then insert_hash hash p.profile.repeated_token_window_hashes
          else p.profile.repeated_token_window_hashes;
      state_capping = capping;
    } in
    record p { profile = profile; token_window_counts = counts }

unfoldable pub observe_line : Unicode → List ℕ → Profiling → Profiling
unfolding normalized_line_hash count_input_line
observe_line unicode line p = elim (normalized_line_hash unicode line) [
  | none ↦ p
  | some hash ↦ count_input_line hash p
]

-- `lines()`: each line without its `\n` or `\r\n`; a text that ends in a line break has no line
-- after it. The list is the line that is being read, the return that ended it so far apart.
abbrev without_cr : List ℕ → List ℕ
without_cr [] = []
without_cr (c ∷ []) = if c == 13 then [] else c ∷ []
without_cr (c ∷ d ∷ rest) = c ∷ without_cr (d ∷ rest)

unfoldable pub observe_input_lines : Unicode → List ℕ → List ℕ → Profiling → Profiling
unfolding observe_line
observe_input_lines unicode [] [] p = p
observe_input_lines unicode (c ∷ line) [] p = observe_line unicode (c ∷ line) p
observe_input_lines unicode line (c ∷ rest) p = elim (c == 10) [
  | true ↦ observe_input_lines unicode [] rest (observe_line unicode (without_cr line) p)
  | false ↦ observe_input_lines unicode (line ++ c ∷ []) rest p
]

-- `is_token_boundary`
unfoldable pub is_token_boundary : Unicode → ℕ → Bool
is_token_boundary unicode c = not (unicode.is_alphanumeric c)

-- The characters of a token, in lower case; a full token takes no more.
unfoldable pub push_token_char : Unicode → ℕ → List ℕ → List ℕ
push_token_char unicode c token =
    if ltb (byte_len token) loop_max_token_bytes then token ++ unicode.to_lowercase c else token

-- The hashes of the last tokens, and the hash of a full window. The `while` loop pops the front.
unfoldable pub push_token_window_hash : ℕ → List ℕ → List ℕ → List ℕ × Option ℕ
push_token_window_hash window_size [] recent = (recent, none)
push_token_window_hash window_size (c ∷ token) recent =
    let window = take_last window_size (recent ++ stable_hash (as_bytes (c ∷ token)) ∷ []) in
    if length window == window_size
    then (window, some (stable_hash_u64s window))
    else (window, none)

abbrev count_window : Option ℕ → Profiling → Profiling
count_window none p = p
count_window (some hash) p = count_input_window hash p

unfoldable pub observe_token_chars : Unicode → ℕ → List ℕ → List ℕ → List ℕ → Profiling → Profiling
unfolding push_token_window_hash count_input_window is_token_boundary push_token_char
observe_token_chars unicode window_size token recent [] p =
    let (window, found) = push_token_window_hash window_size token recent in count_window found p
observe_token_chars unicode window_size token recent (c ∷ rest) p =
    elim (is_token_boundary unicode c) [
      | true ↦
          let (window, found) = push_token_window_hash window_size token recent in
          observe_token_chars unicode window_size [] window rest (count_window found p)
      | false ↦
          observe_token_chars unicode window_size (push_token_char unicode c token) recent rest p
    ]

unfoldable pub observe_token_window_hashes : Unicode → ℕ → List ℕ → Profiling → Profiling
unfolding observe_token_chars
observe_token_window_hashes unicode window_size text p =
    if window_size == 0 then p else observe_token_chars unicode window_size [] [] text p

unfoldable pub observe_text : Unicode → ℕ → List ℕ → Profiling → Profiling
unfolding observe_input_lines observe_token_window_hashes
observe_text unicode window_size text p =
    observe_token_window_hashes unicode window_size text (observe_input_lines unicode [] text p)

-- `!key.is_some_and(is_sensitive_input_key)`
abbrev readable : Option (List ℕ) → Bool
readable none = true
readable (some key) = not (is_sensitive_input_key key)

unfoldable mutual
  unfolding observe_text is_sensitive_input_key

  pub observe_value : Unicode → ℕ → Option (List ℕ) → Value → Profiling → Profiling
  observe_value unicode window_size key (string text) p =
      if readable key then observe_text unicode window_size text p else p
  observe_value unicode window_size key (array values) p =
      observe_items unicode window_size key values p
  observe_value unicode window_size key (object entries) p =
      observe_entries unicode window_size entries p
  observe_value unicode window_size key _ p = p

  pub observe_items : Unicode → ℕ → Option (List ℕ) → Items → Profiling → Profiling
  observe_items unicode window_size key no_items p = p
  observe_items unicode window_size key (item value rest) p =
      observe_items unicode window_size key rest (observe_value unicode window_size key value p)

  pub observe_entries : Unicode → ℕ → Entries → Profiling → Profiling
  observe_entries unicode window_size no_entries p = p
  observe_entries unicode window_size (entry key value rest) p =
      observe_entries unicode window_size rest (elim (is_sensitive_input_key key) [
        | true ↦ p
        | false ↦ observe_value unicode window_size (some key) value p
      ])

abbrev pub start_profiling : Profiling
start_profiling = record { profile = default_profile; line_counts = []; token_window_counts = [] }

unfoldable pub from_value : Unicode → Value → ℕ → LoopInputProfile
unfolding observe_value
from_value unicode value window_size =
    (observe_value unicode window_size none value start_profiling).profile

unfoldable pub from_request_body : Unicode → JsonText → List ℕ → ℕ → LoopInputProfile
unfolding from_value
from_request_body unicode json request_body window_size = elim (json.from_slice request_body) [
  | none ↦ default_profile
  | some value ↦ from_value unicode value window_size
]
