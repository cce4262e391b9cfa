-- ===== src/StreamLoop/Semantic.antt =====
-- The comparison of windows of reasoning in loop_detector.rs: the normal form of a word, the
-- features of a window, and the Jaccard similarity of two.
use mathlib.Core.List.{map}
use Prim.Native.Nat.{max}
use llm_guard_proxy.Prelude.{
  ℕ, suc, ◌-◌, ◌/◌, Bool, true, false, not, ◌&&◌, ◌||◌, Option, none, some, List, [], ◌∷◌, ◌++◌,
}
use llm_guard_proxy.Prelude.Tests.{ltb, leb, ◌==◌, if◌then◌else◌}
use llm_guard_proxy.Prelude.Lists.{length, drop, is_empty, same_bytes}
use llm_guard_proxy.Prelude.Words.{u64_max, saturating_add, saturating_mul}
use llm_guard_proxy.Prelude.Text.{codes, take}
use llm_guard_proxy.StreamLoop.Hash.{stable_hash, stable_hash_u64s}
use llm_guard_proxy.StreamLoop.Counts.{contains, insert_hash}

pub record SemanticWindow : Type 0 where
  pub token_features : List ℕ
  pub ngram_features : List ℕ
  pub sample_hash : ℕ

unfoldable pub token_features_of : List ℕ → List ℕ → List ℕ
unfolding insert_hash
token_features_of [] found = found
token_features_of (token ∷ rest) found =
    token_features_of rest (insert_hash (stable_hash_u64s (0 ∷ token ∷ [])) found)

-- `tokens.windows(2)`
unfoldable pub ngram_features_of : List ℕ → List ℕ → List ℕ
unfolding insert_hash
ngram_features_of [] found = found
ngram_features_of (a ∷ []) found = found
ngram_features_of (a ∷ b ∷ rest) found =
    ngram_features_of (b ∷ rest) (insert_hash (stable_hash_u64s (1 ∷ a ∷ b ∷ [])) found)

unfoldable pub from_tokens : List ℕ → SemanticWindow
unfolding token_features_of ngram_features_of
from_tokens tokens =
    let token_features = token_features_of tokens [] in
    let ngram_features = ngram_features_of tokens [] in
    record {
      token_features = token_features;
      ngram_features = ngram_features;
      sample_hash = stable_hash_u64s (token_features ++ ngram_features);
    }

unfoldable pub feature_count : SemanticWindow → ℕ
feature_count w = saturating_add u64_max (length w.token_features) (length w.ngram_features)

-- `left.intersection(right).count()`
unfoldable pub intersection_count : List ℕ → List ℕ → ℕ
unfolding contains
intersection_count [] right = 0
intersection_count (x ∷ xs) right =
    if contains x right then suc (intersection_count xs right) else intersection_count xs right

-- The sizes of the union; the subtraction saturates.
unfoldable pub union_count : List ℕ → List ℕ → ℕ
unfolding intersection_count
union_count left right =
    saturating_add u64_max (length left) (length right) - intersection_count left right

unfoldable pub jaccard_percent : List ℕ → List ℕ → ℕ
unfolding intersection_count union_count
jaccard_percent left right =
    if is_empty left || is_empty right
    then 0
    else if union_count left right == 0
    then 0
    else saturating_mul u64_max (intersection_count left right) 100 / union_count left right

unfoldable pub similarity_percent : SemanticWindow → SemanticWindow → ℕ
unfolding jaccard_percent
similarity_percent window other =
    Prim.Native.Nat.max (jaccard_percent window.token_features other.token_features)
      (jaccard_percent window.ngram_features other.ngram_features)

-- `iter().map(similarity).max().unwrap_or(0)`
unfoldable pub best_similarity : SemanticWindow → List SemanticWindow → ℕ
unfolding similarity_percent
best_similarity window [] = 0
best_similarity window (previous ∷ rest) =
    Prim.Native.Nat.max (similarity_percent window previous) (best_similarity window rest)

-- Is the text one of the words?
unfoldable pub one_of : List ℕ → List (List ℕ) → Bool
one_of token [] = false
one_of token (word ∷ rest) = if same_bytes token word then true else one_of token rest

abbrev pub stop_words : List (List ℕ)
stop_words = map codes (
    "the" ∷ "and" ∷ "but" ∷ "for" ∷ "with" ∷ "that" ∷ "this" ∷ "then" ∷ "than" ∷ "from" ∷ "into"
    ∷ "onto" ∷ "over" ∷ "under" ∷ "again" ∷ "actually" ∷ "maybe" ∷ "could" ∷ "would" ∷ "should"
    ∷ "need" ∷ "needs" ∷ "using" ∷ "use" ∷ "try" ∷ "first" ∷ "next" ∷ "back" ∷ "approach" ∷ "plan"
    ∷ "step" ∷ "option" ∷ "think" ∷ "about" ∷ "without" ∷ "before" ∷ "after" ∷ "because" ∷ "there"
    ∷ "where" ∷ "when" ∷ "what" ∷ "which" ∷ "while" ∷ [])

unfoldable pub is_semantic_stop_word : List ℕ → Bool
unfolding one_of
is_semantic_stop_word token = one_of token stop_words

abbrev pub ends_with : List ℕ → List ℕ → Bool
ends_with token suffix =
    leb (length suffix) (length token)
    && same_bytes (drop (length token - length suffix) token) suffix

-- The loop over the suffixes. A token is ASCII, so its bytes are its characters.
unfoldable pub strip_suffixes : List ℕ → List (List ℕ) → List ℕ
strip_suffixes token [] = token
strip_suffixes token (suffix ∷ rest) =
    if ltb (saturating_add u64_max (length suffix) 3) (length token) && ends_with token suffix
    then take (length token - length suffix) token
    else strip_suffixes token rest

unfoldable pub strip_semantic_suffix : List ℕ → List ℕ
unfolding strip_suffixes
strip_semantic_suffix token =
    strip_suffixes token (codes "ing" ∷ codes "ed" ∷ codes "es" ∷ codes "s" ∷ [])

-- The `match` on the token.
unfoldable pub base_word : List ℕ → List ℕ
unfolding one_of strip_semantic_suffix
base_word token =
    if one_of token (map codes ("tmp" ∷ "temp" ∷ "tmpdir" ∷ "temporary" ∷ []))
    then codes "temporary"
    else if one_of token (map codes ("dir" ∷ "dirs" ∷ "directory" ∷ "directories" ∷ []))
    then codes "directory"
    else if one_of token (map codes ("extracting" ∷ "extracted" ∷ "extracts" ∷ "extraction" ∷ []))
    then codes "extract"
    else if one_of token (map codes ("archives" ∷ "archived" ∷ []))
    then codes "archive"
    else if one_of token (map codes ("zips" ∷ "zipped" ∷ []))
    then codes "zip"
    else strip_semantic_suffix token

unfoldable pub normalize_semantic_token : List ℕ → Option (List ℕ)
unfolding is_semantic_stop_word base_word
normalize_semantic_token token =
    if ltb (length token) 3 || is_semantic_stop_word token
    then none
    else if leb 3 (length (base_word token)) && not (is_semantic_stop_word (base_word token))
    then some (base_word token)
    else none

unfoldable pub semantic_token_hash : List ℕ → Option ℕ
unfolding normalize_semantic_token
semantic_token_hash token = elim (normalize_semantic_token token) [
  | none ↦ none
  | some normalized ↦ some (stable_hash normalized)
]
