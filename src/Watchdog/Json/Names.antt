-- ===== src/Watchdog/Json/Names.antt =====
-- The names of the JSON fields that watchdog_progress.rs reads.
use llm_guard_proxy.Prelude.{ℕ, List, [], ◌∷◌}

abbrev pub choices_name : List ℕ
choices_name = b'c' ∷ b'h' ∷ b'o' ∷ b'i' ∷ b'c' ∷ b'e' ∷ b's' ∷ []

abbrev pub text_name : List ℕ
text_name = b't' ∷ b'e' ∷ b'x' ∷ b't' ∷ []

abbrev pub delta_name : List ℕ
delta_name = b'd' ∷ b'e' ∷ b'l' ∷ b't' ∷ b'a' ∷ []

abbrev pub content_name : List ℕ
content_name = b'c' ∷ b'o' ∷ b'n' ∷ b't' ∷ b'e' ∷ b'n' ∷ b't' ∷ []

abbrev pub reasoning_content_name : List ℕ
reasoning_content_name =
    b'r' ∷ b'e' ∷ b'a' ∷ b's' ∷ b'o' ∷ b'n' ∷ b'i' ∷ b'n' ∷ b'g' ∷ b'_' ∷ b'c' ∷ b'o' ∷ b'n' ∷ b't'
    ∷ b'e' ∷ b'n' ∷ b't' ∷ []

abbrev pub reasoning_name : List ℕ
reasoning_name = b'r' ∷ b'e' ∷ b'a' ∷ b's' ∷ b'o' ∷ b'n' ∷ b'i' ∷ b'n' ∷ b'g' ∷ []

abbrev pub thinking_name : List ℕ
thinking_name = b't' ∷ b'h' ∷ b'i' ∷ b'n' ∷ b'k' ∷ b'i' ∷ b'n' ∷ b'g' ∷ []

abbrev pub tool_calls_name : List ℕ
tool_calls_name = b't' ∷ b'o' ∷ b'o' ∷ b'l' ∷ b'_' ∷ b'c' ∷ b'a' ∷ b'l' ∷ b'l' ∷ b's' ∷ []

abbrev pub function_call_name : List ℕ
function_call_name =
    b'f' ∷ b'u' ∷ b'n' ∷ b'c' ∷ b't' ∷ b'i' ∷ b'o' ∷ b'n' ∷ b'_' ∷ b'c' ∷ b'a' ∷ b'l' ∷ b'l' ∷ []

abbrev pub function_name : List ℕ
function_name = b'f' ∷ b'u' ∷ b'n' ∷ b'c' ∷ b't' ∷ b'i' ∷ b'o' ∷ b'n' ∷ []

abbrev pub name_name : List ℕ
name_name = b'n' ∷ b'a' ∷ b'm' ∷ b'e' ∷ []

abbrev pub arguments_name : List ℕ
arguments_name = b'a' ∷ b'r' ∷ b'g' ∷ b'u' ∷ b'm' ∷ b'e' ∷ b'n' ∷ b't' ∷ b's' ∷ []

abbrev pub data_name : List ℕ
data_name = b'd' ∷ b'a' ∷ b't' ∷ b'a' ∷ []

abbrev pub embedding_name : List ℕ
embedding_name = b'e' ∷ b'm' ∷ b'b' ∷ b'e' ∷ b'd' ∷ b'd' ∷ b'i' ∷ b'n' ∷ b'g' ∷ []

abbrev pub results_name : List ℕ
results_name = b'r' ∷ b'e' ∷ b's' ∷ b'u' ∷ b'l' ∷ b't' ∷ b's' ∷ []

abbrev pub relevance_score_name : List ℕ
relevance_score_name =
    b'r' ∷ b'e' ∷ b'l' ∷ b'e' ∷ b'v' ∷ b'a' ∷ b'n' ∷ b'c' ∷ b'e' ∷ b'_' ∷ b's' ∷ b'c' ∷ b'o' ∷ b'r'
    ∷ b'e' ∷ []

abbrev pub rerank_score_name : List ℕ
rerank_score_name =
    b'r' ∷ b'e' ∷ b'r' ∷ b'a' ∷ b'n' ∷ b'k' ∷ b'_' ∷ b's' ∷ b'c' ∷ b'o' ∷ b'r' ∷ b'e' ∷ []

abbrev pub score_name : List ℕ
score_name = b's' ∷ b'c' ∷ b'o' ∷ b'r' ∷ b'e' ∷ []
