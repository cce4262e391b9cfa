-- ===== src/StreamLoop/State/Bounds.antt =====
-- How large the state of a channel can be.
use llm_guard_proxy.Prelude.{◌≤◌, Bool, true, false, arith}
use llm_guard_proxy.Prelude.Lists.{length}
use llm_guard_proxy.Prelude.Text.{byte_len}
use llm_guard_proxy.StreamLoop.Config.{LoopGuardConfig}
use llm_guard_proxy.StreamLoop.State.{LoopChannelState, default_state, note_overlap}

-- A pending line takes a last character of at most four bytes; a token takes the last character's
-- lowercase form, of at most three characters.
abbrev pub IsBounded : LoopGuardConfig → LoopChannelState → Type 0
IsBounded config st =
    (length st.line_counts ≤ 4096)
    × (byte_len st.pending_line ≤ 8195)
    × (length st.token_window_counts ≤ 8192)
    × (length st.unique_token_windows ≤ 8192)
    × (length st.recent_token_hashes ≤ config.output_token_window_size)
    × (byte_len st.current_token ≤ 139)
    × (length st.recent_chars ≤ 4096)
    × (length st.semantic_windows ≤ 256)
    × (length st.semantic_current_token ≤ 64)

pub default_state-IsBounded : (config : LoopGuardConfig) → IsBounded config default_state
unfolding default_state byte_len
default_state-IsBounded config = ground arith

pub note_overlap-IsBounded :
    (config : LoopGuardConfig) (overlap : Bool) (st : LoopChannelState)
    → IsBounded config st
    → IsBounded config (note_overlap overlap st)
unfolding note_overlap
note_overlap-IsBounded config true st b = b
note_overlap-IsBounded config false st b = b
