-- ===== src/StreamLoop/Reasoning/Streak.antt =====
-- The detector of approximate repetition fires on similar windows in a row.
use llm_guard_proxy.Prelude.{
  ℕ, suc, min, ◌≡◌, refl, ap, ◌∙◌, Bool, true, false, ◌&&◌, Option, none, some, List, [], ◌∷◌,
  arith,
}
use llm_guard_proxy.Prelude.Tests.{leb, if◌then◌else◌}
use llm_guard_proxy.Prelude.Words.{u32_max, saturating_add}
use llm_guard_proxy.StreamLoop.Config.{LoopGuardConfig}
use llm_guard_proxy.StreamLoop.Detection.{FeatureDetection}
use llm_guard_proxy.StreamLoop.Semantic.{SemanticWindow}
use llm_guard_proxy.StreamLoop.Profile.{LoopInputProfile}
use llm_guard_proxy.StreamLoop.State.{LoopChannelState, default_state}
use llm_guard_proxy.StreamLoop.Reasoning.{remember_window, judge_semantic_window}

-- A window with its best similarity to the windows before it.
abbrev pub Compared : Type 0
Compared = SemanticWindow × ℕ

-- How many of the windows, the newest first, were similar since the last one that was not.
abbrev pub streak : ℕ → List Compared → ℕ
streak threshold [] = 0
streak threshold ((window, similarity) ∷ older) =
    if leb threshold similarity then suc (streak threshold older) else 0

abbrev pub fires : Option FeatureDetection → Bool
fires none = false
fires (some detection) = true

module _ (config : LoopGuardConfig) (profile : LoopInputProfile) where
  -- The state after the windows, the newest first.
  abbrev pub judge_all : List Compared → LoopChannelState → LoopChannelState
  judge_all [] st = st
  judge_all ((window, similarity) ∷ older) st =
      (judge_semantic_window config profile window similarity (judge_all older st)).0

  abbrev threshold : ℕ
  threshold = config.reasoning_semantic_similarity_threshold_percent

  remember_keeps :
      (window : SemanticWindow) (st : LoopChannelState)
      → (remember_window config window st).semantic_consecutive_repeat_count
        ≡ st.semantic_consecutive_repeat_count
  unfolding remember_window
  remember_keeps window st = ground arith

  judge_counts :
      (window : SemanticWindow) (similarity : ℕ) (st : LoopChannelState)
      → ((judge_semantic_window config profile window similarity st).0
        ).semantic_consecutive_repeat_count
        ≡ (if leb threshold similarity
            then saturating_add u32_max st.semantic_consecutive_repeat_count 1
            else 0)
  unfolding judge_semantic_window
  judge_counts window similarity st = ground (
    arith,
    remember_keeps window (record st {
      semantic_consecutive_repeat_count =
          saturating_add u32_max st.semantic_consecutive_repeat_count 1;
    }),
    remember_keeps window (record st { semantic_consecutive_repeat_count = 0 }),
  )

  judge_fires :
      (window : SemanticWindow) (similarity : ℕ) (st : LoopChannelState)
      → fires ((judge_semantic_window config profile window similarity st).1)
        ≡ leb threshold similarity
          && leb config.reasoning_semantic_repeat_window_count
              (saturating_add u32_max st.semantic_consecutive_repeat_count 1)
  unfolding judge_semantic_window
  judge_fires window similarity st = ground arith

  default_count : default_state.semantic_consecutive_repeat_count ≡ 0
  unfolding default_state
  default_count = refl

  judge_all-streak :
      (windows : List Compared)
      → (judge_all windows default_state).semantic_consecutive_repeat_count
        ≡ min (streak threshold windows) u32_max
  judge_all-streak [] = default_count
  judge_all-streak ((window, similarity) ∷ older) = ground (
    arith,
    judge_counts window similarity (judge_all older default_state),
    judge_all-streak older,
  )

-- After any windows on a fresh channel, the next window fires exactly where its similarity is at
-- least the threshold and it is at least the required one in a row of windows that were that
-- similar, counted up to the largest u32.
pub judge_semantic_window-streak :
    (config : LoopGuardConfig) (profile : LoopInputProfile) (older : List Compared)
    (window : SemanticWindow) (similarity : ℕ)
    → fires (
        (judge_semantic_window config profile window similarity
          (judge_all config profile older default_state)).1)
      ≡ leb config.reasoning_semantic_similarity_threshold_percent similarity
        && leb config.reasoning_semantic_repeat_window_count (
            min (suc (streak config.reasoning_semantic_similarity_threshold_percent older)) u32_max)
judge_semantic_window-streak config profile older window similarity =
    let before = judge_all config profile older default_state in
    let same : saturating_add u32_max before.semantic_consecutive_repeat_count 1
        ≡ min (suc (streak config.reasoning_semantic_similarity_threshold_percent older)) u32_max =
      omega (arith, judge_all-streak config profile older) in
    judge_fires config profile window similarity before
    ∙ ap
        (λ n.
          leb config.reasoning_semantic_similarity_threshold_percent similarity
          && leb config.reasoning_semantic_repeat_window_count n)
        same
