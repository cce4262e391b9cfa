-- ===== src/StreamLoop/Channel/Pieces.antt =====
-- The detector of repeated lines on a text in two pieces.
use mathlib.Core.Path.{ap₂}
use llm_guard_proxy.Prelude.{
  ℕ, ◌+◌, ◌≤◌, ◌≡◌, refl, sym, ap, ◌∙◌, inl, inr, true, false, none, List, [], ◌∷◌, ◌++◌, arith,
}
use llm_guard_proxy.Prelude.Tests.{◌==◌, Bool-cases}
use llm_guard_proxy.Prelude.Words.{u64_max, saturating_add}
use llm_guard_proxy.Prelude.Text.{len_utf8, byte_len, Unicode}
use llm_guard_proxy.StreamLoop.Config.{LoopGuardConfig}
use llm_guard_proxy.StreamLoop.Profile.{LoopInputProfile}
use llm_guard_proxy.StreamLoop.State.{LoopChannelState, Outcome, or_else}
use llm_guard_proxy.StreamLoop.Lines.{push_line_char, end_line, observe_line_chars}
use llm_guard_proxy.StreamLoop.State.Outcomes.{or_else_assoc, or_else_same, first_none}

pub byte_len-nil : byte_len [] ≡ 0
unfolding byte_len
byte_len-nil = refl

pub byte_len-cons : (x : ℕ) (xs : List ℕ) → byte_len (x ∷ xs) ≡ len_utf8 x + byte_len xs
unfolding byte_len
byte_len-cons x xs = refl

module _ (unicode : Unicode) (config : LoopGuardConfig) (profile : LoopInputProfile) where
  pub line_break :
      (start index : ℕ) (c : ℕ) (rest : List ℕ) (st : LoopChannelState)
      → (c == 10) ≡ true
      → observe_line_chars unicode config profile start index (c ∷ rest) st
        ≡ or_else
            (end_line unicode config profile
              (saturating_add u64_max start (saturating_add u64_max index (len_utf8 c)))
              st)
            (observe_line_chars unicode config profile start (index + len_utf8 c) rest)
  unfolding observe_line_chars
  line_break start index c rest st h = ground (arith, h)

  pub line_char :
      (start index : ℕ) (c : ℕ) (rest : List ℕ) (st : LoopChannelState)
      → (c == 10) ≡ false
      → observe_line_chars unicode config profile start index (c ∷ rest) st
        ≡ observe_line_chars unicode config profile start
            (index + len_utf8 c)
            rest
            (push_line_char c st)
  unfolding observe_line_chars
  line_char start index c rest st h = ground (arith, h)

  pub no_chars :
      (start index : ℕ) (st : LoopChannelState)
      → observe_line_chars unicode config profile start index [] st ≡ (st, none)
  unfolding observe_line_chars
  no_chars start index st = refl

  abbrev onward : ℕ → ℕ → List ℕ → LoopChannelState → Outcome
  onward start index ys = observe_line_chars unicode config profile start index ys

  pub lines-append :
      (start index : ℕ) (xs ys : List ℕ) (st : LoopChannelState)
      → observe_line_chars unicode config profile start index (xs ++ ys) st
        ≡ or_else
            (observe_line_chars unicode config profile start index xs st)
            (observe_line_chars unicode config profile start (index + byte_len xs) ys)
  lines-append start index [] ys st =
      let here : index + byte_len [] ≡ index = omega (arith, byte_len-nil) in
      ap (λ i. observe_line_chars unicode config profile start i ys st) (sym here)
      ∙ sym
          (first_none st (observe_line_chars unicode config profile start (index + byte_len []) ys))
      ∙ ap
          (λ o.
            or_else o (observe_line_chars unicode config profile start (index + byte_len []) ys))
          (sym (no_chars start index st))
  lines-append start index (x ∷ xs) ys st =
      let shift : (index + len_utf8 x) + byte_len xs ≡ index + byte_len (x ∷ xs) =
        omega (arith, byte_len-cons x xs) in
      elim (Bool-cases (x == 10)) [
        | inr inside ↦
            line_char start index x (xs ++ ys) st inside
            ∙ lines-append start (index + len_utf8 x) xs ys (push_line_char x st)
            ∙ ap₂ (λ i o. or_else o (onward start i ys)) shift
                (sym (line_char start index x xs st inside))
        | inl break ↦
            line_break start index x (xs ++ ys) st break
            ∙ or_else_same _ _ _ (lines-append start (index + len_utf8 x) xs ys)
            ∙ sym (or_else_assoc _ _ (onward start ((index + len_utf8 x) + byte_len xs) ys))
            ∙ ap₂ (λ i o. or_else o (onward start i ys)) shift
                (sym (line_break start index x xs st break))
      ]

  -- What counts is where a character stands in the stream.
  pub lines_shift :
      (start k index : ℕ) (ys : List ℕ) (st : LoopChannelState)
      → start + k + index + byte_len ys ≤ u64_max
      → onward start (k + index) ys st ≡ onward (start + k) index ys st
  lines_shift start k index [] st h =
      no_chars start (k + index) st ∙ sym (no_chars (start + k) index st)
  lines_shift start k index (y ∷ ys) st h =
      let regroup : (k + index) + len_utf8 y ≡ k + (index + len_utf8 y) = omega arith in
      let size : start + k + (index + len_utf8 y) + byte_len ys ≤ u64_max =
        omega (arith, byte_len-cons y ys) in
      let end : saturating_add u64_max start (saturating_add u64_max (k + index) (len_utf8 y))
          ≡ saturating_add u64_max (start + k) (saturating_add u64_max index (len_utf8 y)) =
        omega arith in
      elim (Bool-cases (y == 10)) [
        | inr inside ↦
            line_char start (k + index) y ys st inside
            ∙ ap (λ i. onward start i ys (push_line_char y st)) regroup
            ∙ lines_shift start k (index + len_utf8 y) ys (push_line_char y st) size
            ∙ sym (line_char (start + k) index y ys st inside)
        | inl break ↦
            line_break start (k + index) y ys st break
            ∙ ap₂ (λ e i. or_else (end_line unicode config profile e st) (onward start i ys)) end
                regroup
            ∙ or_else_same _ _ _ (λ s. lines_shift start k (index + len_utf8 y) ys s size)
            ∙ sym (line_break (start + k) index y ys st break)
      ]
