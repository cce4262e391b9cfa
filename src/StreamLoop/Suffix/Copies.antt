-- ===== src/StreamLoop/Suffix/Copies.antt =====
-- Texts that end in copies of a unit.
use mathlib.Core.List.{append_assoc}
use native.Mathlib.Nat.{zero-add}
use llm_guard_proxy.Prelude.{
  ℕ, zero, suc, ◌+◌, ◌-◌, ◌*◌, ◌<◌, ◌≡◌, refl, sym, ap, ◌∙◌, List, [], ◌∷◌, ◌++◌, arith,
}
use llm_guard_proxy.Prelude.Lists.{length, drop, length-append, length-drop, drop-append}
use llm_guard_proxy.Prelude.Text.{take}

module _ {ℓ} {A : Type ℓ} where
  pub take-append : (xs ys : List A) → take (length xs) (xs ++ ys) ≡ xs
  take-append [] ys = refl
  take-append (x ∷ xs) ys = ap (λ zs. x ∷ zs) (take-append xs ys)

  pub drop-append_all : (xs ys : List A) → drop (length xs) (xs ++ ys) ≡ ys
  drop-append_all [] ys = refl
  drop-append_all (x ∷ xs) ys = drop-append_all xs ys

  pub take-drop : (n : ℕ) (xs : List A) → take n xs ++ drop n xs ≡ xs
  take-drop zero xs = refl
  take-drop (suc n) [] = refl
  take-drop (suc n) (x ∷ xs) = ap (λ zs. x ∷ zs) (take-drop n xs)

  -- `unit` written `n` times.
  abbrev pub copies : ℕ → List A → List A
  copies zero unit = []
  copies (suc n) unit = unit ++ copies n unit

  pub length-copies : (n : ℕ) (unit : List A) → length (copies n unit) ≡ length unit * n
  length-copies zero unit = omega arith
  length-copies (suc n) unit =
      omega (arith, length-append unit (copies n unit), length-copies n unit)

  pub copies-add : (m n : ℕ) (unit : List A) → copies m unit ++ copies n unit ≡ copies (m + n) unit
  copies-add zero n unit = rw (native.Mathlib.Nat.zero-add)
  copies-add (suc m) n unit =
      let sum : suc (m + n) ≡ suc m + n = omega arith in
      append_assoc unit (copies m unit) (copies n unit)
      ∙ ap (λ zs. unit ++ zs) (copies-add m n unit)
      ∙ ap (λ k. copies k unit) sum

  -- A slice just before the copies that is the unit is one more copy.
  pub one_more_copy :
      (pre unit : List A) (r start : ℕ)
      → length pre ≡ start + length unit
      → take (length unit) (drop start (pre ++ copies r unit)) ≡ unit
      → pre ++ copies r unit ≡ take start pre ++ copies (suc r) unit
  one_more_copy pre unit r start h e =
      let size : length (drop start pre) ≡ length unit = omega (arith, length-drop start pre) in
      let last : drop start pre ≡ unit =
        sym (take-append (drop start pre) (copies r unit))
        ∙ ap (λ n. take n (drop start pre ++ copies r unit)) size
        ∙ ap (take (length unit)) (sym (drop-append start pre (copies r unit) (omega arith)))
        ∙ e in
      ap (λ xs. xs ++ copies r unit) (sym (take-drop start pre))
      ∙ append_assoc (take start pre) (drop start pre) (copies r unit)
      ∙ ap (λ xs. take start pre ++ (xs ++ copies r unit)) last

  -- Where there are more copies than `r`, the slice before the last `r` is the unit.
  pub slice-copies :
      (pre unit : List A) (r m start : ℕ)
      → r < m
      → start + length unit * (r + 1) ≡ length (pre ++ copies m unit)
      → take (length unit) (drop start (pre ++ copies m unit)) ≡ unit
  slice-copies pre unit r m start h e =
      let sum : m ≡ (m - suc r) + suc r = omega arith in
      let parts : pre ++ copies m unit ≡ (pre ++ copies (m - suc r) unit) ++ copies (suc r) unit =
        ap (λ k. pre ++ copies k unit) sum
        ∙ ap (λ zs. pre ++ zs) (sym (copies-add (m - suc r) (suc r) unit))
        ∙ sym (append_assoc pre (copies (m - suc r) unit) (copies (suc r) unit)) in
      let before : start ≡ length (pre ++ copies (m - suc r) unit) = omega (
        arith,
        e,
        ap length parts,
        length-append (pre ++ copies (m - suc r) unit) (copies (suc r) unit),
        length-copies (suc r) unit,
      ) in
      ap (λ xs. take (length unit) (drop start xs)) parts
      ∙ ap
          (λ n.
            take (length unit) (drop n ((pre ++ copies (m - suc r) unit) ++ copies (suc r) unit)))
          before
      ∙ ap (take (length unit))
          (drop-append_all (pre ++ copies (m - suc r) unit) (copies (suc r) unit))
      ∙ take-append unit (copies r unit)
