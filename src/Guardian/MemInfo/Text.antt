-- ===== src/Guardian/MemInfo/Text.antt =====
-- `parse_mem_available` on whole texts of /proc/meminfo.
use mathlib.Core.List.{append_assoc}
use llm_guard_proxy.Prelude.{
  ℕ, zero, suc, ◌*◌, ◌≤◌, ◌≡◌, refl, ap, ◌∙◌, false, Option, none, some, List, [], ◌∷◌, ◌++◌, arith,
}
use llm_guard_proxy.Prelude.Tests.{◌==◌}
use llm_guard_proxy.Prelude.Lists.{replicate}
use llm_guard_proxy.Prelude.Words.{u64_max}
use llm_guard_proxy.Prelude.Decimal.{
  is_digit, print_unsigned, AllDigits, print_unsigned-AllDigits, print_unsigned-ne-nil,
  read_digits-print_unsigned,
}
use llm_guard_proxy.Guardian.MemInfo.{
  duplicate, ok, err, split, strip_prefix, parse_field, label, parse_lines, parse_mem_available,
}
use llm_guard_proxy.Guardian.MemInfo.Reading.{field, strip_prefix-append, parse_field-digits}

abbrev pub NoBreak : List ℕ → Type 0
NoBreak [] = Unit {0}
NoBreak (c ∷ line) = ((c == 10) ≡ false) × NoBreak line

-- Lines of other fields.
abbrev pub Others : List (List ℕ) → Type 0
Others [] = Unit {0}
Others (line ∷ lines) = NoBreak line × (strip_prefix label line ≡ none) × Others lines

abbrev pub unlines : List (List ℕ) → List ℕ
unlines [] = []
unlines (line ∷ lines) = line ++ 10 ∷ unlines lines

NoBreak-append : (xs ys : List ℕ) → NoBreak xs → NoBreak ys → NoBreak (xs ++ ys)
NoBreak-append [] ys h k = k
NoBreak-append (x ∷ xs) ys h k = (h.0, NoBreak-append xs ys h.1 k)

NoBreak-digits : (ds : List ℕ) → AllDigits ds → NoBreak ds
unfolding is_digit
NoBreak-digits [] h = tt
NoBreak-digits (d ∷ ds) h = (ground (arith, h.0), NoBreak-digits ds h.1)

NoBreak-padding : (k : ℕ) → NoBreak (replicate k 32)
NoBreak-padding zero = tt
NoBreak-padding (suc k) = (refl, NoBreak-padding k)

NoBreak-label : NoBreak label
NoBreak-label = (
  refl,
  (
    refl,
    (refl, (refl, (refl, (refl, (refl, (refl, (refl, (refl, (refl, (refl, (refl, tt))))))))))),
  ),
)

NoBreak-field : (padding kib : ℕ) → NoBreak (field padding kib)
NoBreak-field padding kib = NoBreak-append label _ NoBreak-label (
    NoBreak-append (replicate padding 32) _ (NoBreak-padding padding) (
      NoBreak-append (print_unsigned kib) _
        (NoBreak-digits (print_unsigned kib) (print_unsigned-AllDigits kib))
        (refl, (refl, (refl, tt)))))

split-line :
    (line rest : List ℕ) → NoBreak line → split 10 (line ++ 10 ∷ rest) ≡ line ∷ split 10 rest
unfolding split
split-line [] rest h = refl
split-line (c ∷ line) rest h = rw (h.0, split-line line rest h.1)

abbrev AllNoBreak : List (List ℕ) → Type 0
AllNoBreak [] = Unit {0}
AllNoBreak (line ∷ lines) = NoBreak line × AllNoBreak lines

Others-NoBreak : (lines : List (List ℕ)) → Others lines → AllNoBreak lines
Others-NoBreak [] h = tt
Others-NoBreak (line ∷ lines) h = (h.0, Others-NoBreak lines h.2)

AllNoBreak-append : (xs ys : List (List ℕ)) → AllNoBreak xs → AllNoBreak ys → AllNoBreak (xs ++ ys)
AllNoBreak-append [] ys h k = k
AllNoBreak-append (x ∷ xs) ys h k = (h.0, AllNoBreak-append xs ys h.1 k)

split-unlines :
    (lines : List (List ℕ)) → AllNoBreak lines → split 10 (unlines lines) ≡ lines ++ [] ∷ []
unfolding split
split-unlines [] h = refl
split-unlines (line ∷ lines) h =
    split-line line (unlines lines) h.0 ∙ ap (◌∷◌ line) (split-unlines lines h.1)

parse_lines-skip :
    (found : Option ℕ) (line : List ℕ) (rest : List (List ℕ))
    → strip_prefix label line ≡ none
    → parse_lines found (line ∷ rest) ≡ parse_lines found rest
unfolding parse_lines
parse_lines-skip none line rest h = ground arith
parse_lines-skip (some bytes) line rest h = ground arith

parse_lines-Others :
    (found : Option ℕ) (lines rest : List (List ℕ))
    → Others lines
    → parse_lines found (lines ++ rest) ≡ parse_lines found rest
parse_lines-Others found [] rest h = refl
parse_lines-Others found (line ∷ lines) rest h =
    parse_lines-skip found line (lines ++ rest) h.1 ∙ parse_lines-Others found lines rest h.2

parse_lines-end : (found : Option ℕ) → parse_lines found ([] ∷ []) ≡ parse_lines found []
parse_lines-end found = parse_lines-skip found [] [] (unfold strip_prefix in refl)

parse_lines-field :
    (rest : List ℕ) (lines : List (List ℕ)) (bytes : ℕ)
    → parse_field rest ≡ ok bytes
    → parse_lines none ((label ++ rest) ∷ lines) ≡ parse_lines (some bytes) lines
unfolding parse_lines
parse_lines-field rest lines bytes h = ground (arith, strip_prefix-append label rest)

parse_lines-again :
    (rest : List ℕ) (lines : List (List ℕ)) (bytes : ℕ)
    → parse_lines (some bytes) ((label ++ rest) ∷ lines) ≡ err duplicate
unfolding parse_lines
parse_lines-again rest lines bytes = ground (arith, strip_prefix-append label rest)

parse_lines-nil : (bytes : ℕ) → parse_lines (some bytes) [] ≡ ok bytes
unfolding parse_lines
parse_lines-nil bytes = refl

parse_text :
    (lines : List (List ℕ))
    → AllNoBreak lines
    → parse_mem_available (unlines lines) ≡ parse_lines none (lines ++ [] ∷ [])
unfolding parse_mem_available
parse_text lines h = ap (parse_lines none) (split-unlines lines h)

module _ (before after : List (List ℕ)) (padding kib : ℕ) (front : Others before)
    (fits : kib * 1024 ≤ u64_max) where
  field_value :
      parse_field (replicate padding 32 ++ (print_unsigned kib ++ 32 ∷ b'k' ∷ b'B' ∷ []))
      ≡ ok (kib * 1024)
  field_value =
      parse_field-digits padding kib (print_unsigned kib) (print_unsigned-ne-nil kib)
        (print_unsigned-AllDigits kib) (read_digits-print_unsigned kib (omega arith)) fits

  up_to_field :
      (rest : List (List ℕ))
      → parse_lines none (before ++ field padding kib ∷ rest) ≡ parse_lines (some (kib * 1024)) rest
  up_to_field rest =
      parse_lines-Others none before (field padding kib ∷ rest) front
      ∙ parse_lines-field _ rest (kib * 1024) field_value

  -- A text of lines that holds one MemAvailable line, with any padding and a number of KiB whose bytes
  -- fit in a u64, among lines without that label, reads as the number of bytes.
  pub parse_mem_available-field :
      Others after
      → parse_mem_available (unlines (before ++ field padding kib ∷ after)) ≡ ok (kib * 1024)
  parse_mem_available-field back =
      parse_text (before ++ field padding kib ∷ after) (
        AllNoBreak-append before _ (Others-NoBreak before front)
          (NoBreak-field padding kib, Others-NoBreak after back))
      ∙ ap (parse_lines none) (append_assoc before (field padding kib ∷ after) ([] ∷ []))
      ∙ up_to_field (after ++ [] ∷ [])
      ∙ parse_lines-Others (some (kib * 1024)) after ([] ∷ []) back
      ∙ parse_lines-end (some (kib * 1024))
      ∙ parse_lines-nil (kib * 1024)

  -- Behind such a line, a second line with the label is refused as a duplicate, whatever it holds.
  pub parse_mem_available-duplicate :
      (between : List (List ℕ)) (again : List ℕ)
      → Others between
      → NoBreak again
      → Others after
      → parse_mem_available
          (unlines (before ++ (field padding kib ∷ (between ++ (label ++ again) ∷ after))))
        ≡ err duplicate
  parse_mem_available-duplicate between again mid clean back =
      parse_text (before ++ (field padding kib ∷ (between ++ (label ++ again) ∷ after))) (
        AllNoBreak-append before _ (Others-NoBreak before front) (
          NoBreak-field padding kib,
          AllNoBreak-append between _ (Others-NoBreak between mid)
              (NoBreak-append label again NoBreak-label clean, Others-NoBreak after back),
        ))
      ∙ ap (parse_lines none) (
          append_assoc before (field padding kib ∷ (between ++ (label ++ again) ∷ after)) ([] ∷ []))
      ∙ up_to_field ((between ++ (label ++ again) ∷ after) ++ [] ∷ [])
      ∙ ap (parse_lines (some (kib * 1024)))
          (append_assoc between ((label ++ again) ∷ after) ([] ∷ []))
      ∙ parse_lines-Others (some (kib * 1024)) between _ mid
      ∙ parse_lines-again again (after ++ [] ∷ []) (kib * 1024)
