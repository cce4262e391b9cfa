-- ===== src/Guardian/MemInfo/Reading.antt =====
-- Reading `MemAvailable` back from a text of /proc/meminfo.
use mathlib.Core.Path.{subst}
use mathlib.Core.List.{append_assoc}
use llm_guard_proxy.Prelude.{
  ℕ, zero, suc, ◌*◌, ◌≤◌, ◌≡◌, refl, ◌∙◌, ◌≢◌, inl, inr, true, false, some, List, [], ◌∷◌, ◌++◌,
  arith,
}
use llm_guard_proxy.Prelude.Tests.{==_self, Option-cases}
use llm_guard_proxy.Prelude.Lists.{replicate}
use llm_guard_proxy.Prelude.Words.{u64_max}
use llm_guard_proxy.Prelude.Decimal.{
  is_digit, push_digit, read_digit, read_digits, print_unsigned, AllDigits,
}
use llm_guard_proxy.Guardian.MemInfo.{
  ok, split, strip_prefix, is_ascii_whitespace, trim_start, trim_end, trim_ascii, split_word,
  all_digits, accumulate, is_kb, parse_field, label,
}

-- The kernel's line for a number of KiB: the label, padding, the number, and its unit.
abbrev pub field : ℕ → ℕ → List ℕ
field padding kib = label ++ (replicate padding 32 ++ (print_unsigned kib ++ 32 ∷ b'k' ∷ b'B' ∷ []))

pub strip_prefix-append : (p xs : List ℕ) → strip_prefix p (p ++ xs) ≡ some xs
unfolding strip_prefix
strip_prefix-append [] xs = refl
strip_prefix-append (c ∷ p) xs = rw (==_self c) (strip_prefix-append p xs)

digit_not_space : (c : ℕ) → is_digit c ≡ true → is_ascii_whitespace c ≡ false
unfolding is_digit is_ascii_whitespace
digit_not_space c h = ground arith

trim_start-padding : (k : ℕ) (xs : List ℕ) → trim_start (replicate k 32 ++ xs) ≡ trim_start xs
unfolding trim_start
trim_start-padding zero xs = refl
trim_start-padding (suc k) xs = trim_start-padding k xs

trim_end-snoc :
    (xs : List ℕ) (c : ℕ) → is_ascii_whitespace c ≡ false → trim_end (xs ++ c ∷ []) ≡ xs ++ c ∷ []
unfolding trim_end
trim_end-snoc [] c h = ground arith
trim_end-snoc (x ∷ []) c h = ground arith
trim_end-snoc (x ∷ y ∷ xs) c h = rw (trim_end-snoc (y ∷ xs) c h)

trim_start-digit : (c : ℕ) (rest : List ℕ) → is_digit c ≡ true → trim_start (c ∷ rest) ≡ c ∷ rest
unfolding trim_start
trim_start-digit c rest h = rw (digit_not_space c h)

trim_ascii-word :
    (c : ℕ) (word : List ℕ) (k : ℕ)
    → is_digit c ≡ true
    → trim_ascii (replicate k 32 ++ (c ∷ word ++ 32 ∷ b'k' ∷ b'B' ∷ []))
      ≡ c ∷ word ++ 32 ∷ b'k' ∷ b'B' ∷ []
unfolding trim_ascii
trim_ascii-word c word k h =
    let whole = c ∷ word ++ 32 ∷ b'k' ∷ b'B' ∷ [] in
    let e : (c ∷ word ++ 32 ∷ b'k' ∷ []) ++ b'B' ∷ [] ≡ whole =
      append_assoc (c ∷ word) (32 ∷ b'k' ∷ []) (b'B' ∷ []) in
    rw (trim_start-padding k whole, trim_start-digit c (word ++ 32 ∷ b'k' ∷ b'B' ∷ []) h)
      (subst (λ t. trim_end t ≡ t) e
        (trim_end-snoc (c ∷ word ++ 32 ∷ b'k' ∷ []) b'B' (unfold is_ascii_whitespace in refl)))

split_word-digits :
    (ds rest : List ℕ) → AllDigits ds → split_word (ds ++ 32 ∷ rest) ≡ some (ds, 32 ∷ rest)
unfolding split_word
split_word-digits [] rest h = refl
split_word-digits (d ∷ ds) rest h = rw (digit_not_space d h.0, split_word-digits ds rest h.1)

all_digits_of : (ds : List ℕ) → AllDigits ds → all_digits ds ≡ true
unfolding all_digits
all_digits_of [] h = refl
all_digits_of (d ∷ ds) h = rw (h.0, all_digits_of ds h.1)

accumulate-read : (v : ℕ) (ds : List ℕ) → AllDigits ds → accumulate v ds ≡ read_digits v ds
unfolding accumulate read_digits read_digit
accumulate-read v [] h = refl
accumulate-read v (d ∷ ds) h = elim (Option-cases (push_digit v d)) [
  | inl e ↦ ground (arith, e, h.0)
  | inr (v', e) ↦ ground (arith, e, h.0, accumulate-read v' ds h.1)
]

trim_unit : is_kb (trim_ascii (32 ∷ b'k' ∷ b'B' ∷ [])) ≡ true
unfolding is_kb trim_ascii is_ascii_whitespace
trim_unit = refl

-- `parse_field` after its trimming, on a word and a unit.
parse_field-parts :
    (rest digits unit : List ℕ) (c kib : ℕ) (word : List ℕ)
    → split_word (trim_ascii rest) ≡ some (digits, unit)
    → digits ≡ c ∷ word
    → all_digits digits ≡ true
    → is_kb (trim_ascii unit) ≡ true
    → accumulate 0 digits ≡ some kib
    → kib * 1024 ≤ u64_max
    → parse_field rest ≡ ok (kib * 1024)
unfolding parse_field
parse_field-parts rest digits unit c kib word split nonempty all unit_ok value fits = ground arith

pub parse_field-digits :
    (k kib : ℕ) (digits : List ℕ)
    → digits ≢ []
    → AllDigits digits
    → read_digits 0 digits ≡ some kib
    → kib * 1024 ≤ u64_max
    → parse_field (replicate k 32 ++ (digits ++ 32 ∷ b'k' ∷ b'B' ∷ [])) ≡ ok (kib * 1024)
parse_field-digits k kib [] ne all value fits = absurd (ne refl)
parse_field-digits k kib (c ∷ word) ne all value fits =
    parse_field-parts _ (c ∷ word) (32 ∷ b'k' ∷ b'B' ∷ []) c kib word
      (rw (trim_ascii-word c word k all.0) (split_word-digits (c ∷ word) (b'k' ∷ b'B' ∷ []) all))
      refl (all_digits_of (c ∷ word) all) trim_unit (accumulate-read 0 (c ∷ word) all ∙ value) fits
