-- ===== src/Prelude/Decimal.antt =====
-- Decimal texts of a `u64`, as lists of bytes: `str::parse::<u64>` and `to_string`.
use native.Mathlib.Decide.{dec_lt}
use native.Mathlib.Nat.{pow-suc}
use llm_guard_proxy.Prelude.{
  ℕ, zero, suc, ◌+◌, ◌-◌, ◌*◌, ◌/◌, ◌%◌, ◌^◌, ◌≤◌, ◌<◌, ◌≡◌, refl, ap, ◌∙◌, ◌≢◌, inl, inr, Bool,
  true, false, ◌&&◌, Option, none, some, List, [], ◌∷◌, ◌++◌, arith,
}
use llm_guard_proxy.Prelude.Tests.{ltb, leb, ◌==◌, if◌then◌else◌, Option-cases}
use llm_guard_proxy.Prelude.Lists.{length, length-append}
use llm_guard_proxy.Prelude.Words.{u64_max, checked_add, checked_mul}

unfoldable pub is_digit : ℕ → Bool
is_digit c = leb b'0' c && leb c b'9'

-- `value.checked_mul(10).and_then(|value| value.checked_add(digit))`
unfoldable pub push_digit : ℕ → ℕ → Option ℕ
push_digit value c = elim (checked_mul u64_max value 10) [
  | none ↦ none
  | some scaled ↦ checked_add u64_max scaled (c - b'0')
]

unfoldable pub read_digit : ℕ → ℕ → Option ℕ
unfolding is_digit push_digit
read_digit value c = if is_digit c then push_digit value c else none

-- The digits of a number, on from the value of those read so far.
unfoldable pub read_digits : ℕ → List ℕ → Option ℕ
unfolding read_digit
read_digits value [] = some value
read_digits value (c ∷ rest) = elim (read_digit value c) [
  | none ↦ none
  | some value' ↦ read_digits value' rest
]

-- `parse::<u64>`: an optional plus sign, then at least one digit, with no overflow.
unfoldable pub parse_unsigned : List ℕ → Option ℕ
unfolding read_digits
parse_unsigned [] = none
parse_unsigned (c ∷ []) = if c == b'+' then none else read_digits 0 (c ∷ [])
parse_unsigned (c ∷ d ∷ rest) =
    if c == b'+' then read_digits 0 (d ∷ rest) else read_digits 0 (c ∷ d ∷ rest)

-- `to_string`, with a round for each digit; 20 rounds serve every `u64`.
unfoldable pub print_digits : ℕ → ℕ → List ℕ
print_digits zero n = []
print_digits (suc rounds) n = elim (ltb n 10) [
  | true ↦ (b'0' + n) ∷ []
  | false ↦ print_digits rounds (n / 10) ++ (b'0' + n % 10) ∷ []
]

unfoldable pub print_unsigned : ℕ → List ℕ
unfolding print_digits
print_unsigned n = print_digits 20 n

abbrev pub AllDigits : List ℕ → Type 0
AllDigits [] = Unit {0}
AllDigits (c ∷ rest) = (is_digit c ≡ true) × AllDigits rest

pub AllDigits-append : (xs ys : List ℕ) → AllDigits xs → AllDigits ys → AllDigits (xs ++ ys)
AllDigits-append [] ys h k = k
AllDigits-append (x ∷ xs) ys h k = (h.0, AllDigits-append xs ys h.1 k)

print_digits-AllDigits : (rounds n : ℕ) → AllDigits (print_digits rounds n)
unfolding print_digits is_digit
print_digits-AllDigits zero n = tt
print_digits-AllDigits (suc rounds) n = ground (
  arith,
  AllDigits-append (print_digits rounds (n / 10)) ((b'0' + n % 10) ∷ [])
      (print_digits-AllDigits rounds (n / 10)),
)

pub print_unsigned-AllDigits : (n : ℕ) → AllDigits (print_unsigned n)
unfolding print_unsigned
print_unsigned-AllDigits n = print_digits-AllDigits 20 n

read_digits-snoc :
    (value c : ℕ) (xs : List ℕ) (v : ℕ)
    → read_digits value xs ≡ some v
    → read_digits value (xs ++ c ∷ []) ≡ read_digit v c
unfolding read_digits
read_digits-snoc value c [] v h = ground arith
read_digits-snoc value c (x ∷ xs) v h = elim (Option-cases (read_digit value x)) [
  | inl e ↦ absurd (ground (arith, e))
  | inr (value', e) ↦
      rw (e, read_digits) (read_digits-snoc value' c xs v (rw (e, read_digits) at h))
]

read_digit-print : (v n : ℕ) → v ≡ n / 10 → n ≤ u64_max → read_digit v (b'0' + n % 10) ≡ some n
unfolding read_digit
read_digit-print v n h k = ground arith

print_digits-last : (rounds n : ℕ) → n < 10 → print_digits (suc rounds) n ≡ (b'0' + n) ∷ []
unfolding print_digits
print_digits-last rounds n h = ground arith

print_digits-more :
    (rounds n : ℕ)
    → 10 ≤ n
    → print_digits (suc rounds) n ≡ print_digits rounds (n / 10) ++ (b'0' + n % 10) ∷ []
unfolding print_digits
print_digits-more rounds n h = ground arith

read_one : (n : ℕ) → n < 10 → read_digits 0 ((b'0' + n) ∷ []) ≡ some n
unfolding read_digits read_digit
read_one n h = ground arith

-- Enough rounds for a number below 10 ^ rounds.
read_digits-print :
    (rounds n : ℕ)
    → n < 10 ^ rounds
    → n ≤ u64_max
    → 0 < rounds
    → read_digits 0 (print_digits rounds n) ≡ some n
read_digits-print zero n h k p = absurd (omega arith)
read_digits-print (suc rounds) n h k p = elim (dec_lt n 10) [
  | yes last ↦ rw (print_digits-last rounds n last) (read_one n last)
  | no more ↦
      let b : n < 10 ^ rounds * 10 = rw pow-suc at h in
      let r : 0 < rounds = some_rounds rounds n b (omega arith) in
      rw (print_digits-more rounds n (omega arith)) (
        read_digits-snoc 0 _ _ (n / 10)
          (read_digits-print rounds (n / 10) (omega arith) (omega arith) r)
        ∙ read_digit-print (n / 10) n refl k)
]
  where
    some_rounds : (r m : ℕ) → m < 10 ^ r * 10 → 10 ≤ m → 0 < r
    some_rounds zero m h k = absurd (omega arith)
    some_rounds (suc r) m h k = omega arith

print_unsigned-shape :
    (n : ℕ) (text : List ℕ)
    → AllDigits text
    → read_digits 0 text ≡ some n
    → text ≢ []
    → parse_unsigned text ≡ some n
unfolding parse_unsigned is_digit
print_unsigned-shape n [] d h k = absurd (k refl)
print_unsigned-shape n (c ∷ []) d h k = ground arith
print_unsigned-shape n (c ∷ e ∷ rest) d h k = ground arith

print_digits-ne-nil : (rounds n : ℕ) → print_digits (suc rounds) n ≢ []
print_digits-ne-nil rounds n h = elim (dec_lt n 10) [
  | yes last ↦ cc (print_digits-last rounds n last)
  | no more ↦ omega (
    arith,
    ap length h,
    ap length (print_digits-more rounds n (omega arith)),
    length-append (print_digits rounds (n / 10)) ((b'0' + n % 10) ∷ []),
  )
]

-- A `u64` reads back from its text.
pub parse_unsigned-print : (n : ℕ) → n ≤ u64_max → parse_unsigned (print_unsigned n) ≡ some n
unfolding print_unsigned
parse_unsigned-print n h =
    print_unsigned-shape n (print_digits 20 n) (print_digits-AllDigits 20 n)
      (read_digits-print 20 n (omega arith) h (omega arith)) (print_digits-ne-nil 19 n)

read_digit-bound : (value c n : ℕ) → read_digit value c ≡ some n → n ≤ u64_max
unfolding read_digit
read_digit-bound value c n h = ground arith

read_digits-bound :
    (value : ℕ) (text : List ℕ) (n : ℕ)
    → value ≤ u64_max
    → read_digits value text ≡ some n
    → n ≤ u64_max
unfolding read_digits
read_digits-bound value [] n k h = ground arith
read_digits-bound value (c ∷ rest) n k h = elim (Option-cases (read_digit value c)) [
  | inl e ↦ absurd (ground (arith, e))
  | inr (value', e) ↦
      read_digits-bound value' rest n (read_digit-bound value c value' e) (rw (e, read_digits) at h)
]

-- What parses is a `u64`.
pub parse_unsigned-bound : (text : List ℕ) (n : ℕ) → parse_unsigned text ≡ some n → n ≤ u64_max
unfolding parse_unsigned
parse_unsigned-bound [] n h = cc
parse_unsigned-bound (c ∷ []) n h = ground (arith, read_digits-bound 0 (c ∷ []) n)
parse_unsigned-bound (c ∷ d ∷ rest) n h =
    ground (arith, read_digits-bound 0 (c ∷ d ∷ rest) n, read_digits-bound 0 (d ∷ rest) n)

pub print_unsigned-ne-nil : (n : ℕ) → print_unsigned n ≢ []
unfolding print_unsigned
print_unsigned-ne-nil n = print_digits-ne-nil 19 n

pub read_digits-print_unsigned : (n : ℕ) → n ≤ u64_max → read_digits 0 (print_unsigned n) ≡ some n
unfolding print_unsigned
read_digits-print_unsigned n h = read_digits-print 20 n (omega arith) h (omega arith)
