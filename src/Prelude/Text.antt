-- ===== src/Prelude/Text.antt =====
-- Texts as lists of Unicode code points (`str`, `char`), with the bytes of their UTF-8 form. The
-- tables of Unicode (`to_lowercase`, `is_alphanumeric`) are a parameter, the record Unicode.
use Prim.Native.Char.{code}
use Prim.Native.String.{String}
use llm_guard_proxy.Prelude.{
  ℕ, zero, suc, ◌+◌, ◌*◌, ◌/◌, ◌%◌, ◌≤◌, min, ◌≡◌, refl, Bool, true, false, not, ◌&&◌, ◌||◌, List,
  [], ◌∷◌, ◌++◌, arith,
}
use llm_guard_proxy.Prelude.Tests.{ltb, leb, ◌==◌, if◌then◌else◌}
use llm_guard_proxy.Prelude.Lists.{length, length-append}

-- The code points of a literal.
abbrev pub codes : String → List ℕ
codes String.[] = []
codes (String.◌∷◌ c s) = code c ∷ codes s

-- `char::len_utf8`
unfoldable pub len_utf8 : ℕ → ℕ
len_utf8 c = if ltb c 0x80 then 1 else if ltb c 0x800 then 2 else if ltb c 0x10000 then 3 else 4

-- `str::len`: the bytes of a text.
unfoldable pub byte_len : List ℕ → ℕ
unfolding len_utf8
byte_len [] = 0
byte_len (c ∷ rest) = len_utf8 c + byte_len rest

-- `char::encode_utf8`
unfoldable pub encode_utf8 : ℕ → List ℕ
encode_utf8 c =
    if ltb c 0x80
    then c ∷ []
    else if ltb c 0x800
    then (0xc0 + c / 64) ∷ (0x80 + c % 64) ∷ []
    else if ltb c 0x10000
    then (0xe0 + c / 4096) ∷ (0x80 + c / 64 % 64) ∷ (0x80 + c % 64) ∷ []
    else (0xf0 + c / 262144) ∷ (0x80 + c / 4096 % 64) ∷ (0x80 + c / 64 % 64) ∷ (0x80 + c % 64) ∷ []

-- `str::as_bytes`
unfoldable pub as_bytes : List ℕ → List ℕ
unfolding encode_utf8
as_bytes [] = []
as_bytes (c ∷ rest) = encode_utf8 c ++ as_bytes rest

-- What Rust's Unicode tables answer for a character, and for the lowercase form of a text.
pub record Unicode : Type 0 where
  pub to_lowercase : ℕ → List ℕ
  pub lowercase_text : List ℕ → List ℕ
  pub is_alphanumeric : ℕ → Bool

-- `ToLowercase` yields at most three characters.
abbrev pub LowercaseIsShort : Unicode → Type 0
LowercaseIsShort unicode = (c : ℕ) → length (unicode.to_lowercase c) ≤ 3

-- `char::is_whitespace`: the characters of the property White_Space.
unfoldable pub is_whitespace : ℕ → Bool
is_whitespace c =
    (leb 9 c && leb c 13)
    || (c == 32
        || (c == 0x85
            || (c == 0xa0
                || (c == 0x1680
                    || ((leb 0x2000 c && leb c 0x200a)
                        || (c == 0x2028
                            || (c == 0x2029 || (c == 0x202f || (c == 0x205f || c == 0x3000)))))))))

-- `split_whitespace().collect().join(" ")`, on from a word that is being read. A separator is
-- written before every word but the first.
unfoldable pub join_words : Bool → Bool → List ℕ → List ℕ
unfolding is_whitespace
join_words started in_word [] = []
join_words started in_word (c ∷ rest) = elim (is_whitespace c) [
  | true ↦ join_words started false rest
  | false ↦
      if started && not in_word
      then 32 ∷ c ∷ join_words true true rest
      else c ∷ join_words true true rest
]

unfoldable pub is_ascii_alphanumeric : ℕ → Bool
is_ascii_alphanumeric c =
    (leb b'0' c && leb c b'9') || ((leb b'A' c && leb c b'Z') || (leb b'a' c && leb c b'z'))

unfoldable pub to_ascii_lowercase : ℕ → ℕ
to_ascii_lowercase c = if leb b'A' c && leb c b'Z' then c + 32 else c

-- `chars().take(n)`
abbrev pub take {ℓ} : {A : Type ℓ} → ℕ → List A → List A
take zero xs = []
take (suc n) [] = []
take (suc n) (x ∷ xs) = x ∷ take n xs

pub length-take {ℓ} : {A : Type ℓ} (n : ℕ) (xs : List A) → length (take n xs) ≡ min n (length xs)
length-take zero xs = omega arith
length-take (suc n) [] = omega arith
length-take (suc n) (x ∷ xs) = omega (arith, length-take n xs)

-- `bool::to_string`
abbrev pub print_bool : Bool → List ℕ
print_bool true = codes "true"
print_bool false = codes "false"

pub len_utf8-bounds : (c : ℕ) → (1 ≤ len_utf8 c) × (len_utf8 c ≤ 4)
unfolding len_utf8
len_utf8-bounds c = ground arith

pub byte_len-append : (xs ys : List ℕ) → byte_len (xs ++ ys) ≡ byte_len xs + byte_len ys
unfolding byte_len
byte_len-append [] ys = omega arith
byte_len-append (x ∷ xs) ys = omega (arith, byte_len-append xs ys)

pub byte_len-le : (xs : List ℕ) → byte_len xs ≤ 4 * length xs
unfolding byte_len
byte_len-le [] = omega arith
byte_len-le (x ∷ xs) = omega (arith, len_utf8-bounds x, byte_len-le xs)

length-encode_utf8 : (c : ℕ) → length (encode_utf8 c) ≡ len_utf8 c
unfolding encode_utf8 len_utf8
length-encode_utf8 c = ground arith

-- The two ways to measure a text agree.
pub length-as_bytes : (xs : List ℕ) → length (as_bytes xs) ≡ byte_len xs
unfolding as_bytes byte_len
length-as_bytes [] = refl
length-as_bytes (x ∷ xs) =
    omega
      (arith, length-append (encode_utf8 x) (as_bytes xs), length-encode_utf8 x, length-as_bytes xs)
