-- ===== src/Guardian/Registration/Fields.antt =====
-- The lines of a registration: a key, the equality sign and a value of plain characters.
use mathlib.Core.List.{append-nil, append_assoc}
use llm_guard_proxy.Prelude.{
  ℕ, ◌≡◌, refl, sym, ap, ◌∙◌, Bool, true, false, not, ◌&&◌, some, List, [], ◌∷◌, ◌++◌, arith,
}
use llm_guard_proxy.Prelude.Tests.{leb, ◌==◌}
use llm_guard_proxy.Prelude.Lists.{is_empty}
use llm_guard_proxy.Prelude.Decimal.{is_digit, AllDigits}
use llm_guard_proxy.Guardian.Registration.{
  ok, and_then, is_utf8, split_terminator, split_once, has_byte, Slots, store, read_line,
  read_lines, all_hex,
}

-- Printable ASCII without the equality sign.
abbrev is_plain : ℕ → Bool
is_plain c = leb 45 c && (leb c 122 && not (c == b'='))

abbrev pub AllPlain : List ℕ → Type 0
AllPlain [] = Unit {0}
AllPlain (c ∷ rest) = (is_plain c ≡ true) × AllPlain rest

pub AllPlain-append : (xs ys : List ℕ) → AllPlain xs → AllPlain ys → AllPlain (xs ++ ys)
AllPlain-append [] ys h k = k
AllPlain-append (x ∷ xs) ys h k = (h.0, AllPlain-append xs ys h.1 k)

pub hex-AllPlain : (id : List ℕ) → all_hex id ≡ true → AllPlain id
hex-AllPlain [] h = tt
hex-AllPlain (c ∷ rest) h = ground (arith, h, hex-AllPlain rest)

pub digits-AllPlain : (text : List ℕ) → AllDigits text → AllPlain text
unfolding is_digit
digits-AllPlain [] h = tt
digits-AllPlain (c ∷ rest) h = ground (arith, h, digits-AllPlain rest h.1)

plain_has :
    (byte : ℕ) (xs : List ℕ) → is_plain byte ≡ false → AllPlain xs → has_byte byte xs ≡ false
plain_has byte [] b h = refl
plain_has byte (c ∷ rest) b h = ground (arith, b, h.0, plain_has byte rest b h.1)

-- A line of a key, the equality sign and a value.
abbrev pub field_line : List ℕ → List ℕ → List ℕ
field_line key value = key ++ b'=' ∷ value

split_once-field :
    (key value : List ℕ) → AllPlain key → split_once (field_line key value) ≡ some (key, value)
unfolding split_once
split_once-field [] value h = refl
split_once-field (c ∷ rest) value h = ground (arith, h.0, split_once-field rest value h.1)

-- A line that is over, and the lines after it.
abbrev closed : List ℕ → List ℕ → List (List ℕ)
closed line rest = line ∷ split_terminator [] rest

split_char :
    (line rest : List ℕ) (c : ℕ)
    → (c == b'\n') ≡ false
    → split_terminator line (c ∷ rest) ≡ split_terminator (line ++ c ∷ []) rest
unfolding split_terminator
split_char [] rest c h = ground (arith, h)
split_char (x ∷ line) rest c h = ground (arith, h)

split_end : (line rest : List ℕ) → split_terminator line (b'\n' ∷ rest) ≡ closed line rest
unfolding split_terminator
split_end [] rest = refl
split_end (x ∷ line) rest = refl

split_field :
    (line text rest : List ℕ)
    → has_byte b'\n' text ≡ false
    → split_terminator line (text ++ b'\n' ∷ rest) ≡ closed (line ++ text) rest
split_field line [] rest h = split_end line rest ∙ ap (λ xs. closed xs rest) (sym (append-nil line))
split_field line (c ∷ text) rest h =
    let inside : (c == b'\n') ≡ false = ground (arith, h) in
    let later : has_byte b'\n' text ≡ false = ground (arith, h) in
    split_char line (text ++ b'\n' ∷ rest) c inside
    ∙ split_field (line ++ c ∷ []) text rest later
    ∙ ap (λ xs. closed xs rest) (append_assoc line (c ∷ []) text)

has_byte-field :
    (byte : ℕ) (key value : List ℕ)
    → is_plain byte ≡ false
    → (b'=' == byte) ≡ false
    → AllPlain key
    → AllPlain value
    → has_byte byte (field_line key value) ≡ false
has_byte-field byte [] value b e h k = ground (arith, e, plain_has byte value b k)
has_byte-field byte (c ∷ key) value b e h k =
    ground (arith, b, h.0, has_byte-field byte key value b e h.1 k)

field_not_empty : (key value : List ℕ) → is_empty (field_line key value) ≡ false
field_not_empty [] value = refl
field_not_empty (c ∷ key) value = refl

read_line-field :
    (key value : List ℕ) (slots : Slots)
    → AllPlain key
    → AllPlain value
    → is_empty value ≡ false
    → read_line (field_line key value) slots ≡ store key value slots
unfolding read_line
read_line-field key value slots h k e = ground (
  arith,
  e,
  field_not_empty key value,
  has_byte-field 13 key value refl refl h k,
  has_byte-field 0 key value refl refl h k,
  split_once-field key value h,
  plain_has b'=' value refl k,
)

utf8_plain : (xs ys : List ℕ) → AllPlain xs → is_utf8 [] (xs ++ ys) ≡ is_utf8 [] ys
unfolding is_utf8
utf8_plain [] ys h = refl
utf8_plain (x ∷ xs) ys h = ground (arith, h.0, utf8_plain xs ys h.1)

sign : (ys : List ℕ) → is_utf8 [] (b'=' ∷ ys) ≡ is_utf8 [] ys
unfolding is_utf8
sign ys = refl

line_end : (ys : List ℕ) → is_utf8 [] (b'\n' ∷ ys) ≡ is_utf8 [] ys
unfolding is_utf8
line_end ys = refl

pub utf8_field :
    (key value rest : List ℕ)
    → AllPlain key
    → AllPlain value
    → is_utf8 [] (field_line key value ++ b'\n' ∷ rest) ≡ is_utf8 [] rest
utf8_field key value rest h k =
    ap (is_utf8 []) (append_assoc key (b'=' ∷ value) (b'\n' ∷ rest))
    ∙ utf8_plain key _ h
    ∙ sign (value ++ b'\n' ∷ rest)
    ∙ utf8_plain value _ k
    ∙ line_end rest

-- One line is read: its value is in its slot.
pub read_lines-field :
    (key value rest : List ℕ) (slots next : Slots)
    → AllPlain key
    → AllPlain value
    → is_empty value ≡ false
    → store key value slots ≡ ok next
    → read_lines (split_terminator [] (field_line key value ++ b'\n' ∷ rest)) slots
      ≡ read_lines (split_terminator [] rest) next
unfolding read_lines and_then
read_lines-field key value rest slots next h k e stored =
    ap (λ lines. read_lines lines slots)
      (split_field [] (field_line key value) rest (has_byte-field b'\n' key value refl refl h k))
    ∙ ap (λ r. and_then r (read_lines (split_terminator [] rest)))
        (read_line-field key value slots h k e ∙ stored)

abbrev all_plain : List ℕ → Bool
all_plain [] = true
all_plain (c ∷ rest) = is_plain c && all_plain rest

pub plain_text : (text : List ℕ) → all_plain text ≡ true → AllPlain text
plain_text [] h = tt
plain_text (c ∷ rest) h = ground (arith, plain_text rest)

-- A literal of the format, and the text after it.
pub plain_literal :
    (text rest : List ℕ) → all_plain text ≡ true → AllPlain rest → AllPlain (text ++ rest)
plain_literal text rest h = AllPlain-append text rest (plain_text text h)
