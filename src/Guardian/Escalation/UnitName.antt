-- ===== src/Guardian/Escalation/UnitName.antt =====
-- The unit names that an action accepts, written out: `validate_unit_name` decides them, and an action
-- on any other name is refused.
use llm_guard_proxy.Prelude.{
  ℕ, zero, suc, ◌-◌, ◌≤◌, ◌<◌, ◌≡◌, refl, ap, ◌∙◌, ◌⊎◌, ◌↔◌, inl, inr, true, some, List, [], ◌∷◌,
  ◌++◌, arith,
}
use llm_guard_proxy.Prelude.Tests.{leb, Bool-cases, both_of_and}
use llm_guard_proxy.Prelude.Lists.{
  length, length-append, drop, same_bytes, same_bytes-eq, same_bytes_self,
}
use llm_guard_proxy.Prelude.Text.{codes}
use llm_guard_proxy.Guardian.Escalation.{
  invalid_unit, suffix, ends_with, is_unit_byte, all_unit_bytes, validate_unit_name, Systemctl,
  run_systemctl_unit_action,
}
use llm_guard_proxy.Guardian.Escalation.Wait.{run_invalid}

-- A letter, a digit, or one of the four marks `.`, `_`, `-` and `@`.
abbrev pub UnitByte : ℕ → Type 0
UnitByte c =
    ((b'a' ≤ c) × (c ≤ b'z'))
    ⊎ (((b'A' ≤ c) × (c ≤ b'Z'))
        ⊎ (((b'0' ≤ c) × (c ≤ b'9')) ⊎ ((c ≡ b'.') ⊎ ((c ≡ b'_') ⊎ ((c ≡ b'-') ⊎ (c ≡ b'@'))))))

abbrev pub UnitBytes : List ℕ → Type 0
UnitBytes [] = Unit {0}
UnitBytes (c ∷ rest) = UnitByte c × UnitBytes rest

-- A nonempty stem before `.service`, in those bytes alone.
pub record IsUnitName (unit : List ℕ) : Type 0 where
  pub first : ℕ
  pub rest : List ℕ
  pub shape : unit ≡ (first ∷ rest) ++ codes ".service"
  pub bytes : UnitBytes unit

is_unit_byte-UnitByte : (c : ℕ) → is_unit_byte c ≡ true → UnitByte c
unfolding is_unit_byte
is_unit_byte-UnitByte c h = ground arith

UnitByte-is_unit_byte : (c : ℕ) → UnitByte c → is_unit_byte c ≡ true
unfolding is_unit_byte
UnitByte-is_unit_byte c h = ground arith

all_unit_bytes-UnitBytes : (xs : List ℕ) → all_unit_bytes xs ≡ true → UnitBytes xs
unfolding all_unit_bytes
all_unit_bytes-UnitBytes [] h = tt
all_unit_bytes-UnitBytes (x ∷ xs) h =
    let (first, rest) = both_of_and (is_unit_byte x) (all_unit_bytes xs) h in
    (is_unit_byte-UnitByte x first, all_unit_bytes-UnitBytes xs rest)

UnitBytes-all_unit_bytes : (xs : List ℕ) → UnitBytes xs → all_unit_bytes xs ≡ true
unfolding all_unit_bytes
UnitBytes-all_unit_bytes [] h = refl
UnitBytes-all_unit_bytes (x ∷ xs) h =
    ground (arith, UnitByte-is_unit_byte x h.0, UnitBytes-all_unit_bytes xs h.1)

split_at : (n : ℕ) (xs : List ℕ) → (front : List ℕ) × (xs ≡ front ++ drop n xs)
split_at zero xs = ([], refl)
split_at (suc n) [] = ([], refl)
split_at (suc n) (x ∷ xs) = let (front, e) = split_at n xs in (x ∷ front, ap (◌∷◌ x) e)

valid_parts :
    (unit : List ℕ)
    → validate_unit_name unit ≡ true
    → (ends_with unit suffix ≡ true) × (length suffix < length unit) × (all_unit_bytes unit ≡ true)
unfolding validate_unit_name
valid_parts unit h = (ground arith, ground arith, ground arith)

ends_with-drop :
    (text end : List ℕ) → ends_with text end ≡ true → drop (length text - length end) text ≡ end
unfolding ends_with
ends_with-drop text end h = same_bytes-eq _ end (both_of_and (leb (length end) (length text)) _ h).1

nonempty_stem :
    (front text : List ℕ)
    → text ≡ front ++ suffix
    → length suffix < length text
    → (c : ℕ) × (stem : List ℕ) × (text ≡ c ∷ stem ++ suffix)
nonempty_stem [] text e h = absurd (omega (arith, ap length e))
nonempty_stem (c ∷ stem) text e h = (c, stem, e)

drop_front : (xs ys : List ℕ) → drop (length (xs ++ ys) - length ys) (xs ++ ys) ≡ ys
drop_front xs ys =
    ap (λ n. drop n (xs ++ ys)) (omega (arith, length-append xs ys)) ∙ drop_length xs ys
  where
    drop_length : (xs ys : List ℕ) → drop (length xs) (xs ++ ys) ≡ ys
    drop_length [] ys = refl
    drop_length (x ∷ xs) ys = drop_length xs ys

ends_with-append : (xs ys : List ℕ) → ends_with (xs ++ ys) ys ≡ true
unfolding ends_with
ends_with-append xs ys =
    let same : same_bytes (drop (length (xs ++ ys) - length ys) (xs ++ ys)) ys ≡ true =
      ap (λ end. same_bytes end ys) (drop_front xs ys) ∙ same_bytes_self ys in
    let long : length ys ≤ length (xs ++ ys) = omega (arith, length-append xs ys) in
    ground (arith, same, long)

accepted : (unit : List ℕ) → validate_unit_name unit ≡ true → IsUnitName unit
accepted unit h =
    let (ends, long, bytes) = valid_parts unit h in
    let (front, e) = split_at (length unit - length suffix) unit in
    let (c, stem, shape) =
      nonempty_stem front unit (e ∙ ap (λ rest. front ++ rest) (ends_with-drop unit suffix ends))
        long in
    record { first = c; rest = stem; shape = shape; bytes = all_unit_bytes-UnitBytes unit bytes }

is_valid : (unit : List ℕ) → IsUnitName unit → validate_unit_name unit ≡ true
unfolding validate_unit_name
is_valid unit n =
    let long : length suffix < length unit =
      omega (arith, ap length n.shape, length-append (n.first ∷ n.rest) suffix) in
    let ends : ends_with unit suffix ≡ true =
      ap (λ u. ends_with u suffix) n.shape ∙ ends_with-append (n.first ∷ n.rest) suffix in
    ground (arith, long, ends, UnitBytes-all_unit_bytes unit n.bytes)

-- A name is valid exactly where it is a nonempty stem before `.service`, in letters, digits and the
-- marks `.`, `_`, `-` and `@` alone; and an action is on such a name or is refused for its name,
-- whatever systemctl would do.
pub run_systemctl_unit_action-IsUnitName :
    (rounds : ℕ) (unit : List ℕ) (limit : ℕ) (s : Systemctl)
    → ((validate_unit_name unit ≡ true) ↔ IsUnitName unit)
      × (IsUnitName unit
          ⊎ (run_systemctl_unit_action rounds unit limit s ≡ some (some invalid_unit)))
run_systemctl_unit_action-IsUnitName rounds unit limit s = (
  (accepted unit, is_valid unit),
  elim (Bool-cases (validate_unit_name unit)) [
    | inl good ↦ inl (accepted unit good)
    | inr bad ↦ inr (run_invalid rounds unit limit s bad)
  ],
)
