-- ===== src/Guardian/Registration/Published.antt =====
-- The registration of a container, as the workload publishes it, is accepted.
use llm_guard_proxy.Prelude.{ℕ, ◌≡◌, refl, ap, ◌∙◌, true, false, some, List, [], ◌∷◌, ◌++◌, arith}
use llm_guard_proxy.Prelude.Lists.{length, is_empty, same_bytes_self}
use llm_guard_proxy.Prelude.Text.{codes}
use llm_guard_proxy.Prelude.Decimal.{print_unsigned, print_unsigned-AllDigits}
use llm_guard_proxy.Guardian.Registration.{
  Registration, ok, and_then, is_utf8, split_terminator, Slots, no_slots, filled, store, read_lines,
  required, check_version, all_hex, check_container_id, expected_scope, expected_group, check_equal,
  check_slots, parse_registration,
}
use llm_guard_proxy.Guardian.Registration.Fields.{
  AllPlain, AllPlain-append, hex-AllPlain, digits-AllPlain, field_line, utf8_field,
  read_lines-field, plain_text, plain_literal,
}

-- A line and its end, before the lines that follow.
abbrev pub field_before : List ℕ → List ℕ → List ℕ → List ℕ
field_before key value rest = field_line key value ++ b'\n' ∷ rest

abbrev pub group_part : ℕ → List ℕ → List ℕ
group_part uid id = field_before (codes "control_group") (expected_group uid (expected_scope id)) []

abbrev pub scope_part : ℕ → List ℕ → List ℕ
scope_part uid id = field_before (codes "scope") (expected_scope id) (group_part uid id)

abbrev pub id_part : ℕ → List ℕ → List ℕ
id_part uid id = field_before (codes "container_id") id (scope_part uid id)

-- The text that a container of the user publishes.
abbrev pub published : ℕ → List ℕ → List ℕ
published uid id = field_before (codes "version") (codes "1") (id_part uid id)

scope-AllPlain : (id : List ℕ) → all_hex id ≡ true → AllPlain (expected_scope id)
unfolding expected_scope
scope-AllPlain id hex =
    plain_literal (codes "docker-") _ refl
      (AllPlain-append id _ (hex-AllPlain id hex) (plain_text (codes ".scope") refl))

uid-AllPlain : (uid : ℕ) → AllPlain (print_unsigned uid)
uid-AllPlain uid = digits-AllPlain (print_unsigned uid) (print_unsigned-AllDigits uid)

group-AllPlain : (uid : ℕ) (scope : List ℕ) → AllPlain scope → AllPlain (expected_group uid scope)
unfolding expected_group
group-AllPlain uid scope h = plain_literal (codes "/user.slice/user-") _ refl (
    AllPlain-append (print_unsigned uid) _ (uid-AllPlain uid) (
      plain_literal (codes ".slice/user@") _ refl (
        AllPlain-append (print_unsigned uid) _ (uid-AllPlain uid)
          (plain_literal (codes ".service/app.slice/") scope refl h))))

abbrev pub registration : ℕ → List ℕ → Registration
registration uid id = record {
  container_id = id;
  scope = expected_scope id;
  control_group = expected_group uid (expected_scope id);
}

check_slots-registration :
    (uid : ℕ) (id : List ℕ)
    → length id ≡ 64
    → all_hex id ≡ true
    → check_slots uid (record {
      version = some (codes "1");
      container_id = some id;
      scope = some (expected_scope id);
      control_group = some (expected_group uid (expected_scope id));
    })
      ≡ ok (registration uid id)
unfolding check_slots and_then required check_version check_container_id check_equal
check_slots-registration uid id sized hex = ground (
  arith,
  sized,
  hex,
  same_bytes_self (expected_scope id),
  same_bytes_self (expected_group uid (expected_scope id)),
)

id_not_empty : (id : List ℕ) → length id ≡ 64 → is_empty id ≡ false
id_not_empty [] h = ground (arith, h)
id_not_empty (c ∷ rest) h = refl

scope_not_empty : (id : List ℕ) → is_empty (expected_scope id) ≡ false
unfolding expected_scope
scope_not_empty id = refl

group_not_empty : (uid : ℕ) (scope : List ℕ) → is_empty (expected_group uid scope) ≡ false
unfolding expected_group
group_not_empty uid scope = refl

abbrev with_version : Slots
with_version = record no_slots { version = some (codes "1") }

abbrev with_id : List ℕ → Slots
with_id id = record with_version { container_id = some id }

abbrev with_scope : List ℕ → Slots
with_scope id = record (with_id id) { scope = some (expected_scope id) }

abbrev all_slots : ℕ → List ℕ → Slots
all_slots uid id = record (with_scope id) {
  control_group = some (expected_group uid (expected_scope id));
}

read_lines-published :
    (uid : ℕ) (id : List ℕ)
    → length id ≡ 64
    → all_hex id ≡ true
    → read_lines (split_terminator [] (published uid id)) no_slots ≡ ok (all_slots uid id)
unfolding read_lines split_terminator store filled
read_lines-published uid id sized hex =
    let scoped = scope-AllPlain id hex in
    read_lines-field (codes "version") (codes "1") (id_part uid id) no_slots with_version
      (plain_text (codes "version") refl) (plain_text (codes "1") refl) refl refl
    ∙ read_lines-field (codes "container_id") id (scope_part uid id) with_version (with_id id)
        (plain_text (codes "container_id") refl) (hex-AllPlain id hex) (id_not_empty id sized) refl
    ∙ read_lines-field (codes "scope") (expected_scope id) (group_part uid id) (with_id id)
        (with_scope id) (plain_text (codes "scope") refl) scoped (scope_not_empty id) refl
    ∙ read_lines-field (codes "control_group") (expected_group uid (expected_scope id)) []
        (with_scope id) (all_slots uid id) (plain_text (codes "control_group") refl)
        (group-AllPlain uid (expected_scope id) scoped) (group_not_empty uid (expected_scope id))
        refl

is_utf8-published :
    (uid : ℕ) (id : List ℕ) → all_hex id ≡ true → is_utf8 [] (published uid id) ≡ true
unfolding is_utf8
is_utf8-published uid id hex =
    let scoped = scope-AllPlain id hex in
    utf8_field (codes "version") (codes "1") (id_part uid id) (plain_text (codes "version") refl)
      (plain_text (codes "1") refl)
    ∙ utf8_field (codes "container_id") id (scope_part uid id)
        (plain_text (codes "container_id") refl) (hex-AllPlain id hex)
    ∙ utf8_field (codes "scope") (expected_scope id) (group_part uid id)
        (plain_text (codes "scope") refl) scoped
    ∙ utf8_field (codes "control_group") (expected_group uid (expected_scope id)) []
        (plain_text (codes "control_group") refl) (group-AllPlain uid (expected_scope id) scoped)

-- The four lines that name the scope and the control group of a container of 64 digits of lower-case
-- hexadecimal are accepted, and read as the container, its scope and its control group.
pub parse_registration-published :
    (uid : ℕ) (id : List ℕ)
    → length id ≡ 64
    → all_hex id ≡ true
    → parse_registration (published uid id) uid ≡ ok (registration uid id)
unfolding parse_registration and_then
parse_registration-published uid id sized hex = rw (is_utf8-published uid id hex) (
    ap (λ r. and_then r (check_slots uid)) (read_lines-published uid id sized hex)
    ∙ check_slots-registration uid id sized hex)
