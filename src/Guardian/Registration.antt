-- ===== src/Guardian/Registration.antt =====
-- parse_registration of crates/llm-guard-proxy-host-guardian/src/monitor.rs: the record that the
-- protected workload publishes, checked before its cgroup is opened. A text is its UTF-8 bytes; the
-- separators are ASCII, so splitting characters and splitting bytes is the same.
pub mod Accepted
pub mod Fields
pub mod Published
use llm_guard_proxy.Prelude.{
  ℕ, Bool, true, false, not, ◌&&◌, ◌||◌, Option, none, some, List, [], ◌∷◌, ◌++◌,
}
use llm_guard_proxy.Prelude.Tests.{ltb, leb, ◌==◌, if◌then◌else◌}
use llm_guard_proxy.Prelude.Lists.{length, any, is_empty, same_bytes}
use llm_guard_proxy.Prelude.Text.{codes}
use llm_guard_proxy.Prelude.Decimal.{print_unsigned}

pub record Registration : Type 0 where
  pub container_id : List ℕ
  pub scope : List ℕ
  pub control_group : List ℕ

pub data RegistrationError : Type 0 where
  invalid_utf8 malformed_line unknown_field missing_field : RegistrationError
  duplicate_field wrong_version invalid_container_id invalid_scope : RegistrationError
  invalid_control_group : RegistrationError

pub data Checked (A : Type 0) : Type 0 where
  ok : A → Checked A
  err : RegistrationError → Checked A

-- `?`
unfoldable pub and_then : {A B : Type 0} → Checked A → (A → Checked B) → Checked B
and_then (ok a) f = f a
and_then (err e) f = err e

abbrev pub within : ℕ → ℕ → ℕ → Bool
within low high byte = leb low byte && leb byte high

-- The ranges of the bytes that follow a lead byte, in a well-formed sequence of UTF-8.
unfoldable pub followers : ℕ → Option (List (ℕ × ℕ))
followers a =
    if ltb a 0x80
    then some []
    else if within 0xc2 0xdf a
    then some ((0x80, 0xbf) ∷ [])
    else if a == 0xe0
    then some ((0xa0, 0xbf) ∷ (0x80, 0xbf) ∷ [])
    else if a == 0xed
    then some ((0x80, 0x9f) ∷ (0x80, 0xbf) ∷ [])
    else if within 0xe1 0xef a
    then some ((0x80, 0xbf) ∷ (0x80, 0xbf) ∷ [])
    else if a == 0xf0
    then some ((0x90, 0xbf) ∷ (0x80, 0xbf) ∷ (0x80, 0xbf) ∷ [])
    else if within 0xf1 0xf3 a
    then some ((0x80, 0xbf) ∷ (0x80, 0xbf) ∷ (0x80, 0xbf) ∷ [])
    else if a == 0xf4
    then some ((0x80, 0x8f) ∷ (0x80, 0xbf) ∷ (0x80, 0xbf) ∷ [])
    else none

-- `str::from_utf8`, with the ranges that are still to come.
unfoldable pub is_utf8 : List (ℕ × ℕ) → List ℕ → Bool
unfolding followers
is_utf8 [] [] = true
is_utf8 (range ∷ ranges) [] = false
is_utf8 ((low, high) ∷ ranges) (b ∷ rest) = elim (within low high b) [
  | true ↦ is_utf8 ranges rest
  | false ↦ false
]
is_utf8 [] (a ∷ rest) = elim (followers a) [ none ↦ false | some ranges ↦ is_utf8 ranges rest ]

-- `split_terminator('\n')`, on from the line that is being read: no line after the last break.
unfoldable pub split_terminator : List ℕ → List ℕ → List (List ℕ)
split_terminator [] [] = []
split_terminator (c ∷ line) [] = (c ∷ line) ∷ []
split_terminator line (c ∷ rest) = elim (c == b'\n') [
  | true ↦ line ∷ split_terminator [] rest
  | false ↦ split_terminator (line ++ c ∷ []) rest
]

-- `split_once('=')`
unfoldable pub split_once : List ℕ → Option (List ℕ × List ℕ)
split_once [] = none
split_once (c ∷ rest) = elim (c == b'=') [
  | true ↦ some ([], rest)
  | false ↦ elim (split_once rest) [ none ↦ none | some (key, value) ↦ some (c ∷ key, value) ]
]

abbrev pub has_byte : ℕ → List ℕ → Bool
has_byte byte text = any (λ c. c == byte) text

-- The four variables of the parser.
pub record Slots : Type 0 where
  pub version : Option (List ℕ)
  pub container_id : Option (List ℕ)
  pub scope : Option (List ℕ)
  pub control_group : Option (List ℕ)

abbrev pub no_slots : Slots
no_slots = record { version = none; container_id = none; scope = none; control_group = none }

-- `if slot.replace(value).is_some() { return Err(DuplicateField) }`
unfoldable pub filled : Option (List ℕ) → Slots → Checked Slots
filled none slots = ok slots
filled (some value) slots = err duplicate_field

-- The `match` on the key, and the slot filled.
unfoldable pub store : List ℕ → List ℕ → Slots → Checked Slots
unfolding filled
store key value slots =
    if same_bytes key (codes "version")
    then filled slots.version (record slots { version = some value })
    else if same_bytes key (codes "container_id")
    then filled slots.container_id (record slots { container_id = some value })
    else if same_bytes key (codes "scope")
    then filled slots.scope (record slots { scope = some value })
    else if same_bytes key (codes "control_group")
    then filled slots.control_group (record slots { control_group = some value })
    else err unknown_field

-- One round of the loop.
unfoldable pub read_line : List ℕ → Slots → Checked Slots
unfolding split_once store
read_line line slots =
    if is_empty line || (has_byte 13 line || has_byte 0 line)
    then err malformed_line
    else elim (split_once line) [
      | none ↦ err malformed_line
      | some (key, value) ↦
          if is_empty value || has_byte b'=' value
          then err malformed_line
          else store key value slots
    ]

unfoldable pub read_lines : List (List ℕ) → Slots → Checked Slots
unfolding read_line and_then
read_lines [] slots = ok slots
read_lines (line ∷ rest) slots = and_then (read_line line slots) (read_lines rest)

-- `ok_or(RegistrationError::MissingField)`
unfoldable pub required : Option (List ℕ) → Checked (List ℕ)
required none = err missing_field
required (some value) = ok value

unfoldable pub check_version : Option (List ℕ) → Checked Unit
check_version none = err missing_field
check_version (some value) = if same_bytes value (codes "1") then ok tt else err wrong_version

abbrev pub is_hex : ℕ → Bool
is_hex c = within b'0' b'9' c || within b'a' b'f' c

abbrev pub all_hex : List ℕ → Bool
all_hex [] = true
all_hex (c ∷ rest) = is_hex c && all_hex rest

unfoldable pub check_container_id : List ℕ → Checked (List ℕ)
check_container_id id =
    if not (length id == 64) || not (all_hex id) then err invalid_container_id else ok id

-- `format!("docker-{container_id}.scope")`
unfoldable pub expected_scope : List ℕ → List ℕ
expected_scope id = codes "docker-" ++ (id ++ codes ".scope")

unfoldable pub expected_group : ℕ → List ℕ → List ℕ
expected_group uid scope =
    codes "/user.slice/user-"
    ++ (print_unsigned uid
        ++ (codes ".slice/user@" ++ (print_unsigned uid ++ (codes ".service/app.slice/" ++ scope))))

-- `if value != expected { return Err(error) }`
unfoldable pub check_equal : List ℕ → List ℕ → RegistrationError → Checked (List ℕ)
check_equal value expected error = if same_bytes value expected then ok value else err error

unfoldable pub check_slots : ℕ → Slots → Checked Registration
unfolding and_then required check_version check_container_id expected_scope expected_group
    check_equal
check_slots uid slots = and_then (check_version slots.version) (λ checked.
    and_then (required slots.container_id) (λ given. and_then (check_container_id given) (λ id.
      and_then (required slots.scope) (λ named.
        and_then (check_equal named (expected_scope id) invalid_scope) (λ scope.
          and_then (required slots.control_group) (λ group.
            and_then (check_equal group (expected_group uid scope) invalid_control_group)
              (λ checked_group.
                ok (record {
                  container_id = id;
                  scope = scope;
                  control_group = checked_group;
                }))))))))

unfoldable pub parse_registration : List ℕ → ℕ → Checked Registration
unfolding is_utf8 split_terminator read_lines check_slots and_then
parse_registration input uid =
    if is_utf8 [] input
    then and_then (read_lines (split_terminator [] input) no_slots) (check_slots uid)
    else err invalid_utf8
