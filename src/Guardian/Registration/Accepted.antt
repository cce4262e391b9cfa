-- ===== src/Guardian/Registration/Accepted.antt =====
-- What a registration that is accepted looks like.
use mathlib.Core.Path.{subst}
use llm_guard_proxy.Prelude.{ℕ, ◌≡◌, inl, inr, true, List, [], arith}
use llm_guard_proxy.Prelude.Tests.{Bool-cases}
use llm_guard_proxy.Prelude.Lists.{length, same_bytes-eq}
use llm_guard_proxy.Guardian.Registration.{
  Registration, RegistrationError, invalid_utf8, invalid_scope, invalid_control_group, Checked, ok,
  err, and_then, is_utf8, split_terminator, Slots, no_slots, read_lines, required, check_version,
  all_hex, check_container_id, expected_scope, expected_group, check_equal, check_slots,
  parse_registration,
}

-- The record names one cgroup alone: that of its container under the systemd of the user.
pub record Matches (uid : ℕ) (r : Registration) : Type 0 where
  pub sized : length r.container_id ≡ 64
  pub hex : all_hex r.container_id ≡ true
  pub named : r.scope ≡ expected_scope r.container_id
  pub placed : r.control_group ≡ expected_group uid r.scope

-- A value of which `P` holds, or an error.
unfoldable pub Oks : {A : Type 0} → (A → Type 0) → Checked A → Type 0
Oks P (ok a) = P a
Oks P (err e) = Unit {0}

and_then-Oks :
    {A B : Type 0} (P : A → Type 0) (Q : B → Type 0) (x : Checked A) (f : A → Checked B)
    → Oks P x
    → ((a : A) → P a → Oks Q (f a))
    → Oks Q (and_then x f)
unfolding and_then Oks
and_then-Oks P Q (ok a) f h k = k a h
and_then-Oks P Q (err e) f h k = tt

-- Nothing is asked of the value.
any_Oks : {A : Type 0} (x : Checked A) → Oks (λ _. Unit {0}) x
unfolding Oks
any_Oks (ok a) = tt
any_Oks (err e) = tt

check_container_id-Oks :
    (given : List ℕ) → Oks (λ id. (length id ≡ 64) × (all_hex id ≡ true)) (check_container_id given)
unfolding check_container_id Oks
check_container_id-Oks given = ground arith

check_equal-Oks :
    (value expected : List ℕ) (error : RegistrationError)
    → Oks (λ given. given ≡ expected) (check_equal value expected error)
unfolding check_equal Oks
check_equal-Oks value expected error = ground (arith, same_bytes-eq value expected)

accepted_ok :
    (uid : ℕ) (id scope group : List ℕ)
    → length id ≡ 64
    → all_hex id ≡ true
    → scope ≡ expected_scope id
    → group ≡ expected_group uid scope
    → Oks (Matches uid) (ok (record { container_id = id; scope = scope; control_group = group }))
unfolding Oks
accepted_ok uid id scope group sized hex named placed = record {
  sized = sized;
  hex = hex;
  named = named;
  placed = placed;
}

check_slots-Oks : (uid : ℕ) (slots : Slots) → Oks (Matches uid) (check_slots uid slots)
unfolding check_slots
check_slots-Oks uid slots =
    and_then-Oks _ _ (check_version slots.version) _ (any_Oks _) (λ checked u0.
      and_then-Oks _ _ (required slots.container_id) _ (any_Oks _) (λ given u1.
        and_then-Oks _ _ (check_container_id given) _ (check_container_id-Oks given) (λ id hex.
          and_then-Oks _ _ (required slots.scope) _ (any_Oks _) (λ named u2.
            and_then-Oks _ _ (check_equal named (expected_scope id) invalid_scope) _
              (check_equal-Oks named (expected_scope id) invalid_scope)
              (λ scope is_scope.
                and_then-Oks _ _ (required slots.control_group) _ (any_Oks _) (λ group u3.
                  and_then-Oks _ _
                    (check_equal group (expected_group uid scope) invalid_control_group) _
                    (check_equal-Oks group (expected_group uid scope) invalid_control_group)
                    (λ placed is_group.
                      accepted_ok uid id scope placed hex.0 hex.1 is_scope is_group)))))))

Oks-ok : {A : Type 0} (P : A → Type 0) (x : Checked A) (a : A) → Oks P x → x ≡ ok a → P a
unfolding Oks
Oks-ok P x a h e = subst (Oks P) e h

error_Oks : {A : Type 0} (P : A → Type 0) (e : RegistrationError) → Oks P (err e)
unfolding Oks
error_Oks P e = tt

parse_registration-Oks :
    (input : List ℕ) (uid : ℕ) → Oks (Matches uid) (parse_registration input uid)
unfolding parse_registration
parse_registration-Oks input uid = elim (Bool-cases (is_utf8 [] input)) [
  | inl e ↦ rw e (
      and_then-Oks (λ _. Unit {0}) (Matches uid) (read_lines (split_terminator [] input) no_slots)
        (check_slots uid) (any_Oks _) (λ slots read. check_slots-Oks uid slots))
  | inr e ↦ rw e (error_Oks (Matches uid) invalid_utf8)
]

-- A registration that is accepted names one cgroup alone: its container is 64 digits of lower-case
-- hexadecimal, its scope is the scope of that container, and its control group is that of the
-- scope under the systemd of the user.
pub parse_registration-Matches :
    (input : List ℕ) (uid : ℕ) (r : Registration)
    → parse_registration input uid ≡ ok r
    → Matches uid r
parse_registration-Matches input uid r h =
    Oks-ok (Matches uid) (parse_registration input uid) r (parse_registration-Oks input uid) h
