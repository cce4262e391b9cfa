-- ===== src/Examples/RegistrationRuns.antt =====
-- Registrations of one container.
use llm_guard_proxy.Prelude.{ℕ, ◌≡◌, refl, List}
use llm_guard_proxy.Guardian.Registration.{
  invalid_control_group, ok, err, and_then, followers, is_utf8, split_terminator, split_once,
  filled, store, read_line, read_lines, required, check_version, check_container_id, expected_scope,
  expected_group, check_equal, check_slots, parse_registration,
}
use llm_guard_proxy.Guardian.Registration.Accepted.{Matches, parse_registration-Matches}
use llm_guard_proxy.Guardian.Registration.Published.{
  published, registration, parse_registration-published,
}
use llm_guard_proxy.Prelude.Text.{codes}
use llm_guard_proxy.Prelude.Decimal.{print_unsigned, print_digits}

-- 64 digits
abbrev container : List ℕ
container = codes "0123456789abcdef0123456789abcdef0123456789abcdef0123456789abcdef"

parse_registration-published_example :
    parse_registration (published 1000 container) 1000 ≡ ok (registration 1000 container)
parse_registration-published_example = parse_registration-published 1000 container refl refl

parse_registration-Matches_example : Matches 1000 (registration 1000 container)
parse_registration-Matches_example =
    parse_registration-Matches (published 1000 container) 1000 (registration 1000 container)
      (parse_registration-published 1000 container refl refl)

-- A registration of another user is refused.
other_user : parse_registration (published 1001 container) 1000 ≡ err invalid_control_group
unfolding parse_registration and_then is_utf8 split_terminator read_lines read_line split_once store
    filled check_slots required check_version check_container_id expected_scope expected_group
    check_equal print_unsigned print_digits followers
other_user = refl
