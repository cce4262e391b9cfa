-- ===== src/Examples/BudgetRuns.antt =====
-- A budget of two requests, over a table of rows.
use Prim.Native.Nat.{max}
use llm_guard_proxy.Prelude.{
  ℕ, ◌+◌, ◌≤◌, ◌≡◌, refl, sym, true, Option, none, some, List, [], ◌∷◌, arith,
}
use llm_guard_proxy.Prelude.Tests.{◌==◌, if◌then◌else◌, ==_self, ==_ne}
use llm_guard_proxy.Budget.{
  Stored, tally, or_zero, BudgetCounts, read_count, decide_count, check_and_increment,
}
use llm_guard_proxy.Budget.Quota.{Request, mine, grants, grants_bounded}

abbrev Rows : Type 0
Rows = ℕ → Option Stored

abbrev set_row : Stored → Option Stored → Option Stored
set_row n none = none
set_row n (some m) = some n

abbrev rows : BudgetCounts
rows = record {
  Key = ℕ;
  Table = Rows;
  insert_zero = λ k t i. if i == k then some (or_zero (t i)) else t i;
  select = λ k t. t k;
  update = λ k n t i. if i == k then set_row (tally n) (t i) else t i;
  insert_same = λ k t. rw (==_self k) refl;
  insert_other = λ k other t ne. rw (==_ne k other (λ e. ne (sym e))) refl;
  update_same = λ k n m t h. rw (==_self k, h) refl;
  update_other = λ k other n t ne. rw (==_ne k other (λ e. ne (sym e))) refl;
}

abbrev no_rows : Rows
no_rows k = none

abbrev three_checks : List (Request rows 7)
three_checks = mine true 2 ∷ mine true 2 ∷ mine true 2 ∷ []

two_granted : grants rows 7 no_rows three_checks ≡ 2
unfolding grants check_and_increment decide_count read_count
two_granted = refl

grants_bounded_example : grants rows 7 no_rows three_checks + 0 ≤ max 0 2
grants_bounded_example =
    grants_bounded rows 7 2 no_rows three_checks (omega arith, (omega arith, (omega arith, tt)))
