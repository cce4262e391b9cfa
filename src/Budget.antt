-- ===== src/Budget.antt =====
-- `BudgetStore::check_and_increment` and `get_count` of crates/llm-guard-proxy-state/src/budget.rs. The
-- SQLite table is a parameter, with its statements and what they do to the rows.
pub mod Dates
pub mod Quota
use llm_guard_proxy.Prelude.{ℕ, ◌≡◌, ◌≢◌, Bool, true, false, Option, none, some}
use llm_guard_proxy.Prelude.Tests.{leb, if◌then◌else◌}
use llm_guard_proxy.Prelude.Words.{u64_max, i64_max, checked_add}

-- A stored `i64`: not negative, or below zero by one more than the number.
pub data Stored : Type 0 where
  tally below : ℕ → Stored

abbrev pub or_zero : Option Stored → Stored
or_zero none = tally 0
or_zero (some n) = n

-- The table `budget_counts`; a key is a profile and a date. `insert_zero` is the `INSERT … ON CONFLICT
-- DO NOTHING`, `select` the `SELECT`, `update` the `UPDATE` of a row.
pub record BudgetCounts : Type 1 where
  pub Key : Type 0
  pub Table : Type 0
  pub insert_zero : Key → Table → Table
  pub select : Key → Table → Option Stored
  pub update : Key → ℕ → Table → Table
  pub insert_same : (k : Key) (t : Table) → select k (insert_zero k t) ≡ some (or_zero (select k t))
  pub insert_other :
      (k other : Key) (t : Table) → other ≢ k → select k (insert_zero other t) ≡ select k t
  pub update_same :
      (k : Key) (n : ℕ) (m : Stored) (t : Table)
      → select k t ≡ some m
      → select k (update k n t) ≡ some (tally n)
  pub update_other :
      (k other : Key) (n : ℕ) (t : Table) → other ≢ k → select k (update other n t) ≡ select k t

pub record BudgetCheck : Type 0 where
  pub current_count : ℕ
  pub limit : ℕ
  pub allowed : Bool

-- The errors of opening a store are left out; `sqlite` stands for a poisoned lock too.
pub data BudgetError : Type 0 where
  sqlite counter_out_of_range counter_saturated : BudgetError

pub data BudgetResult : Type 0 where
  checked : BudgetCheck → BudgetResult
  failed : BudgetError → BudgetResult

-- `read_count_from_connection`; `none` is `CounterOutOfRange`.
unfoldable pub read_count : Option Stored → Option ℕ
read_count none = some 0
read_count (some (tally n)) = some n
read_count (some (below n)) = none

module _ (db : BudgetCounts) where
  -- The transaction after the read; a transaction that is dropped leaves the table as it was.
  unfoldable pub decide_count :
      db.Key → ℕ → db.Table → db.Table → Option ℕ → db.Table × BudgetResult
  decide_count key limit before opened none = (before, failed counter_out_of_range)
  decide_count key limit before opened (some current) =
      if leb limit current
      then (opened, checked (record { current_count = current; limit = limit; allowed = false }))
      else elim (checked_add u64_max current 1) [
        | none ↦ (before, failed counter_saturated)
        | some next ↦
            if leb next i64_max
            then (
              db.update key next opened,
              checked (record { current_count = next; limit = limit; allowed = true }),
            )
            else (before, failed counter_saturated)
      ]

  -- `available` says whether the lock and every statement succeed.
  unfoldable pub check_and_increment : Bool → db.Key → ℕ → db.Table → db.Table × BudgetResult
  check_and_increment available key limit before =
      let opened = db.insert_zero key before in
      if available
      then decide_count key limit before opened (read_count (db.select key opened))
      else (before, failed sqlite)
