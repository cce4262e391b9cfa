-- ===== src/Budget/Quota.antt =====
-- The daily limit is never exceeded.
use Prim.Native.Nat.{max}
use llm_guard_proxy.Prelude.{
  ℕ, ◌+◌, ◌≤◌, ◌≡◌, refl, ap, ◌∙◌, ◌≢◌, ◌⊎◌, inl, inr, Bool, true, false, Option, none, some, List,
  [], ◌∷◌, arith,
}
use llm_guard_proxy.Prelude.Tests.{leb, if◌then◌else◌, lt_of_not_leb, Bool-cases}
use llm_guard_proxy.Prelude.Words.{i64_max}
use llm_guard_proxy.Budget.{
  Stored, tally, below, or_zero, BudgetCounts, counter_saturated, BudgetResult, checked, failed,
  read_count, decide_count, check_and_increment,
}

abbrev pub count_of : Option Stored → ℕ
count_of (some (tally n)) = n
count_of _ = 0

abbrev pub granted : BudgetResult → ℕ
granted (checked check) = if check.allowed then 1 else 0
granted (failed e) = 0

module _ (db : BudgetCounts) (key : db.Key) where
  -- A check of this key, or of another one.
  pub data Request : Type 0 where
    mine : Bool → ℕ → Request
    theirs : (other : db.Key) → other ≢ key → Bool → ℕ → Request

  abbrev pub serve : db.Table → Request → db.Table × ℕ
  serve t (mine available limit) =
      let (t', result) = check_and_increment db available key limit t in (t', granted result)
  serve t (theirs other ne available limit) =
      ((check_and_increment db available other limit t).0, 0)

  -- How many checks of this key are allowed.
  unfoldable pub grants : db.Table → List Request → ℕ
  grants t [] = 0
  grants t (r ∷ requests) = (serve t r).1 + grants (serve t r).0 requests

  -- No check of this key asks for more than this limit.
  abbrev pub Within : ℕ → List Request → Type 0
  Within top [] = Unit {0}
  Within top (mine available limit ∷ requests) = (limit ≤ top) × Within top requests
  Within top (theirs other ne available limit ∷ requests) = Within top requests

  -- A result that leaves as many as there were and those it grants, within a limit.
  abbrev Paid : ℕ → ℕ → db.Table × BudgetResult → Type 0
  Paid before limit (after, result) =
      (count_of (db.select key after) ≡ before + granted result)
      × (count_of (db.select key after) ≤ max before limit)

  full_case :
      (limit : ℕ) (before opened : db.Table) (current : ℕ)
      → leb limit current ≡ true
      → decide_count db key limit before opened (some current)
        ≡ (opened, checked (record { current_count = current; limit = limit; allowed = false }))
  unfolding decide_count
  full_case limit before opened current h = ground (arith, h)

  saturated_case :
      (limit : ℕ) (before opened : db.Table) (current : ℕ)
      → leb limit current ≡ false
      → leb (current + 1) i64_max ≡ false
      → decide_count db key limit before opened (some current) ≡ (before, failed counter_saturated)
  unfolding decide_count
  saturated_case limit before opened current h k = ground (arith, h, k)

  granted_case :
      (limit : ℕ) (before opened : db.Table) (current : ℕ)
      → leb limit current ≡ false
      → leb (current + 1) i64_max ≡ true
      → decide_count db key limit before opened (some current) ≡ (
        db.update key (current + 1) opened,
        checked (record { current_count = current + 1; limit = limit; allowed = true }),
      )
  unfolding decide_count
  granted_case limit before opened current h k = ground (arith, h, k)

  decide_count-Paid :
      (limit : ℕ) (before opened : db.Table) (current : ℕ)
      → db.select key opened ≡ some (tally current)
      → count_of (db.select key before) ≡ current
      → Paid current limit (decide_count db key limit before opened (some current))
  decide_count-Paid limit before opened current row same = elim (Bool-cases (leb limit current)) [
    | inl full ↦
        rw (full_case limit before opened current full)
          (omega (arith, ap count_of row), omega (arith, ap count_of row))
    | inr free ↦ elim (Bool-cases (leb (current + 1) i64_max)) [
      | inr top ↦
          rw (saturated_case limit before opened current free top)
            (omega (arith, same), omega (arith, same))
      | inl fits ↦
          let row' = ap count_of (db.update_same key (current + 1) (tally current) opened row) in
          let room = lt_of_not_leb limit current free in
          rw (granted_case limit before opened current free fits)
            (omega (arith, row'), omega (arith, row', room))
    ]
  ]

  decide_count-none :
      (limit : ℕ) (before opened : db.Table)
      → Paid (count_of (db.select key before)) limit (decide_count db key limit before opened none)
  unfolding decide_count
  decide_count-none limit before opened = (omega arith, omega arith)

  -- What is read after the insertion is what was stored.
  read_count-opened :
      (row : Option Stored)
      → ((current : ℕ) × (or_zero row ≡ tally current) × (count_of row ≡ current))
        ⊎ (read_count (some (or_zero row)) ≡ none)
  unfolding read_count
  read_count-opened none = inl (0, refl, refl)
  read_count-opened (some (tally n)) = inl (n, refl, refl)
  read_count-opened (some (below n)) = inr refl

  check_and_increment-Paid :
      (available : Bool) (limit : ℕ) (t : db.Table)
      → Paid (count_of (db.select key t)) limit (check_and_increment db available key limit t)
  unfolding check_and_increment
  check_and_increment-Paid false limit t = (omega arith, omega arith)
  check_and_increment-Paid true limit t =
      let opened = db.insert_zero key t in
      elim (read_count-opened (db.select key t)) [
        | inl (current, row, same) ↦
            let there = db.insert_same key t ∙ ap some row in
            rw (there, same)
              (unfold read_count in decide_count-Paid limit t opened current there same)
        | inr odd ↦ rw (db.insert_same key t, odd) (decide_count-none limit t opened)
      ]

  -- A transaction on another key.
  decide_count-other :
      (other : db.Key) (limit : ℕ) (before opened : db.Table) (read : Option ℕ)
      → other ≢ key
      → db.select key opened ≡ db.select key before
      → db.select key (decide_count db other limit before opened read).0 ≡ db.select key before
  unfolding decide_count
  decide_count-other other limit before opened none ne same = refl
  decide_count-other other limit before opened (some current) ne same =
      elim (Bool-cases (leb limit current)) [
        | inl full ↦ rw full same
        | inr free ↦ elim (Bool-cases (leb (current + 1) i64_max)) [
          | inl fits ↦
              ground (arith, free, fits, same, db.update_other key other (current + 1) opened ne)
          | inr top ↦ ground (arith, free, top)
        ]
      ]

  theirs_same :
      (other : db.Key) (ne : other ≢ key) (available : Bool) (limit : ℕ) (t : db.Table)
      → db.select key (check_and_increment db available other limit t).0 ≡ db.select key t
  unfolding check_and_increment
  theirs_same other ne false limit t = refl
  theirs_same other ne true limit t =
      decide_count-other other limit t (db.insert_zero other t) _ ne
        (db.insert_other key other t ne)

  -- Over any checks of this key and of others, where no check of this key asks for more than `top`, the
  -- allowed checks of this key and its count at the start are together at most the larger of that
  -- count and `top`.
  pub grants_bounded :
      (top : ℕ) (t : db.Table) (requests : List Request)
      → Within top requests
      → grants t requests + count_of (db.select key t) ≤ max (count_of (db.select key t)) top
  unfolding grants
  grants_bounded top t [] w = omega arith
  grants_bounded top t (mine available limit ∷ requests) (w, ws) =
      let (paid, bound) = check_and_increment-Paid available limit t in
      let rest = grants_bounded top (serve t (mine available limit)).0 requests ws in
      omega (arith, paid, bound, rest, w)
  grants_bounded top t (theirs other ne available limit ∷ requests) ws =
      let rest = grants_bounded top (serve t (theirs other ne available limit)).0 requests ws in
      omega (arith, ap count_of (theirs_same other ne available limit t), rest)
