-- ===== src/StreamLoop/Counts.antt =====
-- The bounded maps and sets of loop_detector.rs. `BTreeMap<u64, u32>` is an association list, since
-- only its entries and its length are read; `BTreeSet<u64>` is a list in ascending order, since
-- its order of iteration goes into a hash.

pub mod Tally
use llm_guard_proxy.Prelude.{
  ℕ, suc, ◌≤◌, ◌≡◌, refl, inl, inr, Bool, true, false, Option, none, some, List, [], ◌∷◌, ◌++◌,
  arith,
}
use llm_guard_proxy.Prelude.Tests.{ltb, leb, ◌==◌, if◌then◌else◌, Option-cases}
use llm_guard_proxy.Prelude.Lists.{length, length-append}
use llm_guard_proxy.Prelude.Words.{u32_max, u64_max, saturating_add}

abbrev pub Counts : Type 0
Counts = List (ℕ × ℕ)

unfoldable pub get : ℕ → Counts → Option ℕ
get hash [] = none
get hash ((key, n) ∷ rest) = if key == hash then some n else get hash rest

-- The value behind `get_mut`, written.
unfoldable pub set : ℕ → ℕ → Counts → Counts
set hash value [] = []
set hash value ((key, n) ∷ rest) =
    if key == hash then (key, value) ∷ rest else (key, n) ∷ set hash value rest

-- The count that it returns, the map, and the counter of refused keys.
unfoldable pub increment_count_with_cap : Counts → ℕ → ℕ → ℕ → Option ℕ × Counts × ℕ
unfolding get set
increment_count_with_cap counts hash cap capped_count = elim (get hash counts) [
  | some n ↦ let n' = saturating_add u32_max n 1 in (some n', set hash n' counts, capped_count)
  | none ↦
      if leb cap (length counts)
      then (none, counts, saturating_add u64_max capped_count 1)
      else (some 1, counts ++ (hash, 1) ∷ [], capped_count)
]

unfoldable pub contains : ℕ → List ℕ → Bool
contains hash [] = false
contains hash (x ∷ xs) = if x == hash then true else contains hash xs

-- `BTreeSet::insert`
unfoldable pub insert_hash : ℕ → List ℕ → List ℕ
insert_hash hash [] = hash ∷ []
insert_hash hash (x ∷ xs) =
    if ltb hash x then hash ∷ x ∷ xs else if hash == x then x ∷ xs else x ∷ insert_hash hash xs

unfoldable pub track_unique_hash_with_cap : List ℕ → ℕ → ℕ → ℕ → List ℕ × ℕ
unfolding contains insert_hash
track_unique_hash_with_cap hashes hash cap capped_count =
    if contains hash hashes
    then (hashes, capped_count)
    else if leb cap (length hashes)
    then (hashes, saturating_add u64_max capped_count 1)
    else (insert_hash hash hashes, capped_count)

pub length-set : (hash value : ℕ) (counts : Counts) → length (set hash value counts) ≡ length counts
unfolding set
length-set hash value [] = refl
length-set hash value ((key, n) ∷ rest) = ground (arith, length-set hash value rest)

-- A map under its cap stays under it.
pub increment_count_with_cap-capped :
    (counts : Counts) (hash cap capped_count : ℕ)
    → length counts ≤ cap
    → length ((increment_count_with_cap counts hash cap capped_count).1) ≤ cap
unfolding increment_count_with_cap
increment_count_with_cap-capped counts hash cap capped_count h =
    elim (Option-cases (get hash counts)) [
      | inl e ↦ ground (arith, e, length-append counts ((hash, 1) ∷ []))
      | inr (n, e) ↦ ground (arith, e, length-set hash (saturating_add u32_max n 1) counts)
    ]

pub length-insert_hash : (hash : ℕ) (xs : List ℕ) → length (insert_hash hash xs) ≤ suc (length xs)
unfolding insert_hash
length-insert_hash hash [] = omega arith
length-insert_hash hash (x ∷ xs) = ground (arith, length-insert_hash hash xs)

pub track_unique_hash_with_cap-capped :
    (hashes : List ℕ) (hash cap capped_count : ℕ)
    → length hashes ≤ cap
    → length ((track_unique_hash_with_cap hashes hash cap capped_count).0) ≤ cap
unfolding track_unique_hash_with_cap
track_unique_hash_with_cap-capped hashes hash cap capped_count h =
    ground (arith, length-insert_hash hash hashes)
