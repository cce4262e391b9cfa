-- ===== src/StreamLoop/Json/Order.antt =====
-- The order of an object's keys does not matter to its canonical form.
use mathlib.Core.Path.{ap₂}
use llm_guard_proxy.Prelude.{
  ℕ, ◌≡◌, refl, sym, ap, ◌∙◌, ◌≢◌, inl, inr, Bool, true, false, some, List, [], ◌∷◌, ◌++◌, arith,
}
use llm_guard_proxy.Prelude.Tests.{if◌then◌else◌, Bool-cases}
use llm_guard_proxy.Prelude.Text.{as_bytes}
use llm_guard_proxy.StreamLoop.Hash.{stable_hash}
use llm_guard_proxy.StreamLoop.Json.{
  Value, array, object, Items, no_items, item, Entries, no_entries, entry, JsonText, key_less,
  Written, insert_entry, sort_entries, write_entries, write_canonical_json, write_items, written,
  canonical_json_hash,
}

-- Values that differ only in the order of the entries of their objects, at any depth. Entries that
-- are exchanged have different keys, as those of a JSON object do.
mutual
  pub data SameValue : Value → Value → Type 0 where
    alike : (value : Value) → SameValue value value
    arrays : {xs ys : Items} → SameItems xs ys → SameValue (array xs) (array ys)
    objects : {xs ys : Entries} → SameEntries xs ys → SameValue (object xs) (object ys)

  pub data SameItems : Items → Items → Type 0 where
    both_empty : SameItems no_items no_items
    both_items :
        {v w : Value} {xs ys : Items}
        → SameValue v w
        → SameItems xs ys
        → SameItems (item v xs) (item w ys)

  pub data SameEntries : Entries → Entries → Type 0 where
    both_closed : SameEntries no_entries no_entries
    both_entries :
        (key : List ℕ) {v w : Value} {xs ys : Entries}
        → SameValue v w
        → SameEntries xs ys
        → SameEntries (entry key v xs) (entry key w ys)
    exchanged :
        (key key' : List ℕ) (v w : Value) (rest : Entries)
        → key ≢ key'
        → SameEntries (entry key v (entry key' w rest)) (entry key' w (entry key v rest))
    in_steps : {xs ys zs : Entries} → SameEntries xs ys → SameEntries ys zs → SameEntries xs zs

key_less-asymmetric : (xs ys : List ℕ) → key_less xs ys ≡ true → key_less ys xs ≡ false
unfolding key_less
key_less-asymmetric [] [] h = absurd (cc h)
key_less-asymmetric [] (y ∷ ys) h = refl
key_less-asymmetric (x ∷ xs) [] h = absurd (cc h)
key_less-asymmetric (x ∷ xs) (y ∷ ys) h = ground (arith, h, key_less-asymmetric xs ys)

key_less-transitive :
    (xs ys zs : List ℕ) → key_less xs ys ≡ true → key_less ys zs ≡ true → key_less xs zs ≡ true
unfolding key_less
key_less-transitive xs ys [] h k = absurd (no_less ys k)
  where
    no_less : (ys : List ℕ) → key_less ys [] ≡ true → ⊥
    no_less [] h = cc h
    no_less (y ∷ ys) h = cc h
key_less-transitive [] ys (z ∷ zs) h k = refl
key_less-transitive (x ∷ xs) [] (z ∷ zs) h k = absurd (cc h)
key_less-transitive (x ∷ xs) (y ∷ ys) (z ∷ zs) h k =
    ground (arith, h, k, key_less-transitive xs ys zs)

key_less-total : (xs ys : List ℕ) → key_less xs ys ≡ false → key_less ys xs ≡ false → xs ≡ ys
unfolding key_less
key_less-total [] [] h k = refl
key_less-total [] (y ∷ ys) h k = absurd (cc h)
key_less-total (x ∷ xs) [] h k = absurd (cc k)
key_less-total (x ∷ xs) (y ∷ ys) h k =
    let heads : x ≡ y = ground (arith, h, k) in
    let tails : xs ≡ ys = key_less-total xs ys (ground (arith, h, k)) (ground (arith, h, k)) in
    ap₂ (λ a as'. a ∷ as') heads tails

insert_after :
    (e x : Written) (xs : List Written)
    → key_less (x.0) (e.0) ≡ true
    → insert_entry e (x ∷ xs) ≡ x ∷ insert_entry e xs
unfolding insert_entry
insert_after e x xs h = ground (arith, h)

insert_before :
    (e x : Written) (xs : List Written)
    → key_less (x.0) (e.0) ≡ false
    → insert_entry e (x ∷ xs) ≡ e ∷ x ∷ xs
unfolding insert_entry
insert_before e x xs h = ground (arith, h)

insert_alone : (e : Written) → insert_entry e [] ≡ e ∷ []
unfolding insert_entry
insert_alone e = refl

-- An entry whose key is the smaller goes first, whichever is inserted first.
insert_entry_comm_less :
    (a b : Written) (xs : List Written)
    → key_less (a.0) (b.0) ≡ true
    → insert_entry a (insert_entry b xs) ≡ insert_entry b (insert_entry a xs)
insert_entry_comm_less a b [] less =
    let more : key_less (b.0) (a.0) ≡ false = key_less-asymmetric (a.0) (b.0) less in
    ap (insert_entry a) (insert_alone b)
    ∙ insert_before a b [] more
    ∙ sym (
        ap (insert_entry b) (insert_alone a)
        ∙ insert_after b a [] less
        ∙ ap (λ ys. a ∷ ys) (insert_alone b))
insert_entry_comm_less a b (x ∷ xs) less = elim (Bool-cases (key_less (x.0) (a.0))) [
  | inl x_a ↦
      let x_b : key_less (x.0) (b.0) ≡ true = key_less-transitive (x.0) (a.0) (b.0) x_a less in
      ap (insert_entry a) (insert_after b x xs x_b)
      ∙ insert_after a x (insert_entry b xs) x_a
      ∙ ap (λ ys. x ∷ ys) (insert_entry_comm_less a b xs less)
      ∙ sym
          (ap (insert_entry b) (insert_after a x xs x_a) ∙ insert_after b x (insert_entry a xs) x_b)
  | inr a_x ↦
      elim (Bool-cases (key_less (x.0) (b.0))) [
        | inl x_b ↦
            ap (insert_entry a) (insert_after b x xs x_b)
            ∙ insert_before a x (insert_entry b xs) a_x
            ∙ ap (λ ys. a ∷ ys) (sym (insert_after b x xs x_b))
        | inr b_x ↦
            ap (insert_entry a) (insert_before b x xs b_x)
            ∙ insert_before a b (x ∷ xs) (key_less-asymmetric (a.0) (b.0) less)
            ∙ ap (λ ys. a ∷ ys) (sym (insert_before b x xs b_x))
      ]
      ∙ sym (ap (insert_entry b) (insert_before a x xs a_x) ∙ insert_after b a (x ∷ xs) less)
]

insert_entry_comm :
    (a b : Written) (xs : List Written)
    → a.0 ≢ b.0
    → insert_entry a (insert_entry b xs) ≡ insert_entry b (insert_entry a xs)
insert_entry_comm a b xs other = elim (Bool-cases (key_less (a.0) (b.0))) [
  | inl less ↦ insert_entry_comm_less a b xs less
  | inr no_less ↦ elim (Bool-cases (key_less (b.0) (a.0))) [
    | inl more ↦ sym (insert_entry_comm_less b a xs more)
    | inr no_more ↦ absurd (other (key_less-total (a.0) (b.0) no_less no_more))
  ]
]

mutual
  unfolding write_canonical_json sort_entries

  same_value :
      (json : JsonText) {v w : Value}
      → SameValue v w
      → write_canonical_json json v ≡ write_canonical_json json w
  same_value json (alike value) = refl
  same_value json (arrays same) =
      ap (λ text. b'[' ∷ (text ++ b']' ∷ [])) (same_items json true same)
  same_value json (objects same) =
      ap (λ es. b'{' ∷ (write_entries json true es ++ b'}' ∷ [])) (same_entries json same)

  same_items :
      (json : JsonText) (first : Bool) {xs ys : Items}
      → SameItems xs ys
      → write_items json first xs ≡ write_items json first ys
  same_items json first both_empty = refl
  same_items json first (both_items same rest) =
      ap₂ (λ text texts. (if first then [] else b',' ∷ []) ++ text ++ texts) (same_value json same)
        (same_items json false rest)

  same_entries :
      (json : JsonText) {xs ys : Entries}
      → SameEntries xs ys
      → sort_entries (written json xs) ≡ sort_entries (written json ys)
  same_entries json both_closed = refl
  same_entries json (both_entries key same rest) =
      ap₂ (λ text es. insert_entry (key, text) es) (same_value json same) (same_entries json rest)
  same_entries json (exchanged key key' v w rest other) =
      insert_entry_comm (key, write_canonical_json json v) (key', write_canonical_json json w)
        (sort_entries (written json rest)) other
  same_entries json (in_steps left right) = same_entries json left ∙ same_entries json right

hash_of :
    (json : JsonText) (text : List ℕ) (value : Value)
    → json.from_str text ≡ some value
    → canonical_json_hash json text
      ≡ some (stable_hash (as_bytes (write_canonical_json json value)))
unfolding canonical_json_hash
hash_of json text value e = ground (arith, e)

-- Texts of arguments that read as the same JSON value up to the order of keys, at any depth, have
-- the same hash.
pub canonical_json_hash-order :
    (json : JsonText) (left right : List ℕ) (v w : Value)
    → json.from_str left ≡ some v
    → json.from_str right ≡ some w
    → SameValue v w
    → canonical_json_hash json left ≡ canonical_json_hash json right
canonical_json_hash-order json left right v w h k same =
    hash_of json left v h
    ∙ ap (λ text. some (stable_hash (as_bytes text))) (same_value json same)
    ∙ sym (hash_of json right w k)
