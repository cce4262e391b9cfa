-- ===== src/StreamLoop/Counts/Tally.antt =====
-- A bounded map against the whole history of its keys: it counts exactly, as long as the history is
-- no longer than the cap.
use native.Mathlib.Decide.{ℕ_discrete}
use llm_guard_proxy.Prelude.{
  ℕ, zero, suc, ◌≤◌, ◌<◌, min, ◌≡◌, refl, sym, ap, ◌∙◌, ◌≢◌, inl, inr, Option, none, some, List, [],
  ◌∷◌, ◌++◌, arith,
}
use llm_guard_proxy.Prelude.Tests.{◌==◌, if◌then◌else◌, ==_self, ==_ne, Option-cases}
use llm_guard_proxy.Prelude.Lists.{length, length-append, count, count-append}
use llm_guard_proxy.Prelude.Words.{u32_max, saturating_add}
use llm_guard_proxy.StreamLoop.Counts.{Counts, get, set, increment_count_with_cap, length-set}

-- A key that was seen so often; a `u32` count saturates.
abbrev pub seen : ℕ → Option ℕ
seen zero = none
seen (suc n) = some (min (suc n) u32_max)

get-append :
    (hash key n : ℕ) (counts : Counts)
    → get hash (counts ++ (key, n) ∷ [])
      ≡ elim (get hash counts) [ some v ↦ some v | none ↦ if key == hash then some n else none ]
unfolding get
get-append hash key n [] = refl
get-append hash key n ((k, v) ∷ rest) = ground (arith, get-append hash key n rest)

get-set_self :
    (hash v n : ℕ) (counts : Counts)
    → get hash counts ≡ some n
    → get hash (set hash v counts) ≡ some v
unfolding get set
get-set_self hash v n [] h = absurd (cc h)
get-set_self hash v n ((k, w) ∷ rest) h = ground (arith, h, get-set_self hash v n rest)

get-set_other :
    (hash key v : ℕ) (counts : Counts) → key ≢ hash → get key (set hash v counts) ≡ get key counts
unfolding get set
get-set_other hash key v [] h = refl
get-set_other hash key v ((k, w) ∷ rest) h = ground (arith, get-set_other hash key v rest)

-- The map holds the history: each key with the number of times that it stands there.
pub record Tracks (counts : Counts) (history : List ℕ) : Type 0 where
  pub exact : (hash : ℕ) → get hash counts ≡ seen (count hash history)
  pub short : length counts ≤ length history

pub Tracks-nil : Tracks [] []
unfolding get
Tracks-nil = record { exact = λ hash. refl; short = omega arith }

count_last :
    (hash key : ℕ) (history : List ℕ)
    → count hash (history ++ key ∷ [])
      ≡ (if hash == key then suc (count hash history) else count hash history)
count_last hash key history = ground (arith, count-append hash history (key ∷ []))

increment_found :
    (counts : Counts) (hash cap capped n : ℕ)
    → get hash counts ≡ some n
    → increment_count_with_cap counts hash cap capped
      ≡ (some (saturating_add u32_max n 1), set hash (saturating_add u32_max n 1) counts, capped)
unfolding increment_count_with_cap
increment_found counts hash cap capped n h = ground (arith, h)

increment_new :
    (counts : Counts) (hash cap capped : ℕ)
    → get hash counts ≡ none
    → length counts < cap
    → increment_count_with_cap counts hash cap capped ≡ (some 1, counts ++ (hash, 1) ∷ [], capped)
unfolding increment_count_with_cap
increment_new counts hash cap capped h k = ground (arith, h)

never_seen : (n : ℕ) → seen n ≡ none → n ≡ 0
never_seen zero h = refl
never_seen (suc n) h = absurd (cc h)

often_seen : (n v : ℕ) → seen n ≡ some v → (0 < n) × (v ≡ min n u32_max)
often_seen zero v h = absurd (cc h)
often_seen (suc n) v h = ground (arith, h)

seen_next : (n : ℕ) → seen (suc n) ≡ some (min (suc n) u32_max)
seen_next n = refl

-- What one more sighting of a key does to a map that holds the history.
pub record Counted (counts : Counts) (history : List ℕ) (hash cap capped : ℕ) : Type 0 where
  pub found :
      (increment_count_with_cap counts hash cap capped).0
      ≡ some (min (suc (count hash history)) u32_max)
  pub tracks : Tracks ((increment_count_with_cap counts hash cap capped).1) (history ++ hash ∷ [])
  pub refused : (increment_count_with_cap counts hash cap capped).2 ≡ capped

module _ (counts : Counts) (history : List ℕ) (hash cap capped : ℕ)
    (t : Tracks counts history) where
  count_found : (n : ℕ) → get hash counts ≡ some n → Counted counts history hash cap capped
  count_found n e =
      let (positive, value) = often_seen (count hash history) n (sym (t.exact hash) ∙ e) in
      let stored = saturating_add u32_max n 1 in
      let same : stored ≡ min (suc (count hash history)) u32_max = omega (arith, value) in
      let step = increment_found counts hash cap capped n e in
      record {
        found = rw step (ap some same);
        tracks = rw step (record {
          exact = λ key. elim (native.Mathlib.Decide.ℕ_discrete key hash) [
            | yes here ↦
                rw
                  (
                    here,
                    get-set_self hash stored n counts e,
                    count_last hash hash history,
                    ==_self hash,
                  )
                  (ap some same)
            | no other ↦
                get-set_other hash key stored counts other
                ∙ t.exact key
                ∙ ap seen (sym (count_last key hash history ∙ rw (==_ne key hash other)))
          ];
          short =
              omega
                (arith, length-set hash stored counts, t.short, length-append history (hash ∷ []));
        });
        refused = rw step;
      }

  count_new : length history < cap → get hash counts ≡ none → Counted counts history hash cap capped
  count_new room e =
      let unseen : count hash history ≡ 0 = never_seen _ (sym (t.exact hash) ∙ e) in
      let step = increment_new counts hash cap capped e (omega (arith, t.short)) in
      record {
        found = rw (step, unseen);
        tracks = rw step (record {
          exact = λ key. elim (native.Mathlib.Decide.ℕ_discrete key hash) [
            | yes here ↦ rw (
              here,
              get-append hash hash 1 counts,
              e,
              count_last hash hash history,
              ==_self hash,
              unseen,
            )
            | no other ↦ new_other key other
          ];
          short = omega (
            arith,
            length-append counts ((hash, 1) ∷ []),
            t.short,
            length-append history (hash ∷ []),
          );
        });
        refused = rw step;
      }
    where
      new_other :
          (key : ℕ)
          → key ≢ hash
          → get key (counts ++ (hash, 1) ∷ []) ≡ seen (count key (history ++ hash ∷ []))
      new_other key other = ground (
        arith,
        get-append key hash 1 counts,
        t.exact key,
        count_last key hash history,
        Option-cases (get key counts),
      )

  -- The count that is returned is the number of sightings so far, this one included.
  pub count_tracked : length history < cap → Counted counts history hash cap capped
  count_tracked room = elim (Option-cases (get hash counts)) [
    | inl e ↦ count_new room e
    | inr (n, e) ↦ count_found n e
  ]
