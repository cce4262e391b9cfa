-- ===== src/ToolLoop/Window.antt =====
-- The fingerprint window of the tool-loop detector: the counts are those of the retained window.
use native.Mathlib.Decide.{dec_le}
use llm_guard_proxy.Prelude.{
  ℕ, zero, suc, ◌+◌, ◌-◌, ◌≤◌, ◌<◌, ◌≡◌, refl, Option, none, some, List, [], ◌∷◌, ◌++◌, arith,
}
use llm_guard_proxy.Prelude.Lists.{
  length, drop, length-append, length-drop, count, count-append, count-le-length,
}
use llm_guard_proxy.Prelude.Words.{u32_max}
use llm_guard_proxy.Prelude.Maps.{Map}
use llm_guard_proxy.ToolLoop.{ToolLoopDetector, new, increment, decrement, evict, push_fingerprint}

-- A count of zero is stored as no entry.
abbrev pub stored : ℕ → Option ℕ
stored zero = none
stored (suc n) = some (suc n)

-- The window fits, and every stored count is the number of occurrences in the window.
pub record IsWindow (d : ToolLoopDetector) : Type 0 where
  pub keeps_one : 1 ≤ d.max_history
  pub fits_u32 : d.max_history ≤ u32_max
  pub fits : length d.fingerprints ≤ d.max_history
  pub counted : (hash : ℕ) → d.fingerprint_counts hash ≡ stored (count hash d.fingerprints)

-- A detector made with a usable history starts in the invariant.
pub new-IsWindow :
    (max_history : ℕ) → 1 ≤ max_history → max_history ≤ u32_max → IsWindow (new max_history)
unfolding new
new-IsWindow m h k = record {
  keeps_one = h;
  fits_u32 = k;
  fits = omega arith;
  counted = λ hash. refl;
}

decrement-counts :
    (x : ℕ) (xs : List ℕ) (counts : Map ℕ)
    → ((hash : ℕ) → counts hash ≡ stored (count hash (x ∷ xs)))
    → (hash : ℕ) → decrement x counts hash ≡ stored (count hash xs)
unfolding decrement
decrement-counts x xs counts h hash = ground (arith, h x, h hash, count hash xs)

increment-counts :
    (x : ℕ) (xs : List ℕ) (counts : Map ℕ)
    → ((hash : ℕ) → counts hash ≡ stored (count hash xs))
    → length xs < u32_max
    → (hash : ℕ) → increment x counts hash ≡ stored (count hash (xs ++ x ∷ []))
unfolding increment
increment-counts x xs counts h k hash =
    ground (arith, h x, h hash, count-append hash xs (x ∷ []), count-le-length x xs)

-- What the loop leaves of the window in front of the new entry.
abbrev pub retained : ℕ → List ℕ → List ℕ
retained max_history xs = drop (length xs + 1 - max_history) xs

retained-keep : (m : ℕ) (xs : List ℕ) → length xs + 1 ≤ m → retained m xs ≡ xs
retained-keep m xs h = let e : length xs + 1 - m ≡ 0 = omega arith in rw e

retained-skip : (m x : ℕ) (xs : List ℕ) → m ≤ length xs + 1 → retained m (x ∷ xs) ≡ retained m xs
retained-skip m x xs h =
    let e : suc (length xs) + 1 - m ≡ suc (length xs + 1 - m) = omega arith in rw e

abbrev Evicted : (m hash : ℕ) (xs : List ℕ) → List ℕ × Map ℕ → Type 0
Evicted m hash xs r =
    (r.0 ≡ retained m xs ++ hash ∷ [])
    × ((other : ℕ) → r.1 other ≡ stored (count other (retained m xs)))

evict-over :
    (m x : ℕ) (rest : List ℕ) (counts : Map ℕ)
    → m < length (x ∷ rest)
    → evict m (x ∷ rest) counts ≡ evict m rest (decrement x counts)
unfolding evict
evict-over m x rest counts h = ground arith

evict-fits :
    (m x : ℕ) (rest : List ℕ) (counts : Map ℕ)
    → length (x ∷ rest) ≤ m
    → evict m (x ∷ rest) counts ≡ (x ∷ rest, counts)
unfolding evict
evict-fits m x rest counts h = ground arith

-- The loop keeps the newest entries that fit, with their counts.
evict-Evicted :
    (m hash : ℕ) (xs : List ℕ) (counts : Map ℕ)
    → 1 ≤ m
    → ((other : ℕ) → counts other ≡ stored (count other xs))
    → Evicted m hash xs (evict m (xs ++ hash ∷ []) counts)
evict-Evicted m hash [] counts h c =
    rw (evict-fits m hash [] counts (omega arith), retained-keep m [] h) (refl, c)
evict-Evicted m hash (x ∷ xs) counts h c = elim (dec_le m (length xs + 1)) [
  | yes over ↦
      rw
        (
          evict-over m x (xs ++ hash ∷ []) counts (omega (arith, length-append xs (hash ∷ []))),
          retained-skip m x xs over,
        )
        (evict-Evicted m hash xs (decrement x counts) h (decrement-counts x xs counts c))
  | no fits ↦
      rw
        (
          evict-fits m x (xs ++ hash ∷ []) counts (omega (arith, length-append xs (hash ∷ []))),
          retained-keep m (x ∷ xs) (omega arith),
        )
        (refl, c)
]

length-retained : (m : ℕ) (xs : List ℕ) → 1 ≤ m → length (retained m xs) < m
length-retained m xs h = omega (arith, length-drop (length xs + 1 - m) xs)

module _ (d : ToolLoopDetector) (hash : ℕ) (v : IsWindow d) where
  pushed :
      Evicted d.max_history hash d.fingerprints
        (evict d.max_history (d.fingerprints ++ hash ∷ []) d.fingerprint_counts)
  pushed =
      evict-Evicted d.max_history hash d.fingerprints d.fingerprint_counts v.keeps_one v.counted

  -- The window after a push: the newest entries that leave room, then the new one.
  pub push_fingerprint-window :
      (push_fingerprint d hash).fingerprints ≡ retained d.max_history d.fingerprints ++ hash ∷ []
  unfolding push_fingerprint
  push_fingerprint-window = pushed.0

  pub push_fingerprint-counted :
      (other : ℕ)
      → (push_fingerprint d hash).fingerprint_counts other
        ≡ stored (count other (retained d.max_history d.fingerprints ++ hash ∷ []))
  unfolding push_fingerprint
  push_fingerprint-counted =
      increment-counts hash (retained d.max_history d.fingerprints) _ pushed.1
        (omega (arith, length-retained d.max_history d.fingerprints v.keeps_one, v.fits_u32))

  pub push_fingerprint-history : (push_fingerprint d hash).max_history ≡ d.max_history
  unfolding push_fingerprint
  push_fingerprint-history = refl

  -- A push keeps the invariant.
  pub push_fingerprint-IsWindow : IsWindow (push_fingerprint d hash)
  push_fingerprint-IsWindow = record {
    keeps_one = rw push_fingerprint-history v.keeps_one;
    fits_u32 = rw push_fingerprint-history v.fits_u32;
    fits =
        rw
          (
            push_fingerprint-history,
            push_fingerprint-window,
            length-append (retained d.max_history d.fingerprints) (hash ∷ []),
          )
          (omega (arith, length-retained d.max_history d.fingerprints v.keeps_one));
    counted = λ other. rw push_fingerprint-window (push_fingerprint-counted other);
  }
