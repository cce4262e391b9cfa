-- ===== src/Guardian/Emergency/Reserve.antt =====
-- Every page of the reserve is faulted in.
use native.Mathlib.Decide.{dec_lt}
use llm_guard_proxy.Prelude.{
  ℕ, zero, suc, ◌+◌, ◌*◌, ◌≤◌, ◌<◌, ◌≡◌, refl, ◌⊎◌, inl, inr, Bool, true, false, none, some, [],
  ◌∷◌, arith,
}
use llm_guard_proxy.Prelude.Lists.{length}
use llm_guard_proxy.Guardian.Emergency.{
  EmergencyReserve, touch_from, touched_offsets, with_page_size,
}

-- The pages that a walk from `offset` covers, in one count.
abbrev pub Covers : ℕ → ℕ → ℕ → ℕ → Type 0
Covers bytes page_size offset n =
    (bytes ≤ offset + n * page_size) × (0 < n → offset + n * page_size < bytes + page_size)

touch_from-inside :
    (rounds bytes page_size offset : ℕ)
    → offset < bytes
    → touch_from (suc rounds) bytes page_size offset
      ≡ offset ∷ touch_from rounds bytes page_size (offset + page_size)
unfolding touch_from
touch_from-inside rounds bytes page_size offset h = ground arith

touch_from-outside :
    (rounds bytes page_size offset : ℕ)
    → bytes ≤ offset
    → touch_from (suc rounds) bytes page_size offset ≡ []
unfolding touch_from
touch_from-outside rounds bytes page_size offset h = ground arith

touch_from-Covers :
    (rounds bytes page_size offset : ℕ)
    → 0 < page_size
    → bytes ≤ offset + rounds
    → Covers bytes page_size offset (length (touch_from rounds bytes page_size offset))
touch_from-Covers zero bytes page_size offset p h =
    unfold touch_from in (omega arith, λ q. absurd (omega arith))
touch_from-Covers (suc rounds) bytes page_size offset p h = elim (dec_lt offset bytes) [
  | yes inside ↦
      let rest = touch_from-Covers rounds bytes page_size (offset + page_size) p (omega arith) in
      rw (touch_from-inside rounds bytes page_size offset inside)
        (covers_next bytes page_size offset _ inside rest)
  | no outside ↦
      rw (touch_from-outside rounds bytes page_size offset (omega arith))
        (omega arith, λ q. absurd (omega arith))
]
  where
    covers_next :
        (bytes page_size offset n : ℕ)
        → offset < bytes
        → Covers bytes page_size (offset + page_size) n
        → Covers bytes page_size offset (suc n)
    covers_next bytes page_size offset zero inside (low, high) = (omega arith, λ q. omega arith)
    covers_next bytes page_size offset (suc n) inside (low, high) =
        (omega arith, λ q. omega (arith, high (omega arith)))

touched_offsets-Covers :
    (bytes page_size : ℕ)
    → 0 < page_size
    → Covers bytes page_size 0 (length (touched_offsets bytes page_size))
unfolding touched_offsets
touched_offsets-Covers bytes page_size p = touch_from-Covers bytes bytes page_size 0 p (omega arith)

-- A reserve is made exactly when the mapping is and neither size is zero; then it is owned, and the
-- count of its pages is the length of the mapping in pages, rounded up.
pub with_page_size-touched :
    (mapped : Bool) (bytes page_size : ℕ)
    → ((with_page_size mapped bytes page_size ≡ none)
        × ((bytes ≡ 0) ⊎ ((page_size ≡ 0) ⊎ (mapped ≡ false))))
      ⊎ ((r : EmergencyReserve) × (with_page_size mapped bytes page_size ≡ some r)
          × (r.allocated ≡ true)
          × (bytes ≤ r.touched_pages * page_size)
          × (r.touched_pages * page_size < bytes + page_size))
unfolding with_page_size
with_page_size-touched false bytes page_size = inl (ground arith, inr (inr refl))
with_page_size-touched true zero page_size = inl (ground arith, inl refl)
with_page_size-touched true (suc b) zero = inl (ground arith, inr (inl refl))
with_page_size-touched true (suc b) (suc s) =
    let (low, high) = touched_offsets-Covers (suc b) (suc s) (omega arith) in
    let n = length (touched_offsets (suc b) (suc s)) in
    inr (
      record { allocated = true; bytes = suc b; page_size = suc s; touched_pages = n },
      ground arith,
      refl,
      omega arith,
      upper n low high,
    )
  where
    upper :
        (n : ℕ)
        → suc b ≤ 0 + n * suc s
        → (0 < n → 0 + n * suc s < suc b + suc s)
        → n * suc s < suc b + suc s
    upper zero low high = omega arith
    upper (suc n) low high = omega (arith, high (omega arith))
