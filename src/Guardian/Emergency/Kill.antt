-- ===== src/Guardian/Emergency/Kill.antt =====
-- The bounded write loop of `kill_direct`, and what it does to the reserve first.
use native.Mathlib.Decide.{ℕ_discrete}
use native.Mathlib.Nat.{add-zero}
use llm_guard_proxy.Prelude.{
  ℕ, zero, suc, ◌+◌, ◌<◌, ◌≡◌, refl, ap, ◌∙◌, ◌≢◌, ◌⊎◌, inl, inr, Bool, not, ◌&&◌, List, [], ◌∷◌,
  ◌++◌, arith,
}
use llm_guard_proxy.Prelude.Tests.{if◌then◌else◌}
use llm_guard_proxy.Prelude.Lists.{replicate}
use llm_guard_proxy.Guardian.Emergency.{
  EmergencyReserve, Syscall, munmap, write, release, eintr, eio, Written, one, nothing, failed,
  WriteResult, written, refused, write_loop, kill_direct,
}

-- How an answer other than an interruption ends the loop.
abbrev pub Settles : Written → WriteResult → Type 0
Settles one result = result ≡ written
Settles nothing result = result ≡ refused eio
Settles (failed errno) result = (errno ≢ eintr) × (result ≡ refused errno)

-- The first `n` answers from `i` on are interruptions.
abbrev pub Interrupted : (ℕ → Written) → ℕ → ℕ → Type 0
Interrupted answers i zero = Unit {0}
Interrupted answers i (suc n) = (answers i ≡ failed eintr) × Interrupted answers (i + 1) n

-- How a loop of some rounds ends: by the first answer that is no interruption, or after all rounds.
abbrev pub Ends : ℕ → ℕ → (ℕ → Written) → WriteResult × List Syscall → Type 0
Ends rounds i answers r =
    ((n : ℕ) × (n < rounds)
      × Interrupted answers i n
      × Settles (answers (i + n)) r.0
      × (r.1 ≡ replicate (suc n) write))
    ⊎ (Interrupted answers i rounds × (r.0 ≡ refused eintr) × (r.1 ≡ replicate rounds write))

module _ (rounds i : ℕ) (answers : ℕ → Written) where
  loop_one : answers i ≡ one → write_loop (suc rounds) i answers ≡ (written, write ∷ [])
  unfolding write_loop
  loop_one h = ground arith

  loop_nothing : answers i ≡ nothing → write_loop (suc rounds) i answers ≡ (refused eio, write ∷ [])
  unfolding write_loop
  loop_nothing h = ground arith

  loop_again :
      answers i ≡ failed eintr
      → write_loop (suc rounds) i answers
        ≡ ((write_loop rounds (i + 1) answers).0, write ∷ (write_loop rounds (i + 1) answers).1)
  unfolding write_loop
  loop_again h = ground arith

  loop_refused :
      (errno : ℕ)
      → answers i ≡ failed errno
      → errno ≢ eintr
      → write_loop (suc rounds) i answers ≡ (refused errno, write ∷ [])
  unfolding write_loop
  loop_refused errno h k = ground arith

  settled :
      (r : WriteResult)
      → Settles (answers i) r
      → write_loop (suc rounds) i answers ≡ (r, write ∷ [])
      → Ends (suc rounds) i answers (write_loop (suc rounds) i answers)
  settled r h e = rw e (inl (0, omega arith, tt, rw (add-zero i) h, refl))

  interrupted :
      answers i ≡ failed eintr
      → Ends rounds (i + 1) answers (write_loop rounds (i + 1) answers)
      → Ends (suc rounds) i answers (write_loop (suc rounds) i answers)
  interrupted h (inl (n, small, before, end, calls)) =
      let shift : i + suc n ≡ i + 1 + n = omega arith in
      rw (loop_again h) (inl (suc n, omega arith, (h, before), rw shift end, ap (◌∷◌ write) calls))
  interrupted h (inr (before, end, calls)) =
      rw (loop_again h) (inr ((h, before), end, ap (◌∷◌ write) calls))

  Ends-write_loop :
      (answer : Written)
      → answers i ≡ answer
      → Ends rounds (i + 1) answers (write_loop rounds (i + 1) answers)
      → Ends (suc rounds) i answers (write_loop (suc rounds) i answers)
  Ends-write_loop one h rest = settled written (rw h refl) (loop_one h)
  Ends-write_loop nothing h rest = settled (refused eio) (rw h refl) (loop_nothing h)
  Ends-write_loop (failed errno) h rest = elim (ℕ_discrete errno eintr) [
    | yes same ↦ interrupted (h ∙ ap failed same) rest
    | no other ↦ settled (refused errno) (rw h (other, refl)) (loop_refused errno h other)
  ]

write_loop-Ends :
    (rounds i : ℕ) (answers : ℕ → Written) → Ends rounds i answers (write_loop rounds i answers)
write_loop-Ends zero i answers = unfold write_loop in inr (tt, refl, refl)
write_loop-Ends (suc rounds) i answers =
    Ends-write_loop rounds i answers (answers i) refl (write_loop-Ends rounds (i + 1) answers)

-- The kill frees an owned reserve before its first write and no other call comes between; then it
-- writes until an answer other than EINTR, three times at most, and returns what that answer means.
pub kill_direct-Ends :
    (unmapped : Bool) (answers : ℕ → Written) (reserve : EmergencyReserve)
    → let (reserve', result, calls) = kill_direct unmapped answers reserve in
      (writes : List Syscall) × (calls ≡ (if reserve.allocated then munmap ∷ [] else []) ++ writes)
      × (reserve'.allocated ≡ reserve.allocated && not unmapped)
      × Ends 3 0 answers (result, writes)
unfolding kill_direct release
kill_direct-Ends unmapped answers reserve =
    ((write_loop 3 0 answers).1, ground arith, ground arith, write_loop-Ends 3 0 answers)
