-- ===== src/Examples/EmergencyRuns.antt =====
-- An episode of the emergency controller.
use llm_guard_proxy.Prelude.{
  ℕ, zero, suc, ◌+◌, ◌*◌, ◌≤◌, ◌≡◌, refl, true, false, some, [], ◌∷◌, arith,
}
use llm_guard_proxy.Guardian.Emergency.{
  EmergencyReserve, release, eintr, Written, one, failed, write_loop, kill_direct, new, World,
  observe_empty, write_now, attempt,
}
use llm_guard_proxy.Guardian.Emergency.Kill.{kill_direct-Ends}
use llm_guard_proxy.Guardian.Emergency.Attempts.{Means, attempt-Means}
use llm_guard_proxy.Guardian.Emergency.Pacing.{kills, kills_spaced}

abbrev two_pages : EmergencyReserve
two_pages = record { allocated = true; bytes = 5000; page_size = 4096; touched_pages = 2 }

-- One interruption, then the byte is written.
abbrev interrupted_once : ℕ → Written
interrupted_once zero = failed eintr
interrupted_once (suc i) = one

abbrev live_at : ℕ → World
live_at t = record {
  now_millis = t;
  empty_before = some false;
  unmapped = true;
  answers = interrupted_once;
  empty_after = some false;
}

abbrev emptied_at : ℕ → World
emptied_at t = record (live_at t) { empty_before = some true }

-- The kill at 100 is repeated at 300 only, and the target is then seen empty.
episode_kills :
    kills (new two_pages 200) (live_at 100 ∷ live_at 250 ∷ live_at 300 ∷ emptied_at 350 ∷ []) ≡ 2
unfolding kills attempt new write_now kill_direct write_loop release observe_empty
episode_kills = refl

kills_spaced_example :
    kills (new two_pages 200) (live_at 100 ∷ live_at 250 ∷ live_at 300 ∷ emptied_at 350 ∷ [])
      * (new two_pages 200).retry_millis
    ≤ 250 + (new two_pages 200).retry_millis
unfolding new
kills_spaced_example =
    kills_spaced (new two_pages 200) 100
      (live_at 100 ∷ live_at 250 ∷ live_at 300 ∷ emptied_at 350 ∷ [])
      (omega arith, (omega arith, (omega arith, (omega arith, tt)))) (omega arith)

attempt-Means_example :
    Means
      (live_at 100)
      (new two_pages 200)
      (attempt (new two_pages 200) (live_at 100)).0
      (attempt (new two_pages 200) (live_at 100)).1
attempt-Means_example = attempt-Means (new two_pages 200) (live_at 100)

kill_direct-Ends_example : (kill_direct true interrupted_once two_pages).0.allocated ≡ false
kill_direct-Ends_example = (kill_direct-Ends true interrupted_once two_pages).2
