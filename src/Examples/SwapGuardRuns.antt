-- ===== src/Examples/SwapGuardRuns.antt =====
-- The swap guard on a minute of samples.
use llm_guard_proxy.Prelude.{ℕ, ◌+◌, ◌*◌, ◌≤◌, ◌≡◌, refl, [], ◌∷◌, arith}
use llm_guard_proxy.SwapGuard.{SwapGuardConfig, new, observe}
use llm_guard_proxy.SwapGuard.Cadence.{Sample, alerts, changes, alerts_bounded}

abbrev minute : SwapGuardConfig
minute = record {
  warn_swap_kib = 2048;
  alert_swap_kib = 4096;
  alert_mem_available_kib = 1024;
  alert_repeat = 60;
}

abbrev low_at : ℕ → Sample
low_at t = record { observed_at = t; mem_available_kib = 512; swap_used_kib = 0 }

-- Low memory at 0, 1 and 60 seconds is reported at 0 and 60.
two_alerts : alerts (new minute) (low_at 0 ∷ low_at 1 ∷ low_at 60 ∷ []) ≡ 2
unfolding alerts observe new
two_alerts = refl

alerts_bounded_example :
    alerts (new minute) (low_at 0 ∷ low_at 1 ∷ low_at 60 ∷ []) * 60
    ≤ changes (new minute) (low_at 0 ∷ low_at 1 ∷ low_at 60 ∷ []) * 60 + 60
alerts_bounded_example =
    alerts_bounded minute 0 (low_at 0 ∷ low_at 1 ∷ low_at 60 ∷ [])
      (omega arith, (omega arith, (omega arith, tt)))
