-- ===== src/Examples/ThresholdRuns.antt =====
-- The watermarks of a guardian that stops at 2 GiB and holds 512 MiB.
use llm_guard_proxy.Prelude.{◌≡◌, refl, true, some}
use llm_guard_proxy.Guardian.Thresholds.{Thresholds, new, should_shed}

abbrev two_gib : Thresholds
two_gib = record {
  mem_avail_stop_gib = 2;
  reserve_mib = 512;
  threshold_bytes = 2147483648;
  reserve_bytes = 536870912;
}

two_gib-new : new 2 512 ≡ some two_gib
unfolding new
two_gib-new = refl

-- A reading of exactly the stop threshold sheds.
at_threshold : should_shed 2147483648 two_gib ≡ true
unfolding should_shed
at_threshold = refl
