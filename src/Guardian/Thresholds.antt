-- ===== src/Guardian/Thresholds.antt =====
-- `Thresholds` of config.rs and the two watermark tests of monitor.rs.
use llm_guard_proxy.Prelude.{ℕ, Bool, Option, none, some}
use llm_guard_proxy.Prelude.Tests.{leb, ◌==◌, if◌then◌else◌, ◌>>=◌}
use llm_guard_proxy.Prelude.Words.{u64_max, saturating_add, checked_mul}

abbrev pub mib : ℕ
mib = 1048576

abbrev pub gib : ℕ
gib = 1073741824

pub record Thresholds : Type 0 where
  pub mem_avail_stop_gib : ℕ
  pub reserve_mib : ℕ
  pub threshold_bytes : ℕ
  pub reserve_bytes : ℕ

-- `None` stands for `ConfigError::Invalid`. On the supported target `usize` has 64 bits, so the
-- conversion of the reserve to `usize` does not fail.
unfoldable pub new : ℕ → ℕ → Option Thresholds
new mem_avail_stop_gib reserve_mib =
    if mem_avail_stop_gib == 0
    then none
    else (if reserve_mib == 0 then none else (do
      threshold_bytes ← checked_mul u64_max mem_avail_stop_gib gib
      reserve_bytes ← checked_mul u64_max reserve_mib mib
      some (record {
        mem_avail_stop_gib = mem_avail_stop_gib;
        reserve_mib = reserve_mib;
        threshold_bytes = threshold_bytes;
        reserve_bytes = reserve_bytes;
      })))

unfoldable pub should_shed : ℕ → Thresholds → Bool
should_shed mem_available_bytes thresholds = leb mem_available_bytes thresholds.threshold_bytes

unfoldable pub should_rearm : ℕ → Thresholds → Bool
should_rearm mem_available_bytes thresholds =
    leb (saturating_add u64_max thresholds.threshold_bytes thresholds.reserve_bytes)
      mem_available_bytes
