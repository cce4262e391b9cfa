-- ===== src/Examples/GuardianRuns.antt =====
-- A guardian that opens, latches at 1 GiB of free memory, hands the episode to the executor and rearms.
use llm_guard_proxy.Guardian.Thresholds
use llm_guard_proxy.Guardian.Emergency
use llm_guard_proxy.Prelude.{ℕ, ◌≡◌, refl, true, false, Option, none, some, [], ◌∷◌, arith}
use llm_guard_proxy.Guardian.State.{
  cgroup_kill, Policy, same_policy, CgroupTarget, cgroup, MemoryGuardian, pending, Host, rearmed,
}
use llm_guard_proxy.Guardian.Reconcile.{
  open_recovery_target, install_target, reconcile_active_target, reconcile_healthy_target,
  no_escalation, opened, open_guardian,
}
use llm_guard_proxy.Guardian.MemInfo.{MemInfoResult}
use llm_guard_proxy.Guardian.Escalation.{arm, clear, take_due}
use llm_guard_proxy.Guardian.Tier2.{
  revalidate, generation_of, eligible, same_generations, settle, request_for, hand_off, claim,
  escalate, update_escalation,
}
use llm_guard_proxy.Guardian.Tier2.Handoff.{update_escalation-eligible, update_escalation-graced}
use llm_guard_proxy.Guardian.Monitor.{
  attempt_on_target, attempt_emergency, healthy_reading, healthy_iteration, rearm_reserved, rearm,
  latched_iteration, iterate, tick,
}
use llm_guard_proxy.Guardian.Monitor.Armed.{IsArmed}
use llm_guard_proxy.Guardian.Monitor.Healthy.{under_pressure}
use llm_guard_proxy.Guardian.Monitor.Latch.{
  tick-latches, tick-active_policy, tick-unlatches, tick_all, tick_all-IsArmed,
}

abbrev policy : Policy
policy = record {
  enabled = true;
  names = 7;
  mem_threshold_gib = 2;
  kill_action = cgroup_kill;
  poll_interval_secs = 1;
  reserve_mib = 32;
  retry_interval_secs = 5;
  escalation_enabled = true;
  escalation_grace_secs = 30;
  escalation_timeout_secs = 60;
  escalation_mem_threshold_gib = 1;
}

abbrev pages : Emergency.Platform
pages = record { configured_page_size = some 16777216; mapped = true }

abbrev armed_thresholds : Thresholds.Thresholds
armed_thresholds = record {
  mem_avail_stop_gib = 2;
  reserve_mib = 32;
  threshold_bytes = 2147483648;
  reserve_bytes = 33554432;
}

abbrev reserve : Emergency.EmergencyReserve
reserve = record { allocated = true; bytes = 33554432; page_size = 16777216; touched_pages = 2 }

abbrev controller : Emergency.EmergencyController
controller = record {
  reserve = reserve;
  retry_millis = 5000;
  next_attempt_millis = 0;
  verified = false;
  last_write = none;
}

abbrev started : MemoryGuardian
started = opened policy armed_thresholds (some controller)

open_started : open_guardian pages true policy ≡ some started
unfolding open_guardian Thresholds.new Emergency.reserve_new Emergency.with_page_size
    Emergency.touched_offsets Emergency.touch_from Emergency.new
open_started = refl

abbrev cgroup_of : Policy → Option CgroupTarget
cgroup_of p = some (record { registration = 3; identity = some (1, 42) })

abbrev no_cgroup : Policy → Option CgroupTarget
no_cgroup p = none

abbrev byte_written : ℕ → Emergency.Written
byte_written i = Emergency.one

abbrev kill_at : ℕ → Emergency.World
kill_at now_millis = record {
  now_millis = now_millis;
  empty_before = some false;
  unmapped = true;
  answers = byte_written;
  empty_after = some true;
}

-- The host at 2 GiB, where the kill empties the target.
abbrev pressed : Host
pressed = record {
  snapshot = some policy;
  executor_closed = false;
  open_registered = cgroup_of;
  platform = pages;
  meminfo = MemInfoResult.ok 2147483648;
  pressure = MemInfoResult.ok 1073741824;
  unmapped = true;
  world = kill_at 1000;
  restarted = true;
  authority_valid = true;
  received = pending;
  target_empty = some true;
  now = 1;
  cloned = true;
  accepted = true;
}

-- The empty target 40 s later, and memory recovered.
abbrev still_pressed : Host
still_pressed = record pressed { open_registered = no_cgroup; now = 41 }

abbrev recovered : Host
recovered = record still_pressed { meminfo = MemInfoResult.ok 4294967296 }

abbrev sending : MemoryGuardian
sending = record started { escalation = record no_escalation { sender = true } }

tick_all-IsArmed_example : IsArmed (tick_all (pressed ∷ still_pressed ∷ recovered ∷ []) started)
tick_all-IsArmed_example =
    tick_all-IsArmed pages true policy started (pressed ∷ still_pressed ∷ recovered ∷ [])
      open_started

-- The guardian that the first tick leaves.
abbrev latched_guardian : MemoryGuardian
latched_guardian = record sending {
  target = some (cgroup (record { registration = 3; identity = some (1, 42) }));
  controller = some (record controller {
    reserve = record reserve { allocated = false };
    next_attempt_millis = 6000;
    verified = true;
    last_write = some Emergency.written;
  });
  latched = true;
  escalation = record no_escalation {
    sender = true;
    episode = record { armed_at = some 1; attempted = false };
    generation = some (1, 42);
  };
}

first_iteration :
    (iterate pressed sending).0
    ≡ record latched_guardian { escalation = record no_escalation { sender = true } }
unfolding iterate healthy_iteration reconcile_healthy_target reconcile_active_target same_policy
    install_target open_recovery_target Thresholds.should_shed healthy_reading attempt_emergency
    attempt_on_target Emergency.attempt Emergency.enter_emergency Emergency.write_now
    Emergency.observe_empty Emergency.kill_direct Emergency.write_loop Emergency.release
    Emergency.reset_for_target_generation
first_iteration = refl

update_escalation-eligible_example : eligible still_pressed latched_guardian ≡ true
unfolding update_escalation escalate eligible settle revalidate claim hand_off arm clear take_due
update_escalation-eligible_example =
    (update_escalation-eligible still_pressed latched_guardian (request_for still_pressed policy 1)
      refl).0

update_escalation-graced_example :
    same_generations (generation_of latched_guardian.target) latched_guardian.escalation.generation
    ≡ true
unfolding update_escalation escalate eligible settle revalidate claim hand_off arm clear take_due
update_escalation-graced_example =
    (update_escalation-graced still_pressed latched_guardian (request_for still_pressed policy 1)
      (omega arith) refl).0

-- The same guardian without Tier 2.
abbrev plain : Policy
plain = record policy { escalation_enabled = false }

abbrev plain_host : Host → Host
plain_host host = record host { snapshot = some plain }

abbrev unlatched_plain : MemoryGuardian
unlatched_plain = record sending { active_policy = plain }

abbrev latched_plain : MemoryGuardian
latched_plain = record latched_guardian { active_policy = plain }

unlatched_plain-IsArmed : IsArmed unlatched_plain
unfolding Thresholds.new
unlatched_plain-IsArmed = record {
  thresholds = refl;
  matched = refl;
  untargeted = λ k. refl;
  latch_enabled = λ k. refl;
  reserved = λ k. refl;
  fresh = λ k. (refl, refl);
}

latched_plain-IsArmed : IsArmed latched_plain
unfolding Thresholds.new
latched_plain-IsArmed = record {
  thresholds = refl;
  matched = refl;
  untargeted = λ k. absurd (ground (arith, k));
  latch_enabled = λ k. refl;
  reserved = λ k. absurd (ground (arith, k));
  fresh = λ k. absurd (ground (arith, k));
}

tick-latches_example :
    under_pressure (plain_host pressed) (tick (plain_host pressed) unlatched_plain).0.thresholds
    ≡ true
unfolding tick update_escalation iterate healthy_iteration reconcile_healthy_target
    reconcile_active_target same_policy install_target open_recovery_target Thresholds.should_shed
    healthy_reading attempt_emergency attempt_on_target Emergency.attempt Emergency.enter_emergency
    Emergency.write_now Emergency.observe_empty Emergency.kill_direct Emergency.write_loop
    Emergency.release Emergency.reset_for_target_generation
tick-latches_example =
    (tick-latches (plain_host pressed) unlatched_plain unlatched_plain-IsArmed refl refl).1

tick-active_policy_example :
    (tick (plain_host still_pressed) latched_plain).0.active_policy ≡ latched_plain.active_policy
tick-active_policy_example =
    tick-active_policy (plain_host still_pressed) latched_plain latched_plain-IsArmed refl

tick-unlatches_example : (tick (plain_host recovered) latched_plain).1 ≡ rearmed
unfolding tick update_escalation iterate latched_iteration rearm rearm_reserved
    Thresholds.should_rearm Emergency.ensure_reserve Emergency.reserve_new Emergency.with_page_size
    Emergency.touched_offsets Emergency.touch_from
tick-unlatches_example =
    (tick-unlatches (plain_host recovered) latched_plain latched_plain-IsArmed refl refl).1
