-- ===== src/Guardian/Emergency.antt =====
-- crates/llm-guard-proxy-host-guardian/src/emergency.rs: the reserve mapping, the kill write and the
-- controller of retries. What the kernel answers (`mmap`, `munmap`, `write`, `cgroup.events`) is an
-- input; the system calls that the code makes are a list, in their order.
pub mod Reserve
pub mod Kill
pub mod Attempts
pub mod Pacing
use llm_guard_proxy.Prelude.{
  ℕ, zero, suc, ◌+◌, Bool, true, false, not, ◌||◌, Option, none, some, List, [], ◌∷◌, ◌++◌,
}
use llm_guard_proxy.Prelude.Tests.{ltb, ◌==◌, if◌then◌else◌}
use llm_guard_proxy.Prelude.Lists.{length}
use llm_guard_proxy.Prelude.Words.{u64_max, saturating_add}

-- Whether the mapping is owned, for `data: Option<NonNull<u8>>`.
pub record EmergencyReserve : Type 0 where
  pub allocated : Bool
  pub bytes : ℕ
  pub page_size : ℕ
  pub touched_pages : ℕ

-- The loop of `(0..bytes).step_by(page_size)`: the offsets that are written, from `offset` on.
unfoldable pub touch_from : ℕ → ℕ → ℕ → ℕ → List ℕ
touch_from zero bytes page_size offset = []
touch_from (suc rounds) bytes page_size offset = elim (ltb offset bytes) [
  | true ↦ offset ∷ touch_from rounds bytes page_size (offset + page_size)
  | false ↦ []
]

-- Every round advances by at least one byte, so `bytes` rounds are enough.
unfoldable pub touched_offsets : ℕ → ℕ → List ℕ
touched_offsets bytes page_size = touch_from bytes bytes page_size 0

-- `none` is `ReserveError`; `mapped` says whether `mmap` gives a usable address.
unfoldable pub with_page_size : Bool → ℕ → ℕ → Option EmergencyReserve
with_page_size mapped bytes page_size =
    if (bytes == 0) || (page_size == 0) || not mapped
    then none
    else some (record {
      allocated = true;
      bytes = bytes;
      page_size = page_size;
      touched_pages = length (touched_offsets bytes page_size);
    })

-- What the platform offers a new reserve: `sysconf` (`none` for a negative answer) and `mmap`.
pub record Platform : Type 0 where
  pub configured_page_size : Option ℕ
  pub mapped : Bool

unfoldable pub reserve_new : Platform → ℕ → Option EmergencyReserve
reserve_new platform bytes = elim platform.configured_page_size [
  | none ↦ none
  | some page_size ↦ if page_size == 0 then none else with_page_size platform.mapped bytes page_size
]

pub data Syscall : Type 0 where
  munmap write : Syscall

-- The mapping stays owned if the kernel rejects `munmap`.
unfoldable pub release : Bool → EmergencyReserve → EmergencyReserve × List Syscall
release unmapped reserve =
    if reserve.allocated
    then (record reserve { allocated = not unmapped }, munmap ∷ [])
    else (reserve, [])

abbrev pub eintr : ℕ
eintr = 4

abbrev pub eio : ℕ
eio = 5

-- What `write` returns: one byte, none, or -1 with an errno.
pub data Written : Type 0 where
  one nothing : Written
  failed : ℕ → Written

-- `Result<(), i32>`
pub data WriteResult : Type 0 where
  written : WriteResult
  refused : ℕ → WriteResult

-- The loop of `kill_direct`; `answers i` is the answer to its call `i`.
unfoldable pub write_loop : ℕ → ℕ → (ℕ → Written) → WriteResult × List Syscall
write_loop zero i answers = (refused eintr, [])
write_loop (suc rounds) i answers =
    let (result, calls) = write_loop rounds (i + 1) answers in
    elim (answers i) [
      | one ↦ (written, write ∷ [])
      | nothing ↦ (refused eio, write ∷ [])
      | failed errno ↦
          if errno == eintr then (result, write ∷ calls) else (refused errno, write ∷ [])
    ]

unfoldable pub kill_direct :
    Bool → (ℕ → Written) → EmergencyReserve → EmergencyReserve × WriteResult × List Syscall
kill_direct unmapped answers reserve =
    let (released, freed) = release unmapped reserve in
    let (result, calls) = write_loop 3 0 answers in (released, result, freed ++ calls)

pub data AttemptOutcome : Type 0 where
  waiting verified already_empty retry : AttemptOutcome
  write_failed : ℕ → AttemptOutcome

pub record EmergencyController : Type 0 where
  pub reserve : EmergencyReserve
  pub retry_millis : ℕ
  pub next_attempt_millis : ℕ
  pub verified : Bool
  pub last_write : Option WriteResult

unfoldable pub new : EmergencyReserve → ℕ → EmergencyController
new reserve retry_millis = record {
  reserve = reserve;
  retry_millis = retry_millis;
  next_attempt_millis = 0;
  verified = false;
  last_write = none;
}

unfoldable pub enter_emergency : Bool → EmergencyController → EmergencyController
enter_emergency unmapped c = record c { reserve = (release unmapped c.reserve).0 }

-- The new controller, and whether the reserve was made anew; `none` is `ReserveError`.
unfoldable pub ensure_reserve :
    Platform → ℕ → EmergencyController → EmergencyController × Option Bool
ensure_reserve platform bytes c =
    if c.reserve.allocated then (c, some false) else elim (reserve_new platform bytes) [
      | none ↦ (c, none)
      | some reserve ↦ (record c { reserve = reserve }, some true)
    ]

unfoldable pub reset_for_target_generation : EmergencyController → EmergencyController
reset_for_target_generation c = record c {
  next_attempt_millis = 0;
  verified = false;
  last_write = none;
}

-- The answers that one attempt meets: `is_empty` before and after (`none` is an error), `munmap`
-- and the writes.
pub record World : Type 0 where
  pub now_millis : ℕ
  pub empty_before : Option Bool
  pub unmapped : Bool
  pub answers : ℕ → Written
  pub empty_after : Option Bool

-- `matches!(target.is_empty(), Ok(true))`
abbrev pub is_true : Option Bool → Bool
is_true (some b) = b
is_true none = false

-- The attempt on a target that is empty before any write of this attempt.
unfoldable pub observe_empty : EmergencyController → EmergencyController × AttemptOutcome
observe_empty c = elim c.last_write [
  | none ↦ (record c { verified = true }, already_empty)
  | some result ↦ elim result [
    | written ↦ (record c { verified = true }, AttemptOutcome.verified)
    | refused errno ↦ (c, write_failed errno)
  ]
]

abbrev pub kill : EmergencyController → World → EmergencyReserve × WriteResult × List Syscall
kill c w = kill_direct w.unmapped w.answers c.reserve

-- The controller once the write is done, with the next attempt set and the result on record.
abbrev pub tried : EmergencyController → World → EmergencyController
tried c w = record c {
  reserve = (kill c w).0;
  next_attempt_millis = saturating_add u64_max w.now_millis c.retry_millis;
  last_write = some (kill c w).1;
}

-- The attempt from its write on.
unfoldable pub write_now :
    EmergencyController → World → EmergencyController × AttemptOutcome × List Syscall
write_now c w = elim (kill c w).1 [
  | refused errno ↦ (tried c w, write_failed errno, (kill c w).2)
  | written ↦
      if is_true w.empty_after
      then (record (tried c w) { verified = true }, AttemptOutcome.verified, (kill c w).2)
      else (tried c w, retry, (kill c w).2)
]

unfoldable pub attempt :
    EmergencyController → World → EmergencyController × AttemptOutcome × List Syscall
attempt c w =
    if c.verified
    then (c, waiting, [])
    else (if is_true w.empty_before
        then (let (c', outcome) = observe_empty c in (c', outcome, []))
        else (if ltb w.now_millis c.next_attempt_millis then (c, waiting, []) else write_now c w))
