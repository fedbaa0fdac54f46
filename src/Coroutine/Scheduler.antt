-- ===== src/Coroutine/Scheduler.antt =====
-- `Scheduler` (spike/coroutine/Scheduler.cpp): which processor a task is given to, and the lock that
-- `start` and `stop` take.
pub mod Choice
pub mod Stop
use lim_webserver.Base.{
  ℕ, zero, suc, ◌%◌, Bool, true, false, not, ◌&&◌, ◌==◌, if◌then◌else◌, Option, none, some, List,
  length, get_elem?,
}

-- What a scheduler looks at of a processor: `m_activated` and `getScheduler()`.
pub record Candidate : Type 0 where
  pub activated : Bool
  pub scheduler : ℕ

-- `processor && processor->m_activated`, where a processor is an address
unfoldable pub is_active : (ℕ → Candidate) → Option ℕ → Bool
is_active heap none = false
is_active heap (some p) = (heap p).activated

-- `is_active`, and the processor belongs to the scheduler `self`.
pub is_own : (ℕ → Candidate) → ℕ → Option ℕ → Bool
is_own heap self none = false
is_own heap self (some p) = (heap p).activated && (heap p).scheduler == self

-- The loop of `addTask` with `n` rounds left and `processor` from the round before.
pub scan : (ℕ → Candidate) → List ℕ → ℕ → ℕ → Option ℕ → Option ℕ
scan heap processors zero idx processor = processor
scan heap processors (suc n) idx processor =
    let i = idx % length processors in
    let found = get_elem? processors i in
    let rest = scan heap processors n (suc i) found in if is_active heap found then found else rest

-- The processor to which `addTask` gives a task, from the task's own processor, that of the calling
-- thread, `m_lastActiveIdx` and `m_mainProcessor`.
pub choose_processor : (ℕ → Candidate) → ℕ → List ℕ → ℕ → ℕ → Option ℕ → Option ℕ → Option ℕ
choose_processor heap self processors last_active_idx main own current =
    let scanned = scan heap processors (length processors) last_active_idx current in
    if is_active heap own
    then own
    else if is_own heap self current
    then current
    else if is_own heap self scanned
    then scanned
    else some main

-- `m_started`, whether `start` holds `m_mutex`, and whether `m_mainProcessor->run()` goes on.
pub record Scheduler : Type 0 where
  pub started : Bool
  pub locked : Bool
  pub running : Bool

-- `start` up to the call of `run`, which goes on under the lock; `none` while it waits for the lock.
unfoldable pub start : Scheduler → Option Scheduler
start s =
    if s.started
    then some s
    else if s.locked
    then none
    else some (record { started = true; locked = true; running = true })

-- The end of `run`, which returns when `m_started` is false, and of `start`, which frees the lock.
pub end_run : Scheduler → Option Scheduler
end_run s =
    if s.running && not s.started then some (record s { running = false; locked = false }) else none

-- `stop` up to the calls of `tickle`; `none` while it waits for the lock.
pub stop : Scheduler → Option Scheduler
stop s =
    if not s.started then some s else if s.locked then none else some (record s { started = false })
