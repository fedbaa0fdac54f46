-- ===== src/Net/EventLoop.antt =====
-- `EventLoop` (spike/net/EventLoop.cpp): the processor that waits for a poller instead of a condition
-- variable, and takes no lock in `tickle` and `idle`.
use lim_webserver.Base.{ℕ, ◌≡◌, arith, Bool, true, false, not, if◌then◌else◌, [], ◌∷◌, ◌++◌}
use lim_webserver.Coroutine.Processor.{Processor, waiting, enqueue_new, resume}

-- `idle` is in two parts: `tested` says that it found no notification and has not set `m_idled` yet.
-- A byte count in the event descriptor `m_wakeFd` is `signalled`.
pub record EventLoop : Type 0 where
  pub processor : Processor
  pub tested : Bool

-- A write to `m_wakeFd` ends the wait of the poller.
pub tickle_loop : EventLoop → EventLoop
tickle_loop e =
    let p = e.processor in
    if p.idled
    then record e { processor = record p { signalled = true } }
    else if not p.notified
    then record e { processor = record p { notified = true } }
    else e

-- `idle` up to the test of `m_notified`.
pub test_notified : EventLoop → EventLoop
test_notified e =
    let p = e.processor in
    if p.notified
    then record { processor = resume (record p { notified = false }); tested = false }
    else record e { tested = true }

-- `idle` from there to the wait.
pub start_poll : EventLoop → EventLoop
start_poll e = record {
  processor = record (e.processor) { idled = true; phase = waiting };
  tested = false;
}

pub enqueue_loop : ℕ → EventLoop → EventLoop
enqueue_loop t e = record e { processor = enqueue_new t e.processor }

-- `addTask` of another thread comes between the two parts of `idle`.
pub idle_between : ℕ → EventLoop → EventLoop
idle_between t e = start_poll (tickle_loop (enqueue_loop t (test_notified e)))

-- When a loop that is not idle and was neither notified nor signalled enters `idle`, and another
-- thread adds a task after the test of `m_notified`, the loop waits with the task in its queue, and
-- nothing was written that ends the wait: only `m_notified` is set, which is tested after the wait.
pub idle_between-lost :
    (t : ℕ) (e : EventLoop)
    → e.processor.notified ≡ false
    → e.processor.idled ≡ false
    → e.processor.signalled ≡ false
    → ((idle_between t e).processor.phase ≡ waiting)
      × ((idle_between t e).processor.signalled ≡ false)
      × ((idle_between t e).processor.notified ≡ true)
      × ((idle_between t e).processor.new_queue ≡ e.processor.new_queue ++ (t ∷ []))
unfolding idle_between start_poll tickle_loop enqueue_loop test_notified enqueue_new
idle_between-lost t e n i s = (ground arith, ground arith, ground arith, ground arith)
