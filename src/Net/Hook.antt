-- ===== src/Net/Hook.antt =====
-- `do_io` (spike/coroutine/Hook.cpp): a call of the system by a task, which is tried again while it is
-- interrupted and waits while it would block. What the calls return is given.
pub mod Retry
pub mod Timeout
mod Tests
use lim_webserver.Base.{
  ℕ, ◌^◌, Bool, true, false, not, ◌&&◌, ◌==◌, if◌then◌else◌, Option, none, some, List, [], ◌∷◌,
}
use lim_webserver.Net.Channel.{IoEvent, IoChannel, add_event, cancel_event, trigger}

-- What one call of the system returns: a bytes, or -1 with `EINTR`, with `EAGAIN` or with another
-- error.
pub data Call : Type 0 where
  bytes : ℕ → Call
  interrupted : Call
  unavailable : Call
  failed : ℕ → Call

-- What `do_io` returns; or it does not return, since a call goes on or the task is not woken.
pub data IoResult : Type 0 where
  returned : Call → IoResult
  timed_out : IoResult
  waiting : IoResult

-- The first call and the loop over `EINTR`: what it ends with, and the calls that follow.
pub call_again : List Call → Option (Call × List Call)
call_again [] = none
call_again (interrupted ∷ calls) = call_again calls
call_again (bytes n ∷ calls) = some (bytes n, calls)
call_again (unavailable ∷ calls) = some (unavailable, calls)
call_again (failed e ∷ calls) = some (failed e, calls)

-- A round of the loop of `do_io`: `woken` says for each wait that ends whether the time was over, and
-- `again` is the next round.
pub io_round : (List Call → IoResult) → Option (Call × List Call) → Option Bool → IoResult
io_round again none woken = waiting
io_round again (some (unavailable, calls)) none = waiting
io_round again (some (unavailable, calls)) (some true) = timed_out
io_round again (some (unavailable, calls)) (some false) = again calls
io_round again (some (bytes n, calls)) woken = returned (bytes n)
io_round again (some (interrupted, calls)) woken = returned interrupted
io_round again (some (failed e, calls)) woken = returned (failed e)

pub io_loop : List Bool → List Call → IoResult
io_loop [] calls = io_round (λ calls. waiting) (call_again calls) none
io_loop (expired ∷ woken) calls = io_round (io_loop woken) (call_again calls) (some expired)

pub first_call : List Call → IoResult
first_call [] = waiting
first_call (c ∷ calls) = returned c

-- `do_io` of a task or of none, on a descriptor that is a socket which its user takes for blocking, or
-- not.
pub do_io : Bool → Bool → List Bool → List Call → IoResult
do_io in_task blocking_socket woken calls =
    if in_task && blocking_socket then io_loop woken calls else first_call calls

-- A task that waits in `do_io` for an event of a channel.
pub record Waiting : Type 0 where
  pub task : ℕ
  pub event : IoEvent
  pub channel : IoChannel
  pub expired : Bool
  pub awake : Bool

-- `addEvent` before `CoHold`.
pub start_waiting : ℕ → IoEvent → IoChannel → Waiting
start_waiting task event c = record {
  task = task;
  event = event;
  channel = (add_event (some task) event c).1;
  expired = false;
  awake = false;
}

-- The callback of the timer.
pub time_out : Waiting → Waiting
time_out w = record w { channel = (cancel_event w.event w.channel).1; expired = true }

-- The poller reports events of the channel.
pub report_events : ℕ → Waiting → Waiting
report_events op w = elim (trigger op w.channel) [
  | none ↦ w
  | some t ↦ if t == w.task then record w { awake = true } else w
]
