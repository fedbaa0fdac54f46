-- ===== src/Coroutine/Scheduler/Stop.antt =====
-- `Scheduler::stop` (spike/coroutine/Scheduler.cpp) waits for a lock that `start` holds until the
-- scheduler has stopped.
use lim_webserver.Base.{◌≡◌, arith, true, false, none, some}
use lim_webserver.Coroutine.Scheduler.{Scheduler, start, end_run, stop}

abbrev pub new_scheduler : Scheduler
new_scheduler = record { started = false; locked = false; running = false }

-- A call of one of several threads that gets as far as its function says.
pub data Step (s s' : Scheduler) : Type 0 where
  start_called : start s ≡ some s' → Step s s'
  run_ended : end_run s ≡ some s' → Step s s'
  stop_called : stop s ≡ some s' → Step s s'

pub data Reaches (s : Scheduler) : Scheduler → Type 0 where
  here : Reaches s s
  step : {s' s'' : Scheduler} → Reaches s s' → Step s' s'' → Reaches s s''

Step-locked :
    {s s' : Scheduler}
    → Step s s'
    → (s.started ≡ true → s.locked ≡ true)
    → s'.started ≡ true
    → s'.locked ≡ true
unfolding start end_run stop
Step-locked {s} {s'} (start_called e) h b = ground arith
Step-locked {s} {s'} (run_ended e) h b = ground arith
Step-locked {s} {s'} (stop_called e) h b = ground arith

Reaches-locked : {s : Scheduler} → Reaches new_scheduler s → s.started ≡ true → s.locked ≡ true
Reaches-locked here b = cc
Reaches-locked (step r x) b = Step-locked x (Reaches-locked r) b

-- Once a scheduler that was new is started, by whatever calls of any threads, `stop` waits for the
-- lock, and neither a call of `start` or `stop` nor the end of `run` makes it a scheduler that is not
-- started.
pub stop_stuck :
    {s s' : Scheduler}
    → Reaches new_scheduler s
    → s.started ≡ true
    → Step s s'
    → (stop s ≡ none) × (s'.started ≡ true)
unfolding start end_run stop
stop_stuck {s} {s'} r b x = let l = Reaches-locked r b in (ground arith, still x)
  where
    still : Step s s' → s'.started ≡ true
    still (start_called e) = ground arith
    still (run_ended e) = ground arith
    still (stop_called e) = ground (arith, Reaches-locked r b)
