-- ===== src/Coroutine/Processor/Sleep.antt =====
-- `Processor` (spike/coroutine/Processor.cpp): the worker and any number of threads that add tasks, as
-- steps in any order; a worker that waits misses no task.
use lim_webserver.Base.{ℕ, suc, ◌-◌, ◌≡◌, arith, Bool, true, false, none, some, List, [], ◌∷◌}
use lim_webserver.Coroutine.Processor.{
  Processor, TaskState, outer, idling, waiting, inner, get_next_task, dequeue_task, add_new_tasks,
  enqueue_new, tickle, resume, enter_idle, leave_idle, fetch, swap,
}
use lim_webserver.Coroutine.Processor.Invariant.{
  Inv, fetched-Inv, swapped-Inv, idle_entered-Inv, idle_left-Inv, enqueued-Inv, tickled-Inv,
}

-- A new processor has empty queues.
abbrev pub new_processor : Processor
new_processor = record {
  cur_task = none;
  new_queue = [];
  runable_queue = [];
  garbage_list = [];
  add_new_remain = 0;
  idled = false;
  notified = false;
  phase = outer;
  signalled = false;
  pending = 0;
}

-- A step of the worker, of a thread that adds a task, or of one that only calls `tickle`. A wait may
-- end without a signal.
pub data Step (p p' : Processor) : Type 0 where
  fetched : (started : Bool) → p.phase ≡ outer → p' ≡ fetch started p → Step p p'
  swapped : (started : Bool) (s : TaskState) → p.phase ≡ inner → p' ≡ swap started s p → Step p p'
  idle_entered : p.phase ≡ idling → p' ≡ enter_idle p → Step p p'
  idle_left : p.phase ≡ waiting → p' ≡ leave_idle p → Step p p'
  enqueued : (t : ℕ) → p' ≡ record (enqueue_new t p) { pending = suc p.pending } → Step p p'
  tickled : p' ≡ record (tickle p) { pending = p.pending - 1 } → Step p p'

pub data Reaches (p : Processor) : Processor → Type 0 where
  here : Reaches p p
  step : {p' p'' : Processor} → Reaches p p' → Step p' p'' → Reaches p p''

Step-Inv : {p p' : Processor} → Step p p' → Inv p → Inv p'
Step-Inv {p = p} (fetched started h e) i = rw e (fetched-Inv started p h i)
Step-Inv {p = p} (swapped started s h e) i = rw e (swapped-Inv started s p h i)
Step-Inv {p = p} (idle_entered h e) i = rw e (idle_entered-Inv p h i)
Step-Inv {p = p} (idle_left h e) i = rw e (idle_left-Inv p h i)
Step-Inv {p = p} (enqueued t e) i = rw e (enqueued-Inv t p i)
Step-Inv {p = p} (tickled e) i = rw e (tickled-Inv p i)

new_processor-Inv : Inv new_processor
new_processor-Inv = ground arith

Reaches-Inv : {p : Processor} → Reaches new_processor p → Inv p
Reaches-Inv here = new_processor-Inv
Reaches-Inv (step r s) = Step-Inv s (Reaches-Inv r)

-- However the worker and the threads that add tasks take turns, both queues are empty when the
-- worker waits, was not signalled, and no thread is between the two calls of `addTask`.
pub waiting_worker :
    {p : Processor}
    → Reaches new_processor p
    → p.phase ≡ waiting
    → p.signalled ≡ false
    → p.pending ≡ 0
    → (p.new_queue ≡ []) × (p.runable_queue ≡ [])
waiting_worker r w s n = let i = Reaches-Inv r in (i.waiting_new w s n, i.waiting_none w)

-- A worker that waits while a task is in the queue of new tasks, and no thread is between the two
-- calls of `addTask`, was signalled; when it leaves its wait it is back at its loop, where, unless the
-- scheduler was stopped, it runs the first of these tasks and has the others, in their order, in the
-- queue of tasks to run.
pub wakes :
    {p : Processor} (t : ℕ) (ts : List ℕ)
    → Reaches new_processor p
    → p.phase ≡ waiting
    → p.pending ≡ 0
    → p.new_queue ≡ t ∷ ts
    → (p.signalled ≡ true)
      × ((leave_idle p).phase ≡ outer)
      × ((fetch true (leave_idle p)).cur_task ≡ some t)
      × ((fetch true (leave_idle p)).runable_queue ≡ ts)
      × ((fetch true (leave_idle p)).phase ≡ inner)
unfolding fetch leave_idle resume get_next_task dequeue_task add_new_tasks
wakes {p} t ts r w n e =
    let i = Reaches-Inv r in
    let none_left = i.waiting_none w in
    (ground (arith, i.waiting_new w), ground arith, ground arith, ground arith, ground arith)
