-- ===== src/Coroutine/Tests.antt =====
-- Runs of `LFQueue` (spike/base/LFQueue.h), `Processor` and `Scheduler` (spike/coroutine).
use lim_webserver.Base.{
  ℕ, zero, suc, ◌≡◌, ◌-◌, refl, Bool, true, false, none, some, List, [], ◌∷◌, get_elem?,
}
use lim_webserver.Coroutine.Queue.{Heap, LfQueue, empty_queue, concatenate}
use lim_webserver.Coroutine.Queue.Linked.{Stands}
use lim_webserver.Coroutine.Queue.Refine.{concatenate-Stands}
use lim_webserver.Coroutine.Queue.Runs.{
  Operation, put, get, run_queue, run_list, run_queue-run_list,
}
use lim_webserver.Coroutine.Queue.Race.{enqueue_between, enqueue_between-lost}
use lim_webserver.Coroutine.Processor.{
  Processor, inner, outer, fetch, leave_idle, enter_idle, enqueue_new, tickle, get_next_task,
  dequeue_task, add_new_tasks,
}
use lim_webserver.Coroutine.Processor.Sleep.{
  new_processor, fetched, idle_entered, enqueued, tickled, Reaches, here, step, waiting_worker,
  wakes,
}
use lim_webserver.Coroutine.Processor.Order.{tasks, get_next_task-tasks}
use lim_webserver.Coroutine.Scheduler.{Candidate, Scheduler, start, stop}
use lim_webserver.Coroutine.Scheduler.Choice.{Belongs}
use lim_webserver.Coroutine.Scheduler.Stop as Stop
use lim_webserver.Coroutine.Scheduler.Stop.{new_scheduler, stop_stuck}

abbrev blank : Heap
blank p = record { value = 0; next_node = none }

-- Node 1 holds 10 and is linked to node 2, which holds 20; node 3 holds 30.
abbrev pages : Heap
pages (suc zero) = record { value = 10; next_node = some 2 }
pages (suc (suc zero)) = record { value = 20; next_node = none }
pages p = record { value = 30; next_node = none }

abbrev two_values : LfQueue
two_values = record { head = some 1; tail = some 2 }

abbrev one_value : LfQueue
one_value = record { head = some 3; tail = some 3 }

empty-Stands : Stands blank empty_queue [] []
empty-Stands = record { head = refl; tail = refl; links = tt; distinct = tt }

two_values-Stands : Stands pages two_values (1 ∷ 2 ∷ []) (10 ∷ 20 ∷ [])
two_values-Stands = record {
  head = refl;
  tail = refl;
  links = (refl, refl, (refl, refl, tt));
  distinct = (refl, (refl, tt));
}

one_value-Stands : Stands pages one_value (3 ∷ []) (30 ∷ [])
one_value-Stands = record {
  head = refl;
  tail = refl;
  links = (refl, refl, tt);
  distinct = (refl, tt);
}

abbrev script : List Operation
script = put 1 10 ∷ put 2 20 ∷ get ∷ put 3 30 ∷ get ∷ get ∷ get ∷ []

run_queue-run_list_example :
    run_queue script blank empty_queue ≡ some 10 ∷ some 20 ∷ some 30 ∷ none ∷ []
unfolding run_list
run_queue-run_list_example =
    run_queue-run_list script blank empty_queue [] [] (refl, (refl, (refl, tt))) empty-Stands

concatenate-Stands_example :
    (moved : Bool) × (heap' : Heap) × (q' other' : LfQueue) × (concatenate pages two_values
        one_value
      ≡ (moved, heap', q', other'))
    × (moved ≡ true)
    × Stands heap' q' (1 ∷ 2 ∷ 3 ∷ []) (10 ∷ 20 ∷ 30 ∷ [])
    × Stands heap' other' [] []
concatenate-Stands_example =
    concatenate-Stands pages two_values one_value (1 ∷ 2 ∷ []) (10 ∷ 20 ∷ []) (3 ∷ []) (30 ∷ [])
      (refl, (refl, tt)) two_values-Stands one_value-Stands

enqueue_between-lost_example :
    enqueue_between 5 50 pages empty_queue one_value
    ≡ (some (30, 3), some 3, empty_queue, empty_queue)
enqueue_between-lost_example = enqueue_between-lost pages one_value 5 50 3 30 refl one_value-Stands

-- A new processor after a round without tasks.
abbrev sleeping : Processor
sleeping = enter_idle (fetch true new_processor)

sleeping-Reaches : Reaches new_processor sleeping
unfolding fetch get_next_task dequeue_task add_new_tasks
sleeping-Reaches = step (step here (fetched true refl refl)) (idle_entered refl refl)

waiting_worker_example : (sleeping.new_queue ≡ []) × (sleeping.runable_queue ≡ [])
unfolding fetch enter_idle get_next_task dequeue_task add_new_tasks
waiting_worker_example = waiting_worker sleeping-Reaches refl refl refl

abbrev asked : Processor
asked = record (enqueue_new 7 sleeping) { pending = suc sleeping.pending }

abbrev signalled_with_task : Processor
signalled_with_task = record (tickle asked) { pending = asked.pending - 1 }

signalled_with_task-Reaches : Reaches new_processor signalled_with_task
signalled_with_task-Reaches = step (step sleeping-Reaches (enqueued 7 refl)) (tickled refl)

wakes_example :
    (signalled_with_task.signalled ≡ true)
    × ((leave_idle signalled_with_task).phase ≡ outer)
    × ((fetch true (leave_idle signalled_with_task)).cur_task ≡ some 7)
    × ((fetch true (leave_idle signalled_with_task)).runable_queue ≡ [])
    × ((fetch true (leave_idle signalled_with_task)).phase ≡ inner)
unfolding fetch enter_idle tickle enqueue_new get_next_task dequeue_task add_new_tasks
wakes_example = wakes 7 [] signalled_with_task-Reaches refl refl refl

-- A processor that runs the task 1, has 2 and 3 to run, and 9 among the new ones.
abbrev busy : Processor
busy = record {
  cur_task = some 1;
  new_queue = 9 ∷ [];
  runable_queue = 2 ∷ 3 ∷ [];
  garbage_list = [];
  add_new_remain = 1;
  idled = false;
  notified = true;
  phase = inner;
  signalled = false;
  pending = 0;
}

abbrev between_tasks : Processor
between_tasks = record busy { cur_task = none; runable_queue = [] }

get_next_task-tasks_example : tasks (get_next_task false between_tasks) ≡ 9 ∷ []
get_next_task-tasks_example = get_next_task-tasks false between_tasks refl

-- Processor 4 is active, processor 3 is not, both of scheduler 8.
abbrev pool : ℕ → Candidate
pool (suc (suc (suc (suc zero)))) = record { activated = true; scheduler = 8 }
pool p = record { activated = false; scheduler = 8 }

pool-Belongs : (i : ℕ) → Belongs pool 8 (get_elem? (3 ∷ 4 ∷ []) i)
pool-Belongs zero = refl
pool-Belongs (suc zero) = refl
pool-Belongs (suc (suc i)) = tt

abbrev started : Scheduler
started = record { started = true; locked = true; running = true }

started-Reaches : Stop.Reaches new_scheduler started
unfolding start
started-Reaches = Stop.step Stop.here (Stop.start_called refl)

stop_stuck_example : (stop started ≡ none) × (started.started ≡ true)
unfolding start
stop_stuck_example = stop_stuck started-Reaches refl (Stop.start_called refl)
