-- ===== src/Coroutine/Processor/Garbage.antt =====
-- The list of finished tasks of `Processor` (spike/coroutine/Processor.cpp) stays short.
use lim_webserver.Base.{
  ℕ, ◌≡◌, ◌≤◌, arith, Bool, true, false, Option, none, some, [], ◌∷◌, length, length-append,
}
use lim_webserver.Coroutine.Processor.{
  Processor, TaskState, ready, hold, exec, except, term, get_next_task, dequeue_task, add_new_tasks,
  enqueue_new, tickle, resume, enter_idle, leave_idle, fetch, put_back, discard, swap,
}
use lim_webserver.Coroutine.Processor.Sleep.{
  new_processor, Step, fetched, swapped, idle_entered, idle_left, enqueued, tickled, Reaches, here,
  step,
}

get_next_task-garbage_list :
    (flag : Bool) (p : Processor) → (get_next_task flag p).garbage_list ≡ p.garbage_list
unfolding get_next_task dequeue_task add_new_tasks
get_next_task-garbage_list flag p = ground arith

discard-garbage_list :
    (t : ℕ) (p : Processor) → length p.garbage_list ≤ 17 → length (discard t p).garbage_list ≤ 17
unfolding discard
discard-garbage_list t p h = ground (arith, length-append p.garbage_list (t ∷ []))

put_back-garbage_list :
    (s : TaskState) (t : ℕ) (p : Processor)
    → length p.garbage_list ≤ 17
    → length (put_back s t p).garbage_list ≤ 17
unfolding put_back
put_back-garbage_list ready t p h = h
put_back-garbage_list hold t p h = h
put_back-garbage_list exec t p h = discard-garbage_list t p h
put_back-garbage_list except t p h = discard-garbage_list t p h
put_back-garbage_list term t p h = discard-garbage_list t p h

fetch-garbage_list :
    (started : Bool) (p : Processor)
    → length p.garbage_list ≤ 17
    → length (fetch started p).garbage_list ≤ 17
unfolding fetch
fetch-garbage_list started p h = ground (arith, get_next_task-garbage_list true p)

swap_with :
    (c : Option ℕ) (started : Bool) (s : TaskState) (p : Processor)
    → length p.garbage_list ≤ 17
    → length (swap started s (record p { cur_task = c })).garbage_list ≤ 17
unfolding swap
swap_with none started s p h = h
swap_with (some t) started s p h =
    let back = put_back s t (record p { cur_task = some t }) in
    let kept = put_back-garbage_list s t (record p { cur_task = some t }) h in
    let same = get_next_task-garbage_list false (record back { cur_task = none }) in
    ground (arith, kept, same)

swap-garbage_list :
    (started : Bool) (s : TaskState) (p : Processor)
    → length p.garbage_list ≤ 17
    → length (swap started s p).garbage_list ≤ 17
swap-garbage_list started s p h = swap_with p.cur_task started s p h

Step-garbage_list :
    {p p' : Processor} → Step p p' → length p.garbage_list ≤ 17 → length p'.garbage_list ≤ 17
unfolding enter_idle resume add_new_tasks leave_idle enqueue_new tickle
Step-garbage_list {p = p} (fetched started h e) i = rw e (fetch-garbage_list started p i)
Step-garbage_list {p = p} (swapped started s h e) i = rw e (swap-garbage_list started s p i)
Step-garbage_list {p = p} (idle_entered h e) i = ground arith
Step-garbage_list {p = p} (idle_left h e) i = ground arith
Step-garbage_list {p = p} (enqueued t e) i = ground arith
Step-garbage_list {p = p} (tickled e) i = ground arith

-- However the worker and the threads that add tasks take turns, the list of finished tasks never
-- holds more than 17 of them.
pub garbage_list-Bounded : {p : Processor} → Reaches new_processor p → length p.garbage_list ≤ 17
garbage_list-Bounded here = omega arith
garbage_list-Bounded (step r s) = Step-garbage_list s (garbage_list-Bounded r)
