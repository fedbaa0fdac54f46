-- ===== src/Coroutine/Processor/Invariant.antt =====
-- What holds of a `Processor` (spike/coroutine/Processor.cpp) between two steps: a worker that is about
-- to wait, or waits, has nothing to do but what a notification or a signal tells it of.
use lim_webserver.Base.{
  ℕ, suc, ◌-◌, ◌≡◌, refl, ◌∙◌, arith, Bool, true, false, Option, none, some, [],
}
use lim_webserver.Coroutine.Processor.{
  Processor, TaskState, ready, exec, hold, except, term, outer, idling, waiting, inner, finished,
  get_next_task, dequeue_task, add_new_tasks, enqueue_new, tickle, resume, enter_idle, leave_idle,
  fetch, put_back, discard, swap,
}

pub record Inv (p : Processor) : Type 0 where
  pub waits : p.phase ≡ waiting → p.idled ≡ true
  pub idles : p.idled ≡ true → p.phase ≡ waiting
  pub outside : p.phase ≡ outer → p.cur_task ≡ none
  pub idling_cur : p.phase ≡ idling → p.cur_task ≡ none
  pub waiting_cur : p.phase ≡ waiting → p.cur_task ≡ none
  pub idling_none : p.phase ≡ idling → p.runable_queue ≡ []
  pub idling_new : p.phase ≡ idling → p.notified ≡ false → p.pending ≡ 0 → p.new_queue ≡ []
  pub waiting_none : p.phase ≡ waiting → p.runable_queue ≡ []
  pub waiting_new : p.phase ≡ waiting → p.signalled ≡ false → p.pending ≡ 0 → p.new_queue ≡ []

pub enqueued-Inv :
    (t : ℕ) (p : Processor) → Inv p → Inv (record (enqueue_new t p) { pending = suc p.pending })
unfolding enqueue_new
enqueued-Inv t p i = ground arith

pub tickled-Inv : (p : Processor) → Inv p → Inv (record (tickle p) { pending = p.pending - 1 })
unfolding tickle
tickled-Inv p i = ground arith

pub idle_entered-Inv : (p : Processor) → p.phase ≡ idling → Inv p → Inv (enter_idle p)
unfolding enter_idle resume add_new_tasks
idle_entered-Inv p h i = ground arith

pub idle_left-Inv : (p : Processor) → p.phase ≡ waiting → Inv p → Inv (leave_idle p)
unfolding leave_idle resume add_new_tasks
idle_left-Inv p h i = ground arith

get_next_task-idled : (flag : Bool) (p : Processor) → (get_next_task flag p).idled ≡ p.idled
unfolding get_next_task dequeue_task add_new_tasks
get_next_task-idled flag p = ground arith

put_back-idled : (s : TaskState) (t : ℕ) (p : Processor) → (put_back s t p).idled ≡ p.idled
unfolding put_back discard
put_back-idled ready t p = refl
put_back-idled exec t p = refl
put_back-idled hold t p = refl
put_back-idled except t p = refl
put_back-idled term t p = refl

-- `getNextTask` with its flag set finds a task if there is one: without a current task afterwards,
-- both queues are empty.
get_next_task-nothing :
    (p : Processor)
    → p.cur_task ≡ none
    → (get_next_task true p).cur_task ≡ none
    → ((get_next_task true p).runable_queue ≡ []) × ((get_next_task true p).new_queue ≡ [])
unfolding get_next_task dequeue_task add_new_tasks
get_next_task-nothing p h e = (ground arith, ground arith)

finished-Inv : (p : Processor) → p.idled ≡ false → Inv (record p { phase = finished })
finished-Inv p h = ground arith

inner-Inv : (p : Processor) → p.idled ≡ false → Inv (record p { phase = inner })
inner-Inv p h = ground arith

outer-Inv : (p : Processor) → p.idled ≡ false → p.cur_task ≡ none → Inv (record p { phase = outer })
outer-Inv p h c = ground arith

not_idled : (p : Processor) → Inv p → (p.phase ≡ waiting → ⊥) → p.idled ≡ false
not_idled p i h = ground (arith, i.idles)

fetched-idling :
    (p : Processor) (o : Option ℕ)
    → p.idled ≡ false
    → p.cur_task ≡ o
    → (o ≡ none → (p.runable_queue ≡ []) × (p.new_queue ≡ []))
    → Inv (elim o [
      | none ↦ record p { garbage_list = []; phase = idling }
      | some t ↦ record p { add_new_remain = 1; phase = inner }
    ])
fetched-idling p none h c f = let (a, b) = f refl in ground arith
fetched-idling p (some t) h c f = ground arith

pub fetched-Inv : (started : Bool) (p : Processor) → p.phase ≡ outer → Inv p → Inv (fetch started p)
unfolding fetch
fetched-Inv false p h i = finished-Inv p (not_idled p i (λ w. cc))
fetched-Inv true p h i =
    let p' = get_next_task true p in
    fetched-idling p' p'.cur_task (get_next_task-idled true p ∙ not_idled p i (λ w. cc)) refl
      (λ e. get_next_task-nothing p (i.outside h) e)

swapped-loop :
    (p : Processor) (o : Option ℕ)
    → p.idled ≡ false
    → p.cur_task ≡ o
    → Inv (elim o [ none ↦ record p { phase = outer } | some t ↦ record p { phase = inner } ])
swapped-loop p none h c = outer-Inv p h c
swapped-loop p (some t) h c = inner-Inv p h

swapped_with :
    (o : Option ℕ) (started : Bool) (s : TaskState) (p : Processor)
    → p.idled ≡ false
    → Inv (swap started s (record p { cur_task = o }))
unfolding swap
swapped_with none started s p h = outer-Inv (record p { cur_task = none }) h refl
swapped_with (some t) false s p h = finished-Inv (record p { cur_task = some t }) h
swapped_with (some t) true s p h =
    let back = put_back s t (record p { cur_task = some t }) in
    let p' = get_next_task false (record back { cur_task = none }) in
    swapped-loop p' p'.cur_task
      (get_next_task-idled false (record back { cur_task = none })
        ∙ put_back-idled s t (record p { cur_task = some t })
        ∙ h)
      refl

pub swapped-Inv :
    (started : Bool) (s : TaskState) (p : Processor)
    → p.phase ≡ inner
    → Inv p
    → Inv (swap started s p)
swapped-Inv started s p h i = swapped_with p.cur_task started s p (not_idled p i (λ w. cc))
