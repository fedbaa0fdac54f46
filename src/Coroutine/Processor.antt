-- ===== src/Coroutine/Processor.antt =====
-- `Processor` (spike/coroutine/Processor.cpp, spike/coroutine/Processor.h): the thread that runs the
-- tasks of two queues, and what other threads do to it. A queue is the list of its tasks
-- (Coroutine/Queue/Refine.antt), a task is a number.
pub mod Garbage
pub mod Order
pub mod Invariant
pub mod Sleep
use lim_webserver.Base.{
  ℕ, ◌-◌, Bool, true, false, not, ◌&&◌, ◌||◌, if◌then◌else◌, Option, none, some, List, [], ◌∷◌,
  ◌++◌, length,
}
use lim_webserver.Base.{ltb}

pub data TaskState : Type 0 where
  ready : TaskState
  exec : TaskState
  hold : TaskState
  except : TaskState
  term : TaskState

-- Where `run` stands: at the test of its outer loop, before `idle`, in `m_cond.wait`, at the test of
-- its inner loop, or at its end.
pub data Phase : Type 0 where
  outer : Phase
  idling : Phase
  waiting : Phase
  inner : Phase
  finished : Phase

-- `signalled`: the waiting thread was signalled; `pending`: threads between the two calls of
-- `addTask`.
pub record Processor : Type 0 where
  pub cur_task : Option ℕ
  pub new_queue : List ℕ
  pub runable_queue : List ℕ
  pub garbage_list : List ℕ
  pub add_new_remain : ℕ
  pub idled : Bool
  pub notified : Bool
  pub phase : Phase
  pub signalled : Bool
  pub pending : ℕ

-- `m_runableQueue.dequeue(m_curTask)`, which leaves `m_curTask` alone when the queue is empty.
unfoldable pub dequeue_task : List ℕ → Processor → Bool × Processor
dequeue_task [] p = (false, p)
dequeue_task (t ∷ ts) p = (true, record p { cur_task = some t; runable_queue = ts })

-- `m_runableQueue.concatenate(m_newQueue)`
unfoldable pub add_new_tasks : Processor → Processor
add_new_tasks p = record p { runable_queue = p.runable_queue ++ p.new_queue; new_queue = [] }

unfoldable pub get_next_task : Bool → Processor → Processor
get_next_task flag p =
    let (found, p1) = dequeue_task p.runable_queue p in
    if found
    then p1
    else (let p2 =
          if flag || ltb 0 p1.add_new_remain
          then (let p' = add_new_tasks p1 in
              if flag then p' else record p' { add_new_remain = p'.add_new_remain - 1 })
          else p1 in
        let (again, p3) = dequeue_task p2.runable_queue p2 in p3)

-- The first line of `addTask`.
unfoldable pub enqueue_new : ℕ → Processor → Processor
enqueue_new t p = record p { new_queue = p.new_queue ++ (t ∷ []) }

unfoldable pub tickle : Processor → Processor
tickle p =
    if p.idled
    then record p { signalled = true }
    else if not p.notified
    then record p { notified = true }
    else p

pub add_task : ℕ → Processor → Processor
add_task t p = tickle (enqueue_new t p)

-- `run` after `idle`.
unfoldable pub resume : Processor → Processor
resume p = record (add_new_tasks p) { phase = outer }

-- `idle` up to `m_cond.wait`, and `run` after it when it returns at once.
unfoldable pub enter_idle : Processor → Processor
enter_idle p =
    if p.notified
    then resume (record p { notified = false })
    else record p { idled = true; phase = waiting }

-- The rest of `idle`.
unfoldable pub leave_idle : Processor → Processor
leave_idle p = resume (record p { idled = false; signalled = false })

-- The outer loop of `run` up to `idle` or the inner loop.
unfoldable pub fetch : Bool → Processor → Processor
fetch started p =
    if started
    then (let p' = get_next_task true p in
        elim p'.cur_task [
          | none ↦ record p' { garbage_list = []; phase = idling }
          | some t ↦ record p' { add_new_remain = 1; phase = inner }
        ])
    else record p { phase = finished }

pub discard : ℕ → Processor → Processor
discard t p =
    let kept = if ltb 16 (length p.garbage_list) then [] else p.garbage_list in
    record p { garbage_list = kept ++ (t ∷ []) }

-- What becomes of the task `t` that came back in a state.
pub put_back : TaskState → ℕ → Processor → Processor
put_back ready t p = record p { runable_queue = p.runable_queue ++ (t ∷ []) }
put_back hold t p = p
put_back exec t p = discard t p
put_back except t p = discard t p
put_back term t p = discard t p

-- A round of the inner loop, in which the current task runs and comes back in the state `s`.
pub swap : Bool → TaskState → Processor → Processor
swap started s p = elim p.cur_task [
  | none ↦ record p { phase = outer }
  | some t ↦
      if started
      then (let p' = get_next_task false (record (put_back s t p) { cur_task = none }) in
          elim p'.cur_task [
            | none ↦ record p' { phase = outer }
            | some t ↦ record p' { phase = inner }
          ])
      else record p { phase = finished }
]
