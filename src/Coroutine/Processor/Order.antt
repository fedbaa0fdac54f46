-- ===== src/Coroutine/Processor/Order.antt =====
-- The order in which `Processor` (spike/coroutine/Processor.cpp) runs its tasks.
use lim_webserver.Base.{
  ℕ, zero, suc, ◌≡◌, refl, sym, ap, ◌∙◌, arith, Bool, true, none, some, List, [], ◌∷◌, ◌++◌, length,
  append_assoc, append-nil,
}
use mathlib.Core.Path.{subst}
use lim_webserver.Coroutine.Processor.{
  Processor, ready, inner, get_next_task, dequeue_task, add_new_tasks, put_back, swap,
}

-- The current task and those of the two queues, in the order in which they will run.
abbrev pub tasks : Processor → List ℕ
tasks p = elim p.cur_task [
  | none ↦ p.runable_queue ++ p.new_queue
  | some t ↦ t ∷ (p.runable_queue ++ p.new_queue)
]

-- `getNextTask` without a current task loses no task and keeps their order.
pub get_next_task-tasks :
    (flag : Bool) (p : Processor)
    → p.cur_task ≡ none
    → tasks (get_next_task flag p) ≡ p.runable_queue ++ p.new_queue
unfolding get_next_task dequeue_task add_new_tasks
get_next_task-tasks flag p h = ground (arith, append-nil p.new_queue, append-nil p.runable_queue)

-- `getNextTask` with its flag set finds a task if there is one: without a current task afterwards,
-- both queues were empty.
pub get_next_task-finds :
    (p : Processor)
    → p.cur_task ≡ none
    → (get_next_task true p).cur_task ≡ none
    → (p.runable_queue ≡ []) × (p.new_queue ≡ [])
unfolding get_next_task dequeue_task add_new_tasks
get_next_task-finds p h e = (ground arith, ground arith)

-- The processor in its inner loop with the tasks `ts` to run, of which the first one is current.
abbrev pub running : List ℕ → Processor → Processor
running [] p = p
running (t ∷ ts) p = record p { cur_task = some t; runable_queue = ts; phase = inner }

running-ready :
    (t : ℕ) (ts : List ℕ) (p : Processor)
    → swap true ready (running (t ∷ ts) p) ≡ running (ts ++ (t ∷ [])) p
unfolding swap put_back get_next_task dequeue_task
running-ready t [] p = refl
running-ready t (u ∷ us) p = refl

-- `n` rounds of the inner loop in which every task yields.
pub run_ready : ℕ → Processor → Processor
run_ready zero p = p
run_ready (suc n) p = run_ready n (swap true ready p)

run_ready-running :
    (ts us : List ℕ) (p : Processor)
    → run_ready (length ts) (running (ts ++ us) p) ≡ running (us ++ ts) p
unfolding run_ready
run_ready-running [] us p = ap (λ vs. running vs p) (sym (append-nil us))
run_ready-running (t ∷ ts) us p =
    ap (run_ready (length ts)) (running-ready t (ts ++ us) p)
    ∙ ap (λ vs. run_ready (length ts) (running vs p)) (append_assoc ts us (t ∷ []))
    ∙ run_ready-running ts (us ++ (t ∷ [])) p
    ∙ ap (λ vs. running vs p) (append_assoc us (t ∷ []) ts)

running_current :
    (t : ℕ) (p : Processor)
    → p.cur_task ≡ some t
    → p.phase ≡ inner
    → running (t ∷ p.runable_queue) p ≡ p
running_current t p c h = λ i. record p { cur_task = sym c i; phase = sym h i }

-- When every task yields, the current task and those that can run take turns: after as many rounds
-- as there are such tasks the processor is as before.
pub round_robin :
    (t : ℕ) (p : Processor)
    → p.cur_task ≡ some t
    → p.phase ≡ inner
    → run_ready (suc (length p.runable_queue)) p ≡ p
round_robin t p c h =
    let back = running_current t p c h in
    ap (run_ready (suc (length p.runable_queue))) (sym back)
    ∙ ap (λ us. run_ready (suc (length p.runable_queue)) (running us p))
        (sym (append-nil (t ∷ p.runable_queue)))
    ∙ run_ready-running (t ∷ p.runable_queue) [] p
    ∙ back

-- Some task is current in `q`, and what new tasks wait for is as in `p`.
record Yields (p q : Processor) : Type 0 where
  task : ℕ
  current : q.cur_task ≡ some task
  looping : q.phase ≡ inner
  waiting_tasks : q.new_queue ≡ p.new_queue
  remaining : q.add_new_remain ≡ p.add_new_remain

running-Yields : (t : ℕ) (ts : List ℕ) (p : Processor) → Yields p (running (ts ++ (t ∷ [])) p)
running-Yields t [] p = record {
  task = t;
  current = refl;
  looping = refl;
  waiting_tasks = refl;
  remaining = refl;
}
running-Yields t (u ∷ us) p = record {
  task = u;
  current = refl;
  looping = refl;
  waiting_tasks = refl;
  remaining = refl;
}

swap-Yields :
    (t : ℕ) (p : Processor) → p.cur_task ≡ some t → p.phase ≡ inner → Yields p (swap true ready p)
swap-Yields t p c h =
    subst (Yields p)
      (sym (running-ready t p.runable_queue p) ∙ ap (swap true ready) (running_current t p c h))
      (running-Yields t p.runable_queue p)

-- While every task that runs yields, `getNextTask` never looks at the queue of new tasks, though
-- `m_addNewRemain` is left: after any number of rounds the new tasks wait as before, and there is
-- still a current task.
pub run_ready-starves :
    (n t : ℕ) (p : Processor)
    → p.cur_task ≡ some t
    → p.phase ≡ inner
    → (u : ℕ) × ((run_ready n p).cur_task ≡ some u)
      × ((run_ready n p).new_queue ≡ p.new_queue)
      × ((run_ready n p).add_new_remain ≡ p.add_new_remain)
unfolding run_ready
run_ready-starves zero t p c h = (t, c, refl, refl)
run_ready-starves (suc n) t p c h =
    let y = swap-Yields t p c h in
    let (u, a, b, d) = run_ready-starves n y.task (swap true ready p) y.current y.looping in
    (u, a, b ∙ y.waiting_tasks, d ∙ y.remaining)
