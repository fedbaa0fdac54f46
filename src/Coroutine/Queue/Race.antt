-- ===== src/Coroutine/Queue/Race.antt =====
-- `LFQueue` (spike/base/LFQueue.h) with another thread between the two halves of `enqueue`.
use lim_webserver.Base.{ℕ, ◌≡◌, ap, ◌∙◌, false, Option, none, some, [], ◌∷◌, ◌==◌, if◌then◌else◌}
use lim_webserver.Coroutine.Queue.{
  Node, Heap, LfQueue, empty_queue, enqueue_exchange, enqueue_link, dequeue, concatenate,
}
use lim_webserver.Coroutine.Queue.Linked.{Stands}

-- A thread puts `v` into `new_queue` by `enqueue`; between its `tail_.exchange` and what follows, the
-- worker moves `new_queue` into `runable` by `concatenate` and takes a task. Given back: what the
-- worker took, the old tail that the first thread writes to, and both queues at the end.
pub enqueue_between :
    ℕ → ℕ → Heap → LfQueue → LfQueue → Option (ℕ × ℕ) × Option ℕ × LfQueue × LfQueue
enqueue_between p v heap runable new_queue =
    let (old_tail, heap1, new1) = enqueue_exchange p v heap new_queue in
    let (moved, heap2, runable2, new2) = concatenate heap1 runable new1 in
    let (task, runable3) = dequeue heap2 runable2 in
    let (heap4, new4) = enqueue_link p old_tail heap2 new2 in (task, old_tail, runable3, new4)

-- The first node of the queue tells what the worker finds.
found : ℕ → ℕ → Node → Option (ℕ × ℕ) × Option ℕ × LfQueue × LfQueue
found k p n = (
  some (n.value, k),
  some k,
  record { head = n.next_node; tail = elim n.next_node [ none ↦ none | some m ↦ some p ] },
  empty_queue,
)

-- When `new_queue` holds one value, no task waits to run, and the worker comes between the two
-- halves of an `enqueue` with a new node, the worker takes that value and both queues are empty
-- afterwards: the value that was put in is in neither of them, and `enqueue` writes its link into the
-- node that the worker has deleted.
pub enqueue_between-lost :
    (heap : Heap) (new_queue : LfQueue) (p v k w : ℕ)
    → (k == p) ≡ false
    → Stands heap new_queue (k ∷ []) (w ∷ [])
    → enqueue_between p v heap empty_queue new_queue
      ≡ (some (w, k), some k, empty_queue, empty_queue)
unfolding enqueue_between enqueue_exchange enqueue_link dequeue concatenate found
enqueue_between-lost heap q p v k w ne s =
    (λ i. enqueue_between p v heap empty_queue (record { head = s.head i; tail = s.tail i }))
    ∙ ap (λ b. found k p (if b then record { value = v; next_node = none } else heap k)) ne
    ∙ (λ i. found k p (record { value = s.links.0 i; next_node = s.links.1 i }))
