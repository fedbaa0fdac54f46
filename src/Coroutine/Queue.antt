-- ===== src/Coroutine/Queue.antt =====
-- `LFQueue` (spike/base/LFQueue.h): a linked list with two atomic ends. A node is an address of a
-- heap; each atomic access is a function, and an operation without interference is their composition.
pub mod Linked
pub mod Refine
pub mod Runs
pub mod Race
use lim_webserver.Base.{ℕ, Bool, true, false, ◌==◌, if◌then◌else◌, Option, none, some}

pub record Node : Type 0 where
  pub value : ℕ
  pub next_node : Option ℕ

abbrev pub Heap : Type 0
Heap = ℕ → Node

-- `head_` and `tail_`
pub record LfQueue : Type 0 where
  pub head : Option ℕ
  pub tail : Option ℕ

abbrev pub empty_queue : LfQueue
empty_queue = record { head = none; tail = none }

abbrev pub at : Heap → ℕ → Node → Heap
at heap p n k = if k == p then n else heap k

-- `p->next_ = n`
abbrev pub link_node : Heap → ℕ → Option ℕ → Heap
link_node heap p n = at heap p (record (heap p) { next_node = n })

-- `enqueue` up to `tail_.exchange`, with the new node at the free address `p`: the old tail.
pub enqueue_exchange : ℕ → ℕ → Heap → LfQueue → Option ℕ × Heap × LfQueue
enqueue_exchange p v heap q =
    (q.tail, at heap p (record { value = v; next_node = none }), record q { tail = some p })

-- The rest of `enqueue`.
pub enqueue_link : ℕ → Option ℕ → Heap → LfQueue → Heap × LfQueue
enqueue_link p none heap q = (heap, record q { head = some p })
enqueue_link p (some old_tail) heap q = (link_node heap old_tail (some p), q)

pub enqueue : ℕ → ℕ → Heap → LfQueue → Heap × LfQueue
enqueue p v heap q =
    let (old_tail, heap', q') = enqueue_exchange p v heap q in enqueue_link p old_tail heap' q'

-- `dequeue`: the value and the node that is deleted.
pub dequeue : Heap → LfQueue → Option (ℕ × ℕ) × LfQueue
dequeue heap q = elim q.head [
  | none ↦ (none, record q { tail = none })
  | some p ↦
      let rest = (heap p).next_node in
      (
        some ((heap p).value, p),
        record { head = rest; tail = elim rest [ none ↦ none | some n ↦ q.tail ] },
      )
]

-- `concatenate(other)`: whether anything was moved, the heap, this queue and the other.
pub concatenate : Heap → LfQueue → LfQueue → Bool × Heap × LfQueue × LfQueue
concatenate heap q other = elim other.head [
  | none ↦ (false, heap, q, other)
  | some h ↦ elim q.tail [
    | some prev_tail ↦
        (true, link_node heap prev_tail (some h), record q { tail = other.tail }, empty_queue)
    | none ↦ (true, heap, record { head = some h; tail = other.tail }, empty_queue)
  ]
]
