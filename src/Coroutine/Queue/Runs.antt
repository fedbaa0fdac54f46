-- ===== src/Coroutine/Queue/Runs.antt =====
-- Sequences of operations of one thread on a `LFQueue` (spike/base/LFQueue.h), against the same
-- sequence on a list.
use mathlib.Core.Option
use lim_webserver.Base.{ℕ, ◌≡◌, refl, ap, ◌∙◌, false, Option, none, some, List, [], ◌∷◌, ◌++◌}
use lim_webserver.Coroutine.Queue.{Heap, LfQueue, empty_queue, enqueue, dequeue}
use lim_webserver.Coroutine.Queue.Linked.{member, Links, Stands}
use lim_webserver.Coroutine.Queue.Refine.{enqueue-Stands, dequeue-Stands, dequeue_nothing}

-- A sequence of operations, each `enqueue` with the address of its new node.
pub data Operation : Type 0 where
  put : (address value : ℕ) → Operation
  get : Operation

-- What the operations of a sequence give back.
pub run_queue : List Operation → Heap → LfQueue → List (Option ℕ)
run_queue [] heap q = []
run_queue (put p v ∷ os) heap q = let (heap', q') = enqueue p v heap q in run_queue os heap' q'
run_queue (get ∷ os) heap q =
    let (r, q') = dequeue heap q in Option.map (λ (x : ℕ × ℕ). x.0) r ∷ run_queue os heap q'

-- The same on a list of values.
unfoldable pub run_list : List Operation → List ℕ → List (Option ℕ)
run_list [] vs = []
run_list (put p v ∷ os) vs = run_list os (vs ++ (v ∷ []))
run_list (get ∷ os) [] = none ∷ run_list os []
run_list (get ∷ os) (v ∷ vs) = some v ∷ run_list os vs

-- Each new node is none of the queue's nodes at that time, which `ps` are at the start.
abbrev pub AreFresh : List Operation → List ℕ → Type 0
AreFresh [] ps = Unit {0}
AreFresh (put p v ∷ os) ps = (member p ps ≡ false) × AreFresh os (ps ++ (p ∷ []))
AreFresh (get ∷ os) [] = AreFresh os []
AreFresh (get ∷ os) (p ∷ ps) = AreFresh os ps

Links-nonempty : (heap : Heap) (p : ℕ) (ps : List ℕ) → Links heap none (p ∷ ps) [] → ⊥
Links-nonempty heap p [] l = l
Links-nonempty heap p (q ∷ ps) l = l

-- What `get` adds to the results.
gotten : List Operation → Heap → Option (ℕ × ℕ) × LfQueue → List (Option ℕ)
gotten os heap (r, q) = Option.map (λ (x : ℕ × ℕ). x.0) r ∷ run_queue os heap q

-- Any sequence of operations of one thread gives back what the same sequence gives on the list of
-- values that the queue stands for at the start, if each new node is none of the queue's nodes.
pub run_queue-run_list :
    (os : List Operation) (heap : Heap) (q : LfQueue) (ps vs : List ℕ)
    → AreFresh os ps
    → Stands heap q ps vs
    → run_queue os heap q ≡ run_list os vs
unfolding run_queue run_list gotten
run_queue-run_list [] heap q ps vs f s = refl
run_queue-run_list (put p v ∷ os) heap q ps vs (m, f) s =
    let (heap', q', e, s') = enqueue-Stands heap q p v ps vs m s in
    ap (λ (r : Heap × LfQueue). run_queue os r.0 r.1) e
    ∙ run_queue-run_list os heap' q' (ps ++ (p ∷ [])) (vs ++ (v ∷ [])) f s'
run_queue-run_list (get ∷ os) heap q [] [] f s =
    ap (gotten os heap) (dequeue_nothing heap q s)
    ∙ ap (λ rs. none ∷ rs)
        (run_queue-run_list os heap empty_queue [] [] f
          (record { head = refl; tail = refl; links = tt; distinct = tt }))
run_queue-run_list (get ∷ os) heap q [] (v ∷ vs) f s = absurd s.links
run_queue-run_list (get ∷ os) heap q (p ∷ ps) [] f s = absurd (Links-nonempty heap p ps s.links)
run_queue-run_list (get ∷ os) heap q (p ∷ ps) (v ∷ vs) f s =
    let (q', e, s') = dequeue-Stands heap q p v ps vs s in
    ap (gotten os heap) e ∙ ap (λ rs. some v ∷ rs) (run_queue-run_list os heap q' ps vs f s')
