-- ===== src/Coroutine/Queue/Refine.antt =====
-- `LFQueue` (spike/base/LFQueue.h) without interference against the list of values that it stands
-- for: one operation at a time, and any sequence of them.
use lim_webserver.Base.{
  ℕ, ◌≡◌, refl, sym, ap, ◌∙◌, arith, ◌==◌, Bool, true, false, Option, none, some, List, [], ◌∷◌,
  ◌++◌, append-nil,
}
use lim_webserver.Coroutine.Queue.{
  Heap, LfQueue, empty_queue, at, link_node, enqueue_exchange, enqueue_link, enqueue, dequeue,
  concatenate,
}
use lim_webserver.Coroutine.Queue.Linked.{
  member, first, last, Links, Links-at, Links-uncons, AreApart, AreApart-fresh, Stands,
  Stands-append, last_node,
}

-- The end of the list tells which way `enqueue` goes.
enqueue_step :
    (heap : Heap) (q : LfQueue) (p v : ℕ) (old : Option ℕ)
    → q.tail ≡ old
    → enqueue p v heap q
      ≡ enqueue_link p old
          (at heap p (record { value = v; next_node = none }))
          (record q { tail = some p })
unfolding enqueue enqueue_exchange
enqueue_step heap q p v old e =
    ap
      (λ t.
        enqueue_link p t (at heap p (record { value = v; next_node = none }))
          (record q { tail = some p }))
      e

dequeue_rest : LfQueue → Option ℕ → LfQueue
dequeue_rest q rest = record { head = rest; tail = elim rest [ none ↦ none | some n ↦ q.tail ] }

dequeue_step :
    (heap : Heap) (q : LfQueue) (p v : ℕ) (rest : Option ℕ)
    → q.head ≡ some p
    → (heap p).value ≡ v
    → (heap p).next_node ≡ rest
    → dequeue heap q ≡ (some (v, p), dequeue_rest q rest)
unfolding dequeue dequeue_rest
dequeue_step heap q p v rest e a b =
    ap (λ (h : Option ℕ). dequeue heap (record q { head = h })) e ∙ λ i.
    (some (a i, p), dequeue_rest q (b i))

new_node-Links :
    (heap : Heap) (p v : ℕ)
    → Links (at heap p (record { value = v; next_node = none })) none (p ∷ []) (v ∷ [])
new_node-Links heap p v = let e : (p == p) ≡ true = ground arith in rw e (refl, refl, tt)

abbrev pub has_node : List ℕ → Bool
has_node [] = false
has_node (p ∷ ps) = true

-- A value put into a new node, which is none of the queue's nodes, is the last one of the queue.
pub enqueue-Stands :
    (heap : Heap) (q : LfQueue) (p v : ℕ) (ps vs : List ℕ)
    → member p ps ≡ false
    → Stands heap q ps vs
    → (heap' : Heap) × (q' : LfQueue) × (enqueue p v heap q ≡ (heap', q'))
      × Stands heap' q' (ps ++ (p ∷ [])) (vs ++ (v ∷ []))
unfolding enqueue_link
enqueue-Stands heap q p v [] [] m s = (
  at heap p (record { value = v; next_node = none }),
  record { head = some p; tail = some p },
  enqueue_step heap q p v none s.tail,
  record { head = refl; tail = refl; links = new_node-Links heap p v; distinct = (refl, tt) },
)
enqueue-Stands heap q p v [] (w ∷ vs) m s = absurd s.links
enqueue-Stands heap q p v (k ∷ ks) vs m s =
    let (old, e) = last_node k ks in
    let heap0 = at heap p (record { value = v; next_node = none }) in
    let s0 : Stands heap0 q (k ∷ ks) vs = record {
      head = s.head;
      tail = s.tail;
      links = Links-at heap none p (record { value = v; next_node = none }) (k ∷ ks) vs m s.links;
      distinct = s.distinct;
    } in
    (
      link_node heap0 old (some p),
      record q { tail = some p },
      enqueue_step heap q p v (some old) (s.tail ∙ e),
      Stands-append heap0 q old k ks vs p [] (v ∷ []) e (AreApart-fresh p (k ∷ ks) m) s0
          (new_node-Links heap p v) (refl, tt),
    )

-- The first value comes out of a queue that is not empty, and the others stay in order.
pub dequeue-Stands :
    (heap : Heap) (q : LfQueue) (p v : ℕ) (ps vs : List ℕ)
    → Stands heap q (p ∷ ps) (v ∷ vs)
    → (q' : LfQueue) × (dequeue heap q ≡ (some (v, p), q')) × Stands heap q' ps vs
unfolding dequeue_rest
dequeue-Stands heap q p v ps vs s =
    let (a, b, l) = Links-uncons heap p v ps vs s.links in
    (
      dequeue_rest q (first ps),
      dequeue_step heap q p v (first ps) s.head a b,
      record { head = refl; tail = new_tail q p ps s.tail; links = l; distinct = s.distinct.1 },
    )
  where
    new_tail :
        (q : LfQueue) (p : ℕ) (ps : List ℕ)
        → q.tail ≡ last (p ∷ ps)
        → (dequeue_rest q (first ps)).tail ≡ last ps
    new_tail q p [] e = refl
    new_tail q p (k ∷ ps) e = e

-- A queue that stands for no value gives none, and is left empty.
pub dequeue_nothing :
    (heap : Heap) (q : LfQueue) → Stands heap q [] [] → dequeue heap q ≡ (none, empty_queue)
unfolding dequeue
dequeue_nothing heap q s = ap (λ (h : Option ℕ). dequeue heap (record q { head = h })) s.head

module _ (heap : Heap) (q other : LfQueue) where
  concatenate_nothing : other.head ≡ none → concatenate heap q other ≡ (false, heap, q, other)
  unfolding concatenate
  concatenate_nothing e =
      ap (λ (h : Option ℕ). concatenate heap q (record { head = h; tail = other.tail })) e
      ∙ ap (λ (h : Option ℕ). (false, heap, q, record other { head = h })) (sym e)

  concatenate_first :
      (r : ℕ) (end : Option ℕ)
      → other.head ≡ some r
      → other.tail ≡ end
      → q.tail ≡ none
      → concatenate heap q other ≡ (true, heap, record { head = some r; tail = end }, empty_queue)
  unfolding concatenate
  concatenate_first r end e f g =
      λ i. concatenate heap (record q { tail = g i }) (record { head = e i; tail = f i })

  concatenate_behind :
      (r old : ℕ) (end : Option ℕ)
      → other.head ≡ some r
      → other.tail ≡ end
      → q.tail ≡ some old
      → concatenate heap q other
        ≡ (true, link_node heap old (some r), record q { tail = end }, empty_queue)
  unfolding concatenate
  concatenate_behind r old end e f g =
      λ i. concatenate heap (record q { tail = g i }) (record { head = e i; tail = f i })

-- `concatenate` puts the values of the other queue, if there are any, behind those of this one and
-- leaves the other queue empty; it says whether there were any. The queues share no node.
pub concatenate-Stands :
    (heap : Heap) (q other : LfQueue) (ps vs qs ws : List ℕ)
    → AreApart ps qs
    → Stands heap q ps vs
    → Stands heap other qs ws
    → (moved : Bool) × (heap' : Heap) × (q' other' : LfQueue) × (concatenate heap q other
        ≡ (moved, heap', q', other'))
      × (moved ≡ has_node qs)
      × Stands heap' q' (ps ++ qs) (vs ++ ws)
      × Stands heap' other' [] []
concatenate-Stands heap q other ps vs [] [] a s t = (
  false,
  heap,
  q,
  other,
  concatenate_nothing heap q other t.head,
  refl,
  rw (append-nil ps, append-nil vs) s,
  t,
)
concatenate-Stands heap q other ps vs [] (w ∷ ws) a s t = absurd t.links
concatenate-Stands heap q other [] [] (r ∷ rs) ws a s t = (
  true,
  heap,
  record { head = some r; tail = last (r ∷ rs) },
  empty_queue,
  concatenate_first heap q other r (last (r ∷ rs)) t.head t.tail s.tail,
  refl,
  record { head = refl; tail = refl; links = t.links; distinct = t.distinct },
  record { head = refl; tail = refl; links = tt; distinct = tt },
)
concatenate-Stands heap q other [] (v ∷ vs) (r ∷ rs) ws a s t = absurd s.links
concatenate-Stands heap q other (p ∷ ps) vs (r ∷ rs) ws a s t =
    let (old, e) = last_node p ps in
    (
      true,
      link_node heap old (some r),
      record q { tail = last (r ∷ rs) },
      empty_queue,
      concatenate_behind heap q other r old (last (r ∷ rs)) t.head t.tail (s.tail ∙ e),
      refl,
      Stands-append heap q old p ps vs r rs ws e a s t.links t.distinct,
      record { head = refl; tail = refl; links = tt; distinct = tt },
    )
