-- ===== src/Coroutine/Queue/Linked.antt =====
-- Without interference `LFQueue` (spike/base/LFQueue.h) is a queue: what its operations do to the
-- list of values that it stands for.
use lim_webserver.Base.{
  ℕ, ◌≡◌, refl, sym, ap, ◌∙◌, arith, Bool, true, false, ◌||◌, ◌==◌, Option, none, some, List, [],
  ◌∷◌, ◌++◌,
}
use mathlib.Core.Path.{subst}
use lim_webserver.Coroutine.Queue.{Node, Heap, LfQueue, at, link_node}

abbrev pub member : ℕ → List ℕ → Bool
member p [] = false
member p (q ∷ qs) = p == q || member p qs

abbrev pub first : List ℕ → Option ℕ
first [] = none
first (p ∷ ps) = some p

abbrev pub last : List ℕ → Option ℕ
last [] = none
last (p ∷ []) = some p
last (p ∷ q ∷ ps) = last (q ∷ ps)

-- The nodes `ps` hold the values `vs`, each linked to the next one and the last one to `end`.
abbrev pub Links : Heap → Option ℕ → List ℕ → List ℕ → Type 0
Links heap end [] [] = Unit {0}
Links heap end [] (v ∷ vs) = ⊥
Links heap end (p ∷ ps) [] = ⊥
Links heap end (p ∷ []) (v ∷ vs) =
    ((heap p).value ≡ v) × ((heap p).next_node ≡ end) × Links heap end [] vs
Links heap end (p ∷ q ∷ ps) (v ∷ vs) =
    ((heap p).value ≡ v) × ((heap p).next_node ≡ some q) × Links heap end (q ∷ ps) vs

abbrev pub AreDistinct : List ℕ → Type 0
AreDistinct [] = Unit {0}
AreDistinct (p ∷ ps) = (member p ps ≡ false) × AreDistinct ps

-- The queue stands for the values `vs` in the nodes `ps`.
pub record Stands (heap : Heap) (q : LfQueue) (ps vs : List ℕ) : Type 0 where
  pub head : q.head ≡ first ps
  pub tail : q.tail ≡ last ps
  pub links : Links heap none ps vs
  pub distinct : AreDistinct ps

not_member :
    (p k : ℕ) (ks : List ℕ) → member p (k ∷ ks) ≡ false → ((k == p) ≡ false) × (member p ks ≡ false)
not_member p k ks h = (ground arith, ground arith)

-- A node outside the list may change.
pub Links-at :
    (heap : Heap) (end : Option ℕ) (p : ℕ) (n : Node) (ps vs : List ℕ)
    → member p ps ≡ false
    → Links heap end ps vs
    → Links (at heap p n) end ps vs
Links-at heap end p n [] [] h l = l
Links-at heap end p n [] (v ∷ vs) h l = l
Links-at heap end p n (k ∷ ks) [] h l = absurd l
Links-at heap end p n (k ∷ []) (v ∷ vs) h (a, b, c) =
    let (ne, _) = not_member p k [] h in rw ne (a, b, c)
Links-at heap end p n (k ∷ j ∷ ks) (v ∷ vs) h (a, b, c) =
    let (ne, m) = not_member p k (j ∷ ks) h in rw ne (a, b, Links-at heap end p n (j ∷ ks) vs m c)

at-same : (heap : Heap) (p : ℕ) (n : Node) → at heap p n p ≡ n
at-same heap p n = let e : (p == p) ≡ true = ground arith in rw e refl

-- The last node is one of the nodes.
last-not_member :
    (k old : ℕ) (ps : List ℕ) → last ps ≡ some old → member k ps ≡ false → (k == old) ≡ false
last-not_member k old [] e h = cc
last-not_member k old (p ∷ []) e h = ground arith
last-not_member k old (p ∷ q ∷ ps) e h = last-not_member k old (q ∷ ps) e (ground arith)

pub Links-cons :
    (heap : Heap) (p v : ℕ) (ps vs : List ℕ)
    → (heap p).value ≡ v
    → (heap p).next_node ≡ first ps
    → Links heap none ps vs
    → Links heap none (p ∷ ps) (v ∷ vs)
Links-cons heap p v [] [] a b l = (a, b, l)
Links-cons heap p v [] (w ∷ vs) a b l = absurd l
Links-cons heap p v (q ∷ ps) vs a b l = (a, b, l)

pub Links-uncons :
    (heap : Heap) (p v : ℕ) (ps vs : List ℕ)
    → Links heap none (p ∷ ps) (v ∷ vs)
    → ((heap p).value ≡ v) × ((heap p).next_node ≡ first ps) × Links heap none ps vs
Links-uncons heap p v [] vs l = l
Links-uncons heap p v (q ∷ ps) vs l = l

-- A second list behind the last node.
Links-append :
    (heap : Heap) (old : ℕ) (ps vs qs ws : List ℕ)
    → member old qs ≡ false
    → AreDistinct ps
    → last ps ≡ some old
    → Links heap none ps vs
    → Links heap none qs ws
    → Links (link_node heap old (first qs)) none (ps ++ qs) (vs ++ ws)
Links-append heap old [] vs qs ws m d e l t = cc
Links-append heap old (k ∷ ks) [] qs ws m d e l t = absurd l
Links-append heap old (k ∷ []) (v ∷ []) qs ws m d e (a, b, c) t =
    let s : (k == old) ≡ true = ground arith in
    Links-cons (link_node heap old (first qs)) k v qs ws
      (rw s (ap (λ p. (heap p).value) old_first ∙ a)) (rw s refl)
      (Links-at heap none old (record (heap old) { next_node = first qs }) qs ws m t)
  where
    old_first : old ≡ k
    old_first = cc
Links-append heap old (k ∷ []) (v ∷ w ∷ vs) qs ws m d e (a, b, c) t = absurd c
Links-append heap old (k ∷ j ∷ ks) (v ∷ vs) qs ws m (f, d) e (a, b, c) t =
    let ne = last-not_member k old (j ∷ ks) e f in
    rw ne (a, b, Links-append heap old (j ∷ ks) vs qs ws m d e c t)

module _ (p : ℕ) where
  member-append :
      (ps qs : List ℕ) → member p ps ≡ false → member p qs ≡ false → member p (ps ++ qs) ≡ false
  member-append [] qs h k = k
  member-append (q ∷ ps) qs h k =
      let (a, b) = not_member p q ps h in ground (arith, member-append ps qs b k)

-- No node of the first list is in the second one.
abbrev pub AreApart : List ℕ → List ℕ → Type 0
AreApart [] qs = Unit {0}
AreApart (p ∷ ps) qs = (member p qs ≡ false) × AreApart ps qs

pub AreDistinct-append :
    (ps qs : List ℕ) → AreApart ps qs → AreDistinct ps → AreDistinct qs → AreDistinct (ps ++ qs)
AreDistinct-append [] qs a d e = e
AreDistinct-append (p ∷ ps) qs (m, a) (n, d) e =
    (member-append p ps qs n m, AreDistinct-append ps qs a d e)

pub AreApart-fresh : (p : ℕ) (ps : List ℕ) → member p ps ≡ false → AreApart ps (p ∷ [])
AreApart-fresh p [] h = tt
AreApart-fresh p (q ∷ ps) h =
    let (a, b) = not_member p q ps h in (ground arith, AreApart-fresh p ps b)

AreApart-last :
    (old : ℕ) (ps qs : List ℕ) → last ps ≡ some old → AreApart ps qs → member old qs ≡ false
AreApart-last old [] qs e a = cc
AreApart-last old (p ∷ []) qs e (m, a) =
    let s : p ≡ old = cc in subst (λ k. member k qs ≡ false) s m
AreApart-last old (p ∷ q ∷ ps) qs e (m, a) = AreApart-last old (q ∷ ps) qs e a

first-append : (p : ℕ) (ps qs : List ℕ) → first ((p ∷ ps) ++ qs) ≡ some p
first-append p ps qs = refl

last-append : (ps qs : List ℕ) (q : ℕ) → last (ps ++ (q ∷ qs)) ≡ last (q ∷ qs)
last-append [] qs q = refl
last-append (p ∷ []) qs q = refl
last-append (p ∷ r ∷ ps) qs q = last-append (r ∷ ps) qs q

pub last_node : (p : ℕ) (ps : List ℕ) → (old : ℕ) × (last (p ∷ ps) ≡ some old)
last_node p [] = (p, refl)
last_node p (q ∷ ps) = last_node q ps

-- What `concatenate` and `enqueue` do at the end of a list that is not empty.
pub Stands-append :
    (heap : Heap) (q : LfQueue) (old : ℕ) (p : ℕ) (ps vs : List ℕ) (r : ℕ) (rs ws : List ℕ)
    → last (p ∷ ps) ≡ some old
    → AreApart (p ∷ ps) (r ∷ rs)
    → Stands heap q (p ∷ ps) vs
    → Links heap none (r ∷ rs) ws
    → AreDistinct (r ∷ rs)
    → Stands
        (link_node heap old (some r))
        (record q { tail = last (r ∷ rs) })
        ((p ∷ ps) ++ (r ∷ rs))
        (vs ++ ws)
Stands-append heap q old p ps vs r rs ws e a s l d = record {
  head = s.head;
  tail = sym (last-append (p ∷ ps) rs r);
  links =
      Links-append heap old (p ∷ ps) vs (r ∷ rs) ws (AreApart-last old (p ∷ ps) (r ∷ rs) e a)
        s.distinct e s.links l;
  distinct = AreDistinct-append (p ∷ ps) (r ∷ rs) a s.distinct d;
}
