-- ===== src/Timer/Fire.antt =====
-- `TimerManager::listExpiredCallback` (spike/coroutine/Timer.cpp) as a whole: which callbacks it
-- returns, what becomes of the timers, and that the set stays in order.
use lim_webserver.Base.{ℕ, ◌+◌, ◌≡◌, refl, sym, ap, ◌∙◌, arith, true, false}
use lim_webserver.Base.{Option, none, List, [], ◌∷◌, map, inl, inr, Bool-cases, ◌==◌, if◌then◌else◌}
use lim_webserver.Timer.{Timer, insert, update, fire, u64}
use lim_webserver.Timer.Order.{contains}
use lim_webserver.Timer.Expiry.{Pending, Fired, rearmed, Pending-again, Pending-released}

map-update :
    (heap : ℕ → Timer) (i : ℕ) (t : Timer) (is : List ℕ)
    → contains i is ≡ false
    → map (λ k. (update heap i t k).callback) is ≡ map (λ k. (heap k).callback) is
map-update heap i t [] n = refl
map-update heap i t (j ∷ is) n =
    ap (λ b. (if b then t else heap j).callback ∷ map (λ k. (update heap i t k).callback) is)
      (first n)
    ∙ ap (λ cs. (heap j).callback ∷ cs) (map-update heap i t is (later n))
  where
    first : contains i (j ∷ is) ≡ false → (j == i) ≡ false
    first n = ground arith

    later : contains i (j ∷ is) ≡ false → contains i is ≡ false
    later n = ground arith

module _ (now i : ℕ) (is : List ℕ) (heap : ℕ → Timer) (t : Timer) where
  timers_first :
      t ≡ rearmed now (heap i)
      → contains i is ≡ false
      → (k : ℕ)
      → (if contains k is then rearmed now (update heap i t k) else update heap i t k)
        ≡ (if contains k (i ∷ is) then rearmed now (heap k) else heap k)
  timers_first e n k = elim (Bool-cases (k == i)) [
    | inl b ↦
        let s : i ≡ k = ground arith in
        let first : (i == k) ≡ true = ground arith in
        rw (first, b, sym (ap (λ (x : ℕ). contains x is) s) ∙ n)
          (e ∙ ap (λ (x : ℕ). rearmed now (heap x)) s)
    | inr b ↦ let later : (i == k) ≡ false = ground arith in rw (later, b)
  ]

  Fired_first :
      (out : List (Option ℕ) × (ℕ → Timer) × List ℕ)
      → t ≡ rearmed now (heap i)
      → contains i is ≡ false
      → Fired now is (update heap i t) out
      → Fired now (i ∷ is) heap ((heap i).callback ∷ out.0, out.1, out.2)
  Fired_first out e n f = record {
    callbacks = ap (λ cs. (heap i).callback ∷ cs) (f.callbacks ∙ map-update heap i t is n);
    timers = λ k. f.timers k ∙ timers_first e n k;
    armed = f.armed;
  }

abbrev fired :
    ℕ → ℕ → List ℕ → (ℕ → Timer) → List ℕ → Timer → List ℕ → List (Option ℕ) × (ℕ → Timer) × List ℕ
fired now i is heap set t set' =
    let out = fire now is (update heap i t) set' in ((heap i).callback ∷ out.0, out.1, out.2)

module _ (now i : ℕ) (is : List ℕ) (heap : ℕ → Timer) (set : List ℕ) where
  abbrev again : Timer
  again = record (heap i) { next = u64 (now + (heap i).ms) }

  abbrev released : Timer
  released = record (heap i) { callback = none }

  fire-again :
      (heap i).recurring ≡ true
      → fire now (i ∷ is) heap set
        ≡ fired now i is heap set again (insert (update heap i again) i set)
  unfolding fire
  fire-again r =
      ap
        (λ b.
          let heap' = if b then update heap i again else update heap i released in
          let set' = if b then insert (update heap i again) i set else set in
          let out = fire now is heap' set' in ((heap i).callback ∷ out.0, out.1, out.2))
        r

  fire-released :
      (heap i).recurring ≡ false → fire now (i ∷ is) heap set ≡ fired now i is heap set released set
  unfolding fire
  fire-released r =
      ap
        (λ b.
          let heap' = if b then update heap i again else update heap i released in
          let set' = if b then insert (update heap i again) i set else set in
          let out = fire now is heap' set' in ((heap i).callback ∷ out.0, out.1, out.2))
        r

  rearmed-again : (heap i).recurring ≡ true → again ≡ rearmed now (heap i)
  rearmed-again r = ap (λ b. if b then again else released) (sym r)

  rearmed-released : (heap i).recurring ≡ false → released ≡ rearmed now (heap i)
  rearmed-released r = ap (λ b. if b then again else released) (sym r)

fire_nil :
    (now : ℕ) (heap : ℕ → Timer) (set : List ℕ)
    → Pending [] heap set
    → Fired now [] heap (fire now [] heap set)
unfolding fire
fire_nil now heap set p = record {
  callbacks = refl;
  timers = λ k. refl;
  armed = record { sorted = p.sorted; armed = p.held };
}

pub fire_lem :
    (now : ℕ) (due : List ℕ) (heap : ℕ → Timer) (set : List ℕ)
    → Pending due heap set
    → Fired now due heap (fire now due heap set)
fire_lem now [] heap set p = fire_nil now heap set p
fire_lem now (i ∷ is) heap set p = elim (Bool-cases (heap i).recurring) [
  | inl r ↦
      let t = again now i is heap set in
      rw (fire-again now i is heap set r) (
        Fired_first now i is heap t _ (rearmed-again now i is heap set r) p.distinct.0
          (fire_lem now is _ _ (Pending-again i is heap set p t)))
  | inr r ↦
      let t = released now i is heap set in
      rw (fire-released now i is heap set r) (
        Fired_first now i is heap t _ (rearmed-released now i is heap set r) p.distinct.0
          (fire_lem now is _ _ (Pending-released i is heap set p t refl)))
]
