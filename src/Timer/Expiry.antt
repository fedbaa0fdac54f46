-- ===== src/Timer/Expiry.antt =====
-- The loop of `TimerManager::listExpiredCallback` over the expired timers
-- (spike/coroutine/Timer.cpp): what it collects, and how it leaves the timers and the set.
use lim_webserver.Base.{ℕ, ◌≡◌, refl, sym, ap, ◌∙◌, arith, Bool, true, false, ◌||◌, ◌+◌}
use lim_webserver.Base.{Option, none, List, [], ◌∷◌, map, inl, inr, Bool-cases, ◌==◌, if◌then◌else◌}
use lim_webserver.Timer.{Timer, insert, update, has_callback, u64}
use lim_webserver.Timer.Order.{
  IsSorted, contains, insert-IsSorted, contains-insert, IsSorted-update,
}
use lim_webserver.Timer.Armed.{Armed, is_armed}

-- What an expired timer becomes: a recurring one starts again, another one loses its callback.
abbrev pub rearmed : ℕ → Timer → Timer
rearmed now t =
    if t.recurring then record t { next = u64 (now + t.ms) } else record t { callback = none }

abbrev pub IsDistinct : List ℕ → Type 0
IsDistinct [] = Unit {0}
IsDistinct (i ∷ is) = (contains i is ≡ false) × IsDistinct is

-- Some timers were taken out of the set, and every timer with a callback is one of them or there.
pub record Pending (is : List ℕ) (heap : ℕ → Timer) (set : List ℕ) : Type 0 where
  pub sorted : IsSorted heap set
  pub distinct : IsDistinct is
  pub apart : (k : ℕ) → contains k is ≡ true → contains k set ≡ false
  pub held : (k : ℕ) → is_armed heap k ≡ true → (contains k is || contains k set) ≡ true

pub record Fired (now : ℕ) (due : List ℕ) (heap : ℕ → Timer)
    (out : List (Option ℕ) × (ℕ → Timer) × List ℕ) : Type 0 where
  pub callbacks : out.0 ≡ map (λ i. (heap i).callback) due
  pub timers : (k : ℕ) → out.1 k ≡ (if contains k due then rearmed now (heap k) else heap k)
  pub armed : Armed out.1 out.2

first_in : (i k : ℕ) (is : List ℕ) → (k == i) ≡ true → contains k (i ∷ is) ≡ true
first_in i k is h = ground arith

later_in : (i k : ℕ) (is : List ℕ) → (k == i) ≡ false → contains k (i ∷ is) ≡ contains k is
later_in i k is h = ground arith

apart_ne : (i k : ℕ) (is : List ℕ) → contains i is ≡ false → contains k is ≡ true → (k == i) ≡ false
apart_ne i k is n h = elim (Bool-cases (k == i)) [
  | inl e ↦ absurd (clash (sym (ap (λ (x : ℕ). contains x is) (same e) ∙ n) ∙ h))
  | inr e ↦ e
]
  where
    same : (k == i) ≡ true → k ≡ i
    same e = ground arith

    clash : false ≡ true → ⊥
    clash e = cc

into_either : (a b c : Bool) → (a || b) ≡ true → (a || (c || b)) ≡ true
into_either true b c h = refl
into_either false true true h = refl
into_either false true false h = refl
into_either false false c h = absurd (clash h)
  where
    clash : false ≡ true → ⊥
    clash e = cc

module _ (i : ℕ) (is : List ℕ) (heap : ℕ → Timer) (set : List ℕ)
    (p : Pending (i ∷ is) heap set) where
  not_held : contains i set ≡ false
  not_held = p.apart i (first_in i i is (ground arith))

  apart_rest : (k : ℕ) → contains k is ≡ true → contains k set ≡ false
  apart_rest k h = p.apart k (later_in i k is (apart_ne i k is p.distinct.0 h) ∙ h)

  others_held :
      (t : Timer) (k : ℕ)
      → (k == i) ≡ false
      → is_armed (update heap i t) k ≡ true
      → (contains k is || contains k set) ≡ true
  others_held t k e h =
      sym (ap (λ b. b || contains k set) (later_in i k is e))
      ∙ p.held k (sym (ap (λ b. has_callback (if b then t else heap k).callback) e) ∙ h)

  pub Pending-again : (t : Timer) → Pending is (update heap i t) (insert (update heap i t) i set)
  Pending-again t = record {
    sorted = insert-IsSorted _ i set (IsSorted-update heap i t set not_held p.sorted);
    distinct = p.distinct.1;
    apart = λ k h.
        contains-insert (update heap i t) i k set
        ∙ other i k (contains k set) (apart_ne i k is p.distinct.0 h) (apart_rest k h);
    held = λ k h.
        ap (λ b. contains k is || b) (contains-insert (update heap i t) i k set)
        ∙ elim (Bool-cases (k == i)) [
          | inl e ↦ own (contains k is) i k (contains k set) e
          | inr e ↦ into_either (contains k is) (contains k set) (i == k) (others_held t k e h)
        ];
  }
    where
      other : (i k : ℕ) (c : Bool) → (k == i) ≡ false → c ≡ false → (i == k || c) ≡ false
      other i k c e h = ground arith

      own : (b : Bool) (i k : ℕ) (c : Bool) → (k == i) ≡ true → (b || (i == k || c)) ≡ true
      own true i k c e = refl
      own false i k c e = ground arith

  pub Pending-released : (t : Timer) → t.callback ≡ none → Pending is (update heap i t) set
  Pending-released t n = record {
    sorted = IsSorted-update heap i t set not_held p.sorted;
    distinct = p.distinct.1;
    apart = apart_rest;
    held = λ k h. elim (Bool-cases (k == i)) [
      | inl e ↦ absurd (
          clash (
            sym (ap (λ b. has_callback (if b then t else heap k).callback) e ∙ ap has_callback n)
            ∙ h))
      | inr e ↦ others_held t k e h
    ];
  }
    where
      clash : false ≡ true → ⊥
      clash e = cc
