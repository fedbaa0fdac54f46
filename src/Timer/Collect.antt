-- ===== src/Timer/Collect.antt =====
-- `TimerManager::listExpiredCallback` (spike/coroutine/Timer.cpp) as a whole: the division of the
-- set, with and without a rollover of the clock, and the loop over the expired timers.
use lim_webserver.Base.{
  ℕ, suc, ◌≤◌, ◌≡◌, refl, sym, ap, ◌∙◌, arith, Bool, true, false, ◌||◌, ◌&&◌, not, ltb,
}
use lim_webserver.Base.{
  Option, List, [], ◌∷◌, ◌++◌, append-nil, inl, inr, Bool-cases, ◌==◌, if◌then◌else◌,
}
use lim_webserver.Timer.{Timer, TimerManager, expire, split_at}
use lim_webserver.Timer.{list_expired_callback, detect_clock_rollover, none_due}
use lim_webserver.Timer.Order.{IsSorted, contains, Before-contains}
use lim_webserver.Timer.Armed.{Armed, IsArmed}
use lim_webserver.Timer.Expiry.{Pending, Fired, IsDistinct}
use lim_webserver.Timer.Split.{Until, From, split_at_lem, sorted-From}
use lim_webserver.Timer.Fire.{fire_lem}
use mathlib.Core.Path.{subst}

contains_append :
    (k : ℕ) (is js : List ℕ) → contains k (is ++ js) ≡ (contains k is || contains k js)
contains_append k [] js = refl
contains_append k (i ∷ is) js = elim (Bool-cases (i == k)) [
  | inl t ↦ rw t
  | inr f ↦ rw f (contains_append k is js)
]

module _ (heap : ℕ → Timer) where
  later-IsSorted : (is js : List ℕ) → IsSorted heap (is ++ js) → IsSorted heap js
  later-IsSorted [] js s = s
  later-IsSorted (i ∷ is) js s = later-IsSorted is js s.1

  none_of : (b c : Bool) → (b || c) ≡ false → (b ≡ false) × (c ≡ false)
  none_of false c h = (refl, h)
  none_of true c h = absurd (clash h)
    where
      clash : true ≡ false → ⊥
      clash e = cc

  after_first :
      (i : ℕ) (is js : List ℕ)
      → IsSorted heap (i ∷ (is ++ js))
      → (contains i is ≡ false) × (contains i js ≡ false)
  after_first i is js s =
      none_of (contains i is) (contains i js)
        (sym (contains_append i is js) ∙ Before-contains heap i (is ++ js) s.0)

  distinct : (is js : List ℕ) → IsSorted heap (is ++ js) → IsDistinct is
  distinct [] js s = tt
  distinct (i ∷ is) js s = ((after_first i is js s).0, distinct is js s.1)

  apart :
      (is js : List ℕ)
      → IsSorted heap (is ++ js)
      → (k : ℕ) → contains k is ≡ true
      → contains k js ≡ false
  apart [] js s k h = absurd (clash h)
    where
      clash : false ≡ true → ⊥
      clash e = cc
  apart (i ∷ is) js s k h = elim (Bool-cases (i == k)) [
    | inl t ↦ ap (λ (x : ℕ). contains x js) (same t) ∙ (after_first i is js s).1
    | inr f ↦ apart is js s.1 k (sym (ap (λ b. b || contains k is) f) ∙ h)
  ]
    where
      same : (i == k) ≡ true → k ≡ i
      same t = ground arith

  divided-Pending :
      (due later set : List ℕ) → due ++ later ≡ set → Armed heap set → Pending due heap later
  divided-Pending due later set e a =
      let s : IsSorted heap (due ++ later) = subst (IsSorted heap) (sym e) a.sorted in
      record {
        sorted = later-IsSorted due later s;
        distinct = distinct due later s;
        apart = apart due later s;
        held = λ k h. sym (contains_append k due later) ∙ (ap (contains k) e ∙ a.armed k h);
      }

-- What a call at the time `now` collected: the set was divided in two, the first part fired.
pub record Collected (now : ℕ) (m : TimerManager) (out : List (Option ℕ) × TimerManager)
    : Type 0 where
  pub due : List ℕ
  pub later : List ℕ
  pub divided : due ++ later ≡ m.timer_set
  pub on_time :
      (detect_clock_rollover now m).0 ≡ false → Until m.heap now due × From m.heap (suc now) later
  pub all_at_once : (detect_clock_rollover now m).0 ≡ true → later ≡ []
  pub fired : Fired now due m.heap (out.0, out.1.heap, out.1.timer_set)

-- What `expire` collects, with the divided set.
expire-Collected :
    (now a : ℕ) (m : TimerManager)
    → IsArmed m
    → Collected now m (expire now a (detect_clock_rollover now m).0 (detect_clock_rollover now m).1)
unfolding IsArmed expire detect_clock_rollover
expire-Collected now a m w = elim (Bool-cases (detect_clock_rollover now m).0) [
  | inl r ↦ rw r (record {
    due = m.timer_set;
    later = [];
    divided = append-nil m.timer_set;
    on_time = λ f. absurd (clash (sym r ∙ f));
    all_at_once = λ t. refl;
    fired =
        fire_lem now m.timer_set m.heap []
          (divided-Pending m.heap m.timer_set [] m.timer_set (append-nil m.timer_set) w);
  })
  | inr r ↦
      let (e, u, f) = split_at_lem m.heap now a m.timer_set w.sorted in
      rw r (record {
        due = (split_at m.heap now a m.timer_set).0;
        later = (split_at m.heap now a m.timer_set).1;
        divided = e;
        on_time = λ _. (u, f);
        all_at_once = λ t. absurd (clash (sym t ∙ r));
        fired =
            fire_lem now (split_at m.heap now a m.timer_set).0 m.heap _
              (divided-Pending m.heap (split_at m.heap now a m.timer_set).0 _ m.timer_set e w);
      })
]
  where
    clash : true ≡ false → ⊥
    clash e = cc

none-Collected :
    (now : ℕ) (m m' : TimerManager)
    → m'.heap ≡ m.heap
    → m'.timer_set ≡ m.timer_set
    → IsArmed m
    → From m.heap (suc now) m.timer_set
    → ((detect_clock_rollover now m).0 ≡ true → m.timer_set ≡ [])
    → Collected now m ([], m')
unfolding IsArmed
none-Collected now m m' h s w f r = record {
  due = [];
  later = m.timer_set;
  divided = refl;
  on_time = λ _. (tt, f);
  all_at_once = r;
  fired = record { callbacks = refl; timers = λ k. ap (λ g. g k) h; armed = rw (h, s) w };
}

late : (now n : ℕ) → ltb now n ≡ true → suc now ≤ n
late now n h = ground arith

abbrev manager : (ℕ → Timer) → List ℕ → ℕ → Bool → TimerManager
manager heap set previous notified = record {
  heap = heap;
  timer_set = set;
  previous_time = previous;
  notified = notified;
}

by_choice :
    (now : ℕ) (m : TimerManager) (b : Bool) (x y : List (Option ℕ) × TimerManager)
    → (b ≡ true → Collected now m x)
    → (b ≡ false → Collected now m y)
    → Collected now m (if b then x else y)
by_choice now m true x y p q = p refl
by_choice now m false x y p q = q refl

both : (b c : Bool) → (b && c) ≡ true → (b ≡ true) × (c ≡ true)
both true c h = (refl, h)
both false c h = absurd (clash h)
  where
    clash : false ≡ true → ⊥
    clash e = cc

module _ (now a : ℕ) (heap : ℕ → Timer) (i : ℕ) (is : List ℕ) (previous : ℕ) (notified : Bool) where
  abbrev m : TimerManager
  m = manager heap (i ∷ is) previous notified

  abbrev rollover : Bool
  rollover = (detect_clock_rollover now m).0

  choose : list_expired_callback now a m ≡ (
      if not rollover && ltb now (heap i).next
      then ([], (detect_clock_rollover now m).1)
      else expire now a rollover (detect_clock_rollover now m).1)
  unfolding list_expired_callback none_due detect_clock_rollover
  choose = refl

  first_later :
      IsArmed m
      → (not rollover && ltb now (heap i).next) ≡ true
      → Collected now m ([], (detect_clock_rollover now m).1)
  unfolding IsArmed detect_clock_rollover
  first_later w h =
      none-Collected now m (detect_clock_rollover now m).1 refl refl w
        (sorted-From heap (suc now) i is (late now (heap i).next (both _ _ h).1) w.sorted)
        (λ t. absurd (clash rollover t (both _ _ h).0))
    where
      clash : (b : Bool) → b ≡ true → not b ≡ true → ⊥
      clash true e h = cc
      clash false e h = cc

  collect_some : IsArmed m → Collected now m (list_expired_callback now a m)
  collect_some w = subst (Collected now m) (sym choose) (
      by_choice now m (not rollover && ltb now (heap i).next) _ _ (first_later w)
        (λ _. expire-Collected now a m w))

collect :
    (now a : ℕ) (heap : ℕ → Timer) (set : List ℕ) (previous : ℕ) (notified : Bool)
    → IsArmed (manager heap set previous notified)
    → Collected now
        (manager heap set previous notified)
        (list_expired_callback now a (manager heap set previous notified))
unfolding list_expired_callback
collect now a heap [] previous notified w =
    none-Collected now (manager heap [] previous notified) _ refl refl w tt (λ _. refl)
collect now a heap (i ∷ is) previous notified w = collect_some now a heap i is previous notified w

-- In a manager whose set is in order and holds every timer with a callback, `listExpiredCallback`
-- divides the set in two. Without a rollover of the clock the first part is the timers that are due
-- at `now` and the second those that are later; with a rollover the first part is all of them. It
-- returns the callbacks of the first part in order, starts its recurring timers again, takes the
-- callback from its other timers, leaves every timer outside it as it was, and the set is in order
-- and holds every timer with a callback again.
pub list_expired_callback-Collected :
    (now a : ℕ) (m : TimerManager) → IsArmed m → Collected now m (list_expired_callback now a m)
list_expired_callback-Collected now a m w =
    collect now a m.heap m.timer_set m.previous_time m.notified w
