-- ===== src/Timer/Armed.antt =====
-- The set of timers of `TimerManager` (spike/coroutine/Timer.cpp) is in order and holds every timer
-- that has a callback: the operations on one timer.
use lim_webserver.Base.{ℕ, ◌≡◌, refl, sym, ap, ◌∙◌, Bool, true, false, ◌||◌, not, ◌&&◌, arith}
use lim_webserver.Base.{
  Option, none, some, List, [], ◌∷◌, inl, inr, Bool-cases, ◌==◌, if◌then◌else◌,
}
use lim_webserver.Base.Outcome.{ok}
use lim_webserver.Timer.{Timer, TimerManager, less, insert, update, has_callback}
use lim_webserver.Timer.{add, add_timer, cancel_timer, refresh_timer, reset_timer}
use lim_webserver.Timer.Order.{
  Before, IsSorted, contains, insert-IsSorted, contains-insert, extract_cases,
}
use lim_webserver.Timer.Order.{Extracted, IsSorted-update}

abbrev pub is_armed : (ℕ → Timer) → ℕ → Bool
is_armed heap i = has_callback (heap i).callback

pub record Armed (heap : ℕ → Timer) (set : List ℕ) : Type 0 where
  pub sorted : IsSorted heap set
  pub armed : (i : ℕ) → is_armed heap i ≡ true → contains i set ≡ true

-- The timer `i` was taken out of the set, and the others are as they should be.
pub record Without (i : ℕ) (heap : ℕ → Timer) (set : List ℕ) : Type 0 where
  pub sorted : IsSorted heap set
  pub absent : contains i set ≡ false
  pub others : (k : ℕ) → (k == i) ≡ false → is_armed heap k ≡ true → contains k set ≡ true

unfoldable pub IsArmed : TimerManager → Type 0
IsArmed m = Armed m.heap m.timer_set

found : (i k : ℕ) (c : Bool) → (k == i) ≡ true → (i == k || c) ≡ true
found i k c h = ground arith

found_later : (b c : Bool) → c ≡ true → (b || c) ≡ true
found_later true c h = refl
found_later false c h = h

-- A timer comes back into the set with any contents.
pub arm :
    (i : ℕ) (heap : ℕ → Timer) (set : List ℕ) (t : Timer)
    → Without i heap set
    → Armed (update heap i t) (insert (update heap i t) i set)
arm i heap set t w =
    let heap' = update heap i t in
    record {
      sorted = insert-IsSorted heap' i set (IsSorted-update heap i t set w.absent w.sorted);
      armed = λ k h. contains-insert heap' i k set ∙ elim (Bool-cases (k == i)) [
        | inl e ↦ found i k (contains k set) e
        | inr e ↦
            found_later (i == k) (contains k set)
              (w.others k e (sym (ap (λ b. has_callback (if b then t else heap k).callback) e) ∙ h))
      ];
    }

-- A timer that stays out of the set loses its callback.
pub disarm :
    (i : ℕ) (heap : ℕ → Timer) (set : List ℕ) (t : Timer)
    → t.callback ≡ none
    → Without i heap set
    → Armed (update heap i t) set
disarm i heap set t n w = record {
  sorted = IsSorted-update heap i t set w.absent w.sorted;
  armed = λ k h. elim (Bool-cases (k == i)) [
    | inl e ↦
        absurd (
          clash t.callback n
            (sym (ap (λ b. has_callback (if b then t else heap k).callback) e) ∙ h))
    | inr e ↦ w.others k e (sym (ap (λ b. has_callback (if b then t else heap k).callback) e) ∙ h)
  ];
}
  where
    clash : (o : Option ℕ) → o ≡ none → has_callback o ≡ true → ⊥
    clash none e h = cc
    clash (some c) e h = cc

Extracted-Without :
    (heap : ℕ → Timer) (i : ℕ) (js ks : List ℕ)
    → Armed heap js
    → Extracted heap i js ks
    → Without i heap ks
Extracted-Without heap i js ks a x = record {
  sorted = x.sorted;
  absent = x.gone;
  others = λ k ne h. x.others k ne ∙ a.armed k h;
}

-- An address that is not in the set is free for a new timer.
pub absent-Without :
    (heap : ℕ → Timer) (i : ℕ) (set : List ℕ)
    → contains i set ≡ false
    → Armed heap set
    → Without i heap set
absent-Without heap i set c a = record {
  sorted = a.sorted;
  absent = c;
  others = λ k ne h. a.armed k h;
}

less-update_same :
    (heap : ℕ → Timer) (i : ℕ) (t : Timer) (j k : ℕ)
    → t.next ≡ (heap i).next
    → less (update heap i t) j k ≡ less heap j k
unfolding less
less-update_same heap i t j k e = rw (next_same j, next_same k)
  where
    next_same : (j : ℕ) → (update heap i t j).next ≡ (heap j).next
    next_same j = elim (Bool-cases (j == i)) [
      | inl b ↦ rw b (e ∙ ap (λ (x : ℕ). (heap x).next) (same b))
      | inr b ↦ rw b
    ]
      where
        same : (j == i) ≡ true → i ≡ j
        same b = ground arith

Before-same :
    (heap : ℕ → Timer) (i : ℕ) (t : Timer) (j : ℕ) (js : List ℕ)
    → t.next ≡ (heap i).next
    → Before heap j js
    → Before (update heap i t) j js
Before-same heap i t j [] e b = tt
Before-same heap i t j (k ∷ js) e (p, b) =
    (less-update_same heap i t j k e ∙ p, Before-same heap i t j js e b)

-- A timer that keeps its time keeps its place in the order.
IsSorted-same :
    (heap : ℕ → Timer) (i : ℕ) (t : Timer) (js : List ℕ)
    → t.next ≡ (heap i).next
    → IsSorted heap js
    → IsSorted (update heap i t) js
IsSorted-same heap i t [] e s = tt
IsSorted-same heap i t (j ∷ js) e (b, s) =
    (Before-same heap i t j js e b, IsSorted-same heap i t js e s)

-- A new timer at an address that is not in the set.
pub add_timer-IsArmed :
    (now i ms : ℕ) (c : Option ℕ) (r : Bool) (m : TimerManager)
    → contains i m.timer_set ≡ false
    → IsArmed m
    → IsArmed (add_timer now i ms c r m)
unfolding IsArmed add_timer add
add_timer-IsArmed now i ms c r m absent a =
    arm i m.heap m.timer_set _ (absent-Without m.heap i m.timer_set absent a)

update-is_armed :
    (heap : ℕ → Timer) (i k : ℕ) (t : Timer) (set : List ℕ)
    → t.callback ≡ none
    → Armed heap set
    → is_armed (update heap i t) k ≡ true
    → contains k set ≡ true
update-is_armed heap i k t set n a h = elim (Bool-cases (k == i)) [
  | inl e ↦ absurd (
      clash
        (sym (ap (λ b. has_callback (if b then t else heap k).callback) e ∙ ap has_callback n) ∙ h))
  | inr e ↦ a.armed k (sym (ap (λ b. has_callback (if b then t else heap k).callback) e) ∙ h)
]
  where
    clash : false ≡ true → ⊥
    clash e = cc

-- Erasing a timer without a callback leaves a set that is in order and complete.
Extracted-Armed :
    (heap : ℕ → Timer) (i : ℕ) (t : Timer) (js ks : List ℕ)
    → t.callback ≡ none
    → Armed heap js
    → Extracted (update heap i t) i js ks
    → Armed (update heap i t) ks
Extracted-Armed heap i t js ks n a x = record {
  sorted = x.sorted;
  armed = λ k h. elim (Bool-cases (k == i)) [
    | inl e ↦ absurd (
        clash (
          sym (ap (λ b. has_callback (if b then t else heap k).callback) e ∙ ap has_callback n)
          ∙ h))
    | inr e ↦ x.others k e ∙ update-is_armed heap i k t js n a h
  ];
}
  where
    clash : false ≡ true → ⊥
    clash e = cc

-- In a manager whose set is in order and holds every timer with a callback, `cancelTimer` never
-- erases `end()`. It returns whether the timer had a callback, and the result is such a manager.
pub cancel_timer-IsArmed :
    (i : ℕ) (m : TimerManager)
    → IsArmed m
    → (m' : TimerManager) × (cancel_timer i m ≡ ok (is_armed m.heap i, m')) × IsArmed m'
unfolding IsArmed cancel_timer
cancel_timer-IsArmed i m a = elim (Bool-cases (is_armed m.heap i)) [
  | inl h ↦
      let heap' = update m.heap i (record (m.heap i) { callback = none }) in
      let s' =
        IsSorted-same m.heap i (record (m.heap i) { callback = none }) m.timer_set refl a.sorted in
      elim (extract_cases heap' i m.timer_set s') [
        | inl (ks, e, x, _) ↦ (
          record m { heap = heap'; timer_set = ks },
          rw (h, e),
          Extracted-Armed m.heap i (record (m.heap i) { callback = none }) m.timer_set ks refl a x,
        )
        | inr (e, c) ↦ absurd (clash (sym (a.armed i h) ∙ c))
      ]
  | inr h ↦ (m, rw h, a)
]
  where
    clash : true ≡ false → ⊥
    clash e = cc

-- In a manager whose set is in order and holds every timer with a callback, `refreshTimer`
-- returns whether the timer had a callback, and leaves such a manager.
pub refresh_timer-IsArmed :
    (now i : ℕ) (m : TimerManager)
    → IsArmed m
    → ((refresh_timer now i m).0 ≡ is_armed m.heap i) × IsArmed (refresh_timer now i m).1
unfolding IsArmed refresh_timer
refresh_timer-IsArmed now i m a = elim (Bool-cases (is_armed m.heap i)) [
  | inl h ↦ elim (extract_cases m.heap i m.timer_set a.sorted) [
    | inl (ks, e, x, _) ↦
        rw (h, e) (refl, arm i m.heap ks _ (Extracted-Without m.heap i m.timer_set ks a x))
    | inr (e, c) ↦ absurd (clash (sym (a.armed i h) ∙ c))
  ]
  | inr h ↦ rw h (refl, a)
]
  where
    clash : true ≡ false → ⊥
    clash e = cc

-- In a manager whose set is in order and holds every timer with a callback, `resetTimer`
-- leaves such a manager. It returns true if nothing is to change (the same period, counted
-- from the old start) or the timer has a callback, and else false.
pub reset_timer-IsArmed :
    (now i ms : ℕ) (from_now : Bool) (m : TimerManager)
    → IsArmed m
    → ((reset_timer now i ms from_now m).0
        ≡ ((ms == (m.heap i).ms && not from_now) || is_armed m.heap i))
      × IsArmed (reset_timer now i ms from_now m).1
unfolding IsArmed reset_timer add
reset_timer-IsArmed now i ms from_now m a =
    elim (Bool-cases (ms == (m.heap i).ms && not from_now)) [
      | inl same ↦ rw same (refl, a)
      | inr differs ↦ elim (Bool-cases (is_armed m.heap i)) [
        | inl h ↦ elim (extract_cases m.heap i m.timer_set a.sorted) [
          | inl (ks, e, x, _) ↦
              rw (differs, h, e)
                (refl, arm i m.heap ks _ (Extracted-Without m.heap i m.timer_set ks a x))
          | inr (e, c) ↦ absurd (clash (sym (a.armed i h) ∙ c))
        ]
        | inr h ↦ rw (differs, h) (refl, a)
      ]
    ]
  where
    clash : true ≡ false → ⊥
    clash e = cc
