-- ===== src/Timer/Reach.antt =====
-- The calls of `TimerManager` (spike/coroutine/Timer.cpp) as steps, one critical section after the
-- other in any order, and what holds of every manager that they reach.
use lim_webserver.Base.{ℕ, ◌≡◌, ap, Bool, true, false, Option, []}
use lim_webserver.Base.Outcome.{ok}
use lim_webserver.Timer.{Timer, TimerManager, add_timer, cancel_timer, refresh_timer, reset_timer}
use lim_webserver.Timer.{list_expired_callback}
use lim_webserver.Timer.Order.{contains}
use lim_webserver.Timer.Armed.{IsArmed, is_armed, add_timer-IsArmed, cancel_timer-IsArmed}
use lim_webserver.Timer.Armed.{refresh_timer-IsArmed, reset_timer-IsArmed}
use lim_webserver.Timer.Collect.{list_expired_callback-Collected}
use mathlib.Core.Path.{subst, sym, ◌∙◌}

-- A new manager at the time `now`; no address of the heap holds an armed timer yet.
abbrev pub new_manager : (ℕ → Timer) → ℕ → TimerManager
new_manager heap now = record { heap = heap; timer_set = []; previous_time = now; notified = false }

pub data Step (m m' : TimerManager) : Type 0 where
  added :
      (now i ms : ℕ) (c : Option ℕ) (r : Bool)
      → contains i m.timer_set ≡ false
      → m' ≡ add_timer now i ms c r m
      → Step m m'
  cancelled : (i : ℕ) (b : Bool) → cancel_timer i m ≡ ok (b, m') → Step m m'
  refreshed : (now i : ℕ) → m' ≡ (refresh_timer now i m).1 → Step m m'
  was_reset :
      (now i ms : ℕ) (from_now : Bool) → m' ≡ (reset_timer now i ms from_now m).1 → Step m m'
  listed : (now a : ℕ) → m' ≡ (list_expired_callback now a m).1 → Step m m'

pub data Reaches (m : TimerManager) : TimerManager → Type 0 where
  here : Reaches m m
  step : {m' m'' : TimerManager} → Reaches m m' → Step m' m'' → Reaches m m''

ok_injective : (x y : Bool × TimerManager) → ok x ≡ ok y → x ≡ y
ok_injective x y e = cc

new_manager-IsArmed :
    (heap : ℕ → Timer) (now : ℕ)
    → ((i : ℕ) → is_armed heap i ≡ false)
    → IsArmed (new_manager heap now)
unfolding IsArmed
new_manager-IsArmed heap now free = record {
  sorted = tt;
  armed = λ i h. absurd (clash (sym (free i) ∙ h));
}
  where
    clash : false ≡ true → ⊥
    clash e = cc

Step-IsArmed : {m m' : TimerManager} → Step m m' → IsArmed m → IsArmed m'
unfolding IsArmed
Step-IsArmed {m = m} (added now i ms c r n e) w = rw e (add_timer-IsArmed now i ms c r m n w)
Step-IsArmed {m = m} {m' = m'} (cancelled i b e) w =
    let (m1, e1, w1) = cancel_timer-IsArmed i m w in
    subst IsArmed (ap (λ x. x.1) (ok_injective (is_armed m.heap i, m1) (b, m') (sym e1 ∙ e))) w1
Step-IsArmed {m = m} (refreshed now i e) w = rw e (refresh_timer-IsArmed now i m w).1
Step-IsArmed {m = m} (was_reset now i ms from_now e) w =
    rw e (reset_timer-IsArmed now i ms from_now m w).1
Step-IsArmed {m = m} (listed now a e) w =
    rw e (list_expired_callback-Collected now a m w).fired.armed

Reaches-IsArmed : {m m' : TimerManager} → Reaches m m' → IsArmed m → IsArmed m'
Reaches-IsArmed here w = w
Reaches-IsArmed (step r s) w = Step-IsArmed s (Reaches-IsArmed r w)

-- From a new manager, however the calls of adding (at an address that is not in the set),
-- cancelling, refreshing, resetting and listing follow one another and whatever the clock shows, the
-- set stays in order and holds every timer that has a callback.
pub reachable-IsArmed :
    (heap : ℕ → Timer) (now : ℕ) (m : TimerManager)
    → ((i : ℕ) → is_armed heap i ≡ false)
    → Reaches (new_manager heap now) m
    → IsArmed m
reachable-IsArmed heap now m free r = Reaches-IsArmed r (new_manager-IsArmed heap now free)
