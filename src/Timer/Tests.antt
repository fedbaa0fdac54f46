-- ===== src/Timer/Tests.antt =====
-- Runs of `TimerManager` (spike/coroutine/Timer.cpp).
use lim_webserver.Base.{ℕ, suc, ◌≡◌, refl, true, false, ◌||◌, ◌&&◌, not, ◌==◌, ◌++◌}
use lim_webserver.Base.{none, some, [], ◌∷◌}
use lim_webserver.Base.Outcome.{ok}
use lim_webserver.Timer.{
  Timer, TimerManager, add, insert, cancel_timer, refresh_timer, reset_timer, add_timer, split_at,
}
use lim_webserver.Timer.{list_expired_callback, less}
use lim_webserver.Timer.Order.{contains}
use lim_webserver.Timer.Armed.{IsArmed, is_armed, add_timer-IsArmed, cancel_timer-IsArmed}
use lim_webserver.Timer.Armed.{refresh_timer-IsArmed, reset_timer-IsArmed}
use lim_webserver.Timer.Split.{Until, From, split_at_lem}
use lim_webserver.Timer.Collect.{Collected, list_expired_callback-Collected}
use lim_webserver.Timer.Reach.{new_manager, Reaches, here, step, added, reachable-IsArmed}

abbrev idle : ℕ → Timer
idle i = record { recurring = false; ms = 0; next = 0; callback = none }

-- A manager with a timer of 100 ms and a recurring one of 50 ms, added at the time 1000.
abbrev two_timers : TimerManager
two_timers =
    add_timer 1000 2 50 (some 8) true (add_timer 1000 1 100 (some 7) false (new_manager idle 1000))

free_address :
    contains 2 (add_timer 1000 1 100 (some 7) false (new_manager idle 1000)).timer_set ≡ false
unfolding add_timer add insert
free_address = refl

two_timers-Reaches : Reaches (new_manager idle 1000) two_timers
two_timers-Reaches =
    step (step here (added 1000 1 100 (some 7) false refl refl))
      (added 1000 2 50 (some 8) true free_address refl)

reachable-IsArmed_example : IsArmed two_timers
reachable-IsArmed_example = reachable-IsArmed idle 1000 two_timers (λ i. refl) two_timers-Reaches

two_timers-IsArmed : IsArmed two_timers
two_timers-IsArmed = reachable-IsArmed idle 1000 two_timers (λ i. refl) two_timers-Reaches

add_timer-IsArmed_example : IsArmed (
    add_timer 1000 2 50 (some 8) true (add_timer 1000 1 100 (some 7) false (new_manager idle 1000)))
add_timer-IsArmed_example =
    add_timer-IsArmed 1000 2 50 (some 8) true
      (add_timer 1000 1 100 (some 7) false (new_manager idle 1000)) free_address
      (reachable-IsArmed idle 1000 _ (λ i. refl)
        (step here (added 1000 1 100 (some 7) false refl refl)))

cancel_timer-IsArmed_example :
    (m' : TimerManager) × (cancel_timer 1 two_timers ≡ ok (is_armed two_timers.heap 1, m'))
    × IsArmed m'
cancel_timer-IsArmed_example = cancel_timer-IsArmed 1 two_timers two_timers-IsArmed

refresh_timer-IsArmed_example :
    ((refresh_timer 1010 1 two_timers).0 ≡ is_armed two_timers.heap 1)
    × IsArmed (refresh_timer 1010 1 two_timers).1
refresh_timer-IsArmed_example = refresh_timer-IsArmed 1010 1 two_timers two_timers-IsArmed

reset_timer-IsArmed_example :
    ((reset_timer 1010 1 70 true two_timers).0
      ≡ ((70 == (two_timers.heap 1).ms && not true) || is_armed two_timers.heap 1))
    × IsArmed (reset_timer 1010 1 70 true two_timers).1
reset_timer-IsArmed_example = reset_timer-IsArmed 1010 1 70 true two_timers two_timers-IsArmed

list_expired_callback-Collected_example :
    Collected 1060 two_timers (list_expired_callback 1060 9 two_timers)
list_expired_callback-Collected_example =
    list_expired_callback-Collected 1060 9 two_timers two_timers-IsArmed

-- Two timers at the same time.
one_two : less idle 1 2 ≡ true
unfolding less
one_two = refl

split_at_lem_example :
    ((split_at idle 0 1 (1 ∷ 2 ∷ [])).0 ++ (split_at idle 0 1 (1 ∷ 2 ∷ [])).1 ≡ 1 ∷ 2 ∷ [])
    × Until idle 0 (split_at idle 0 1 (1 ∷ 2 ∷ [])).0
    × From idle (suc 0) (split_at idle 0 1 (1 ∷ 2 ∷ [])).1
split_at_lem_example = split_at_lem idle 0 1 (1 ∷ 2 ∷ []) ((one_two, tt), (tt, tt))

two_timers-is_armed : is_armed two_timers.heap 1 ≡ true
unfolding add_timer add
two_timers-is_armed = refl
