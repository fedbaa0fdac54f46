-- ===== src/Timer/Race.antt =====
-- `refreshTimer` gives up its lock between taking the timer out of the set and putting it back
-- (spike/coroutine/Timer.cpp): what `cancelTimer` does there.
use lim_webserver.Base.{ℕ, ◌≡◌, sym, ◌∙◌, true, false, none, some, List, inl, inr}
use lim_webserver.Base.Outcome.{fault}
use lim_webserver.Timer.{Timer, TimerManager, update, extract, take_out, cancel_timer}
use lim_webserver.Timer.Order.{IsSorted, contains, extract_cases, IsSorted-update}
use lim_webserver.Timer.Armed.{IsArmed, is_armed}

not_there :
    (heap : ℕ → Timer) (i : ℕ) (set : List ℕ)
    → IsSorted heap set
    → contains i set ≡ false
    → extract heap i set ≡ none
not_there heap i set s c = elim (extract_cases heap i set s) [
  | inl (ks, e, x, t) ↦ absurd (clash (sym c ∙ t))
  | inr (e, f) ↦ e
]
  where
    clash : false ≡ true → ⊥
    clash e = cc

cancel_absent :
    (i : ℕ) (m : TimerManager)
    → is_armed m.heap i ≡ true
    → IsSorted m.heap m.timer_set
    → contains i m.timer_set ≡ false
    → cancel_timer i m ≡ fault
unfolding cancel_timer
cancel_absent i m h s c =
    let t = record (m.heap i) { callback = none } in
    let gone =
      not_there (update m.heap i t) i m.timer_set (IsSorted-update m.heap i t m.timer_set c s) c in
    rw (h, gone)

-- In a manager whose set is in order and holds every timer with a callback, `refreshTimer` takes a
-- timer that has a callback out of the set, and a `cancelTimer` of that timer before it is put back
-- erases `end()`.
pub cancel_timer-take_out :
    (i : ℕ) (m : TimerManager)
    → IsArmed m
    → is_armed m.heap i ≡ true
    → (m' : TimerManager) × (take_out i m ≡ some m') × (cancel_timer i m' ≡ fault)
unfolding take_out IsArmed
cancel_timer-take_out i m a h = elim (extract_cases m.heap i m.timer_set a.sorted) [
  | inl (ks, e, x, _) ↦ (
    record m { timer_set = ks },
    rw (h, e),
    cancel_absent i (record m { timer_set = ks }) h x.sorted x.gone,
  )
  | inr (e, c) ↦ absurd (clash (sym (a.armed i h) ∙ c))
]
  where
    clash : true ≡ false → ⊥
    clash e = cc
