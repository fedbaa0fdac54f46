-- ===== src/Timer.antt =====
-- spike/coroutine/Timer.h and Timer.cpp: `Timer` and `TimerManager`. Timers are shared objects: a
-- `Timer::ptr` is an address of `heap`, and `timer_set` is the `std::set` of addresses in its order.
-- A call is one step, but for `take_out`, the first half of `refreshTimer`; the clock is an argument.
pub mod Order
pub mod Armed
pub mod Split
pub mod Expiry
pub mod Fire
pub mod Collect
pub mod Reach
pub mod Race
mod Tests
use lim_webserver.Base.{ℕ, zero, suc, ◌+◌, ◌-◌, ◌*◌, ◌%◌, ◌^◌, Bool, true, false, ◌&&◌, ◌||◌, not}
use lim_webserver.Base.{Option, none, some, List, [], ◌∷◌, ◌++◌, ltb, leb, ◌==◌, if◌then◌else◌}
use lim_webserver.Base.Outcome.{Outcome, ok, fault}

-- A callback is a name; `none` is the empty `std::function`.
pub record Timer : Type 0 where
  pub recurring : Bool
  pub ms : ℕ
  pub next : ℕ
  pub callback : Option ℕ

pub record TimerManager : Type 0 where
  pub heap : ℕ → Timer
  pub timer_set : List ℕ
  pub previous_time : ℕ
  pub notified : Bool

abbrev pub u64 : ℕ → ℕ
u64 x = x % 2 ^ 64

abbrev pub update : (ℕ → Timer) → ℕ → Timer → ℕ → Timer
update heap i t j = if j == i then t else heap j

-- `Timer::Comparator`, on timers that are not null
unfoldable pub less : (ℕ → Timer) → ℕ → ℕ → Bool
less heap i j = ltb (heap i).next (heap j).next || ((heap j).next == (heap i).next && ltb i j)

-- `std::set`: an equivalent element keeps the new one out.
unfoldable pub insert : (ℕ → Timer) → ℕ → List ℕ → List ℕ
insert heap i [] = i ∷ []
insert heap i (j ∷ js) =
    let rest = insert heap i js in
    if less heap i j then i ∷ j ∷ js else if less heap j i then j ∷ rest else j ∷ js

abbrev pub behind : ℕ → Option (List ℕ) → Option (List ℕ)
behind j none = none
behind j (some ks) = some (j ∷ ks)

-- `find` and `erase`: the set without the element equivalent to `i`; `none` is `end()`.
pub extract : (ℕ → Timer) → ℕ → List ℕ → Option (List ℕ)
extract heap i [] = none
extract heap i (j ∷ js) =
    let rest = behind j (extract heap i js) in
    if less heap j i then rest else if less heap i j then none else some js

abbrev pub is_first : ℕ → List ℕ → Bool
is_first i [] = false
is_first i (j ∷ js) = i == j

-- `addTimer(timer)`: the waiting thread is notified if the timer comes first.
unfoldable pub add : ℕ → TimerManager → TimerManager
add i m =
    let set = insert m.heap i m.timer_set in
    record m { timer_set = set; notified = m.notified || is_first i set }

-- `addTimer(ms, callback, recurring)`, with the new timer at the free address `i`
unfoldable pub add_timer : ℕ → ℕ → ℕ → Option ℕ → Bool → TimerManager → TimerManager
add_timer now i ms callback recurring m =
    let t : Timer = record {
      recurring = recurring;
      ms = ms;
      next = u64 (now + ms);
      callback = callback;
    } in
    add i (record m { heap = update m.heap i t })

pub get_next_expire : ℕ → TimerManager → ℕ
get_next_expire now m = elim m.timer_set [
  | [] ↦ 1000
  | i ∷ is ↦ if leb (m.heap i).next now then 0 else (m.heap i).next - now
]

abbrev has_callback : Option ℕ → Bool
has_callback none = false
has_callback (some c) = true

-- `erase(end())` is undefined.
pub cancel_timer : ℕ → TimerManager → Outcome (Bool × TimerManager)
cancel_timer i m =
    let t = m.heap i in
    let heap' = update m.heap i (record t { callback = none }) in
    if not (has_callback t.callback) then ok (false, m) else elim (extract heap' i m.timer_set) [
      | none ↦ fault
      | some set ↦ ok (true, record m { heap = heap'; timer_set = set })
    ]

-- `refreshTimer` up to the end of its first critical section: the timer is out of the set. `none` is
-- a return of false.
pub take_out : ℕ → TimerManager → Option TimerManager
take_out i m =
    if not (has_callback (m.heap i).callback) then none else elim (extract m.heap i m.timer_set) [
      | none ↦ none
      | some set ↦ some (record m { timer_set = set })
    ]

-- The whole call, with nothing between its two critical sections.
pub refresh_timer : ℕ → ℕ → TimerManager → Bool × TimerManager
refresh_timer now i m =
    let t = m.heap i in
    if not (has_callback t.callback) then (false, m) else elim (extract m.heap i m.timer_set) [
      | none ↦ (false, m)
      | some set ↦
          let heap' = update m.heap i (record t { next = u64 (now + t.ms) }) in
          (true, record m { heap = heap'; timer_set = insert heap' i set })
    ]

pub reset_timer : ℕ → ℕ → ℕ → Bool → TimerManager → Bool × TimerManager
reset_timer now i ms from_now m =
    let t = m.heap i in
    if ms == t.ms && not from_now
    then (true, m)
    else if not (has_callback t.callback)
    then (false, m)
    else elim (extract m.heap i m.timer_set) [
      | none ↦ (false, m)
      | some set ↦
          let start = if from_now then now else u64 (t.next + 2 ^ 64 - t.ms) in
          let heap' = update m.heap i (record t { ms = ms; next = u64 (start + ms) }) in
          (true, add i (record m { heap = heap'; timer_set = set }))
    ]

-- `detectClockRollover`, with the subtraction of `uint64_t`
pub detect_clock_rollover : ℕ → TimerManager → Bool × TimerManager
detect_clock_rollover now m = (
  ltb now m.previous_time && ltb now (u64 (m.previous_time + 2 ^ 64 - 60 * 60 * 1000)),
  record m { previous_time = now },
)

-- `lower_bound(now_timer)`, for a timer with time `now` at the address `a`: the timers before it.
pub lower_bound : (ℕ → Timer) → ℕ → ℕ → List ℕ → List ℕ × List ℕ
lower_bound heap now a [] = ([], [])
lower_bound heap now a (j ∷ js) =
    let (due, later) = lower_bound heap now a js in
    if ltb (heap j).next now || ((heap j).next == now && ltb j a)
    then (j ∷ due, later)
    else ([], j ∷ js)

-- The loop that passes over the timers of time `now`.
pub skip_equal : (ℕ → Timer) → ℕ → List ℕ → List ℕ × List ℕ
skip_equal heap now [] = ([], [])
skip_equal heap now (j ∷ js) =
    let (due, later) = skip_equal heap now js in
    if (heap j).next == now then (j ∷ due, later) else ([], j ∷ js)

-- The set up to the iterator `it`, and from there on.
pub split_at : (ℕ → Timer) → ℕ → ℕ → List ℕ → List ℕ × List ℕ
split_at heap now a set =
    let (before, rest) = lower_bound heap now a set in
    let (equal, later) = skip_equal heap now rest in (before ++ equal, later)

-- The loop over the expired timers: the callbacks, and the heap and the set after it.
pub fire : ℕ → List ℕ → (ℕ → Timer) → List ℕ → List (Option ℕ) × (ℕ → Timer) × List ℕ
fire now [] heap set = ([], heap, set)
fire now (i ∷ is) heap set =
    let t = heap i in
    let again = update heap i (record t { next = u64 (now + t.ms) }) in
    let released = update heap i (record t { callback = none }) in
    let heap' = if t.recurring then again else released in
    let set' = if t.recurring then insert again i set else set in
    let (cbs, heap'', set'') = fire now is heap' set' in (t.callback ∷ cbs, heap'', set'')

-- `listExpiredCallback` of the manager that `detectClockRollover` left
pub expire : ℕ → ℕ → Bool → TimerManager → List (Option ℕ) × TimerManager
expire now a rollover m =
    let (due, later) = if rollover then (m.timer_set, []) else split_at m.heap now a m.timer_set in
    let (cbs, heap', set') = fire now due m.heap later in
    (cbs, record m { heap = heap'; timer_set = set' })

pub none_due : ℕ → TimerManager → Bool
none_due now m = elim m.timer_set [ [] ↦ true | i ∷ is ↦ ltb now (m.heap i).next ]

pub list_expired_callback : ℕ → ℕ → TimerManager → List (Option ℕ) × TimerManager
unfolding expire none_due
list_expired_callback now a m = elim m.timer_set [
  | [] ↦ ([], m)
  | i ∷ is ↦
      let (rollover, m') = detect_clock_rollover now m in
      if not rollover && none_due now m' then ([], m') else expire now a rollover m'
]
