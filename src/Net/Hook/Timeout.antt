-- ===== src/Net/Hook/Timeout.antt =====
-- The timeout of `do_io` (spike/coroutine/Hook.cpp): its timer takes the event from the channel. Nobody else adds
-- an event to the channel.
use lim_webserver.Base.{ℕ, ◌≡◌, refl, false, ◌==◌, ==_refl, true, Option, none, some}
use lim_webserver.Net.Channel.{
  IoEvent, read_event, write_event, add_event, cancel_event, channel, trigger, hang_up, fail,
}
use lim_webserver.Net.Hook.{Waiting, start_waiting, time_out, report_events}

-- A task that waits, and the events of its channel that `epoll_wait` has given and `poll` has not yet
-- passed on.
pub record Polled : Type 0 where
  pub waiting : Waiting
  pub fetched : Option ℕ

-- The timer fires; the system reports events of a channel that has some, since without it is not
-- watched; or `poll` passes on what was reported, whatever has become of the channel by then.
pub data Step (s s' : Polled) : Type 0 where
  expired : s' ≡ record s { waiting = time_out s.waiting } → Step s s'
  reported :
      (op : ℕ)
      → (s.waiting.channel.events == 0) ≡ false
      → s' ≡ record s { fetched = some op }
      → Step s s'
  triggered :
      (op : ℕ)
      → s.fetched ≡ some op
      → s' ≡ record { waiting = report_events op s.waiting; fetched = none }
      → Step s s'

pub data Reaches (s : Polled) : Polled → Type 0 where
  here : Reaches s s
  step : {s' s'' : Polled} → Reaches s s' → Step s' s'' → Reaches s s''

record Asleep (w : Waiting) : Type 0 where
  none_left : w.channel.events ≡ 0
  not_awake : w.awake ≡ false

IsQuiet : Polled → Type 0
IsQuiet s = Asleep s.waiting × (s.fetched ≡ none)

-- The guard is needed: an event that was fetched before the timer fired does wake the task.
pub fetched-awake :
    (task : ℕ) (event : IoEvent) (t : Option ℕ)
    → (s : Polled) × Reaches
        (record {
          waiting = time_out (start_waiting task event (channel false false t));
          fetched = some 0x1;
        })
        s
      × (s.waiting.awake ≡ true)
unfolding report_events time_out start_waiting add_event cancel_event trigger hang_up fail
fetched-awake task read_event t =
    (_, step here (triggered 0x1 refl refl), rw (==_refl task, report_events) refl)
fetched-awake task write_event t =
    (_, step here (triggered 0x1 refl refl), rw (==_refl task, report_events) refl)
