-- ===== src/Net/Hook/Tests.antt =====
-- Runs of `do_io`, `IoChannel` and of the division of a host (spike/coroutine/Hook.cpp, spike/net).
use lim_webserver.Base.{
  ◌≡◌, ◌||◌, refl, arith, true, false, not, none, some, [], ◌∷◌, ◌++◌, replicate,
}
use lim_webserver.Net.Channel.{
  read_event, write_event, IoChannel, add_event, cancel_event, clear_event, channel, word,
  events_lem,
}
use lim_webserver.Net.Hook.{
  bytes, interrupted, unavailable, returned, do_io, start_waiting, time_out,
}
use lim_webserver.Net.Hook.Retry.{do_io-retried}
use lim_webserver.Net.Hook.Timeout.{Polled}

do_io-retried_example :
    do_io true true (replicate 1 false) ((interrupted ∷ unavailable ∷ []) ++ (bytes 7 ∷ []))
    ≡ returned (bytes 7)
do_io-retried_example =
    do_io-retried (interrupted ∷ unavailable ∷ []) (bytes 7) [] 1 refl refl (omega arith)

-- A task whose timer has fired, once more.
abbrev forgotten : Polled
forgotten = record {
  waiting = time_out (time_out (start_waiting 3 read_event (channel false false none)));
  fetched = none;
}

events_lem_example :
    ((add_event (some 1) write_event (channel true false (some 2))).0 ≡ not false)
    × ((add_event (some 1) write_event (channel true false (some 2))).1.events ≡ word true true)
    × ((cancel_event write_event (channel true false (some 2))).0 ≡ false)
    × ((cancel_event write_event (channel true false (some 2))).1.events ≡ word true false)
    × ((clear_event (channel true false (some 2))).0 ≡ (true || false))
    × ((clear_event (channel true false (some 2))).1.events ≡ word false false)
events_lem_example = events_lem write_event true false (some 1) (some 2)

-- The tasks 1 and 2 wait on one channel.
abbrev shared : IoChannel
shared =
    (add_event (some 2) write_event (add_event (some 1) read_event (channel false false none)).1).1
