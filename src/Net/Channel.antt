-- ===== src/Net/Channel.antt =====
-- `IoChannel` (spike/net/IoChannel.cpp): the events that are waited for on a descriptor, and the one
-- task that is woken. A call under the lock is one step; a task is a number.
use lim_webserver.Base.{
  ℕ, ◌+◌, ◌-◌, ◌≡◌, ◌⊎◌, inl, inr, refl, Bool, true, false, not, ◌&&◌, ◌||◌, ◌==◌, if◌then◌else◌,
  Option, none, some, bit_and, bit_or,
}

-- `READ` and `WRITE`
pub data IoEvent : Type 0 where
  read_event write_event : IoEvent

-- The bits of an event, which are those of `EPOLLIN` and `EPOLLOUT`.
abbrev pub bits : IoEvent → ℕ
bits read_event = 0x1
bits write_event = 0x4

pub record IoChannel : Type 0 where
  pub events : ℕ
  pub task : Option ℕ

pub new_channel : IoChannel
new_channel = record { events = 0; task = none }

abbrev pub has : ℕ → ℕ → Bool
has word mask = not (bit_and word mask == 0)

-- `addEvent`, called by a task or by none.
unfoldable pub add_event : Option ℕ → IoEvent → IoChannel → Bool × IoChannel
add_event current event c = if has c.events (bits event) then (false, c) else (
  true,
  record {
    events = bit_or c.events (bits event);
    task = elim current [ none ↦ c.task | some t ↦ some t ];
  },
)

-- `m_events & ~event` on words of 32 bits
unfoldable pub cancel_event : IoEvent → IoChannel → Bool × IoChannel
cancel_event event c =
    if has c.events (bits event)
    then (true, record c { events = bit_and c.events (0xffffffff - bits event) })
    else (false, c)

pub clear_event : IoChannel → Bool × IoChannel
clear_event c = if c.events == 0 then (false, c) else (true, record c { events = 0 })

-- The events of `epoll` that `trigger` adds to those that it is given.
unfoldable pub hang_up : ℕ → ℕ → ℕ
hang_up events op =
    if has op 0x10 && not (has op 0x1) then bit_or op (bit_and (bit_or 0x1 0x4) events) else op

unfoldable pub fail : ℕ → ℕ → ℕ
fail events op = if has op 0x8 then bit_or op (bit_and (bit_or 0x1 0x4) events) else op

-- The task that `trigger` wakes.
unfoldable pub trigger : ℕ → IoChannel → Option ℕ
trigger op c =
    let op' = fail c.events (hang_up c.events op) in
    if has op' (bit_or (bit_or 0x1 0x2) (bit_or 0x2000 0x4)) then c.task else none

-- The word of events in which the two bits are as given.
abbrev pub word : Bool → Bool → ℕ
word r w = (if r then 0x1 else 0) + (if w then 0x4 else 0)

abbrev pub channel : Bool → Bool → Option ℕ → IoChannel
channel r w t = record { events = word r w; task = t }

abbrev pub waits_for : IoEvent → Bool → Bool → Bool
waits_for read_event r w = r
waits_for write_event r w = w

abbrev pub with_event : IoEvent → Bool → Bool → Bool → ℕ
with_event read_event b r w = word b w
with_event write_event b r w = word r b

-- The word of events is a set of the two events: `addEvent` puts an event in, `cancelEvent` takes it
-- out, `clearEvent` empties the set, and each says whether it changed it.
pub events_lem :
    (event : IoEvent) (r w : Bool) (current t : Option ℕ)
    → ((add_event current event (channel r w t)).0 ≡ not (waits_for event r w))
      × ((add_event current event (channel r w t)).1.events ≡ with_event event true r w)
      × ((cancel_event event (channel r w t)).0 ≡ waits_for event r w)
      × ((cancel_event event (channel r w t)).1.events ≡ with_event event false r w)
      × ((clear_event (channel r w t)).0 ≡ (r || w))
      × ((clear_event (channel r w t)).1.events ≡ word false false)
unfolding add_event cancel_event clear_event
events_lem read_event false false current t = (refl, refl, refl, refl, refl, refl)
events_lem read_event false true current t = (refl, refl, refl, refl, refl, refl)
events_lem read_event true false current t = (refl, refl, refl, refl, refl, refl)
events_lem read_event true true current t = (refl, refl, refl, refl, refl, refl)
events_lem write_event false false current t = (refl, refl, refl, refl, refl, refl)
events_lem write_event false true current t = (refl, refl, refl, refl, refl, refl)
events_lem write_event true false current t = (refl, refl, refl, refl, refl, refl)
events_lem write_event true true current t = (refl, refl, refl, refl, refl, refl)

-- When two tasks wait on a channel without events, one to read and then one to write, both events
-- are added, and whatever event comes wakes the second task or none: the first one is forgotten.
pub trigger_second :
    (op first second : ℕ) (t : Option ℕ)
    → let (added, c1) = add_event (some first) read_event (channel false false t) in
      let (added', c2) = add_event (some second) write_event c1 in
      (added ≡ true) × (added' ≡ true) × ((trigger op c2 ≡ some second) ⊎ (trigger op c2 ≡ none))
unfolding add_event trigger
trigger_second op first second t =
    (refl, refl, either (has (fail 5 (hang_up 5 op)) (bit_or (bit_or 0x1 0x2) (bit_or 0x2000 0x4))))
  where
    either :
        (b : Bool)
        → ((if b then some second else none) ≡ some second)
          ⊎ (◌≡◌ {A = Option ℕ} (if b then some second else none) none)
    either true = inl refl
    either false = inr refl
