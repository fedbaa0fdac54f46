-- ===== src/Net/Poll.antt =====
-- `EpollPoller::poll` (spike/net/Poller.cpp): what it does with the events that `epoll_wait` gives, and the
-- size of the vector for them. A channel is a number, and a task that is woken joins a list.
use lim_webserver.Base.{
  ℕ, ◌*◌, ◌≤◌, ◌<◌, ◌≡◌, refl, ap, arith, ◌==◌, ==_iff, if◌then◌else◌, Bool-cases, inl, inr, Option,
  none, some, List, [], ◌∷◌, ◌++◌, length,
}
use lim_webserver.Net.Channel.{IoChannel, trigger}

-- An entry of the vector: the descriptor that wakes the poller, or a channel with its events.
pub data Ready : Type 0 where
  wake : Ready
  of_channel : ℕ → ℕ → Ready

-- The loop over the entries.
pub dispatch : (ℕ → IoChannel) → List Ready → List ℕ
dispatch channels [] = []
dispatch channels (wake ∷ rs) = dispatch channels rs
dispatch channels (of_channel c events ∷ rs) =
    let rest = dispatch channels rs in
    elim (trigger events (channels c)) [ none ↦ rest | some t ↦ t ∷ rest ]

-- `poll`: the tasks that are woken and the new size of the vector. `none` is a failure of
-- `epoll_wait`, which is logged at most.
unfoldable pub poll : (ℕ → IoChannel) → ℕ → Option (List Ready) → List ℕ × ℕ
poll channels size none = ([], size)
poll channels size (some ready) =
    (dispatch channels ready, if length ready == size then size * 2 else size)

-- After a wait the vector has room for more events than came; `epoll_wait` gives no more than the
-- vector holds, which is not empty.
pub poll_room :
    (channels : ℕ → IoChannel) (size : ℕ) (ready : List Ready)
    → 0 < size
    → length ready ≤ size
    → length ready < (poll channels size (some ready)).1
unfolding poll
poll_room channels size ready some_room fits = elim (Bool-cases (length ready == size)) [
  | inl e ↦ rw e (let same = (==_iff (length ready) size).0 e in omega (arith, same))
  | inr e ↦ rw e (ground (arith, e, fits))
]

-- The events of two waits wake the tasks that the events of one wait with all of them would wake, in the
-- same order.
pub dispatch-append :
    (channels : ℕ → IoChannel) (rs rs' : List Ready)
    → dispatch channels (rs ++ rs') ≡ dispatch channels rs ++ dispatch channels rs'
unfolding dispatch
dispatch-append channels [] rs' = refl
dispatch-append channels (wake ∷ rs) rs' = dispatch-append channels rs rs'
dispatch-append channels (of_channel c events ∷ rs) rs' =
    woken (trigger events (channels c)) (dispatch-append channels rs rs')
  where
    woken :
        (o : Option ℕ)
        → dispatch channels (rs ++ rs') ≡ dispatch channels rs ++ dispatch channels rs'
        → elim o [
          | none ↦ dispatch channels (rs ++ rs')
          | some t ↦ t ∷ dispatch channels (rs ++ rs')
        ]
          ≡ elim o [ none ↦ dispatch channels rs | some t ↦ t ∷ dispatch channels rs ]
            ++ dispatch channels rs'
    woken none h = h
    woken (some t) h = ap (t ∷◌) h
