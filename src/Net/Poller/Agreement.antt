-- ===== src/Net/Poller/Agreement.antt =====
-- The poller's map, the states of the channels and the system's interest list agree (spike/net/Poller.cpp).
use lim_webserver.Base.{ℕ, ◌≡◌, ◌⊎◌, arith, Bool, true, false, Option, none, some}
use lim_webserver.Net.Poller.{
  IoChannelState, new, exist, discard, Epoll, put, is_free, EpollPoller, with_state,
}

abbrev pub is_new : IoChannelState → Bool
is_new new = true
is_new _ = false

abbrev pub is_exist : IoChannelState → Bool
is_exist exist = true
is_exist _ = false

module _ (p : Epoll) where
  open p use {Interest, registered, registered-add, registered-modify, registered-delete}

  -- Each descriptor of the map leads to a channel with that descriptor that is not new, each channel that is not new is at its descriptor, and
  -- a descriptor is registered with the system exactly if its channel has the state `EXIST`.
  pub record IsAgreed (e : EpollPoller p) : Type 0 where
    pub mapped :
        (fd c : ℕ)
        → e.channel_map fd ≡ some c
        → ((e.channels c).fd ≡ fd) × (is_new (e.channels c).state ≡ false)
    pub listed :
        (c : ℕ) → is_new (e.channels c).state ≡ false → e.channel_map (e.channels c).fd ≡ some c
    pub in_interest :
        (c : ℕ)
        → is_exist (e.channels c).state ≡ true
        → is_free (registered e.interest (e.channels c).fd) ≡ false
    pub not_in_interest :
        (c : ℕ)
        → is_exist (e.channels c).state ≡ false
        → is_new (e.channels c).state ≡ false
        → registered e.interest (e.channels c).fd ≡ none
    pub unmapped : (fd : ℕ) → e.channel_map fd ≡ none → registered e.interest fd ≡ none

  -- What a channel's state says of its descriptor in the map and in the interest list.
  abbrev pub Suits : ℕ → IoChannelState → Option ℕ → Option ℕ → Type 0
  Suits c new m r = (m ≡ none) × (r ≡ none)
  Suits c exist m r = (m ≡ some c) × (is_free r ≡ false)
  Suits c discard m r = (m ≡ some c) × (r ≡ none)

  -- The channel `c` gets the state `s`, and its descriptor the entries `m` and `r`, which nothing else changes.
  module _ (e : EpollPoller p) (i : IsAgreed e) (c : ℕ) (s : IoChannelState) (m r : Option ℕ)
      (own : (e.channel_map (e.channels c).fd ≡ none) ⊎ (e.channel_map (e.channels c).fd ≡ some c))
      (suits : Suits c s m r) (interest' : Interest)
      (reg : (j : ℕ)
        → registered interest' j ≡ put (e.channels c).fd r (registered e.interest) j) where
    abbrev pub moved : EpollPoller p
    moved = record {
      channel_map = put (e.channels c).fd m e.channel_map;
      channels = with_state p c s e;
      interest = interest';
    }

    moved-mapped :
        (fd d : ℕ)
        → moved.channel_map fd ≡ some d
        → ((moved.channels d).fd ≡ fd) × (is_new (moved.channels d).state ≡ false)
    moved-mapped fd d h = ground (arith, i.mapped fd d)

    moved-listed :
        (d : ℕ)
        → is_new (moved.channels d).state ≡ false
        → moved.channel_map (moved.channels d).fd ≡ some d
    moved-listed d h = ground (arith, i.listed d)

    moved-in_interest :
        (d : ℕ)
        → is_exist (moved.channels d).state ≡ true
        → is_free (registered moved.interest (moved.channels d).fd) ≡ false
    moved-in_interest d h = ground (arith, i.in_interest d, i.listed d, reg (moved.channels d).fd)

    moved-not_in_interest :
        (d : ℕ)
        → is_exist (moved.channels d).state ≡ false
        → is_new (moved.channels d).state ≡ false
        → registered moved.interest (moved.channels d).fd ≡ none
    moved-not_in_interest d h n =
        ground (arith, i.not_in_interest d, i.listed d, reg (moved.channels d).fd)

    moved-unmapped : (fd : ℕ) → moved.channel_map fd ≡ none → registered moved.interest fd ≡ none
    moved-unmapped fd h = ground (arith, i.unmapped fd, reg fd)

    pub moved-IsAgreed : IsAgreed moved
    moved-IsAgreed = record {
      mapped = moved-mapped;
      listed = moved-listed;
      in_interest = moved-in_interest;
      not_in_interest = moved-not_in_interest;
      unmapped = moved-unmapped;
    }
