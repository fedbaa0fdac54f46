-- ===== src/Net/Poller.antt =====
-- `EpollPoller` (spike/net/Poller.h and Poller.cpp): the map from descriptors to channels, the state that each channel
-- has with the poller, and what is registered with the system. A channel is a number; the system's `epoll` is a
-- parameter with the behaviour that its manual describes.
pub mod Agreement
pub mod Update
pub mod Remove
use lim_webserver.Base.{
  ℕ, ◌≡◌, ◌==◌, if◌then◌else◌, Bool, true, false, not, ◌&&◌, ◌||◌, Option, none, some, bit_or,
}
use lim_webserver.Base.Outcome.{Outcome, ok, fault}

pub data IoChannelState : Type 0 where
  new exist discard : IoChannelState

-- The descriptor of a channel, the events that it waits for, and its state with the poller.
pub record PolledChannel : Type 0 where
  pub fd : ℕ
  pub event : ℕ
  pub state : IoChannelState

-- `epoll_ctl` on an interest list: what is registered for each descriptor. The calls fail, and change nothing,
-- where a descriptor is added twice, or changed or deleted without having been added.
pub record Epoll : Type 1 where
  pub Interest : Type 0
  pub registered : Interest → ℕ → Option ℕ
  pub add : ℕ → ℕ → Interest → Interest
  pub modify : ℕ → ℕ → Interest → Interest
  pub delete : ℕ → Interest → Interest
  pub registered-add :
      (s : Interest) (fd e j : ℕ)
      → registered s fd ≡ none
      → registered (add fd e s) j ≡ (if fd == j then some e else registered s j)
  pub registered-modify :
      (s : Interest) (fd e old j : ℕ)
      → registered s fd ≡ some old
      → registered (modify fd e s) j ≡ (if fd == j then some e else registered s j)
  pub registered-delete :
      (s : Interest) (fd old j : ℕ)
      → registered s fd ≡ some old
      → registered (delete fd s) j ≡ (if fd == j then none else registered s j)

-- A map with a new value at a key.
abbrev pub put {ℓ} : {A : Type ℓ} → ℕ → A → (ℕ → A) → ℕ → A
put k v f j = if k == j then v else f j

abbrev pub holds : Option ℕ → ℕ → Bool
holds none c = false
holds (some d) c = d == c

abbrev pub is_free : Option ℕ → Bool
is_free none = true
is_free (some d) = false

-- `channel->event() | EPOLLET`
pub watched : ℕ → ℕ
watched event = bit_or event 0x80000000

module _ (p : Epoll) where
  open p use {Interest, add, modify, delete}

  pub record EpollPoller : Type 0 where
    pub channel_map : ℕ → Option ℕ
    pub channels : ℕ → PolledChannel
    pub interest : Interest

  abbrev pub with_state : ℕ → IoChannelState → EpollPoller → ℕ → PolledChannel
  with_state c s e = put c (record (e.channels c) { state = s }) e.channels

  -- `updateChannel` by the state of the channel. An assertion that fails is a fault.
  unfoldable pub update_in : IoChannelState → ℕ → EpollPoller → Outcome EpollPoller
  update_in new c e =
      let ch = e.channels c in
      if is_free (e.channel_map ch.fd)
      then ok record {
        channel_map = put ch.fd (some c) e.channel_map;
        channels = with_state c exist e;
        interest = add ch.fd (watched ch.event) e.interest;
      }
      else fault
  update_in discard c e =
      let ch = e.channels c in
      if holds (e.channel_map ch.fd) c
      then ok record {
        channel_map = e.channel_map;
        channels = with_state c exist e;
        interest = add ch.fd (watched ch.event) e.interest;
      }
      else fault
  update_in exist c e =
      let ch = e.channels c in
      if holds (e.channel_map ch.fd) c
      then if ch.event == 0
        then ok record {
          channel_map = e.channel_map;
          channels = with_state c discard e;
          interest = delete ch.fd e.interest;
        }
        else ok (record e { interest = modify ch.fd (watched ch.event) e.interest })
      else fault

  unfoldable pub update_channel : ℕ → EpollPoller → Outcome EpollPoller
  unfolding update_in
  update_channel c e = update_in (e.channels c).state c e

  -- `removeChannel` by the state of the channel.
  unfoldable pub remove_in : IoChannelState → ℕ → EpollPoller → Outcome EpollPoller
  remove_in new c e = fault
  remove_in s c e =
      let ch = e.channels c in
      if holds (e.channel_map ch.fd) c && ch.event == 0
      then ok record {
        channel_map = put ch.fd none e.channel_map;
        channels = with_state c new e;
        interest = elim s [ exist ↦ delete ch.fd e.interest | _ ↦ e.interest ];
      }
      else fault

  unfoldable pub remove_channel : ℕ → EpollPoller → Outcome EpollPoller
  unfolding remove_in
  remove_channel c e = remove_in (e.channels c).state c e

  -- `hasChannel`
  unfoldable pub has_channel : ℕ → EpollPoller → Bool
  has_channel c e = holds (e.channel_map (e.channels c).fd) c
