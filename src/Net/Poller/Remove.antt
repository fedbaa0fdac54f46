-- ===== src/Net/Poller/Remove.antt =====
-- `removeChannel` (spike/net/Poller.cpp) and the agreement of the poller, its channels and the system.
use lim_webserver.Base.{
  ℕ, ◌≡◌, refl, sym, ap, arith, ◌==◌, ==_refl, if◌then◌else◌, false, ◌&&◌, Option, none, some, inr,
}
use lim_webserver.Base.Outcome.{ok, fault, Returns, Returns-if}
use lim_webserver.Net.Poller.{
  IoChannelState, new, exist, discard, Epoll, put, holds, EpollPoller, with_state, remove_in,
  remove_channel,
}
use lim_webserver.Net.Poller.Agreement.{is_new, is_exist, IsAgreed, moved-IsAgreed}
use lim_webserver.Net.Poller.Update.{put_same, here_put, own_of, holds_refl, some_of}

module _ (p : Epoll) (e : EpollPoller p) (i : IsAgreed p e) (c : ℕ) where
  open p use {Interest, registered, delete, registered-delete}

  abbrev fd_of : ℕ
  fd_of = (e.channels c).fd

  removed :
      (s : IoChannelState) (r : Option ℕ) (interest' : Interest)
      → e.channel_map fd_of ≡ some c
      → ((j : ℕ) → registered interest' j ≡ put fd_of none (registered e.interest) j)
      → IsAgreed p (record {
        channel_map = put fd_of none e.channel_map;
        channels = with_state p c new e;
        interest = interest';
      })
  removed s r interest' own reg =
      moved-IsAgreed p e i c new none none (inr own) (refl, refl) interest' reg

  -- What `removeChannel` leaves.
  abbrev pub IsRemoved : EpollPoller p → Type 0
  IsRemoved e' =
      IsAgreed p e' × (registered e'.interest fd_of ≡ none) × (e'.channel_map fd_of ≡ none)

  guarded :
      (interest' : Interest)
      → ((j : ℕ) → registered interest' j ≡ put fd_of none (registered e.interest) j)
      → e.channel_map fd_of ≡ some c
      → (e.channels c).event ≡ 0
      → Returns
          (if holds (e.channel_map fd_of) c && (e.channels c).event == 0
            then ok (record {
              channel_map = put fd_of none e.channel_map;
              channels = with_state p c new e;
              interest = interest';
            })
            else fault)
          IsRemoved
  guarded interest' reg own idle =
      Returns-if IsRemoved (holds (e.channel_map fd_of) c && (e.channels c).event == 0)
        (ok (record {
          channel_map = put fd_of none e.channel_map;
          channels = with_state p c new e;
          interest = interest';
        }))
        fault
        (λ _. (
          removed new none interest' own reg,
          here_put p e i c none interest' reg,
          rw (==_refl fd_of) refl,
        ))
        (λ h. absurd (refused h))
    where
      refused : (holds (e.channel_map fd_of) c && (e.channels c).event == 0) ≡ false → ⊥
      refused h = ground (arith, holds_refl p e i c own)

  remove_in-IsRemoved :
      (s : IoChannelState)
      → (e.channels c).state ≡ s
      → is_new s ≡ false
      → (e.channels c).event ≡ 0
      → Returns (remove_in p s c e) IsRemoved
  unfolding remove_in
  remove_in-IsRemoved new st old idle = absurd (cc old)
  remove_in-IsRemoved discard st old idle =
      let gone = i.not_in_interest c (ap is_exist st) (ap is_new st) in
      guarded e.interest
        (λ j.
          sym (ap (λ (f : ℕ → Option ℕ). f j) (put_same fd_of none (registered e.interest) gone)))
        (own_of p e i c discard st refl) idle
  remove_in-IsRemoved exist st old idle =
      let (was, at) =
        some_of p e i c (registered e.interest fd_of) (i.in_interest c (ap is_exist st)) in
      guarded (delete fd_of e.interest) (λ j. registered-delete e.interest fd_of was j at)
        (own_of p e i c exist st refl) idle

-- `removeChannel` of a channel that is not new and waits for no event fails no assertion; the descriptor is then neither in the map nor registered
-- with the system, and map, states and interest list agree again.
pub remove_channel-IsRemoved :
    (p : Epoll) (e : EpollPoller p) (c : ℕ)
    → IsAgreed p e
    → is_new (e.channels c).state ≡ false
    → (e.channels c).event ≡ 0
    → Returns (remove_channel p c e) λ e'.
      IsAgreed p e'
      × (p.registered e'.interest (e.channels c).fd ≡ none)
      × (e'.channel_map (e.channels c).fd ≡ none)
unfolding remove_channel
remove_channel-IsRemoved p e c i old idle =
    remove_in-IsRemoved p e i c (e.channels c).state refl old idle
