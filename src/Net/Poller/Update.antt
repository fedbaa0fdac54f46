-- ===== src/Net/Poller/Update.antt =====
-- `updateChannel` (spike/net/Poller.cpp) and the agreement of the poller, its channels and the system.
use mathlib.Core.Path.{subst, fun_ext}
use lim_webserver.Base.{
  ℕ, ◌≡◌, refl, sym, ap, ◌∙◌, ◌==◌, ==_iff, ==_refl, if◌then◌else◌, Bool, true, false, ◌&&◌, Option,
  none, some, Bool-cases, inl, inr,
}
use lim_webserver.Base.Outcome.{ok, fault, Returns, Returns-if}
use lim_webserver.Net.Poller.{
  IoChannelState, new, exist, discard, PolledChannel, Epoll, put, holds, is_free, watched,
  EpollPoller, with_state, update_in, update_channel,
}
use lim_webserver.Net.Poller.Agreement.{is_new, is_exist, IsAgreed, Suits, moved-IsAgreed}

pub put_same {ℓ} : {A : Type ℓ} (k : ℕ) (v : A) (f : ℕ → A) → f k ≡ v → put k v f ≡ f
put_same k v f h = fun_ext (λ j. at j)
  where
    at : (j : ℕ) → put k v f j ≡ f j
    at j = elim (Bool-cases (k == j)) [
      | inl e ↦ rw e (sym h ∙ ap f ((==_iff k j).0 e))
      | inr e ↦ rw e refl
    ]

module _ (p : Epoll) (e : EpollPoller p) (i : IsAgreed p e) (c : ℕ) where
  open p use {
    Interest, registered, add, modify, delete, registered-add, registered-modify, registered-delete,
  }

  abbrev fd_of : ℕ
  fd_of = (e.channels c).fd

  -- The channel was in the map already.
  settled :
      (s : IoChannelState) (r : Option ℕ) (interest' : Interest)
      → e.channel_map fd_of ≡ some c
      → Suits p c s (some c) r
      → ((j : ℕ) → registered interest' j ≡ put fd_of r (registered e.interest) j)
      → IsAgreed p (record {
        channel_map = e.channel_map;
        channels = with_state p c s e;
        interest = interest';
      })
  settled s r interest' own suits reg =
      subst
        (λ (f : ℕ → Option ℕ).
          IsAgreed p
            (record { channel_map = f; channels = with_state p c s e; interest = interest' }))
        (put_same fd_of (some c) e.channel_map own)
        (moved-IsAgreed p e i c s (some c) r (inr own) suits interest' reg)

  pub holds_refl : e.channel_map fd_of ≡ some c → holds (e.channel_map fd_of) c ≡ true
  holds_refl h = rw h (==_refl c)

  -- What is registered behind `updateChannel`.
  abbrev pub after_update : IoChannelState → Option ℕ
  after_update s =
      if is_exist s && (e.channels c).event == 0 then none else some (watched (e.channels c).event)

  abbrev pub IsUpdated : IoChannelState → EpollPoller p → Type 0
  IsUpdated s e' = IsAgreed p e' × (registered e'.interest fd_of ≡ after_update s)

  added :
      registered e.interest fd_of ≡ none
      → (j : ℕ)
      → registered (add fd_of (watched (e.channels c).event) e.interest) j
        ≡ put fd_of (some (watched (e.channels c).event)) (registered e.interest) j
  added h j = registered-add e.interest fd_of (watched (e.channels c).event) j h

  pub here_put :
      (r : Option ℕ) (interest' : Interest)
      → ((j : ℕ) → registered interest' j ≡ put fd_of r (registered e.interest) j)
      → registered interest' fd_of ≡ r
  here_put r interest' reg = reg fd_of ∙ rw (==_refl fd_of) refl

  -- A channel with events that is in the map already, and is registered now.
  added_again :
      registered e.interest fd_of ≡ none
      → e.channel_map fd_of ≡ some c
      → IsUpdated discard (record {
        channel_map = e.channel_map;
        channels = with_state p c exist e;
        interest = add fd_of (watched (e.channels c).event) e.interest;
      })
  added_again gone own = (
    settled exist (some (watched (e.channels c).event))
        (add fd_of (watched (e.channels c).event) e.interest) own (refl, refl) (added gone),
    here_put (some (watched (e.channels c).event)) _ (added gone),
  )

  module _ (old : ℕ) (was : registered e.interest fd_of ≡ some old)
      (own : e.channel_map fd_of ≡ some c) where
    deleted :
        IsAgreed p (record {
          channel_map = e.channel_map;
          channels = with_state p c discard e;
          interest = delete fd_of e.interest;
        })
        × (registered (delete fd_of e.interest) fd_of ≡ none)
    deleted = (
      settled discard none (delete fd_of e.interest) own (refl, refl)
          (λ j. registered-delete e.interest fd_of old j was),
      here_put none (delete fd_of e.interest) (λ j. registered-delete e.interest fd_of old j was),
    )

    modified :
        (e.channels c).state ≡ exist
        → IsAgreed p
            (record e { interest = modify fd_of (watched (e.channels c).event) e.interest })
          × (registered (modify fd_of (watched (e.channels c).event) e.interest) fd_of
              ≡ some (watched (e.channels c).event))
    modified st =
        let w = watched (e.channels c).event in
        let reg : (j : ℕ)
            → registered (modify fd_of w e.interest) j
              ≡ put fd_of (some w) (registered e.interest) j =
          λ j. registered-modify e.interest fd_of w old j was in
        (
          subst
              (λ (f : ℕ → PolledChannel). IsAgreed p (record {
                channel_map = e.channel_map;
                channels = f;
                interest = modify fd_of w e.interest;
              }))
              (put_same c (record (e.channels c) { state = exist }) e.channels
                (λ k. record (e.channels c) { state = st k }))
              (settled exist (some w) (modify fd_of w e.interest) own (refl, refl) reg),
          here_put (some w) (modify fd_of w e.interest) reg,
        )

  pub some_of : (o : Option ℕ) → is_free o ≡ false → (x : ℕ) × (o ≡ some x)
  some_of none h = absurd (cc h)
  some_of (some x) h = (x, refl)

  not_held : e.channel_map fd_of ≡ some c → holds (e.channel_map fd_of) c ≡ false → ⊥
  not_held own h = cc (holds_refl own)

  pub own_of :
      (s : IoChannelState)
      → (e.channels c).state ≡ s
      → is_new s ≡ false
      → e.channel_map fd_of ≡ some c
  own_of s st old = i.listed c (ap is_new st ∙ old)

  update_in-IsUpdated :
      (s : IoChannelState)
      → (e.channels c).state ≡ s
      → (is_new s ≡ true → e.channel_map fd_of ≡ none)
      → Returns (update_in p s c e) (IsUpdated s)
  unfolding update_in
  update_in-IsUpdated new st free =
      Returns-if (IsUpdated new) (is_free (e.channel_map fd_of))
        (ok (record {
          channel_map = put fd_of (some c) e.channel_map;
          channels = with_state p c exist e;
          interest = add fd_of (watched (e.channels c).event) e.interest;
        }))
        fault
        (λ _. (
          moved-IsAgreed p e i c exist (some c) (some (watched (e.channels c).event))
              (inl (free refl)) (refl, refl) (add fd_of (watched (e.channels c).event) e.interest)
              (added (i.unmapped fd_of (free refl))),
          here_put (some (watched (e.channels c).event)) _ (added (i.unmapped fd_of (free refl))),
        ))
        (λ h. absurd (taken h))
    where
      taken : is_free (e.channel_map fd_of) ≡ false → ⊥
      taken h = cc (ap is_free (free refl))
  update_in-IsUpdated discard st free =
      let own = own_of discard st refl in
      Returns-if (IsUpdated discard) (holds (e.channel_map fd_of) c) (ok _) fault
        (λ _. added_again (i.not_in_interest c (ap is_exist st) (ap is_new st)) own)
        (λ h. absurd (not_held own h))
  update_in-IsUpdated exist st free =
      let own = own_of exist st refl in
      let (old, was) = some_of (registered e.interest fd_of) (i.in_interest c (ap is_exist st)) in
      Returns-if (IsUpdated exist) (holds (e.channel_map fd_of) c) _ fault
        (λ _. elim (Bool-cases ((e.channels c).event == 0)) [
          | inl h ↦ rw h ((deleted old was own).0, (deleted old was own).1 ∙ sym (chosen true h))
          | inr h ↦
              rw h ((modified old was own st).0, (modified old was own st).1 ∙ sym (chosen false h))
        ])
        (λ h. absurd (not_held own h))
    where
      chosen :
          (b : Bool)
          → ((e.channels c).event == 0) ≡ b
          → after_update exist ≡ (if b then none else some (watched (e.channels c).event))
      chosen b h = ap (λ x. if x then none else some (watched (e.channels c).event)) h

-- When the poller's map, the states of the channels and the system's interest list agree, `updateChannel` fails no assertion, for a
-- new channel if no other one has its descriptor, and they agree again. The system then watches the descriptor for the
-- events of the channel, edge-triggered; but not if the channel was watched and has no event left.
pub update_channel-IsUpdated :
    (p : Epoll) (e : EpollPoller p) (c : ℕ)
    → IsAgreed p e
    → (is_new (e.channels c).state ≡ true → e.channel_map (e.channels c).fd ≡ none)
    → Returns (update_channel p c e) λ e'.
      IsAgreed p e'
      × (p.registered e'.interest (e.channels c).fd ≡ (
          if is_exist (e.channels c).state && (e.channels c).event == 0
          then none
          else some (watched (e.channels c).event)))
unfolding update_channel
update_channel-IsUpdated p e c i free = update_in-IsUpdated p e i c (e.channels c).state refl free
