-- ===== src/Net/Socket/Open.antt =====
-- The descriptors that sockets open and close (spike/net/Socket.cpp).
use lim_webserver.Base.{
  ℕ, ◌≡◌, refl, ap, ◌∙◌, arith, ◌==◌, Bool, true, false, not, ◌&&◌, Option, none, some,
}
use lim_webserver.Base.Outcome.{Returns}
use lim_webserver.Net.Socket.{
  Kernel, Socket, transfer, new_socket, close_socket, init_socket, destroy, accept_socket,
  connect_socket, find_local_address, find_peer_address,
}

module _ (k : Kernel) where
  open k use {
    Descriptors, is_open, fresh, open_fresh, close_fd, fresh-closed, is_open-open_fresh,
    is_open-close_fd,
  }

  addresses-fd :
      (local peer : Option ℕ) (s : Socket)
      → (find_peer_address peer (find_local_address local s).1).1.fd ≡ s.fd
  unfolding find_local_address find_peer_address
  addresses-fd local peer s = ground arith

  addresses-kept :
      (local peer : Option ℕ) (s : Socket)
      → let s' = (find_local_address local (find_peer_address peer s).1).1 in
        (s'.fd ≡ s.fd) × (s'.is_connected ≡ s.is_connected)
  unfolding find_local_address find_peer_address
  addresses-kept local peer s = ground arith

  close_with :
      (s : Socket) (fd : ℕ) (sys : Descriptors)
      → s.fd ≡ some fd
      → close_socket k s sys
        ≡ (false, record s { is_connected = false; fd = none }, close_fd fd sys)
  unfolding close_socket
  close_with s fd sys e = ap (λ o. close_socket k (record s { fd = o }) sys) e

  -- Only a descriptor of another number is closed.
  still_open :
      (sys : Descriptors) (s : Socket)
      → s.fd ≡ some (fresh (open_fresh sys))
      → is_open (destroy k s (open_fresh (open_fresh sys))) (fresh sys) ≡ true
  unfolding destroy
  still_open sys s e =
      ap (λ (r : Bool × Socket × Descriptors). is_open r.2 (fresh sys))
        (close_with s (fresh (open_fresh sys)) (open_fresh (open_fresh sys)) e)
      ∙ other
    where
      other :
          is_open (close_fd (fresh (open_fresh sys)) (open_fresh (open_fresh sys))) (fresh sys)
          ≡ true
      other = ground (
        arith,
        is_open-close_fd (open_fresh (open_fresh sys)) (fresh (open_fresh sys)) (fresh sys),
        is_open-open_fresh (open_fresh sys) (fresh sys),
        is_open-open_fresh sys (fresh sys),
        fresh-closed (open_fresh sys),
      )

  transfer_over :
      (call : Option ℕ → Option ℕ) (s : Socket) (o : Option ℕ)
      → s.is_connected ≡ true
      → s.fd ≡ o
      → transfer call s ≡ call o
  unfolding transfer
  transfer_over call s o c e = simp (c, e)

  timed_out : (timed : Bool) → (timed && not true) ≡ false
  timed_out true = refl
  timed_out false = refl

  -- A connection that is accepted has a descriptor that was not open before, but the one that was made for the new socket before the
  -- system's call stays open without a holder: also when the new socket is destroyed.
  pub accept_socket-leaks :
      (local peer : Option ℕ) (s : Socket) (sys : Descriptors)
      → (client : Socket) × ((accept_socket k true true local peer s sys).0 ≡ some client)
        × (fd : ℕ) × (client.fd ≡ some fd)
        × (is_open sys fd ≡ false)
        × (is_open sys (fresh sys) ≡ false)
        × (is_open (destroy k client (accept_socket k true true local peer s sys).1) (fresh sys)
            ≡ true)
  unfolding accept_socket new_socket init_socket
  accept_socket-leaks local peer s sys =
      let made : Socket = record {
        fd = some (fresh (open_fresh sys));
        family = s.family;
        type = s.type;
        is_connected = true;
        local_address = none;
        peer_address = none;
      } in
      let client = (find_peer_address peer (find_local_address local made).1).1 in
      let e : client.fd ≡ some (fresh (open_fresh sys)) = addresses-fd local peer made in
      (
        client,
        refl,
        fresh (open_fresh sys),
        e,
        ground
            (arith, is_open-open_fresh sys (fresh (open_fresh sys)), fresh-closed (open_fresh sys)),
        fresh-closed sys,
        still_open sys client e,
      )

  -- When the system's `accept` fails, the same descriptors are open as before.
  pub accept_socket-failed :
      (known : Bool) (local peer : Option ℕ) (s : Socket) (sys : Descriptors) (j : ℕ)
      → ((accept_socket k false known local peer s sys).0 ≡ none)
        × (is_open (accept_socket k false known local peer s sys).1 j ≡ is_open sys j)
  unfolding accept_socket new_socket destroy close_socket
  accept_socket-failed known local peer s sys j = (
    refl,
    ground (
      arith,
      is_open-close_fd (open_fresh sys) (fresh sys) j,
      is_open-open_fresh sys j,
      fresh-closed sys,
    ),
  )

  -- What `connect` leaves: families that differ, a system that connects, and one that does not.
  abbrev pub IsTried :
      (Option ℕ → Option ℕ)
      → ℕ
      → Bool
      → Bool
      → Socket
      → Descriptors
      → Bool × Socket × Descriptors
      → Type 0
  IsTried call fd false answers s sys r = r ≡ (false, s, sys)
  IsTried call fd true true s sys (done, s', sys') =
      (done ≡ true) × (s'.fd ≡ some fd) × (transfer call s' ≡ call (some fd)) × (sys' ≡ sys)
  IsTried call fd true false s sys (done, s', sys') =
      (done ≡ false) × (s'.fd ≡ none) × (transfer call s' ≡ none) × (is_open sys' fd ≡ false)

  -- `connect` of a socket whose descriptor the table knows: when the families differ, it returns false and changes
  -- nothing. When the system connects, it returns true, and what is sent or received goes to its descriptor. When the system does not, it returns
  -- false, the descriptor is closed, and nothing is sent or received any more.
  pub connect_socket-IsTried :
      (timed same answers : Bool) (local peer : Option ℕ) (family fd : ℕ) (s : Socket)
      (sys : Descriptors) (call : Option ℕ → Option ℕ)
      → s.fd ≡ some fd
      → (family == s.family) ≡ same
      → Returns
          (connect_socket k family timed true answers local peer s sys)
          (IsTried call fd same answers s sys)
  unfolding connect_socket transfer
  connect_socket-IsTried timed false answers local peer family fd s sys call e h = rw h refl
  connect_socket-IsTried timed true true local peer family fd s sys call e h =
      let s1 : Socket = record s { is_connected = true } in
      let kept = addresses-kept local peer s1 in
      rw (h, timed_out timed)
        (
          refl,
          kept.0 ∙ e,
          transfer_over call (find_local_address local (find_peer_address peer s1).1).1 (some fd)
              kept.1 (kept.0 ∙ e),
          refl,
        )
  connect_socket-IsTried timed true false local peer family fd s sys call e h =
      rw (h, timed_out timed, close_with s fd sys e) (refl, refl, refl, closed)
    where
      closed : is_open (close_fd fd sys) fd ≡ false
      closed = ground (arith, is_open-close_fd sys fd fd)
