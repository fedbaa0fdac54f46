-- ===== src/Net/Socket.antt =====
-- `Socket` (spike/net/Socket.h and Socket.cpp): its fields, and the system's calls that its functions make. The
-- system is a parameter with the behaviour of `socket`, `accept` and `close` on the set of open descriptors;
-- what every other call answers is an argument. An address is given by its family.
pub mod Open
use lim_webserver.Base.{
  ℕ, ◌≡◌, ◌≢◌, ◌==◌, if◌then◌else◌, Bool, true, false, not, ◌&&◌, ◌||◌, Option, none, some,
}
use lim_webserver.Base.Outcome.{Outcome, ok, fault}

pub record Kernel : Type 1 where
  pub Descriptors : Type 0
  pub is_open : Descriptors → ℕ → Bool
  -- A call that makes a descriptor: one that was not open.
  pub fresh : Descriptors → ℕ
  pub open_fresh : Descriptors → Descriptors
  pub close_fd : ℕ → Descriptors → Descriptors
  pub fresh-closed : (s : Descriptors) → is_open s (fresh s) ≡ false
  pub is_open-open_fresh :
      (s : Descriptors) (j : ℕ) → is_open (open_fresh s) j ≡ (fresh s == j || is_open s j)
  pub is_open-close_fd :
      (s : Descriptors) (fd j : ℕ) → is_open (close_fd fd s) j ≡ (not (fd == j) && is_open s j)

-- The address that the system told, or an `UnknownAddress`.
pub data Address : Type 0 where
  known : ℕ → Address
  unknown_address : ℕ → Address

-- `TCP` and `UDP`
pub data SocketType : Type 0 where
  tcp udp : SocketType

-- `none` is the descriptor -1 and the null address.
pub record Socket : Type 0 where
  pub fd : Option ℕ
  pub family : ℕ
  pub type : SocketType
  pub is_connected : Bool
  pub local_address : Option Address
  pub peer_address : Option Address

-- The addresses as `getsockname` and `getpeername` answer; `none` is a failure.
unfoldable pub find_local_address : Option ℕ → Socket → Address × Socket
find_local_address answer s = elim s.local_address [
  | some a ↦ (a, s)
  | none ↦ elim answer [
    | none ↦ (unknown_address s.family, s)
    | some a ↦ (known a, record s { local_address = some (known a) })
  ]
]

unfoldable pub find_peer_address : Option ℕ → Socket → Address × Socket
find_peer_address answer s = elim s.peer_address [
  | some a ↦ (a, s)
  | none ↦ elim answer [
    | none ↦ (unknown_address s.family, s)
    | some a ↦ (known a, record s { peer_address = some (known a) })
  ]
]

-- `send`, `sendTo`, `recv` and `recvFrom` call the system on a connected socket only.
unfoldable pub transfer : (Option ℕ → Option ℕ) → Socket → Option ℕ
transfer call s = if s.is_connected then call s.fd else none

module _ (k : Kernel) where
  open k use {Descriptors, fresh, open_fresh, close_fd}

  -- The constructor; its options need no descriptor of their own.
  unfoldable pub new_socket : ℕ → SocketType → Descriptors → Socket × Descriptors
  new_socket family type sys = (
    record {
      fd = some (fresh sys);
      family = family;
      type = type;
      is_connected = false;
      local_address = none;
      peer_address = none;
    },
    open_fresh sys,
  )

  abbrev is_udp : SocketType → Bool
  is_udp tcp = false
  is_udp udp = true

  -- `CreateTCP`, `CreateUDP` and the functions for one family.
  unfoldable pub create_socket : ℕ → SocketType → Descriptors → Socket × Descriptors
  unfolding new_socket
  create_socket family type sys =
      let (s, sys') = new_socket family type sys in (record s { is_connected = is_udp type }, sys')

  -- `CreateUnixUDPSocket`
  unfoldable pub create_unix_udp : ℕ → Descriptors → Socket × Descriptors
  unfolding new_socket
  create_unix_udp family sys = new_socket family udp sys

  unfoldable pub close_socket : Socket → Descriptors → Bool × Socket × Descriptors
  close_socket s sys = elim s.fd [
    | none ↦
        if not s.is_connected
        then (true, s, sys)
        else (false, record s { is_connected = false }, sys)
    | some fd ↦ (false, record s { is_connected = false; fd = none }, close_fd fd sys)
  ]

  -- `init`, for a descriptor that the table of descriptors knows as a socket or not.
  unfoldable pub init_socket : Bool → Option ℕ → Option ℕ → ℕ → Socket → Bool × Socket
  unfolding find_local_address find_peer_address
  init_socket is_socket local peer fd s =
      if is_socket
      then (
        true,
        (find_peer_address peer
            (find_local_address local (record s { fd = some fd; is_connected = true })).1).1,
      )
      else (false, s)

  -- `~Socket` of a socket that nobody holds any more.
  unfoldable pub destroy : Socket → Descriptors → Descriptors
  unfolding close_socket
  destroy s sys = (close_socket s sys).2

  -- `accept`: a new socket is made first, and then given the descriptor that the system's `accept` makes, if
  -- that succeeds.
  unfoldable pub accept_socket :
      Bool → Bool → Option ℕ → Option ℕ → Socket → Descriptors → Option Socket × Descriptors
  unfolding new_socket init_socket destroy
  accept_socket succeeds is_socket local peer s sys =
      let (client, sys1) = new_socket s.family s.type sys in
      if not succeeds
      then (none, destroy client sys1)
      else (let (done, client') = init_socket is_socket local peer (fresh sys1) client in
          if done
          then (some client', open_fresh sys1)
          else (none, destroy client' (open_fresh sys1)))

  -- `bind` to an address of a family; `answers` is whether the system's call succeeds.
  unfoldable pub bind_socket : ℕ → Bool → Option ℕ → Socket → Bool × Socket
  unfolding find_local_address
  bind_socket family answers local s =
      if not (family == s.family)
      then (false, s)
      else if not answers
      then (false, s)
      else (true, (find_local_address local s).1)

  -- `connect`, with a timeout or not, for a descriptor that the table knows or not; the table is asked to keep a
  -- timeout without a test.
  unfoldable pub connect_socket :
      ℕ
      → Bool
      → Bool
      → Bool
      → Option ℕ
      → Option ℕ
      → Socket
      → Descriptors
      → Outcome (Bool × Socket × Descriptors)
  unfolding close_socket find_local_address find_peer_address
  connect_socket family timed in_table answers local peer s sys =
      if not (family == s.family)
      then ok (false, s, sys)
      else if timed && not in_table
      then fault
      else if not answers
      then (let (_, s', sys') = close_socket s sys in ok (false, s', sys'))
      else ok (
        true,
        (find_local_address local (find_peer_address peer (record s { is_connected = true })).1).1,
        sys,
      )
