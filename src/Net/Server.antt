-- ===== src/Net/Server.antt =====
-- `TcpServer` (spike/net/Server.h and Server.cpp): its listening sockets, and the loop that accepts clients. A task that
-- is created for a client is the client's socket in a list.
use lim_webserver.Base.{
  ℕ, ◌≡◌, ap, ◌∙◌, sym, if◌then◌else◌, Bool, true, false, not, ◌&&◌, Option, none, some, List, [],
  ◌∷◌, ◌++◌, append_assoc, append-nil,
}
use lim_webserver.Base.Outcome.{Outcome, ok, fault, stuck, ◌>>=◌}
use lim_webserver.Net.Socket.{
  Kernel, Socket, tcp, create_socket, bind_socket, close_socket, destroy,
}

pub record TcpServer : Type 0 where
  pub started : Bool
  pub socket_vec : List Socket

module _ (k : Kernel) where
  open k use {Descriptors}

  -- The destructors of sockets that leave the vector.
  pub destroy_all : List Socket → Descriptors → Descriptors
  destroy_all [] sys = sys
  destroy_all (s ∷ ss) sys = destroy_all ss (destroy k s sys)

  -- `bind` to one address of a family, where the system's `bind` and `listen` answer so.
  unfoldable pub bind_server :
      ℕ → Bool → Bool → Option ℕ → TcpServer → Descriptors → Bool × TcpServer × Descriptors
  bind_server family binds listens local server sys =
      let (s, sys') = create_socket k family tcp sys in
      let (bound, s') = bind_socket k family binds local s in
      if bound && listens
      then (true, record server { socket_vec = server.socket_vec ++ (s' ∷ []) }, sys')
      else (
        false,
        record server { socket_vec = [] },
        destroy_all server.socket_vec (destroy k s' sys'),
      )

  -- `stop`, which closes every socket and then lets go of it.
  pub close_all : List Socket → Descriptors → Descriptors
  close_all [] sys = sys
  close_all (s ∷ ss) sys = close_all ss (close_socket k s sys).2

  unfoldable pub stop_server : TcpServer → Descriptors → TcpServer × Descriptors
  stop_server server sys =
      if not server.started
      then (server, sys)
      else (record { started = false; socket_vec = [] }, close_all server.socket_vec sys)

-- `start`: a task for each socket.
unfoldable pub start_server : TcpServer → TcpServer × List Socket
start_server server = (record server { started = true }, server.socket_vec)

-- One round of `accept`: the client's address is asked for before the client is looked at.
unfoldable pub accept_round : Option Socket → List Socket → Outcome (List Socket)
accept_round none tasks = fault
accept_round (some client) tasks = ok (tasks ++ (client ∷ []))

-- The loop of `accept`, with what `m_started` is at each test and what each call of `accept` gives.
pub accept_loop : List (Bool × Option Socket) → List Socket → Outcome (List Socket)
accept_loop [] tasks = stuck
accept_loop ((started, client) ∷ rest) tasks =
    if not started then ok tasks else accept_round client tasks >>= accept_loop rest

-- The clients of a run, before it is stopped.
abbrev pub running : List Socket → List (Bool × Option Socket) → List (Bool × Option Socket)
running [] rest = rest
running (c ∷ cs) rest = (true, some c) ∷ running cs rest

-- While the server runs, each client that is accepted is given to a task, in order; the loop ends when the server was stopped before the
-- next test.
pub accept_loop_clients :
    (clients tasks : List Socket) (answer : Option Socket) (rest : List (Bool × Option Socket))
    → accept_loop (running clients ((false, answer) ∷ rest)) tasks ≡ ok (tasks ++ clients)
unfolding accept_loop accept_round
accept_loop_clients [] tasks answer rest = ap ok (sym (append-nil tasks))
accept_loop_clients (c ∷ cs) tasks answer rest =
    accept_loop_clients cs (tasks ++ (c ∷ [])) answer rest ∙ ap ok (append_assoc tasks (c ∷ []) cs)
