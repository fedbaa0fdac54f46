-- ===== src/Net/ServerTests.antt =====
-- Runs of the poller, of sockets and of the server (spike/net), on a small system.
use lim_webserver.Base.{
  ℕ, suc, ◌+◌, ◌≤◌, ◌≡◌, refl, arith, ◌==◌, ne→==, if◌then◌else◌, Bool, true, false, not, ◌&&◌,
  ◌||◌, Option, none, some, List, [], ◌∷◌,
}
use lim_webserver.Base.Outcome.{Returns}
use lim_webserver.Net.Poller.{Epoll, EpollPoller, new, put, watched, update_channel}
use lim_webserver.Net.Poller.Agreement.{IsAgreed}
use lim_webserver.Net.Poller.Update.{update_channel-IsUpdated}
use lim_webserver.Net.Socket.{Kernel, Socket, tcp, accept_socket, destroy}
use lim_webserver.Net.Socket.Open.{accept_socket-leaks}

-- An interest list as a function.
abbrev interest_function : Epoll
interest_function = record {
  Interest = ℕ → Option ℕ;
  registered = λ s fd. s fd;
  add = λ fd e s. put fd (some e) s;
  modify = λ fd e s. put fd (some e) s;
  delete = λ fd s. put fd none s;
  registered-add = λ s fd e j h. refl;
  registered-modify = λ s fd e old j h. refl;
  registered-delete = λ s fd old j h. refl;
}

-- Two new channels, with the descriptors 10 and 11 and one event.
abbrev poller : EpollPoller interest_function
poller = record {
  channel_map = λ fd. none;
  channels = λ c. record { fd = 10 + c; event = 1; state = new };
  interest = λ fd. none;
}

poller-IsAgreed : IsAgreed interest_function poller
poller-IsAgreed = record {
  mapped = λ fd c h. absurd (cc h);
  listed = λ c h. absurd (cc h);
  in_interest = λ c h. absurd (cc h);
  not_in_interest = λ c h n. absurd (cc n);
  unmapped = λ fd h. refl;
}

update_channel-IsUpdated_example :
    Returns
      (update_channel interest_function 1 poller)
      λ e. IsAgreed interest_function e × (e.interest 11 ≡ some (watched 1))
update_channel-IsUpdated_example =
    update_channel-IsUpdated interest_function poller 1 poller-IsAgreed (λ _. refl)

-- The open descriptors as a list; a new one is above them all.
abbrev total : List ℕ → ℕ
total [] = 0
total (n ∷ ns) = n + total ns

abbrev is_member : List ℕ → ℕ → Bool
is_member [] j = false
is_member (n ∷ ns) j = n == j || is_member ns j

abbrev without : ℕ → List ℕ → List ℕ
without fd [] = []
without fd (n ∷ ns) = if fd == n then without fd ns else n ∷ without fd ns

above_total : (ns : List ℕ) (j : ℕ) → suc (total ns) ≤ j → is_member ns j ≡ false
above_total [] j h = refl
above_total (n ∷ ns) j h =
    rw (ne→== n j (λ e. omega (arith, e, h))) (above_total ns j (omega arith))

is_member-without :
    (fd : ℕ) (ns : List ℕ) (j : ℕ) → is_member (without fd ns) j ≡ (not (fd == j) && is_member ns j)
is_member-without fd [] j = ground arith
is_member-without fd (n ∷ ns) j = ground (arith, is_member-without fd ns j)

abbrev small_kernel : Kernel
small_kernel = record {
  Descriptors = List ℕ;
  is_open = is_member;
  fresh = λ ns. suc (total ns);
  open_fresh = λ ns. suc (total ns) ∷ ns;
  close_fd = without;
  fresh-closed = λ ns. above_total ns (suc (total ns)) (omega arith);
  is_open-open_fresh = λ ns j. refl;
  is_open-close_fd = λ ns fd j. is_member-without fd ns j;
}

abbrev listening : Socket
listening = record {
  fd = some 3;
  family = 2;
  type = tcp;
  is_connected = false;
  local_address = none;
  peer_address = none;
}

accept_socket-leaks_example :
    (client : Socket) × ((accept_socket small_kernel true true
        (some 1)
        (some 2)
        listening
        (3 ∷ [])).0
      ≡ some client)
    × (fd : ℕ) × (client.fd ≡ some fd)
    × (is_member (3 ∷ []) fd ≡ false)
    × (is_member (3 ∷ []) 4 ≡ false)
    × (is_member
          (destroy small_kernel client
            (accept_socket small_kernel true true (some 1) (some 2) listening (3 ∷ [])).1)
          4
        ≡ true)
accept_socket-leaks_example = accept_socket-leaks small_kernel (some 1) (some 2) listening (3 ∷ [])
