-- ===== src/Net/Tests.antt =====
-- Runs of the masks of `IPv4Address`, of `FdManager`, `EventLoop` and `SocketStream` (spike/net and
-- spike/coroutine/FdInfo.cpp).
use lim_webserver.Base.{
  ℕ, ◌≡◌, refl, arith, ◌==◌, if◌then◌else◌, true, false, some, none, List, [], ◌∷◌, length, take,
  length-take,
}
use lim_webserver.Base.Words.{ℤ, pos}
use lim_webserver.Base.Outcome.{ok}
use lim_webserver.Net.Mask.{broadcast_address, subnet_mask, count_bytes}
use lim_webserver.Net.Mask.Prefix.{broadcast_address_lem, count_bytes-subnet_mask}
use lim_webserver.Net.Fd.{FdManager, new_fd_manager, get_info, insert_info, del_info, closing}
use lim_webserver.Net.Fd.Table.{get_info-del_info}
use lim_webserver.Coroutine.Processor.{Processor, idling, waiting}
use lim_webserver.Net.EventLoop.{EventLoop, idle_between, idle_between-lost}
use lim_webserver.ByteArray.Store.{ByteArray}
use lim_webserver.ByteArray.Store.Valid.{IsValid}
use lim_webserver.Net.Stream.{send_array, TakesAtMost, Sent, send_array-Sent}

-- 192.168.1.5 with a prefix of 24 bits
broadcast_address_lem_example : broadcast_address 0xc0a80105 24 ≡ ok (some 0xc0a801ff)
broadcast_address_lem_example = broadcast_address_lem 0xc0a80105 24 (omega arith) (omega arith)

count_bytes-subnet_mask_example : (m : ℕ) × (subnet_mask 24 ≡ ok m) × (count_bytes m ≡ some 24)
count_bytes-subnet_mask_example = count_bytes-subnet_mask 24 (omega arith) (omega arith)

abbrev table : FdManager
table = insert_info 5 100 new_fd_manager

get_info-del_info_example :
    (get_info 5 (del_info 5 table) ≡ (if 5 == 5 then none else get_info 5 table))
    × ((del_info 5 table).closed ≡ closing (get_info 5 table) table.closed)
get_info-del_info_example = get_info-del_info 5 5 table

-- A loop with no task that enters `idle`.
abbrev quiet : Processor
quiet = record {
  cur_task = none;
  new_queue = [];
  runable_queue = [];
  garbage_list = [];
  add_new_remain = 0;
  idled = false;
  notified = false;
  phase = idling;
  signalled = false;
  pending = 0;
}

abbrev quiet_loop : EventLoop
quiet_loop = record { processor = quiet; tested = false }

idle_between-lost_example :
    ((idle_between 7 quiet_loop).processor.phase ≡ waiting)
    × ((idle_between 7 quiet_loop).processor.signalled ≡ false)
    × ((idle_between 7 quiet_loop).processor.notified ≡ true)
    × ((idle_between 7 quiet_loop).processor.new_queue ≡ 7 ∷ [])
idle_between-lost_example = idle_between-lost 7 quiet_loop refl refl refl

-- An array that holds three bytes, and a socket that takes at most two of what it is given.
abbrev outgoing : ByteArray
outgoing = record {
  base_size = 2;
  write_pos = record { pos = 3; cur = some 1 };
  read_pos = record { pos = 0; cur = some 0 };
  capacity = 4;
  nodes = (1 ∷ 2 ∷ []) ∷ (3 ∷ 0 ∷ []) ∷ [];
  junk = 0;
}

outgoing-IsValid : IsValid outgoing
outgoing-IsValid = record {
  positive = omega arith;
  uniform = (refl, (refl, tt));
  cap = refl;
  small = omega arith;
  ordered = omega arith;
  inside = omega arith;
  write_at = (omega arith, omega arith, omega arith);
  read_at = (omega arith, omega arith, omega arith);
  tight = omega arith;
}

abbrev slow_socket : List ℕ → ℤ
slow_socket bs = pos (length (take 2 bs))

slow_socket-TakesAtMost : (bs : List ℕ) → TakesAtMost (length bs) (slow_socket bs)
slow_socket-TakesAtMost bs = omega (arith, length-take 2 bs)

send_array-Sent_example :
    (s' : ByteArray) × (send_array slow_socket true 3 outgoing ≡ ok (pos 2, s'))
    × Sent outgoing (pos 2) s'
send_array-Sent_example =
    send_array-Sent slow_socket 3 outgoing slow_socket-TakesAtMost outgoing-IsValid (omega arith)
      (omega arith) (omega arith)
