-- ===== src/ByteArray/Store.antt =====
-- The state of `ByteArray` and its operations on raw bytes (spike/net/ByteArray.h, ByteArray.cpp).
pub mod Valid
pub mod Growth
pub mod Bytes
pub mod Reads
pub mod Fresh
pub mod Views
use lim_webserver.Base.{
  ℕ, zero, suc, ◌+◌, ◌-◌, ◌*◌, ◌/◌, ◌%◌, ◌^◌, Option, none, some, List, [], ◌∷◌, ◌++◌,
}
use lim_webserver.Base.{length, take, replicate, ltb, leb, ◌==◌, if◌then◌else◌}
use lim_webserver.Base.Outcome.{Outcome, ok, thrown, fault, out_of_range, ◌>>=◌}
use lim_webserver.ByteArray.Chain.{Node, Pointer, deref, next, Iovec}
use lim_webserver.ByteArray.Chain.{write_loop, read_loop, buffers_loop, advance_loop}

-- `junk` is what a byte of a new block holds: the code leaves it uninitialised.
pub record ByteArray : Type 0 where
  pub base_size : ℕ
  pub write_pos : Pointer
  pub read_pos : Pointer
  pub capacity : ℕ
  pub nodes : List Node
  pub junk : ℕ

-- `new Node(s)`
unfoldable pub new_node : ℕ → ℕ → Node
new_node s junk = replicate s junk

abbrev pub at_root : Pointer
at_root = record { pos = 0; cur = some 0 }

unfoldable pub create : ℕ → ℕ → ByteArray
create base_size junk = record {
  base_size = base_size;
  write_pos = at_root;
  read_pos = at_root;
  capacity = base_size;
  nodes = new_node base_size junk ∷ [];
  junk = junk;
}

-- `m_writePos.pos - m_readPos.pos` in `size_t`
pub get_read_size : ByteArray → ℕ
get_read_size s = (s.write_pos.pos + 2 ^ 64 - s.read_pos.pos) % 2 ^ 64

pub get_capacity : ByteArray → ℕ
get_capacity s = (s.capacity + 2 ^ 64 - s.write_pos.pos) % 2 ^ 64

-- The blocks that `addCapacity` links behind the node of the write pointer, in place of those that
-- were linked there. `ceil(1.0 * size / m_baseSize)` is exact for sizes below 2 ^ 53.
grow : ByteArray → ℕ → ℕ → Outcome ByteArray
grow s old_cap count = elim s.write_pos.cur [
  | none ↦ fault
  | some i ↦
      let nodes' = take (suc i) s.nodes ++ replicate count (new_node s.base_size s.junk) in
      let p = s.write_pos in
      ok (record s {
        nodes = nodes';
        capacity = s.capacity + count * s.base_size;
        write_pos = if old_cap == 0 then record p { cur = next nodes' (some i) } else p;
      })
]

pub add_capacity : ByteArray → ℕ → Outcome ByteArray
unfolding grow
add_capacity s size =
    let old_cap = get_capacity s in
    if size == 0
    then ok s
    else if leb size old_cap
    then ok s
    else grow s old_cap ((size - old_cap + s.base_size - 1) / s.base_size)

-- The offset in the current node, and what is left of that node: `npos` and `ncap`.
abbrev pub node_offset : ByteArray → ℕ → ℕ
node_offset s pos = pos % s.base_size

-- The copying that `write` does once there is room, through the pointer `p`.
pub copy_in : List ℕ → ByteArray → Pointer → Outcome ByteArray
copy_in bs s p = do
  let npos = node_offset s p.pos
  node ← deref s.nodes p.cur
  (nodes', p') ← write_loop (length bs) s.nodes p bs npos (length node - npos)
  ok (record s { nodes = nodes'; write_pos = p' })

pub write : List ℕ → ByteArray → Outcome ByteArray
unfolding copy_in
write [] s = ok s
write (b ∷ bs) s = do s' ← add_capacity s (length (b ∷ bs)); copy_in (b ∷ bs) s' s'.write_pos

-- The copying of both `read`s, from the pointer `p`.
pub copy_out : ℕ → ByteArray → Pointer → Outcome (List ℕ × Pointer)
copy_out size s p = do
  let npos = node_offset s p.pos
  node ← deref s.nodes p.cur
  read_loop size s.nodes p size npos (length node - npos)

pub read : ℕ → ByteArray → Outcome (List ℕ × ByteArray)
unfolding copy_out
read size s =
    let copy = do (bytes, p) ← copy_out size s s.read_pos; ok (bytes, record s { read_pos = p })
    in if ltb (get_read_size s) size then thrown out_of_range else copy

-- `read(buf, size, position)`: the walk starts at the node of the read pointer.
pub read_at : ℕ → ℕ → ByteArray → Outcome (List ℕ)
unfolding copy_out
read_at size position s =
    let copy = do
      (bytes, p) ← copy_out size s (record { pos = position; cur = s.read_pos.cur })
      ok bytes
    in if ltb ((s.write_pos.pos + 2 ^ 64 - position) % 2 ^ 64) size
      then thrown out_of_range
      else copy

pub clear : ByteArray → ByteArray
clear s = record s {
  write_pos = at_root;
  read_pos = at_root;
  capacity = s.base_size;
  nodes = take 1 s.nodes;
}

pub to_string : ByteArray → Outcome (List ℕ)
to_string s =
    let size = get_read_size s in
    let copy = read_at size s.read_pos.pos s in if size == 0 then ok [] else copy

-- The buffers from `position` on, in at most `len` bytes, with their total size. Where no position
-- is given the walk starts at the node of the read pointer.
pub buffers : ByteArray → Option ℕ → ℕ → ℕ → Outcome (ℕ × List Iovec)
buffers s cur position len = do
  let npos = node_offset s position
  node ← deref s.nodes cur
  vs ← buffers_loop len s.nodes cur len npos (length node - npos)
  ok (len, vs)

pub clip : ByteArray → ℕ → ℕ
clip s len = if ltb (get_read_size s) len then get_read_size s else len

pub get_read_buffers : ℕ → ByteArray → Outcome (ℕ × List Iovec)
unfolding buffers clip
get_read_buffers len s =
    let n = clip s len in
    let found = buffers s s.read_pos.cur s.read_pos.pos n in if n == 0 then ok (0, []) else found

-- `cur = cur->next`, `count` times from the root.
walk_from : List Node → Option ℕ → ℕ → Outcome (Option ℕ)
walk_from nodes cur zero = ok cur
walk_from nodes cur (suc count) = do node ← deref nodes cur; walk_from nodes (next nodes cur) count

pub get_read_buffers_at : ℕ → ℕ → ByteArray → Outcome (ℕ × List Iovec)
unfolding buffers clip walk_from
get_read_buffers_at len position s =
    let n = clip s len in
    let found = do
      cur ← walk_from s.nodes (some 0) (position / s.base_size)
      buffers s cur position n
    in if n == 0 then ok (0, []) else found

pub get_write_buffers : ℕ → ByteArray → Outcome ((ℕ × List Iovec) × ByteArray)
unfolding buffers
get_write_buffers len s =
    let found = do
      s' ← add_capacity s len
      r ← buffers s' s'.write_pos.cur s'.write_pos.pos len
      ok (r, s')
    in if len == 0 then ok ((0, []), s) else found

pub advance : ByteArray → Pointer → ℕ → Outcome Pointer
advance s p len = do
  let npos = node_offset s p.pos
  node ← deref s.nodes p.cur
  advance_loop len s.nodes p len npos (length node - npos)

-- `len` is an `int`; a negative one does nothing, as 0 does.
pub add_write_position : ℕ → ByteArray → Outcome ByteArray
unfolding advance
add_write_position len s = do p ← advance s s.write_pos len; ok (record s { write_pos = p })

pub add_read_position : ℕ → ByteArray → Outcome ByteArray
unfolding advance
add_read_position len s = do p ← advance s s.read_pos len; ok (record s { read_pos = p })
