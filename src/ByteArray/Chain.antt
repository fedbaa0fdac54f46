-- ===== src/ByteArray/Chain.antt =====
-- The chain of `ByteArray::Node`s and the loops that walk it (spike/net/ByteArray.h, ByteArray.cpp).
-- A node is the list of its bytes, so `cur->size` is its length. A `Node *` is `none` when it is
-- null and otherwise the index of the node from `m_root` on.
pub mod Blocks
pub mod Walk
pub mod Scan
use lim_webserver.Base.{ℕ, zero, suc, ◌+◌, ◌-◌, Bool, Option, none, some, List, [], ◌∷◌, ◌++◌}
use lim_webserver.Base.{length, get_elem?, set, take, drop, ltb, leb, ◌==◌, if◌then◌else◌}
use lim_webserver.Base.Outcome.{Outcome, ok, fault, stuck, ◌>>=◌}

abbrev pub Node : Type 0
Node = List ℕ

-- `struct pointer`
pub record Pointer : Type 0 where
  pub pos : ℕ
  pub cur : Option ℕ

-- `*cur`
pub deref : List Node → Option ℕ → Outcome Node
deref nodes none = fault
deref nodes (some i) = elim (get_elem? nodes i) [ some n ↦ ok n | none ↦ fault ]

-- `cur->next`, at a node of the chain
pub next : List Node → Option ℕ → Option ℕ
next nodes none = none
next nodes (some i) = if ltb (suc i) (length nodes) then some (suc i) else none

-- `memcpy(node->ptr + npos, src, n)`, within the node
pub overwrite : ℕ → List ℕ → Node → Node
overwrite zero [] node = node
overwrite zero (b ∷ src) [] = []
overwrite zero (b ∷ src) (x ∷ node) = b ∷ overwrite zero src node
overwrite (suc n) src [] = []
overwrite (suc n) src (x ∷ node) = x ∷ overwrite n src node

pub store : List Node → Option ℕ → Node → List Node
store nodes none node = nodes
store nodes (some i) node = set nodes i node

-- Where the last block of a walk ends its node, the pointer goes on to the next one.
pub finish : List Node → Pointer → Node → ℕ → ℕ → Pointer
finish nodes p node npos size = record {
  pos = p.pos + size;
  cur = if length node == npos + size then next nodes p.cur else p.cur;
}

-- The loop of `write(buf, size)`: `buf` is what is still to be copied, `size` its length.
pub write_loop : ℕ → List Node → Pointer → List ℕ → ℕ → ℕ → Outcome (List Node × Pointer)
write_loop fuel nodes p [] npos ncap = ok (nodes, p)
write_loop zero nodes p (b ∷ bs) npos ncap = stuck
write_loop (suc fuel) nodes p (b ∷ bs) npos ncap =
    let buf = b ∷ bs in
    let size = length buf in
    let last = do
      node ← deref nodes p.cur
      ok (store nodes p.cur (overwrite npos buf node), finish nodes p node npos size)
    in let more = do
      node ← deref nodes p.cur
      let nodes' = store nodes p.cur (overwrite npos (take ncap buf) node)
      let cur' = next nodes p.cur
      node' ← deref nodes' cur'
      write_loop fuel nodes' (record { pos = p.pos + ncap; cur = cur' }) (drop ncap buf) 0
          (length node')
      in if leb size ncap then last else more

-- The loop of both `read`s: what is copied to `buf`, and the pointer after it.
pub read_loop : ℕ → List Node → Pointer → ℕ → ℕ → ℕ → Outcome (List ℕ × Pointer)
read_loop fuel nodes p zero npos ncap = ok ([], p)
read_loop zero nodes p (suc k) npos ncap = stuck
read_loop (suc fuel) nodes p (suc k) npos ncap =
    let size = suc k in
    let last = do
      node ← deref nodes p.cur
      ok (take size (drop npos node), finish nodes p node npos size)
    in let more = do
      node ← deref nodes p.cur
      let cur' = next nodes p.cur
      node' ← deref nodes cur'
      (rest, p') ←
          read_loop fuel nodes (record { pos = p.pos + ncap; cur = cur' }) (size - ncap) 0
            (length node')
      ok (take ncap (drop npos node) ++ rest, p')
      in if leb size ncap then last else more

-- `struct iovec`: `iov_base` is an offset into a node.
pub record Iovec : Type 0 where
  pub node : Option ℕ
  pub offset : ℕ
  pub len : ℕ

-- The loop of `getReadBuffers` and `getWriteBuffers`.
pub buffers_loop : ℕ → List Node → Option ℕ → ℕ → ℕ → ℕ → Outcome (List Iovec)
buffers_loop fuel nodes cur zero npos ncap = ok []
buffers_loop zero nodes cur (suc k) npos ncap = stuck
buffers_loop (suc fuel) nodes cur (suc k) npos ncap =
    let len = suc k in
    let more = do
      let cur' = next nodes cur
      node' ← deref nodes cur'
      rest ← buffers_loop fuel nodes cur' (len - ncap) 0 (length node')
      ok (record { node = cur; offset = npos; len = ncap } ∷ rest)
    in if leb len ncap then ok (record { node = cur; offset = npos; len = len } ∷ []) else more

-- The loop of `addWritePosition` and `addReadPosition`.
pub advance_loop : ℕ → List Node → Pointer → ℕ → ℕ → ℕ → Outcome Pointer
advance_loop fuel nodes p zero npos ncap = ok p
advance_loop zero nodes p (suc k) npos ncap = stuck
advance_loop (suc fuel) nodes p (suc k) npos ncap =
    let len = suc k in
    let last = do node ← deref nodes p.cur; ok (finish nodes p node npos len)
    in let more = do
      let cur' = next nodes p.cur
      node' ← deref nodes cur'
      advance_loop fuel nodes (record { pos = p.pos + ncap; cur = cur' }) (len - ncap) 0
          (length node')
      in if leb len ncap then last else more
