-- ===== src/ByteArray/Store/Valid.antt =====
-- The representation invariant of `ByteArray`, and the bytes that it stands for
-- (spike/net/ByteArray.h).
use lim_webserver.Base.{ℕ, suc, ◌+◌, ◌-◌, ◌*◌, ◌^◌, ◌≤◌, ◌<◌, ◌≡◌, refl, arith}
use lim_webserver.Base.{Option, none, some, List, length, take, drop, flatten, length-take}
use lim_webserver.ByteArray.Chain.Blocks.{Uniform, PointsAt, length-flatten}
use native.Mathlib.Nat.{lt_of_mul-lt-mul_right}
use lim_webserver.ByteArray.Store.{ByteArray, get_read_size, get_capacity}

-- The chain is `capacity` bytes in equal nodes, both positions lie in it in order, and each pointer
-- is the node of its position. No position wraps in `size_t`. `tight`: at most one node is free.
pub record IsValid (s : ByteArray) : Type 0 where
  pub positive : 0 < s.base_size
  pub uniform : Uniform s.base_size s.nodes
  pub cap : s.capacity ≡ length s.nodes * s.base_size
  pub small : s.capacity < 2 ^ 64
  pub ordered : s.read_pos.pos ≤ s.write_pos.pos
  pub inside : s.write_pos.pos ≤ s.capacity
  pub write_at : PointsAt s.base_size (length s.nodes) s.write_pos.pos s.write_pos.cur
  pub read_at : PointsAt s.base_size (length s.nodes) s.read_pos.pos s.read_pos.cur
  pub tight : s.capacity ≤ s.write_pos.pos + s.base_size

-- All the bytes that were written, and those that were not read yet.
abbrev pub written : ByteArray → List ℕ
written s = take s.write_pos.pos (flatten s.nodes)

abbrev pub unread : ByteArray → List ℕ
unread s = drop s.read_pos.pos (written s)

-- A pointer whose position lies before the end of the chain is not null.
pub located :
    (b count pos : ℕ) (cur : Option ℕ)
    → PointsAt b count pos cur
    → pos < count * b
    → (i : ℕ) × (cur ≡ some i) × (i < count) × (i * b ≤ pos) × (pos < i * b + b)
located b count pos none e h = absurd (omega arith)
located b count pos (some i) (p, q, r) h = (i, refl, p, q, r)

-- At the end of the chain it is null.
pub at_end :
    (b count pos : ℕ) (cur : Option ℕ)
    → PointsAt b count pos cur
    → 0 < b
    → pos ≡ count * b
    → cur ≡ none
at_end b count pos none e hb h = refl
at_end b count pos (some i) (p, q, r) hb h =
    absurd (omega (arith, lt_of_mul-lt-mul_right b {m = count} {n = suc i} (omega arith)))

pub PointsAt_mono :
    (b count count' pos : ℕ) (cur : Option ℕ)
    → PointsAt b count pos cur
    → pos < count * b
    → count ≤ count'
    → PointsAt b count' pos cur
PointsAt_mono b count count' pos none e h le = absurd (omega arith)
PointsAt_mono b count count' pos (some i) (p, q, r) h le = (omega arith, q, r)

pub get_capacity_lem : {s : ByteArray} → IsValid s → get_capacity s ≡ s.capacity - s.write_pos.pos
unfolding get_capacity
get_capacity_lem v = omega arith

pub get_read_size_lem :
    {s : ByteArray} → IsValid s → get_read_size s ≡ s.write_pos.pos - s.read_pos.pos
unfolding get_read_size
get_read_size_lem v = omega arith

pub length-written : {s : ByteArray} → IsValid s → length (written s) ≡ s.write_pos.pos
length-written {s} v = omega (
  arith,
  length-take s.write_pos.pos (flatten s.nodes),
  length-flatten s.base_size s.nodes v.uniform,
)
