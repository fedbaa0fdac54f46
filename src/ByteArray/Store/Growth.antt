-- ===== src/ByteArray/Store/Growth.antt =====
-- `addCapacity` (spike/net/ByteArray.cpp): what it does when the write pointer is not null, and that
-- it faults when it is.
use lim_webserver.Base.{ℕ, suc, ◌+◌, ◌-◌, ◌*◌, ◌/◌, ◌≤◌, ◌<◌, ◌≡◌, refl, arith, ap, ◌∙◌}
use lim_webserver.Base.{some, ◌++◌, length, take, replicate, flatten}
use lim_webserver.Base.{
  length-append, length-replicate, take_all, take_append, le→leb, gt→leb, ne→==,
}
use lim_webserver.Base.Outcome.{ok, fault}
use lim_webserver.ByteArray.Chain.Blocks.{Uniform, length-flatten, flatten-append}
use lim_webserver.ByteArray.Chain.Blocks.{Uniform-append, Uniform-replicate}
use lim_webserver.ByteArray.Store.{ByteArray, new_node, grow, add_capacity}
use lim_webserver.ByteArray.Store.Valid.{IsValid, located, at_end, get_capacity_lem}
use native.Mathlib.Decide.{dec_le}
use native.Mathlib.Nat.{div-mul-le_self, lt-div-mul-add, lt_of_mul-lt-mul_right}

-- What `addCapacity(n)` does when it succeeds: it adds blocks behind the chain, so that `n` bytes
-- fit, and no more blocks than that takes.
pub record Grown (s : ByteArray) (n : ℕ) (s' : ByteArray) : Type 0 where
  pub base : s'.base_size ≡ s.base_size
  pub same_write : s'.write_pos ≡ s.write_pos
  pub same_read : s'.read_pos ≡ s.read_pos
  pub uniform : Uniform s.base_size s'.nodes
  pub cap : s'.capacity ≡ length s'.nodes * s.base_size
  pub larger : length s.nodes ≤ length s'.nodes
  pub room : s.write_pos.pos + n ≤ s'.capacity
  pub snug : s'.capacity ≤ s.write_pos.pos + n + s.base_size
  pub kept : (k : ℕ) → k ≤ s.capacity → take k (flatten s'.nodes) ≡ take k (flatten s.nodes)

round_up : (n b : ℕ) → 0 < b → (n ≤ (n + b - 1) / b * b) × ((n + b - 1) / b * b < n + b)
round_up n b h =
    let q = (n + b - 1) / b in
    let low : q * b ≤ n + b - 1 = div-mul-le_self (n + b - 1) b in
    let high : n + b - 1 < q * b + b = lt-div-mul-add h in (omega arith, omega arith)

-- In a tight chain the last node is the one that is written to.
last_node :
    (b count pos i : ℕ) → 0 < b → i < count → pos < i * b + b → count * b ≤ pos + b → suc i ≡ count
last_node b count pos i hb h hi tight =
    let le : count < suc (suc i) = lt_of_mul-lt-mul_right b (omega arith) in omega arith

module _ (s : ByteArray) (n : ℕ) (v : IsValid s) (i : ℕ) (e : s.write_pos.cur ≡ some i)
    (whole : suc i ≡ length s.nodes) where
  extra : ℕ
  extra = (n - (s.capacity - s.write_pos.pos) + s.base_size - 1) / s.base_size

  grown : ByteArray
  grown = record s {
    nodes = s.nodes ++ replicate extra (new_node s.base_size s.junk);
    capacity = s.capacity + extra * s.base_size;
  }

  grow_lem : s.write_pos.pos < s.capacity → grow s (s.capacity - s.write_pos.pos) extra ≡ ok grown
  unfolding grow grown
  grow_lem h = rw (
    e,
    ne→== (s.capacity - s.write_pos.pos) 0 (omega arith),
    take_all s.nodes (suc i) (omega arith),
  )

  length-grown : length grown.nodes ≡ length s.nodes + extra
  unfolding grown
  length-grown =
      length-append s.nodes _ ∙ ap (λ (k : ℕ). length s.nodes + k) (length-replicate extra _)

  grown_cap : grown.capacity ≡ length grown.nodes * s.base_size
  unfolding grown
  grown_cap = rw length-grown (omega (arith, v.cap))

  grown-Grown : s.capacity - s.write_pos.pos < n → Grown s n grown
  unfolding grown extra new_node
  grown-Grown h = record {
    base = refl;
    same_write = refl;
    same_read = refl;
    uniform =
        Uniform-append s.base_size s.nodes _ v.uniform (Uniform-replicate s.base_size _ s.junk);
    cap = grown_cap;
    larger = omega (arith, length-grown);
    room = omega (arith, round_up (n - (s.capacity - s.write_pos.pos)) s.base_size v.positive);
    snug = omega (arith, round_up (n - (s.capacity - s.write_pos.pos)) s.base_size v.positive);
    kept = λ k hk. rw flatten-append (
        take_append (flatten s.nodes) _ k
          (omega (arith, length-flatten s.base_size s.nodes v.uniform)));
  }

unchanged : (s : ByteArray) (n : ℕ) → IsValid s → s.write_pos.pos + n ≤ s.capacity → Grown s n s
unchanged s n v h = record {
  base = refl;
  same_write = refl;
  same_read = refl;
  uniform = v.uniform;
  cap = v.cap;
  larger = omega arith;
  room = h;
  snug = omega (arith, v.tight);
  kept = λ k hk. refl;
}

-- On a valid array that is not full, `addCapacity(n)` for a positive `n` succeeds: from the
-- write position on there are `n` bytes and at most one node more, nothing of the old capacity
-- is changed, and the positions stay as they are.
pub add_capacity-Grown :
    (s : ByteArray) (n : ℕ)
    → IsValid s
    → s.write_pos.pos < s.capacity
    → 0 < n
    → (s' : ByteArray) × (add_capacity s n ≡ ok s') × Grown s n s'
unfolding add_capacity extra
add_capacity-Grown s n v h hn = elim (dec_le n (s.capacity - s.write_pos.pos)) [
  | yes t ↦ (
    s,
    rw (ne→== n 0 (omega arith), get_capacity_lem v, le→leb n (s.capacity - s.write_pos.pos) t),
    unchanged s n v (omega (arith, v.inside)),
  )
  | no f ↦
      let (i, e, hi, lo, hi') =
        located s.base_size (length s.nodes) s.write_pos.pos s.write_pos.cur v.write_at
          (omega (arith, v.cap)) in
      let whole =
        last_node s.base_size (length s.nodes) s.write_pos.pos i v.positive hi hi'
          (omega (arith, v.cap, v.tight)) in
      (
        grown s n v i e whole,
        rw
            (
              ne→== n 0 (omega arith),
              get_capacity_lem v,
              gt→leb n (s.capacity - s.write_pos.pos) (omega arith),
            )
            (grow_lem s n v i e whole h),
        grown-Grown s n v i e whole (omega arith),
      )
]

-- On a full array `addCapacity` follows the null write pointer.
pub add_capacity_full :
    (s : ByteArray) (n : ℕ)
    → IsValid s
    → s.write_pos.pos ≡ s.capacity
    → 0 < n
    → add_capacity s n ≡ fault
unfolding add_capacity grow
add_capacity_full s n v full hn = rw (
  ne→== n 0 (omega arith),
  get_capacity_lem v,
  gt→leb n (s.capacity - s.write_pos.pos) (omega arith),
  at_end s.base_size (length s.nodes) s.write_pos.pos s.write_pos.cur v.write_at v.positive
      (omega (arith, v.cap)),
)
