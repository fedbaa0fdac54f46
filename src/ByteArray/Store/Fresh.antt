-- ===== src/ByteArray/Store/Fresh.antt =====
-- The constructor of `ByteArray` and `clear` (spike/net/ByteArray.cpp).
use lim_webserver.Base.{ℕ, ◌*◌, ◌^◌, ◌≤◌, ◌<◌, ◌≡◌, refl, ap, arith}
use lim_webserver.Base.{List, [], ◌∷◌, length, take}
use lim_webserver.ByteArray.Chain.{Node}
use lim_webserver.ByteArray.Chain.Blocks.{Uniform, Uniform-replicate}
use lim_webserver.ByteArray.Store.{ByteArray, new_node, create, clear}
use lim_webserver.ByteArray.Store.Valid.{IsValid, unread}

-- A new array keeps the invariant.
pub create-IsValid : (b junk : ℕ) → 0 < b → b < 2 ^ 64 → IsValid (create b junk)
unfolding create new_node
create-IsValid b junk p h = record {
  positive = p;
  uniform = Uniform-replicate b 1 junk;
  cap = omega arith;
  small = h;
  ordered = omega arith;
  inside = omega arith;
  write_at = (omega arith, omega arith, omega arith);
  read_at = (omega arith, omega arith, omega arith);
  tight = omega arith;
}

first_node :
    (b : ℕ) (nodes : List Node)
    → Uniform b nodes
    → 0 < length nodes * b
    → Uniform b (take 1 nodes) × (length (take 1 nodes) ≡ 1) × (b ≤ length nodes * b)
first_node b [] u h = absurd (omega arith)
first_node b (n ∷ nodes) (p, u) h = ((p, tt), refl, omega arith)

-- `clear` of a valid array with some capacity leaves a valid array with nothing to read.
pub clear-IsValid :
    (s : ByteArray) → IsValid s → 0 < s.capacity → IsValid (clear s) × (unread (clear s) ≡ [])
unfolding clear
clear-IsValid s v h =
    let (u, one, le) = first_node s.base_size s.nodes v.uniform (omega (arith, v.cap)) in
    (
      record {
        positive = v.positive;
        uniform = u;
        cap = omega (arith, ap (λ (n : ℕ). n * s.base_size) one);
        small = omega arith;
        ordered = omega arith;
        inside = omega arith;
        write_at = (omega (arith, one), omega arith, omega (arith, v.positive));
        read_at = (omega (arith, one), omega arith, omega (arith, v.positive));
        tight = omega arith;
      },
      refl,
    )
