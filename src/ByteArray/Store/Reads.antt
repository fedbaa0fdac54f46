-- ===== src/ByteArray/Store/Reads.antt =====
-- `read` of `ByteArray` (spike/net/ByteArray.cpp): what it hands out, and the state that it leaves.
use lim_webserver.Base.{ℕ, ◌+◌, ◌-◌, ◌*◌, ◌≤◌, ◌<◌, ◌≡◌, refl, sym, arith, ap, ◌∙◌}
use lim_webserver.Base.{
  List, length, take, drop, flatten, lt→ltb, ge→ltb, ne→==, take_all, eq_nil, ◌%◌, ◌^◌,
}
use native.Mathlib.Decide.{dec_lt}
use lim_webserver.Base.{length-drop, drop-drop, take-drop-take}
use lim_webserver.Base.Outcome.{ok, thrown, out_of_range, ◌>>=◌}
use lim_webserver.ByteArray.Chain.{Pointer}
use lim_webserver.ByteArray.Chain.Scan.{Moved, read_loop_lem}
use lim_webserver.ByteArray.Store.{ByteArray, read, read_at, to_string, copy_out}
use lim_webserver.ByteArray.Store.Valid.{IsValid, located, written, unread}
use lim_webserver.ByteArray.Store.Valid.{get_read_size_lem, length-written}
use lim_webserver.ByteArray.Store.Bytes.{copy_out_lem, at_path}

-- What a `read` of `n` bytes leaves: the read position is `n` further, and all else is as it was.
pub record Taken (s : ByteArray) (n : ℕ) (s' : ByteArray) : Type 0 where
  pub valid : IsValid s'
  pub moved : s'.read_pos.pos ≡ s.read_pos.pos + n
  pub same_write : s'.write_pos ≡ s.write_pos
  pub base : s'.base_size ≡ s.base_size
  pub cap : s'.capacity ≡ s.capacity
  pub bytes : written s' ≡ written s

pub length-unread :
    {s : ByteArray} → IsValid s → length (unread s) ≡ s.write_pos.pos - s.read_pos.pos
length-unread {s} v = omega (arith, length-drop s.read_pos.pos (written s), length-written v)

pub Taken-unread :
    (s : ByteArray) (n : ℕ) (s' : ByteArray) → Taken s n s' → unread s' ≡ drop n (unread s)
Taken-unread s n s' t =
    ap (λ (k : ℕ). drop k (written s')) t.moved
    ∙ ap (drop (s.read_pos.pos + n)) t.bytes
    ∙ sym (drop-drop n s.read_pos.pos (written s))

unfoldable pub moved_read : ByteArray → Pointer → ByteArray
moved_read s p = record s { read_pos = p }

pub Moved-Taken :
    (s : ByteArray) (n : ℕ) (p : Pointer)
    → IsValid s
    → s.read_pos.pos + n ≤ s.write_pos.pos
    → Moved s.base_size s.nodes s.read_pos.pos n p
    → Taken s n (moved_read s p)
unfolding moved_read
Moved-Taken s n p v h m = record {
  valid = record {
    positive = v.positive;
    uniform = v.uniform;
    cap = v.cap;
    small = v.small;
    ordered = omega (arith, m.moved);
    inside = v.inside;
    write_at = v.write_at;
    read_at = m.points;
    tight = v.tight;
  };
  moved = m.moved;
  same_write = refl;
  base = refl;
  cap = refl;
  bytes = refl;
}

-- The bytes at the read pointer are the first unread ones.
copy_out-unread :
    (s : ByteArray) (n : ℕ)
    → IsValid s
    → s.read_pos.pos < s.capacity
    → s.read_pos.pos + n ≤ s.write_pos.pos
    → (p : Pointer) × (copy_out n s s.read_pos ≡ ok (take n (unread s), p))
      × Moved s.base_size s.nodes s.read_pos.pos n p
copy_out-unread s n v h hn =
    let (i, ei, hi, lo, hi') =
      located s.base_size (length s.nodes) s.read_pos.pos s.read_pos.cur v.read_at
        (omega (arith, v.cap)) in
    let npos = s.read_pos.pos - i * s.base_size in
    let (p, e, m) =
      read_loop_lem s.base_size v.positive s.nodes v.uniform n n i npos (s.base_size - npos)
        s.read_pos.pos hi (omega arith) (omega arith) (omega arith) (omega (arith, v.inside, v.cap))
        (omega arith) in
    (
      p,
      copy_out_lem s s.read_pos.pos i npos (s.base_size - npos) v.uniform hi (omega arith)
            (omega arith) (omega arith) n s.read_pos (at_path s.read_pos i ei)
          ∙ e
          ∙ ap (λ (zs : List ℕ). ok (zs, p))
              (sym (take-drop-take n s.read_pos.pos s.write_pos.pos (flatten s.nodes) hn)),
      m,
    )

-- On a valid array whose read position is before the end of the chain, `read(n)` of at most
-- the unread bytes hands out the first `n` of them. The read position moves by `n`, the bytes
-- written, the write position and the capacity stay as they are, and the array is valid again.
pub read-Taken :
    (s : ByteArray) (n : ℕ)
    → IsValid s
    → s.read_pos.pos < s.capacity
    → n ≤ length (unread s)
    → (s' : ByteArray) × (read n s ≡ ok (take n (unread s), s')) × Taken s n s'
unfolding read moved_read
read-Taken s n v h hn =
    let fits : s.read_pos.pos + n ≤ s.write_pos.pos = omega (arith, length-unread v, v.ordered) in
    let (p, e, m) = copy_out-unread s n v h fits in
    (
      moved_read s p,
      rw (get_read_size_lem v, ge→ltb (s.write_pos.pos - s.read_pos.pos) n (omega arith))
          (ap (λ r. r >>= λ t. ok (t.0, moved_read s t.1)) e),
      Moved-Taken s n p v fits m,
    )

-- On a valid array `read(n)` throws `std::out_of_range` when fewer than `n` bytes are unread.
pub read_short :
    (s : ByteArray) (n : ℕ) → IsValid s → length (unread s) < n → read n s ≡ thrown out_of_range
unfolding read
read_short s n v h = rw (
  get_read_size_lem v,
  lt→ltb (s.write_pos.pos - s.read_pos.pos) n (omega (arith, length-unread v)),
)

-- On a valid array whose read position is before the end of the chain, `read(n, position)` at
-- the read position hands out the first `n` unread bytes, if there are as many.
pub read_at-unread :
    (s : ByteArray) (n : ℕ)
    → IsValid s
    → s.read_pos.pos < s.capacity
    → n ≤ length (unread s)
    → read_at n s.read_pos.pos s ≡ ok (take n (unread s))
unfolding read_at
read_at-unread s n v h hn =
    let fits : s.read_pos.pos + n ≤ s.write_pos.pos = omega (arith, length-unread v, v.ordered) in
    let (p, e, m) = copy_out-unread s n v h fits in
    rw
      (ge→ltb ((s.write_pos.pos + 2 ^ 64 - s.read_pos.pos) % 2 ^ 64) n
        (omega (arith, v.small, v.ordered, v.inside)))
      (ap (λ r. r >>= λ t. ok t.0) e)

-- On a valid array `toString` hands out all unread bytes.
pub to_string-unread : (s : ByteArray) → IsValid s → to_string s ≡ ok (unread s)
unfolding to_string
to_string-unread s v = elim (dec_lt s.read_pos.pos s.write_pos.pos) [
  | yes p ↦
      rw (get_read_size_lem v, ne→== (s.write_pos.pos - s.read_pos.pos) 0 (omega arith))
        (read_at-unread s (s.write_pos.pos - s.read_pos.pos) v (omega (arith, v.inside))
            (omega (arith, length-unread v))
          ∙ ap ok (take_all (unread s) _ (omega (arith, length-unread v))))
  | no q ↦
      let none_left : s.write_pos.pos - s.read_pos.pos ≡ 0 = omega arith in
      rw (get_read_size_lem v, none_left)
        (ap ok (sym (eq_nil (unread s) (length-unread v ∙ none_left))))
]
