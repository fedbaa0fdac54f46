-- ===== src/ByteArray/Store/Bytes.antt =====
-- `write` of `ByteArray` (spike/net/ByteArray.cpp): what it appends, and the state that it leaves.
use lim_webserver.Base.{ℕ, ◌+◌, ◌-◌, ◌*◌, ◌%◌, ◌^◌, ◌<◌, ◌≡◌, refl, sym, arith, ap, ◌∙◌}
use lim_webserver.Base.{some, List, [], ◌∷◌, ◌++◌, append-nil}
use lim_webserver.Base.{length, get_or, drop, drop_append}
use lim_webserver.Base.Outcome.{ok, fault, ◌>>=◌}
use lim_webserver.ByteArray.Chain.{Node, Pointer, write_loop, read_loop}
use lim_webserver.ByteArray.Chain.Blocks.{Uniform, mod_block, deref_lem, length-get_or}
use lim_webserver.ByteArray.Chain.Walk.{at, Written, write_loop-Written}
use lim_webserver.ByteArray.Store.{ByteArray, write, copy_in, copy_out}
use lim_webserver.Base.{Option}
use lim_webserver.ByteArray.Chain.{buffers_loop, advance_loop}
use lim_webserver.ByteArray.Store.{buffers, advance}
use lim_webserver.ByteArray.Store.Valid.{IsValid, located, PointsAt_mono, written, unread}
use lim_webserver.ByteArray.Store.Valid.{length-written}
use lim_webserver.ByteArray.Store.Growth.{Grown, add_capacity-Grown, add_capacity_full}

-- There is a free byte, and `n` more bytes do not take a position past 2 ^ 64.
pub record HasRoom (s : ByteArray) (n : ℕ) : Type 0 where
  pub free : s.write_pos.pos < s.capacity
  pub bounded : s.write_pos.pos + n + s.base_size < 2 ^ 64

-- What a `write` of `bs` leaves.
pub record Appended (s : ByteArray) (bs : List ℕ) (s' : ByteArray) : Type 0 where
  pub valid : IsValid s'
  pub base : s'.base_size ≡ s.base_size
  pub moved : s'.write_pos.pos ≡ s.write_pos.pos + length bs
  pub same_read : s'.read_pos ≡ s.read_pos
  pub bytes : written s' ≡ written s ++ bs

-- What is appended comes behind all that is unread.
pub Appended-unread :
    (s : ByteArray) (bs : List ℕ) (s' : ByteArray)
    → IsValid s
    → Appended s bs s'
    → unread s' ≡ unread s ++ bs
Appended-unread s bs s' v a =
    ap (λ (p : Pointer). drop p.pos (written s')) a.same_read
    ∙ ap (drop s.read_pos.pos) a.bytes
    ∙ drop_append (written s) bs s.read_pos.pos (omega (arith, length-written v, v.ordered))

module _ (s g : ByteArray) (bs : List ℕ) (v : IsValid s) (w : Grown s (length bs) g)
    (r : HasRoom s (length bs)) where
  copied : List Node → Pointer → ByteArray
  copied nodes p = record g { nodes = nodes; write_pos = p }

  copied-Appended :
      (nodes : List Node) (p : Pointer)
      → Written s.base_size g.nodes s.write_pos.pos bs nodes p
      → Appended s bs (copied nodes p)
  unfolding copied
  copied-Appended nodes p c = record {
    valid = record {
      positive = rw w.base v.positive;
      uniform = rw w.base c.uniform;
      cap = rw w.base (w.cap ∙ ap (λ (k : ℕ). k * s.base_size) (sym c.count));
      small = omega (arith, w.snug, r.bounded);
      ordered = omega (arith, c.moved, ap pos w.same_read, v.ordered);
      inside = omega (arith, c.moved, w.room);
      write_at = rw w.base c.points;
      read_at =
          rw (w.base, w.same_read)
            (PointsAt_mono s.base_size (length s.nodes) (length nodes) s.read_pos.pos s.read_pos.cur
              v.read_at (omega (arith, v.ordered, v.cap, r.free))
              (omega (arith, w.larger, c.count)));
      tight = omega (arith, w.snug, w.base, c.moved);
    };
    base = w.base;
    moved = c.moved;
    same_read = w.same_read;
    bytes = c.bytes ∙ ap (λ zs. zs ++ bs) (w.kept s.write_pos.pos v.inside);
  }
    where
      pos : Pointer → ℕ
      pos p = p.pos

-- The copy through a pointer to node `i` is the loop from its offset there.
module _ (g : ByteArray) (pos i npos ncap : ℕ) (u : Uniform g.base_size g.nodes)
    (h : i < length g.nodes) (e : pos ≡ i * g.base_size + npos) (n : npos + ncap ≡ g.base_size)
    (c : 0 < ncap) where
  offset : pos % g.base_size ≡ npos
  offset =
      let at_npos : pos - i * g.base_size ≡ npos = omega arith in
      mod_block g.base_size i pos (omega arith) (omega arith) ∙ at_npos

  left : length (get_or g.nodes i []) - npos ≡ ncap
  left = omega (arith, length-get_or g.base_size g.nodes i u h)

  copy_in_lem :
      (bs : List ℕ) (p : Pointer) (nodes' : List Node) (p' : Pointer)
      → p ≡ at pos i
      → write_loop (length bs) g.nodes (at pos i) bs npos ncap ≡ ok (nodes', p')
      → copy_in bs g p ≡ ok (record g { nodes = nodes'; write_pos = p' })
  unfolding copy_in
  copy_in_lem bs p nodes' p' ep el =
      ap (copy_in bs g) ep ∙ rw (deref_lem g.nodes i h, offset) (rw (left, el))

  pub copy_out_lem :
      (size : ℕ) (p : Pointer)
      → p ≡ at pos i
      → copy_out size g p ≡ read_loop size g.nodes (at pos i) size npos ncap
  unfolding copy_out
  copy_out_lem size p ep = ap (copy_out size g) ep ∙ rw (deref_lem g.nodes i h, offset) (rw left)

  pub buffers_lem :
      (size : ℕ) (cur : Option ℕ)
      → cur ≡ some i
      → buffers g cur pos size
        ≡ (buffers_loop size g.nodes (some i) size npos ncap >>= λ vs. ok (size, vs))
  unfolding buffers
  buffers_lem size cur ep =
      ap (λ c. buffers g c pos size) ep ∙ rw (deref_lem g.nodes i h, offset) (rw left)

  pub advance_lem :
      (size : ℕ) (p : Pointer)
      → p ≡ at pos i
      → advance g p size ≡ advance_loop size g.nodes (at pos i) size npos ncap
  unfolding advance
  advance_lem size p ep =
      ap (λ q. advance g q size) ep ∙ rw (deref_lem g.nodes i h, offset) (rw left)

pub at_path : (p : Pointer) (i : ℕ) → p.cur ≡ some i → p ≡ at p.pos i
at_path p i e = λ j. record { pos = p.pos; cur = e j }

write-Grown :
    (s g : ByteArray) (bs : List ℕ) (i npos ncap : ℕ)
    → IsValid s
    → Grown s (length bs) g
    → HasRoom s (length bs)
    → s.write_pos.cur ≡ some i
    → i < length s.nodes
    → s.write_pos.pos ≡ i * s.base_size + npos
    → npos + ncap ≡ s.base_size
    → 0 < ncap
    → 0 < length bs
    → (s' : ByteArray) × (copy_in bs g g.write_pos ≡ ok s') × Appended s bs s'
unfolding copied
write-Grown s g bs i npos ncap v w r ei hi ep en hc hl =
    let (nodes', p', el, c) =
      write_loop-Written s.base_size v.positive (length bs) g.nodes bs i npos ncap s.write_pos.pos
        w.uniform (omega (arith, w.larger)) ep en hc (omega (arith, w.room, w.cap)) (omega arith)
        hl in
    (
      copied s g bs v w r nodes' p',
      copy_in_lem g s.write_pos.pos i npos ncap (rw w.base w.uniform) (omega (arith, w.larger))
          (rw w.base ep) (rw w.base en) hc bs g.write_pos nodes' p'
          (w.same_write ∙ at_path s.write_pos i ei) el,
      copied-Appended s g bs v w r nodes' p' c,
    )

-- On a valid array with a free byte, whose positions stay below 2 ^ 64, `write` of a list of
-- bytes succeeds and appends them to what was written. The base size and the read position
-- stay as they are, the write position moves by the number of bytes, and the array is valid
-- again.
pub write-Appended :
    (s : ByteArray) (bs : List ℕ)
    → IsValid s
    → HasRoom s (length bs)
    → (s' : ByteArray) × (write bs s ≡ ok s') × Appended s bs s'
unfolding write
write-Appended s [] v r = (
  s,
  refl,
  record {
    valid = v;
    base = refl;
    moved = omega arith;
    same_read = refl;
    bytes = sym (append-nil (written s));
  },
)
write-Appended s (x ∷ xs) v r =
    let (g, eg, w) = add_capacity-Grown s (length (x ∷ xs)) v r.free (omega arith) in
    let (i, ei, hi, lo, hi') =
      located s.base_size (length s.nodes) s.write_pos.pos s.write_pos.cur v.write_at
        (omega (arith, v.cap, r.free)) in
    let (s', ec, a) =
      write-Grown s g (x ∷ xs) i (s.write_pos.pos - i * s.base_size)
        (s.base_size - (s.write_pos.pos - i * s.base_size)) v w r ei hi (omega arith) (omega arith)
        (omega arith) (omega arith) in
    (s', ap (λ m. m >>= λ t. copy_in (x ∷ xs) t t.write_pos) eg ∙ ec, a)

-- On a valid array that is exactly full, `write` of at least one byte follows a null pointer.
pub write_full :
    (s : ByteArray) (b : ℕ) (bs : List ℕ)
    → IsValid s
    → s.write_pos.pos ≡ s.capacity
    → write (b ∷ bs) s ≡ fault
unfolding write
write_full s b bs v h = rw (add_capacity_full s (length (b ∷ bs)) v h (omega arith))
