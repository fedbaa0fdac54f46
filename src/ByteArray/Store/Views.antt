-- ===== src/ByteArray/Store/Views.antt =====
-- `getReadBuffers` and `addReadPosition` of `ByteArray` (spike/net/ByteArray.cpp): the unread bytes
-- as buffers, and the step over them.
use lim_webserver.Base.{ℕ, ◌+◌, ◌-◌, ◌*◌, ◌≤◌, ◌<◌, ◌≡◌, sym, arith, ap, ◌∙◌, ltb, if◌then◌else◌}
use lim_webserver.Base.{
  List, [], length, take, flatten, lt→ltb, ge→ltb, ne→==, take_all, take-drop-take, length-take,
  ◌==◌,
}
use native.Mathlib.Decide.{dec_lt, ℕ_discrete as dec_eq}
use lim_webserver.Base.Outcome.{ok, ◌>>=◌}
use lim_webserver.ByteArray.Chain.{Iovec}
use lim_webserver.ByteArray.Chain.Scan.{gather_all, buffers_loop_lem, advance_loop_lem}
use lim_webserver.ByteArray.Store.{ByteArray, buffers, clip, get_read_buffers, add_read_position}
use lim_webserver.ByteArray.Store.Valid.{IsValid, located, unread, get_read_size_lem}
use lim_webserver.ByteArray.Store.Bytes.{at_path, buffers_lem, advance_lem}
use lim_webserver.ByteArray.Store.Reads.{Taken, Moved-Taken, moved_read, length-unread}

-- The smaller of `len` and the number of unread bytes.
clip_lem :
    (s : ByteArray) (len : ℕ)
    → IsValid s
    → clip s len ≡ (if ltb (length (unread s)) len then length (unread s) else len)
unfolding clip
clip_lem s len v =
    let e = get_read_size_lem v ∙ sym (length-unread v) in
    ap (λ (k : ℕ). if ltb k len then k else len) e

length-take_le : (bs : List ℕ) (n : ℕ) → n ≤ length bs → length (take n bs) ≡ n
length-take_le bs n h = omega (arith, length-take n bs)

clip-le : (m n : ℕ) → (if ltb m n then m else n) ≤ m
clip-le m n = ground arith

take_clip : (bs : List ℕ) (n : ℕ) → take (if ltb (length bs) n then length bs else n) bs ≡ take n bs
take_clip bs n = elim (dec_lt (length bs) n) [
  | yes h ↦
      rw (lt→ltb (length bs) n h)
        (take_all bs (length bs) (omega arith) ∙ sym (take_all bs n (omega arith)))
  | no h ↦ rw (ge→ltb (length bs) n (omega arith))
]

buffers-unread :
    (s : ByteArray) (n : ℕ)
    → IsValid s
    → s.read_pos.pos < s.capacity
    → n ≤ length (unread s)
    → (vs : List Iovec) × (buffers s s.read_pos.cur s.read_pos.pos n ≡ ok (n, vs))
      × (gather_all s.nodes vs ≡ take n (unread s))
buffers-unread s n v h hn =
    let fits : s.read_pos.pos + n ≤ s.write_pos.pos = omega (arith, length-unread v, v.ordered) in
    let (i, ei, hi, lo, hi') =
      located s.base_size (length s.nodes) s.read_pos.pos s.read_pos.cur v.read_at
        (omega (arith, v.cap)) in
    let npos = s.read_pos.pos - i * s.base_size in
    let (vs, e, g) =
      buffers_loop_lem s.base_size v.positive s.nodes v.uniform n n i npos (s.base_size - npos)
        s.read_pos.pos hi (omega arith) (omega arith) (omega arith) (omega (arith, v.inside, v.cap))
        (omega arith) in
    (
      vs,
      buffers_lem s s.read_pos.pos i npos (s.base_size - npos) v.uniform hi (omega arith)
            (omega arith) (omega arith) n s.read_pos.cur ei
          ∙ ap (λ r. r >>= λ t. ok (n, t)) e,
      g ∙ sym (take-drop-take n s.read_pos.pos s.write_pos.pos (flatten s.nodes) fits),
    )

clipped :
    (s : ByteArray) (len n : ℕ)
    → clip s len ≡ n
    → get_read_buffers len s
      ≡ (if n == 0 then ok (0, []) else buffers s s.read_pos.cur s.read_pos.pos n)
unfolding get_read_buffers
clipped s len n e =
    ap (λ (k : ℕ). if k == 0 then ok (0, []) else buffers s s.read_pos.cur s.read_pos.pos k) e

get_read_buffers_by :
    (s : ByteArray) (len n : ℕ)
    → IsValid s
    → s.read_pos.pos < s.capacity
    → clip s len ≡ n
    → n ≤ length (unread s)
    → (vs : List Iovec) × (get_read_buffers len s ≡ ok (n, vs))
      × (gather_all s.nodes vs ≡ take n (unread s))
get_read_buffers_by s len n v h e le = elim (dec_eq n 0) [
  | yes z ↦ ([], clipped s len n e ∙ rw z, rw z)
  | no f ↦
      let (vs, eb, g) = buffers-unread s n v h le in
      (vs, clipped s len n e ∙ rw (ne→== n 0 f) eb, g)
]

-- On a valid array whose read position is before the end of the chain, `getReadBuffers(len)` gives
-- buffers whose bytes, one after the other, are the first `len` unread ones, or all if there are
-- fewer, and returns their number.
pub get_read_buffers-unread :
    (s : ByteArray) (len : ℕ)
    → IsValid s
    → s.read_pos.pos < s.capacity
    → (vs : List Iovec) × (n : ℕ) × (get_read_buffers len s ≡ ok (n, vs))
      × (gather_all s.nodes vs ≡ take len (unread s))
      × (n ≡ length (take len (unread s)))
get_read_buffers-unread s len v h =
    let n = if ltb (length (unread s)) len then length (unread s) else len in
    let le = clip-le (length (unread s)) len in
    let (vs, e, g) = get_read_buffers_by s len n v h (clip_lem s len v) le in
    let same = take_clip (unread s) len in
    (vs, n, e, g ∙ same, sym (ap length (sym same) ∙ length-take_le (unread s) n le))

-- On a valid array whose read position is before the end of the chain, `addReadPosition(n)` with at
-- most the number of unread bytes leaves what a `read` of `n` bytes leaves.
pub add_read_position-Taken :
    (s : ByteArray) (n : ℕ)
    → IsValid s
    → s.read_pos.pos < s.capacity
    → n ≤ length (unread s)
    → (s' : ByteArray) × (add_read_position n s ≡ ok s') × Taken s n s'
unfolding add_read_position moved_read
add_read_position-Taken s n v h hn =
    let fits : s.read_pos.pos + n ≤ s.write_pos.pos = omega (arith, length-unread v, v.ordered) in
    let (i, ei, hi, lo, hi') =
      located s.base_size (length s.nodes) s.read_pos.pos s.read_pos.cur v.read_at
        (omega (arith, v.cap)) in
    let npos = s.read_pos.pos - i * s.base_size in
    let (p, e, m) =
      advance_loop_lem s.base_size v.positive s.nodes v.uniform n n i npos (s.base_size - npos)
        s.read_pos.pos hi (omega arith) (omega arith) (omega arith) (omega (arith, v.inside, v.cap))
        (omega arith) in
    let step =
      advance_lem s s.read_pos.pos i npos (s.base_size - npos) v.uniform hi (omega arith)
        (omega arith) (omega arith) n s.read_pos (at_path s.read_pos i ei) in
    (
      moved_read s p,
      ap (λ r. r >>= λ t. ok (moved_read s t)) (step ∙ e),
      Moved-Taken s n p v fits m,
    )
