-- ===== src/ByteArray/Codec/Varint.antt =====
-- The variable-length numbers (spike/net/ByteArray.cpp): groups of seven bits, lowest first, with
-- the top bit set on all but the last.
use lim_webserver.Base.{
  ℕ, zero, suc, ◌+◌, ◌*◌, ◌/◌, ◌%◌, ◌^◌, ◌≤◌, ◌<◌, ◌≡◌, refl, sym, arith, ap, ◌∙◌,
}
use lim_webserver.Base.{[], ◌∷◌, ◌++◌, length, bit_and, bit_or, lt→ltb, ge→ltb, le→leb, gt→leb}
use lim_webserver.Base.Bits.{bit_and_ones, bit_or_fields}
use lim_webserver.Base.Words.{le_bytes}
use lim_webserver.Base.Outcome.{ok, ◌>>=◌}
use lim_webserver.ByteArray.Store.{ByteArray}
use lim_webserver.ByteArray.Store.Valid.{IsValid, unread}
use lim_webserver.ByteArray.Store.Bytes.{HasRoom}
use lim_webserver.ByteArray.Codec.{varint_groups, varint_loop, read_fuint8}
use lim_webserver.ByteArray.Codec.{write_uint32, write_uint64, read_uint32, read_uint64}
use lim_webserver.ByteArray.Codec.Queue.{Reads, Writes, write-Writes, read_back}
use lim_webserver.ByteArray.Codec.Fixed.{read_word-Reads}
use native.Mathlib.Decide.{dec_lt}
use native.Mathlib.Nat.{pow-suc, mod-eq_of_lt, div-add-mod, mul-le-mul_right}
use native.Mathlib.Numerals.{towards_suc}

inner_group : (v : ℕ) → bit_or (bit_and v 0x7f) 0x80 ≡ v % 128 + 128
inner_group v =
    ap (λ (k : ℕ). bit_or k 0x80) (bit_and_ones 7 v) ∙ bit_or_fields 7 1 (v % 128) (omega arith)

low_group : (v : ℕ) → bit_and (v % 128 + 128) 0x7f ≡ v % 128
low_group v = bit_and_ones 7 (v % 128 + 128) ∙ rest
  where
    rest : (v % 128 + 128) % 2 ^ 7 ≡ v % 128
    rest = omega arith

groups_last : (fuel v : ℕ) → v < 128 → varint_groups (suc fuel) v ≡ v ∷ []
unfolding varint_groups
groups_last fuel v h = rw (gt→leb 0x80 v h)

groups_more :
    (fuel v : ℕ)
    → 128 ≤ v
    → varint_groups (suc fuel) v ≡ (v % 128 + 128) ∷ varint_groups fuel (v / 128)
unfolding varint_groups
groups_more fuel v h = rw (le→leb 0x80 v h, inner_group v)

more_rounds : (rounds v : ℕ) → 128 ≤ v → v < 128 ^ suc rounds → 0 < rounds
more_rounds zero v p q = absurd (omega arith)
more_rounds (suc rounds) v p q = omega arith

below : (rounds v : ℕ) → v < 128 ^ suc rounds → v / 128 < 128 ^ rounds
below rounds v h = omega (arith, pow-suc 128 rounds)

shift_seven : (i : ℕ) → 2 ^ (i + 7) ≡ 128 * 2 ^ i
shift_seven i = simp towards_suc (omega arith)

-- A value at bit `i` is its low group there and the rest seven bits higher.
regroup : (v i : ℕ) → v % 128 * 2 ^ i + v / 128 * 2 ^ (i + 7) ≡ v * 2 ^ i
regroup v i = omega (
  arith,
  ap (λ (t : ℕ). t * 2 ^ i) (div-add-mod v 128),
  ap (λ (t : ℕ). v / 128 * t) (shift_seven i),
)

group_fits : (v i result : ℕ) → result < 2 ^ i → result + v % 128 * 2 ^ i < 2 ^ (i + 7)
group_fits v i result h =
    omega (arith, shift_seven i, mul-le-mul_right {m = v % 128} {n = 127} (2 ^ i) (omega arith))

-- `result |= field << i`, where the field lies above the bits read so far and inside the word.
or_field :
    (w result b i : ℕ)
    → result < 2 ^ i
    → result + b * 2 ^ i < 2 ^ w
    → bit_or result (b * 2 ^ i % 2 ^ w) ≡ result + b * 2 ^ i
or_field w result b i h fits =
    ap (bit_or result) (mod-eq_of_lt (omega arith)) ∙ bit_or_fields i b result h

byte-Reads : (b : ℕ) → b < 256 → Reads read_fuint8 b (b ∷ [])
unfolding read_fuint8 le_bytes
byte-Reads b h s rest v e =
    let low : b % 256 ≡ b = omega arith in
    read_word-Reads 0 b (omega arith) s rest v (e ∙ ap (λ (k : ℕ). k ∷ rest) (sym low))

module _ (w : ℕ) where
  -- The loop reads the groups of `v` into the bits from `i` on.
  varint_loop-Reads :
      (rounds i result v : ℕ)
      → v < 128 ^ rounds
      → 0 < rounds
      → result < 2 ^ i
      → result + v * 2 ^ i < 2 ^ w
      → Reads (varint_loop w rounds i result) (result + v * 2 ^ i) (varint_groups rounds v)
  unfolding varint_loop
  varint_loop-Reads zero i result v hv hr hb fits s rest ok_s e = absurd (omega arith)
  varint_loop-Reads (suc rounds) i result v hv hr hb fits s rest ok_s e = elim (dec_lt v 128) [
    | yes p ↦
        let (s', r, v', e') =
          byte-Reads v (omega arith) s rest ok_s
            (e ∙ ap (λ zs. zs ++ rest) (groups_last rounds v p)) in
        (s', rw (r, lt→ltb v 0x80 p, or_field w result v i hb fits), v', e')
    | no q ↦
        let low = v % 128 in
        let (s', r, v', e') =
          byte-Reads (low + 128) (omega arith) s (varint_groups rounds (v / 128) ++ rest) ok_s
            (e ∙ ap (λ zs. zs ++ rest) (groups_more rounds v (omega arith))) in
        let (s'', r'', v'', e'') =
          varint_loop-Reads rounds (i + 7) (result + low * 2 ^ i) (v / 128) (below rounds v hv)
            (more_rounds rounds v (omega arith) hv) (group_fits v i result hb)
            (omega (arith, regroup v i)) s' rest v' e' in
        (
          s'',
          rw
              (
                r,
                ge→ltb (low + 128) 0x80 (omega arith),
                low_group v,
                or_field w result low i hb (omega (arith, regroup v i)),
                r'',
              )
              (ap (λ (k : ℕ). ok (k, s'')) (omega (arith, regroup v i))),
          v'',
          e'',
        )
  ]

-- The loop that fills `tmp` in `writeUint32` and `writeUint64` ends by its own test: on a
-- value below `128 ^ k`, for a positive `k`, any fuel from `k` on writes the same groups, one
-- at least and `k` at most.
pub groups_enough :
    (k fuel v : ℕ)
    → v < 128 ^ k
    → 0 < k
    → k ≤ fuel
    → (varint_groups fuel v ≡ varint_groups k v)
      × (1 ≤ length (varint_groups k v))
      × (length (varint_groups k v) ≤ k)
groups_enough zero fuel v h hk hf = absurd (omega arith)
groups_enough (suc k) zero v h hk hf = absurd (omega arith)
groups_enough (suc k) (suc fuel) v h hk hf = elim (dec_lt v 128) [
  | yes p ↦ rw (groups_last fuel v p, groups_last k v p) (refl, omega arith, omega arith)
  | no q ↦
      let (same, _, len) =
        groups_enough k fuel (v / 128) (below k v h) (more_rounds k v (omega arith) h)
          (omega arith) in
      rw (groups_more fuel v (omega arith), groups_more k v (omega arith))
        (ap (λ zs. (v % 128 + 128) ∷ zs) same, omega arith, omega arith)
]

smaller_room : (s : ByteArray) (m n : ℕ) → m ≤ n → HasRoom s n → HasRoom s m
smaller_room s m n h r = record { free = r.free; bounded = omega (arith, r.bounded) }

module _ (v : ℕ) where
  pub write_uint32-Writes : Writes (write_uint32 v) (varint_groups 5 v)
  unfolding write_uint32
  write_uint32-Writes = write-Writes (varint_groups 5 v)

  pub read_uint32-Reads : v < 2 ^ 32 → Reads read_uint32 v (varint_groups 5 v)
  unfolding read_uint32
  read_uint32-Reads h s rest ok_s e =
      let (s', r, v', e') =
        varint_loop-Reads 32 5 0 0 v (omega arith) (omega arith) (omega arith) (omega arith) s rest
          ok_s e in
      (s', r ∙ ap (λ (k : ℕ). ok (k, s')) (omega arith), v', e')

  write_uint64-Writes : Writes (write_uint64 v) (varint_groups 10 v)
  unfolding write_uint64
  write_uint64-Writes = write-Writes (varint_groups 10 v)

  pub read_uint64-Reads : v < 2 ^ 64 → Reads read_uint64 v (varint_groups 10 v)
  unfolding read_uint64
  read_uint64-Reads h s rest ok_s e =
      let (s', r, v', e') =
        varint_loop-Reads 64 10 0 0 v (omega arith) (omega arith) (omega arith) (omega arith) s rest
          ok_s e in
      (s', r ∙ ap (λ (k : ℕ). ok (k, s')) (omega arith), v', e')

-- Every `uint32_t` is read back by `readUint32` from what `writeUint32` wrote, on a valid array with
-- nothing unread, a free byte and room for 5 bytes; nothing stays unread.
pub read_uint32-write_uint32 :
    (v : ℕ) (s : ByteArray)
    → v < 2 ^ 32
    → IsValid s
    → HasRoom s 5
    → unread s ≡ []
    → (s' : ByteArray) × ((write_uint32 v s >>= read_uint32) ≡ ok (v, s'))
      × IsValid s'
      × (unread s' ≡ [])
read_uint32-write_uint32 v s h ok_s r e =
    let (_, _, len) = groups_enough 5 5 v (omega arith) (omega arith) (omega arith) in
    read_back (write_uint32 v) read_uint32 v (varint_groups 5 v) (write_uint32-Writes v)
      (read_uint32-Reads v h) s ok_s (smaller_room s (length (varint_groups 5 v)) 5 len r) e

-- Every `uint64_t` is read back by `readUint64` from what `writeUint64` wrote, on a valid array with
-- nothing unread, a free byte and room for 10 bytes; nothing stays unread.
pub read_uint64-write_uint64 :
    (v : ℕ) (s : ByteArray)
    → v < 2 ^ 64
    → IsValid s
    → HasRoom s 10
    → unread s ≡ []
    → (s' : ByteArray) × ((write_uint64 v s >>= read_uint64) ≡ ok (v, s'))
      × IsValid s'
      × (unread s' ≡ [])
read_uint64-write_uint64 v s h ok_s r e =
    let (_, _, len) = groups_enough 10 10 v (omega arith) (omega arith) (omega arith) in
    read_back (write_uint64 v) read_uint64 v (varint_groups 10 v) (write_uint64-Writes v)
      (read_uint64-Reads v h) s ok_s (smaller_room s (length (varint_groups 10 v)) 10 len r) e
