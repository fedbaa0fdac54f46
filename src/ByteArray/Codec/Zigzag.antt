-- ===== src/ByteArray/Codec/Zigzag.antt =====
-- The zigzag form of signed numbers (spike/net/ByteArray.cpp).
use lim_webserver.Base.{ℕ, suc, ◌+◌, ◌-◌, ◌*◌, ◌/◌, ◌%◌, ◌^◌, ◌<◌, ◌≡◌, arith, ap, ◌∙◌}
use lim_webserver.Base.{[], bit_and, bit_xor, lt→ltb, ge→ltb}
use lim_webserver.Base.Bits.{bit_and_ones, bit_xor_ones, bit_xor-zero}
use lim_webserver.Base.Words.{ℤ, pos, negsuc, signed, InRange}
use lim_webserver.Base.Outcome.{ok, ◌>>=◌}
use lim_webserver.ByteArray.Store.{ByteArray}
use lim_webserver.ByteArray.Store.Valid.{IsValid, unread}
use lim_webserver.ByteArray.Store.Bytes.{HasRoom}
use lim_webserver.ByteArray.Codec.{
  encode_zigzag, decode_zigzag, write_int32, read_int32, write_int64, read_int64,
}
use lim_webserver.ByteArray.Codec.Varint.{read_uint32-write_uint32, read_uint64-write_uint64}
use lim_webserver.ByteArray.Codec.{write_uint32, read_uint32, write_uint64, read_uint64}
use lim_webserver.ByteArray.Codec.Queue.{>>=-map}
use native.Mathlib.Nat.{pow-suc, mod-eq_of_lt, one-le-pow}

wrap : (x m : ℕ) → x < m → (x + m) % m ≡ x
wrap x m h = grind arith

-- On the numbers in range the form is 2 n for n, and 2 n + 1 for -(n + 1).
encode_nonneg : (k n : ℕ) → n < 2 ^ k → encode_zigzag k (pos n) ≡ 2 * n
unfolding encode_zigzag
encode_nonneg k n h = mod-eq_of_lt (omega (arith, pow-suc 2 k)) ∙ omega arith

encode_neg : (k n : ℕ) → n < 2 ^ k → encode_zigzag k (negsuc n) ≡ 2 * n + 1
unfolding encode_zigzag
encode_neg k n h =
    let m = 2 ^ suc k in
    let small : suc n % m ≡ suc n = mod-eq_of_lt (omega (arith, pow-suc 2 k)) in
    let sum : suc n % m * 2 + m - 1 ≡ 2 * n + 1 + m = omega arith in
    ap (λ (x : ℕ). x % m) sum ∙ wrap (2 * n + 1) m (omega (arith, pow-suc 2 k))

decode_even : (k n : ℕ) → n < 2 ^ k → decode_zigzag k (2 * n) ≡ pos n
unfolding decode_zigzag signed
decode_even k n h =
    let half : 2 * n / 2 ≡ n = omega arith in
    let sign : bit_and (2 * n) 1 ≡ 0 = omega (arith, bit_and_ones 1 (2 * n)) in
    let mask : (2 ^ suc k - 0) % 2 ^ suc k ≡ 0 =
      ap (λ (x : ℕ). x % 2 ^ suc k) (omega arith)
      ∙ wrap 0 (2 ^ suc k) (one-le-pow (suc k) 2 (omega arith)) in
    rw (half, sign, mask, bit_xor-zero, lt→ltb n (2 ^ k) h)

decode_odd : (k n : ℕ) → n < 2 ^ k → decode_zigzag k (2 * n + 1) ≡ negsuc n
unfolding decode_zigzag signed
decode_odd k n h =
    let half : (2 * n + 1) / 2 ≡ n = omega arith in
    let sign : bit_and (2 * n + 1) 1 ≡ 1 = omega (arith, bit_and_ones 1 (2 * n + 1)) in
    let mask : (2 ^ suc k - 1) % 2 ^ suc k ≡ 2 ^ suc k - 1 =
      mod-eq_of_lt (omega (arith, pow-suc 2 k)) in
    let flip : bit_xor n (2 ^ suc k - 1) ≡ 2 ^ suc k - 1 - n =
      bit_xor_ones (suc k) n (omega (arith, pow-suc 2 k)) in
    let back : 2 ^ suc k - (2 ^ suc k - 1 - n) - 1 ≡ n = omega (arith, pow-suc 2 k) in
    rw (half, sign, mask, flip, ge→ltb (2 ^ suc k - 1 - n) (2 ^ k) (omega (arith, pow-suc 2 k)))
      (ap negsuc back)

-- The zigzag decoding undoes the encoding on every signed number of `k + 1` bits.
pub decode_zigzag-encode_zigzag :
    (k : ℕ) (v : ℤ) → InRange k v → decode_zigzag k (encode_zigzag k v) ≡ v
decode_zigzag-encode_zigzag k (pos n) h = rw (encode_nonneg k n h) (decode_even k n h)
decode_zigzag-encode_zigzag k (negsuc n) h = rw (encode_neg k n h) (decode_odd k n h)

encode_zigzag-lt : (k : ℕ) (v : ℤ) → InRange k v → encode_zigzag k v < 2 ^ suc k
encode_zigzag-lt k (pos n) h = omega (arith, encode_nonneg k n h, pow-suc 2 k)
encode_zigzag-lt k (negsuc n) h = omega (arith, encode_neg k n h, pow-suc 2 k)

-- Every `int32_t` is read back by `readInt32` from what `writeInt32` wrote, on a valid array with
-- nothing unread, a free byte and room for 5 bytes; nothing stays unread.
pub read_int32-write_int32 :
    (v : ℤ) (s : ByteArray)
    → InRange 31 v
    → IsValid s
    → HasRoom s 5
    → unread s ≡ []
    → (s' : ByteArray) × ((write_int32 v s >>= read_int32) ≡ ok (v, s'))
      × IsValid s'
      × (unread s' ≡ [])
unfolding write_int32 read_int32
read_int32-write_int32 v s h ok_s r e =
    let w = encode_zigzag 31 v in
    let (s', p, v', u) = read_uint32-write_uint32 w s (encode_zigzag-lt 31 v h) ok_s r e in
    (
      s',
      >>=-map (write_uint32 w s) read_uint32 (decode_zigzag 31) w s' p
          ∙ ap (λ (z : ℤ). ok (z, s')) (decode_zigzag-encode_zigzag 31 v h),
      v',
      u,
    )

-- Every `int64_t` is read back by `readInt64` from what `writeInt64` wrote, on a valid array with
-- nothing unread, a free byte and room for 10 bytes; nothing stays unread.
pub read_int64-write_int64 :
    (v : ℤ) (s : ByteArray)
    → InRange 63 v
    → IsValid s
    → HasRoom s 10
    → unread s ≡ []
    → (s' : ByteArray) × ((write_int64 v s >>= read_int64) ≡ ok (v, s'))
      × IsValid s'
      × (unread s' ≡ [])
unfolding write_int64 read_int64
read_int64-write_int64 v s h ok_s r e =
    let w = encode_zigzag 63 v in
    let (s', p, v', u) = read_uint64-write_uint64 w s (encode_zigzag-lt 63 v h) ok_s r e in
    (
      s',
      >>=-map (write_uint64 w s) read_uint64 (decode_zigzag 63) w s' p
          ∙ ap (λ (z : ℤ). ok (z, s')) (decode_zigzag-encode_zigzag 63 v h),
      v',
      u,
    )
