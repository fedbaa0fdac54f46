-- ===== src/ByteArray/Codec.antt =====
-- Numbers and strings on a `ByteArray` (spike/net/ByteArray.cpp, Endian.h): the fixed-width forms in
-- network byte order, the variable-length forms in groups of seven bits, and strings behind their
-- length. A signed argument of fixed width is its two's complement word; the host is little-endian.
pub mod Queue
pub mod Fixed
pub mod Varint
pub mod Zigzag
use lim_webserver.Base.{ℕ, zero, suc, ◌+◌, ◌-◌, ◌*◌, ◌/◌, ◌%◌, ◌^◌, List, [], ◌∷◌, ◌++◌}
use lim_webserver.Base.{length, ltb, leb, if◌then◌else◌, bit_and, bit_or, bit_xor}
use lim_webserver.Base.Words.{ℤ, pos, negsuc, signed, le_bytes, from_le, swap_bytes}
use lim_webserver.Base.Outcome.{Outcome, ok, ◌>>=◌}
use lim_webserver.ByteArray.Store.{ByteArray, write, read}

abbrev pub Reader : Type 0 → Type 0
Reader A = ByteArray → Outcome (A × ByteArray)

-- `write(&value, n)` and `read(&value, n)`: the bytes of a word as the host stores it.
pub write_word : ℕ → ℕ → ByteArray → Outcome ByteArray
write_word n v = write (le_bytes n v)

pub read_word : ℕ → Reader ℕ
read_word n s = do (bytes, s') ← read n s; ok (from_le bytes, s')

-- `endian::hostToNetwork` and `endian::networkToHost` on `n` bytes
pub host_to_network : ℕ → ℕ → ℕ
host_to_network n v = swap_bytes n v

pub network_to_host : ℕ → ℕ → ℕ
network_to_host n v = swap_bytes n v

pub write_fint8 : ℕ → ByteArray → Outcome ByteArray
write_fint8 v = write_word 1 v

pub write_fuint8 : ℕ → ByteArray → Outcome ByteArray
write_fuint8 v = write_word 1 v

pub write_fint16 : ℕ → ByteArray → Outcome ByteArray
write_fint16 v = write_word 2 (host_to_network 2 v)

pub write_fuint16 : ℕ → ByteArray → Outcome ByteArray
write_fuint16 v = write_word 2 (host_to_network 2 v)

-- The swapped word is computed, and the unswapped one is written.
pub write_fint32 : ℕ → ByteArray → Outcome ByteArray
write_fint32 value = let v = host_to_network 4 value in write_word 4 value

pub write_fuint32 : ℕ → ByteArray → Outcome ByteArray
write_fuint32 v = write_word 4 (host_to_network 4 v)

pub write_fint64 : ℕ → ByteArray → Outcome ByteArray
write_fint64 v = write_word 8 (host_to_network 8 v)

pub write_fuint64 : ℕ → ByteArray → Outcome ByteArray
write_fuint64 v = write_word 8 (host_to_network 8 v)

pub read_fint8 : Reader ℕ
read_fint8 = read_word 1

pub read_fuint8 : Reader ℕ
read_fuint8 = read_word 1

-- The body of `readFint16` to `readFuint64` (the macro XX).
pub read_network : ℕ → Reader ℕ
read_network n s = do (v, s') ← read_word n s; ok (network_to_host n v, s')

pub read_fint16 : Reader ℕ
read_fint16 = read_network 2

pub read_fuint16 : Reader ℕ
read_fuint16 = read_network 2

pub read_fint32 : Reader ℕ
read_fint32 = read_network 4

pub read_fuint32 : Reader ℕ
read_fuint32 = read_network 4

pub read_fint64 : Reader ℕ
read_fint64 = read_network 8

pub read_fuint64 : Reader ℕ
read_fuint64 = read_network 8

-- The loop that fills `tmp`, a round for each group of seven bits.
pub varint_groups : ℕ → ℕ → List ℕ
varint_groups zero value = []
varint_groups (suc fuel) value =
    let more = bit_or (bit_and value 0x7f) 0x80 ∷ varint_groups fuel (value / 2 ^ 7) in
    if leb 0x80 value then more else value ∷ []

-- `tmp` has room for 5 and for 10 bytes.
pub write_uint32 : ℕ → ByteArray → Outcome ByteArray
write_uint32 value = write (varint_groups 5 value)

pub write_uint64 : ℕ → ByteArray → Outcome ByteArray
write_uint64 value = write (varint_groups 10 value)

-- The loop of `readUint32` and `readUint64` on a word of `w` bits, with the rounds that are left.
pub varint_loop : ℕ → ℕ → ℕ → ℕ → Reader ℕ
varint_loop w zero i result s = ok (result, s)
varint_loop w (suc rounds) i result s = do
  (b, s') ← read_fuint8 s
  let more = varint_loop w rounds (i + 7) (bit_or result (bit_and b 0x7f * 2 ^ i % 2 ^ w)) s'
  if ltb b 0x80 then ok (bit_or result (b * 2 ^ i % 2 ^ w), s') else more

-- `i` runs over 0, 7, …, 28, and over 0, 7, …, 63.
pub read_uint32 : Reader ℕ
read_uint32 = varint_loop 32 5 0 0

pub read_uint64 : Reader ℕ
read_uint64 = varint_loop 64 10 0 0

-- `EncodeZigzag32` and `EncodeZigzag64`, on words of `k + 1` bits
pub encode_zigzag : ℕ → ℤ → ℕ
encode_zigzag k (pos n) = n * 2 % 2 ^ suc k
encode_zigzag k (negsuc n) = (suc n % 2 ^ suc k * 2 + 2 ^ suc k - 1) % 2 ^ suc k

-- `DecodeZigzag32` and `DecodeZigzag64`
pub decode_zigzag : ℕ → ℕ → ℤ
decode_zigzag k v = signed k (bit_xor (v / 2) ((2 ^ suc k - bit_and v 1) % 2 ^ suc k))

pub write_int32 : ℤ → ByteArray → Outcome ByteArray
write_int32 value = write_uint32 (encode_zigzag 31 value)

pub write_int64 : ℤ → ByteArray → Outcome ByteArray
write_int64 value = write_uint64 (encode_zigzag 63 value)

pub read_int32 : Reader ℤ
read_int32 s = do (v, s') ← read_uint32 s; ok (decode_zigzag 31 v, s')

pub read_int64 : Reader ℤ
read_int64 s = do (v, s') ← read_uint64 s; ok (decode_zigzag 63 v, s')

-- The forms of a string differ in how its length is written.
pub write_string_f16 : List ℕ → ByteArray → Outcome ByteArray
write_string_f16 value s = do s' ← write_fuint16 (length value % 2 ^ 16) s; write value s'

pub write_string_f32 : List ℕ → ByteArray → Outcome ByteArray
write_string_f32 value s = do s' ← write_fuint32 (length value % 2 ^ 32) s; write value s'

pub write_string_f64 : List ℕ → ByteArray → Outcome ByteArray
write_string_f64 value s = do s' ← write_fuint64 (length value) s; write value s'

pub write_string_vint : List ℕ → ByteArray → Outcome ByteArray
write_string_vint value s = do s' ← write_uint64 (length value) s; write value s'

pub write_string_without_length : List ℕ → ByteArray → Outcome ByteArray
write_string_without_length value = write value

pub read_string_f16 : Reader (List ℕ)
read_string_f16 s = do (len, s') ← read_fuint16 s; read len s'

pub read_string_f32 : Reader (List ℕ)
read_string_f32 s = do (len, s') ← read_fuint32 s; read len s'

pub read_string_f64 : Reader (List ℕ)
read_string_f64 s = do (len, s') ← read_fuint64 s; read len s'

pub read_string_vint : Reader (List ℕ)
read_string_vint s = do (len, s') ← read_uint64 s; read len s'
