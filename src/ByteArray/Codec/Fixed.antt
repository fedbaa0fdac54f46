-- ===== src/ByteArray/Codec/Fixed.antt =====
-- Fixed-width numbers (spike/net/ByteArray.cpp, Endian.h).
use lim_webserver.Base.{ℕ, suc, ◌^◌, ◌<◌, ◌≡◌, sym, arith, ap, ◌∙◌}
use lim_webserver.Base.{List, [], ◌∷◌, length}
use lim_webserver.Base.Words.{le_bytes, from_le, swap_bytes, length-le_bytes, from_le-le_bytes}
use lim_webserver.Base.Words.{swap_bytes-swap_bytes, swap_bytes-lt}
use lim_webserver.Base.Outcome.{Outcome, ok, ◌>>=◌}
use lim_webserver.ByteArray.Store.{ByteArray, read}
use lim_webserver.ByteArray.Codec.{Reader, read_word, read_network, write_word, host_to_network}
use lim_webserver.ByteArray.Codec.{
  network_to_host, write_fint8, write_fuint8, write_fint16, write_fuint16,
}
use lim_webserver.ByteArray.Codec.{write_fint32, write_fuint32, write_fint64, write_fuint64}
use lim_webserver.ByteArray.Codec.{read_fint8, read_fuint8, read_fint16, read_fuint16, read_fint32}
use lim_webserver.ByteArray.Codec.{read_fuint32, read_fint64, read_fuint64}
use lim_webserver.ByteArray.Store.Valid.{IsValid, unread}
use lim_webserver.ByteArray.Store.Bytes.{HasRoom}
use lim_webserver.ByteArray.Codec.Queue.{
  Reads, read-Reads, Reads-map, Writes, write-Writes, read_back,
}

read_exact : (n : ℕ) (bs : List ℕ) → length bs ≡ suc n → Reads (read (suc n)) bs bs
read_exact n [] h s rest v e = absurd (omega arith)
read_exact n (b ∷ bs) h s rest v e =
    let (s', r, v', e') = read-Reads b bs s rest v e in
    (s', ap (λ (k : ℕ). read k s) (sym h) ∙ r, v', e')

-- A word of `n + 1` bytes is read as it lies in memory.
pub read_word-Reads : (n v : ℕ) → v < 256 ^ suc n → Reads (read_word (suc n)) v (le_bytes (suc n) v)
unfolding read_word
read_word-Reads n v h s rest ok_s e =
    let (s', r, v', e') =
      Reads-map (read (suc n)) from_le (le_bytes (suc n) v) (le_bytes (suc n) v)
        (read_exact n (le_bytes (suc n) v) (length-le_bytes (suc n) v)) s rest ok_s e in
    (s', r ∙ ap (λ (k : ℕ). ok (k, s')) (from_le-le_bytes (suc n) v h), v', e')

-- What is written in network order is read back.
pub read_network-Reads :
    (n v : ℕ)
    → v < 256 ^ suc n
    → Reads (read_network (suc n)) v (le_bytes (suc n) (host_to_network (suc n) v))
unfolding read_network host_to_network network_to_host
read_network-Reads n v h s rest ok_s e =
    let w = swap_bytes (suc n) v in
    let (s', r, v', e') =
      Reads-map (read_word (suc n)) (swap_bytes (suc n)) w (le_bytes (suc n) w)
        (read_word-Reads n w (swap_bytes-lt (suc n) v)) s rest ok_s e in
    (s', r ∙ ap (λ (k : ℕ). ok (k, s')) (swap_bytes-swap_bytes (suc n) v h), v', e')

pub write_word-Writes : (n v : ℕ) → Writes (write_word n v) (le_bytes n v)
unfolding write_word
write_word-Writes n v = write-Writes (le_bytes n v)

swapped-Reads : (v : ℕ) → v < 256 ^ 4 → Reads (read_network 4) (swap_bytes 4 v) (le_bytes 4 v)
unfolding read_network network_to_host
swapped-Reads v h = Reads-map (read_word 4) (swap_bytes 4) v (le_bytes 4 v) (read_word-Reads 3 v h)

-- The fixed-width forms whose writer swaps: all of them but `writeFint32`.
pub data Form : Type 0 where
  fint8 fuint8 fint16 fuint16 fuint32 fint64 fuint64 : Form

-- Its size less one.
abbrev pub tail_size : Form → ℕ
tail_size fint8 = 0
tail_size fuint8 = 0
tail_size fint16 = 1
tail_size fuint16 = 1
tail_size fuint32 = 3
tail_size fint64 = 7
tail_size fuint64 = 7

abbrev pub writer : Form → ℕ → ByteArray → Outcome ByteArray
writer fint8 = write_fint8
writer fuint8 = write_fuint8
writer fint16 = write_fint16
writer fuint16 = write_fuint16
writer fuint32 = write_fuint32
writer fint64 = write_fint64
writer fuint64 = write_fuint64

abbrev pub reader : Form → Reader ℕ
reader fint8 = read_fint8
reader fuint8 = read_fuint8
reader fint16 = read_fint16
reader fuint16 = read_fuint16
reader fuint32 = read_fuint32
reader fint64 = read_fint64
reader fuint64 = read_fuint64

encoding : Form → ℕ → List ℕ
encoding fint8 v = le_bytes 1 v
encoding fuint8 v = le_bytes 1 v
encoding f v = le_bytes (suc (tail_size f)) (host_to_network (suc (tail_size f)) v)

length-encoding : (f : Form) (v : ℕ) → length (encoding f v) ≡ suc (tail_size f)
unfolding encoding
length-encoding fint8 v = length-le_bytes 1 v
length-encoding _ v = length-le_bytes _ _

writer-Writes : (f : Form) (v : ℕ) → Writes (writer f v) (encoding f v)
unfolding encoding write_fint8 write_fuint8 write_fint16 write_fuint16 write_fuint32 write_fint64
    write_fuint64
writer-Writes fint8 v = write_word-Writes 1 v
writer-Writes _ v = write_word-Writes _ _

reader-Reads : (f : Form) (v : ℕ) → v < 256 ^ suc (tail_size f) → Reads (reader f) v (encoding f v)
unfolding encoding read_fint8 read_fuint8 read_fint16 read_fuint16 read_fuint32 read_fint64
    read_fuint64
reader-Reads fint8 v h = read_word-Reads 0 v h
reader-Reads fuint8 v h = read_word-Reads 0 v h
reader-Reads _ v h = read_network-Reads _ v h

-- Every fixed-width form but `writeFint32` is read back: on a valid array with nothing unread, with a
-- free byte and room for the value, writing the word and then reading it gives the word, and leaves
-- a valid array with nothing unread.
pub reader-writer :
    (f : Form) (v : ℕ) (s : ByteArray)
    → v < 256 ^ suc (tail_size f)
    → IsValid s
    → HasRoom s (suc (tail_size f))
    → unread s ≡ []
    → (s' : ByteArray) × ((writer f v s >>= reader f) ≡ ok (v, s')) × IsValid s' × (unread s' ≡ [])
reader-writer f v s h ok_s r e =
    read_back (writer f v) (reader f) v (encoding f v) (writer-Writes f v) (reader-Reads f v h) s
      ok_s (rw (length-encoding f v) r) e

-- `writeFint32` writes the word as the host stores it, so `readFint32` returns it with its four bytes
-- in reverse order: on a valid array with nothing unread, with a free byte and room for four bytes.
pub read_fint32-write_fint32 :
    (v : ℕ) (s : ByteArray)
    → v < 256 ^ 4
    → IsValid s
    → HasRoom s 4
    → unread s ≡ []
    → (s' : ByteArray) × ((write_fint32 v s >>= read_fint32) ≡ ok (swap_bytes 4 v, s'))
      × (unread s' ≡ [])
unfolding write_fint32 read_fint32
read_fint32-write_fint32 v s h ok_s r e =
    let (s', p, v', u) =
      read_back (write_word 4 v) (read_network 4) (swap_bytes 4 v) (le_bytes 4 v)
        (write_word-Writes 4 v) (swapped-Reads v h) s ok_s (rw (length-le_bytes 4 v) r) e in
    (s', p, u)
