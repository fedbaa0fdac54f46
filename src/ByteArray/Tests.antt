-- ===== src/ByteArray/Tests.antt =====
-- Runs of `ByteArray` (spike/net/ByteArray.cpp) on small arrays.
use lim_webserver.Base.{ℕ, ◌≤◌, ◌<◌, ◌≡◌, refl, arith, none, some, [], ◌∷◌}
use lim_webserver.Base.{length}
use lim_webserver.Base.Words.{negsuc}
use lim_webserver.Base.Outcome.{ok, ◌>>=◌}
use lim_webserver.ByteArray.Store.{
  ByteArray, create, clear, write, read, read_at, add_capacity, to_string,
}
use lim_webserver.ByteArray.Store.Valid.{IsValid, unread}
use lim_webserver.ByteArray.Store.Growth.{Grown, add_capacity-Grown}
use lim_webserver.ByteArray.Store.Bytes.{HasRoom, Appended, write-Appended}
use lim_webserver.ByteArray.Store.Reads.{Taken, read-Taken, read_at-unread, to_string-unread}
use lim_webserver.ByteArray.Store.Fresh.{create-IsValid, clear-IsValid}
use lim_webserver.ByteArray.Codec.{write_uint32, read_uint32, write_uint64, read_uint64}
use lim_webserver.ByteArray.Codec.{write_int64, read_int64, encode_zigzag, decode_zigzag}
use lim_webserver.ByteArray.Codec.{varint_groups}
use lim_webserver.ByteArray.Codec.Fixed.{fuint16, writer, reader, reader-writer}
use lim_webserver.ByteArray.Codec.Varint.{
  read_uint32-write_uint32, read_uint64-write_uint64, groups_enough,
}
use lim_webserver.ByteArray.Codec.Zigzag.{read_int64-write_int64}
use lim_webserver.ByteArray.Codec.Zigzag.{decode_zigzag-encode_zigzag}

-- A new array with nodes of two bytes.
abbrev empty : ByteArray
empty = create 2 0

empty-IsValid : IsValid empty
empty-IsValid = create-IsValid 2 0 (omega arith) (omega arith)

empty-unread : unread empty ≡ []
unfolding create
empty-unread = refl

empty-HasRoom : (n : ℕ) → n < 100 → HasRoom empty n
unfolding create
empty-HasRoom n h = record { free = omega arith; bounded = omega arith }

-- An array that holds the bytes 1, 2 and 3 in two nodes.
abbrev holding : ByteArray
holding = record {
  base_size = 2;
  write_pos = record { pos = 3; cur = some 1 };
  read_pos = record { pos = 0; cur = some 0 };
  capacity = 4;
  nodes = (1 ∷ 2 ∷ []) ∷ (3 ∷ 0 ∷ []) ∷ [];
  junk = 0;
}

holding-IsValid : IsValid holding
holding-IsValid = record {
  positive = omega arith;
  uniform = (refl, (refl, tt));
  cap = refl;
  small = omega arith;
  ordered = omega arith;
  inside = omega arith;
  write_at = (omega arith, omega arith, omega arith);
  read_at = (omega arith, omega arith, omega arith);
  tight = omega arith;
}

-- An array with one node that is full.
abbrev filled : ByteArray
filled = record {
  base_size = 2;
  write_pos = record { pos = 2; cur = none };
  read_pos = record { pos = 0; cur = some 0 };
  capacity = 2;
  nodes = (1 ∷ 2 ∷ []) ∷ [];
  junk = 0;
}

filled-IsValid : IsValid filled
filled-IsValid = record {
  positive = omega arith;
  uniform = (refl, tt);
  cap = refl;
  small = omega arith;
  ordered = omega arith;
  inside = omega arith;
  write_at = refl;
  read_at = (omega arith, omega arith, omega arith);
  tight = omega arith;
}

write-Appended_example :
    (s' : ByteArray) × (write (1 ∷ 2 ∷ 3 ∷ []) empty ≡ ok s') × Appended empty (1 ∷ 2 ∷ 3 ∷ []) s'
write-Appended_example =
    write-Appended empty (1 ∷ 2 ∷ 3 ∷ []) empty-IsValid (empty-HasRoom 3 (omega arith))

add_capacity-Grown_example : (s' : ByteArray) × (add_capacity empty 5 ≡ ok s') × Grown empty 5 s'
add_capacity-Grown_example =
    add_capacity-Grown empty 5 empty-IsValid (empty-HasRoom 3 (omega arith)).free (omega arith)

read-Taken_example : (s' : ByteArray) × (read 2 holding ≡ ok (1 ∷ 2 ∷ [], s')) × Taken holding 2 s'
read-Taken_example = read-Taken holding 2 holding-IsValid (omega arith) (omega arith)

read_at-unread_example : read_at 3 0 holding ≡ ok (1 ∷ 2 ∷ 3 ∷ [])
read_at-unread_example = read_at-unread holding 3 holding-IsValid (omega arith) (omega arith)

to_string-unread_example : to_string holding ≡ ok (1 ∷ 2 ∷ 3 ∷ [])
to_string-unread_example = to_string-unread holding holding-IsValid

clear-IsValid_example : IsValid (clear holding) × (unread (clear holding) ≡ [])
clear-IsValid_example = clear-IsValid holding holding-IsValid (omega arith)

reader-writer_example :
    (s' : ByteArray) × ((writer fuint16 0x1234 empty >>= reader fuint16) ≡ ok (0x1234, s'))
    × IsValid s'
    × (unread s' ≡ [])
reader-writer_example =
    reader-writer fuint16 0x1234 empty (omega arith) empty-IsValid (empty-HasRoom 2 (omega arith))
      empty-unread

read_uint32-write_uint32_example :
    (s' : ByteArray) × ((write_uint32 300 empty >>= read_uint32) ≡ ok (300, s'))
    × IsValid s'
    × (unread s' ≡ [])
read_uint32-write_uint32_example =
    read_uint32-write_uint32 300 empty (omega arith) empty-IsValid (empty-HasRoom 5 (omega arith))
      empty-unread

read_uint64-write_uint64_example :
    (s' : ByteArray) × ((write_uint64 300 empty >>= read_uint64) ≡ ok (300, s'))
    × IsValid s'
    × (unread s' ≡ [])
read_uint64-write_uint64_example =
    read_uint64-write_uint64 300 empty (omega arith) empty-IsValid (empty-HasRoom 10 (omega arith))
      empty-unread

read_int64-write_int64_example :
    (s' : ByteArray) × ((write_int64 (negsuc 4) empty >>= read_int64) ≡ ok (negsuc 4, s'))
    × IsValid s'
    × (unread s' ≡ [])
read_int64-write_int64_example =
    read_int64-write_int64 (negsuc 4) empty (omega arith) empty-IsValid
      (empty-HasRoom 10 (omega arith)) empty-unread

decode_zigzag-encode_zigzag_example : decode_zigzag 31 (encode_zigzag 31 (negsuc 4)) ≡ negsuc 4
decode_zigzag-encode_zigzag_example = decode_zigzag-encode_zigzag 31 (negsuc 4) (omega arith)

groups_enough_example :
    (varint_groups 5 300 ≡ varint_groups 2 300)
    × (1 ≤ length (varint_groups 2 300))
    × (length (varint_groups 2 300) ≤ 2)
groups_enough_example = groups_enough 2 5 300 (omega arith) (omega arith) (omega arith)
