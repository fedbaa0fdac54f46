-- ===== src/ByteArray.antt =====
-- spike/net/ByteArray.h and ByteArray.cpp: a byte stream in a chain of equal memory blocks, with a
-- write and a read position, and the encodings of numbers and strings on it.
pub mod Chain
pub mod Store
pub mod Codec
mod Tests
