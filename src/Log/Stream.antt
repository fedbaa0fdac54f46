-- ===== src/Log/Stream.antt =====
-- `LogStream` and its `FixedBuffer` (spike/splog/LogStream.h and LogStream.cpp): the text of an integer,
-- and what is appended to a buffer of a fixed size.
pub mod Numbers
pub mod Bounds
use mathlib.Core.List.{reverse}
use lim_webserver.Base.{
  ℕ, zero, suc, ◌+◌, ◌-◌, ◌/◌, ◌%◌, ◌^◌, ltb, leb, ◌==◌, if◌then◌else◌, Bool, true, false, List, [],
  ◌∷◌, ◌++◌, length, get_or, codes,
}
use lim_webserver.Base.Words.{ℤ, pos, negsuc}

abbrev pub negative : ℕ → ℤ
negative zero = pos 0
negative (suc n) = negsuc n

abbrev pub magnitude : ℤ → ℕ
magnitude (pos n) = n
magnitude (negsuc n) = suc n

-- `i % 10` and `i / 10`, which round towards 0.
pub last_digit : ℤ → ℤ
last_digit (pos n) = pos (n % 10)
last_digit (negsuc n) = negative (suc n % 10)

pub other_digits : ℤ → ℤ
other_digits (pos n) = pos (n / 10)
other_digits (negsuc n) = negative (suc n / 10)

-- `zero[lsd]`, where `zero` points into the middle of `digits`.
pub digit_at : ℤ → ℕ
digit_at (pos k) = get_or (codes "9876543210123456789") (9 + k) 0
digit_at (negsuc k) = get_or (codes "9876543210123456789") (9 - suc k) 0

-- The loop of `convert`, on fuel: the digits from the last one on.
pub digits_loop : ℕ → ℤ → List ℕ
digits_loop zero i = []
digits_loop (suc fuel) i =
    let rest = digits_loop fuel (other_digits i) in
    digit_at (last_digit i) ∷ (if magnitude (other_digits i) == 0 then [] else rest)

pub minus_sign : ℤ → List ℕ
minus_sign (pos n) = []
minus_sign (negsuc n) = b'-' ∷ []

pub convert : ℤ → List ℕ
convert value = reverse (digits_loop (suc (magnitude value)) value ++ minus_sign value)

-- `kSmallBuffer`, the size of the buffer of a `LogStream`
abbrev pub small_buffer : ℕ
small_buffer = 4000

-- `avail() >= static_cast<int>(len)`: the length is cut to 32 bits, and from 2 ^ 31 on it is negative.
unfoldable pub fits : ℕ → ℕ → Bool
fits avail len = let n = len % 2 ^ 32 in if ltb n (2 ^ 31) then leb n avail else true

-- The bytes from `m_data` to `m_cur` of a `FixedBuffer` of `size` bytes. Where the cast lets a longer
-- text pass, `memcpy` writes behind the end, and there are more bytes than the size.
unfoldable pub append : ℕ → List ℕ → List ℕ → List ℕ
unfolding fits
append size text buffer =
    if fits (size - length buffer) (length text) then buffer ++ text else buffer

-- `formatInteger`
pub format_integer : ℕ → ℤ → List ℕ → List ℕ
format_integer size value buffer =
    if leb 48 (size - length buffer) then buffer ++ convert value else buffer

-- A text, a byte or a number that is put into a stream. A byte is a text of one byte.
pub data Output : Type 0 where
  text : List ℕ → Output
  integer : ℤ → Output

pub put_output : ℕ → Output → List ℕ → List ℕ
put_output size (text t) buffer = append size t buffer
put_output size (integer v) buffer = format_integer size v buffer

pub put_all : ℕ → List Output → List ℕ → List ℕ
put_all size [] buffer = buffer
put_all size (o ∷ os) buffer = put_all size os (put_output size o buffer)
