-- ===== src/Log/Stream/Bounds.antt =====
-- A `FixedBuffer` never holds more than its size (spike/splog/LogStream.h, LogStream.cpp).
use mathlib.Core.List.{reverse, reverse-cons}
use lim_webserver.Base.{
  ℕ, suc, ◌+◌, ◌-◌, ◌%◌, leb, ◌^◌, ◌≤◌, ◌<◌, ◌≡◌, refl, arith, List, [], ◌∷◌, ◌++◌, length,
  length-append,
}
use lim_webserver.Base.Words.{ℤ, pos, negsuc}
use lim_webserver.Log.Stream.{
  magnitude, digits_loop, minus_sign, convert, fits, append, format_integer, Output, text, integer,
  put_output, put_all,
}
use lim_webserver.Log.Stream.Numbers.{digits_loop-length}

length-reverse : (xs : List ℕ) → length (reverse xs) ≡ length xs
length-reverse [] = refl
length-reverse (x ∷ xs) =
    rw reverse-cons (omega (arith, length-append (reverse xs) (x ∷ []), length-reverse xs))

length-minus_sign : (v : ℤ) → length (minus_sign v) ≤ 1
unfolding minus_sign
length-minus_sign (pos n) = omega arith
length-minus_sign (negsuc n) = omega arith

-- A number of 64 bits has at most 20 digits and a sign.
length-convert : (v : ℤ) → magnitude v < 2 ^ 64 → length (convert v) ≤ 21
unfolding convert
length-convert v h =
    let ds = digits_loop (suc (magnitude v)) v in
    let size : 2 ^ 64 ≤ 10 ^ 20 = omega arith in
    omega (
      arith,
      length-reverse (ds ++ minus_sign v),
      length-append ds (minus_sign v),
      length-minus_sign v,
      digits_loop-length (suc (magnitude v)) 19 v (omega arith),
    )

-- Below 2 ^ 31 the cast keeps a length.
pub fits_small : (avail len : ℕ) → len < 2 ^ 31 → fits avail len ≡ leb len avail
unfolding fits
fits_small avail len h = let same : len % 2 ^ 32 ≡ len = omega arith in rw same (ground (arith, h))

-- The integers among the outputs are numbers of 64 bits, and the texts are shorter than 2 ^ 31 bytes.
abbrev pub IsOutput : Output → Type 0
IsOutput (text t) = length t < 2 ^ 31
IsOutput (integer v) = magnitude v < 2 ^ 64

abbrev pub AreOutputs : List Output → Type 0
AreOutputs [] = Unit {0}
AreOutputs (o ∷ os) = IsOutput o × AreOutputs os

put_output-Bounded :
    (size : ℕ) (o : Output) (buffer : List ℕ)
    → IsOutput o
    → length buffer ≤ size
    → length (put_output size o buffer) ≤ size
unfolding put_output append format_integer
put_output-Bounded size (text t) buffer w h =
    rw (fits_small (size - length buffer) (length t) w) (ground (arith, length-append buffer t, h))
put_output-Bounded size (integer v) buffer w h =
    ground (arith, length-append buffer (convert v), length-convert v w)

-- However many texts, each shorter than 2 ^ 31 bytes, and numbers of 64 bits are put into a stream, its buffer never
-- holds more bytes than its size, though a number is written before its length is known.
pub put_all-Bounded :
    (size : ℕ) (os : List Output) (buffer : List ℕ)
    → AreOutputs os
    → length buffer ≤ size
    → length (put_all size os buffer) ≤ size
unfolding put_all
put_all-Bounded size [] buffer w h = h
put_all-Bounded size (o ∷ os) buffer (l, w) h =
    put_all-Bounded size os (put_output size o buffer) w (put_output-Bounded size o buffer l h)

-- What an output writes where there is room.
unfoldable pub output_text : Output → List ℕ
output_text (text t) = t
output_text (integer v) = convert v

-- Where 48 bytes are left behind it, an output is written whole.
pub put_output_whole :
    (size : ℕ) (o : Output) (buffer : List ℕ)
    → size < 2 ^ 31
    → length buffer + length (output_text o) + 48 ≤ size
    → put_output size o buffer ≡ buffer ++ output_text o
unfolding put_output append format_integer output_text
put_output_whole size (text t) buffer s h =
    rw (fits_small (size - length buffer) (length t) (omega (arith, s, h))) (ground (arith, h))
put_output_whole size (integer v) buffer s h = ground (arith, h)

-- A text of 2 ^ 31 bytes is written behind the end of any buffer.
pub append_huge :
    (size : ℕ) (t buffer : List ℕ) → length t ≡ 2 ^ 31 → append size t buffer ≡ buffer ++ t
unfolding append
append_huge size t buffer h = rw h refl
