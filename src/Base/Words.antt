-- ===== src/Base/Words.antt =====
-- Machine integers in memory: the bytes of a word, lowest first as a little-endian host stores
-- them, the byte swap of `htobe`, and the signed number that a word stands for.
use Prim.Native.Nat.{ℕ, zero, suc, ◌+◌, ◌-◌, ◌*◌, ◌/◌, ◌%◌, ◌^◌, ◌<◌}
use mathlib.Core.Path.{◌≡◌, refl, sym, ap, ◌∙◌}
use mathlib.Core.List.{List, [], ◌∷◌, ◌++◌, reverse, reverse-cons, reverse-reverse}
use lim_webserver.Base.Tests.{ltb, if◌then◌else◌}
use lim_webserver.Base.Lists.{length, length-append}
use native.Mathlib.Nat.{pow-suc}
use native.Mathlib.Omega.{arith}

pub data ℤ : Type 0 where
  pos : ℕ → ℤ
  negsuc : ℕ → ℤ

-- A word of `k + 1` bits as a signed number, in two's complement.
unfoldable pub signed : ℕ → ℕ → ℤ
signed k w = if ltb w (2 ^ k) then pos w else negsuc (2 ^ suc k - w - 1)

abbrev pub InRange : ℕ → ℤ → Type 0
InRange k (pos n) = n < 2 ^ k
InRange k (negsuc n) = n < 2 ^ k

abbrev pub Bytes : List ℕ → Type 0
Bytes [] = Unit {0}
Bytes (b ∷ bs) = (b < 256) × Bytes bs

unfoldable pub le_bytes : ℕ → ℕ → List ℕ
le_bytes zero v = []
le_bytes (suc n) v = (v % 256) ∷ le_bytes n (v / 256)

unfoldable pub from_le : List ℕ → ℕ
from_le [] = 0
from_le (b ∷ bs) = b + 256 * from_le bs

unfoldable pub swap_bytes : ℕ → ℕ → ℕ
unfolding from_le le_bytes
swap_bytes n v = from_le (reverse (le_bytes n v))

pub length-le_bytes : (n v : ℕ) → length (le_bytes n v) ≡ n
unfolding le_bytes
length-le_bytes zero v = refl
length-le_bytes (suc n) v = ap suc (length-le_bytes n (v / 256))

pub le_bytes-Bytes : (n v : ℕ) → Bytes (le_bytes n v)
unfolding le_bytes
le_bytes-Bytes zero v = tt
le_bytes-Bytes (suc n) v = (omega arith, le_bytes-Bytes n (v / 256))

pub from_le-le_bytes : (n v : ℕ) → v < 256 ^ n → from_le (le_bytes n v) ≡ v
unfolding le_bytes from_le
from_le-le_bytes zero v h = omega arith
from_le-le_bytes (suc n) v h =
    omega (arith, from_le-le_bytes n (v / 256) (omega (arith, pow-suc 256 n)))

pub le_bytes-from_le : (bs : List ℕ) → Bytes bs → le_bytes (length bs) (from_le bs) ≡ bs
unfolding le_bytes from_le
le_bytes-from_le [] h = refl
le_bytes-from_le (b ∷ bs) (hb, hs) =
    let low : (b + 256 * from_le bs) % 256 ≡ b = omega arith in
    let high : (b + 256 * from_le bs) / 256 ≡ from_le bs = omega arith in
    rw (low, high, le_bytes-from_le bs hs)

pub from_le-lt : (bs : List ℕ) → Bytes bs → from_le bs < 256 ^ length bs
unfolding from_le
from_le-lt [] h = omega arith
from_le-lt (b ∷ bs) (hb, hs) = omega (arith, from_le-lt bs hs, pow-suc 256 (length bs))

Bytes-append : (xs ys : List ℕ) → Bytes xs → Bytes ys → Bytes (xs ++ ys)
Bytes-append [] ys p q = q
Bytes-append (x ∷ xs) ys (hx, p) q = (hx, Bytes-append xs ys p q)

Bytes-reverse : (xs : List ℕ) → Bytes xs → Bytes (reverse xs)
Bytes-reverse [] p = tt
Bytes-reverse (x ∷ xs) (hx, p) =
    rw reverse-cons (Bytes-append (reverse xs) (x ∷ []) (Bytes-reverse xs p) (hx, tt))

length-reverse : (xs : List ℕ) → length (reverse xs) ≡ length xs
length-reverse [] = refl
length-reverse (x ∷ xs) =
    rw reverse-cons (omega (arith, length-append (reverse xs) (x ∷ []), length-reverse xs))

swapped-length : (n v : ℕ) → length (reverse (le_bytes n v)) ≡ n
swapped-length n v = length-reverse (le_bytes n v) ∙ length-le_bytes n v

-- The swapped word lies in memory with its highest byte first.
pub le_bytes-swap_bytes : (n v : ℕ) → le_bytes n (swap_bytes n v) ≡ reverse (le_bytes n v)
unfolding swap_bytes
le_bytes-swap_bytes n v =
    ap (λ (k : ℕ). le_bytes k (from_le (reverse (le_bytes n v)))) (sym (swapped-length n v))
    ∙ le_bytes-from_le _ (Bytes-reverse (le_bytes n v) (le_bytes-Bytes n v))

pub swap_bytes-swap_bytes : (n v : ℕ) → v < 256 ^ n → swap_bytes n (swap_bytes n v) ≡ v
swap_bytes-swap_bytes n v h =
    unfold swap_bytes in
    (ap (λ bs. from_le (reverse bs)) (le_bytes-swap_bytes n v)
      ∙ ap from_le (reverse-reverse (le_bytes n v))
      ∙ from_le-le_bytes n v h)

pub swap_bytes-lt : (n v : ℕ) → swap_bytes n v < 256 ^ n
unfolding swap_bytes
swap_bytes-lt n v =
    rw (ap (λ (k : ℕ). 256 ^ k) (sym (swapped-length n v)))
      (from_le-lt _ (Bytes-reverse (le_bytes n v) (le_bytes-Bytes n v)))
