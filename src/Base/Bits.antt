-- ===== src/Base/Bits.antt =====
-- `&`, `|` and `^` on words as arithmetic: one equation for the lowest binary digit of each, then
-- masks of low bits, fields that do not overlap, and the complement.
use Prim.Native.Nat.{ℕ, zero, suc, ◌+◌, ◌-◌, ◌*◌, ◌/◌, ◌%◌, ◌^◌, ◌≤◌, ◌<◌, min, max}
use Prim.Native.Nat.{bit_and, bit_or, bit_xor, differ, digits}
use Prim.Native.Nat.{bit_and-bitwise, bit_or-bitwise, bit_xor-bitwise}
use mathlib.Core.Path.{◌≡◌, refl, ap}
use native.Mathlib.Nat.{pow-suc, one-le-pow}
use native.Mathlib.Omega.{arith}

-- The lowest digit of `op` is `f` of the lowest digits, and the others are `op` of the others.
abbrev pub Digitwise : (ℕ → ℕ → ℕ) → (ℕ → ℕ → ℕ) → Type 0
Digitwise op f = (x y : ℕ) → op x y ≡ f (x % 2) (y % 2) + op (x / 2) (y / 2) * 2

module _ (rest : ℕ → ℕ) (f : ℕ → ℕ → ℕ) where
  -- How many digits are counted does not matter once the first number has no more.
  digits_fuel : (x y m k : ℕ) → x ≤ k → x ≤ m → digits rest f k x y ≡ digits rest f m x y
  digits_fuel zero y zero zero hk hm = refl
  digits_fuel zero y zero (suc k) hk hm = refl
  digits_fuel zero y (suc m) zero hk hm = refl
  digits_fuel zero y (suc m) (suc k) hk hm = refl
  digits_fuel (suc x) y m zero hk hm = absurd (omega arith)
  digits_fuel (suc x) y zero (suc k) hk hm = absurd (omega arith)
  digits_fuel (suc x) y (suc m) (suc k) hk hm =
      let half : suc x / 2 ≤ m = omega arith in
      let half' : suc x / 2 ≤ k = omega arith in
      omega (arith, digits_fuel (suc x / 2) (y / 2) m k half' half)

  first_digit :
      (x y : ℕ)
      → digits rest f (suc x) (suc x) y
        ≡ f (suc x % 2) (y % 2) + digits rest f (suc x / 2) (suc x / 2) (y / 2) * 2
  first_digit x y =
      let half : suc x / 2 ≤ x = omega arith in
      let self : suc x / 2 ≤ suc x / 2 = omega arith in
      omega (arith, digits_fuel (suc x / 2) (y / 2) x (suc x / 2) self half)

pub bit_and-Digitwise : Digitwise bit_and min
bit_and-Digitwise zero y = simp bit_and-bitwise (omega arith)
bit_and-Digitwise (suc x) y = simp bit_and-bitwise (first_digit (λ n. 0) min x y)

pub bit_or-Digitwise : Digitwise bit_or max
bit_or-Digitwise zero y = simp bit_or-bitwise (omega arith)
bit_or-Digitwise (suc x) y = simp bit_or-bitwise (first_digit (λ n. n) max x y)

-- On two binary digits `differ` is the sum without its carry.
differ_digits : (x y : ℕ) → x < 2 → y < 2 → differ x y ≡ (x + y) % 2
differ_digits zero zero p q = refl
differ_digits zero (suc zero) p q = refl
differ_digits zero (suc (suc y)) p q = absurd (omega arith)
differ_digits (suc zero) zero p q = refl
differ_digits (suc zero) (suc zero) p q = refl
differ_digits (suc zero) (suc (suc y)) p q = absurd (omega arith)
differ_digits (suc (suc x)) y p q = absurd (omega arith)

bit_xor-Digitwise : Digitwise bit_xor differ
bit_xor-Digitwise zero y = simp bit_xor-bitwise (omega arith)
bit_xor-Digitwise (suc x) y = simp bit_xor-bitwise (first_digit (λ n. n) differ x y)

pub bit_xor_step : (a b : ℕ) → bit_xor a b ≡ (a + b) % 2 + bit_xor (a / 2) (b / 2) * 2
bit_xor_step a b =
    omega (arith, bit_xor-Digitwise a b, differ_digits (a % 2) (b % 2) (omega arith) (omega arith))

-- A field of `k` bits grows by its lowest digit.
wider_field : (k c : ℕ) → 2 * (c * 2 ^ k) ≡ c * 2 ^ suc k
wider_field k c = omega (arith, ap (λ (width : ℕ). c * width) (pow-suc 2 k))

bit_and-zero : (n x : ℕ) → x ≤ n → bit_and x 0 ≡ 0
bit_and-zero n zero le = refl
bit_and-zero zero (suc x) le = absurd (omega arith)
bit_and-zero (suc n) (suc x) le =
    let half : suc x / 2 ≤ n = omega arith in
    omega (arith, bit_and-zero n (suc x / 2) half, bit_and-Digitwise (suc x) 0)

bit_or-zero_upto : (n x : ℕ) → x ≤ n → bit_or x 0 ≡ x
bit_or-zero_upto n zero le = refl
bit_or-zero_upto zero (suc x) le = absurd (omega arith)
bit_or-zero_upto (suc n) (suc x) le =
    let half : suc x / 2 ≤ n = omega arith in
    omega (arith, bit_or-zero_upto n (suc x / 2) half, bit_or-Digitwise (suc x) 0)

bit_xor-zero_upto : (n a : ℕ) → a ≤ n → bit_xor a 0 ≡ a
bit_xor-zero_upto n zero h = refl
bit_xor-zero_upto zero (suc a) h = absurd (omega arith)
bit_xor-zero_upto (suc n) (suc a) h =
    ground (arith, bit_xor_step (suc a) 0, bit_xor-zero_upto n (suc a / 2) (omega arith))

pub bit_or-zero : (x : ℕ) → bit_or x 0 ≡ x
bit_or-zero x = let self : x ≤ x = omega arith in bit_or-zero_upto x x self

pub zero-bit_or : (a : ℕ) → bit_or 0 a ≡ a
zero-bit_or a = bit_or-bitwise 0 a

pub bit_xor-zero : (a : ℕ) → bit_xor a 0 ≡ a
bit_xor-zero a = bit_xor-zero_upto a a (omega arith)

-- A mask of `k` ones leaves the remainder by `2 ^ k`.
bit_and_split : (k high low : ℕ) → low < 2 ^ k → bit_and (high * 2 ^ k + low) (2 ^ k - 1) ≡ low
bit_and_split zero q r h = omega (arith, bit_and-zero (q * 1 + r) (q * 1 + r) (omega arith))
bit_and_split (suc k) q r h = ground (
  arith,
  bit_and-Digitwise (q * 2 ^ suc k + r) (2 ^ suc k - 1),
  wider_field k q,
  pow-suc 2 k,
  one-le-pow k 2,
  bit_and_split k q (r / 2) (omega (arith, pow-suc 2 k)),
)

pub bit_and_ones : (k a : ℕ) → bit_and a (2 ^ k - 1) ≡ a % 2 ^ k
bit_and_ones k a = ground (arith, one-le-pow k 2, bit_and_split k (a / 2 ^ k) (a % 2 ^ k))

-- A low field and a field above bit `k` are joined by `|` as they are by `+`.
pub bit_or_fields : (k high low : ℕ) → low < 2 ^ k → bit_or low (high * 2 ^ k) ≡ low + high * 2 ^ k
bit_or_fields zero q zero h = omega (arith, zero-bit_or (q * 1))
bit_or_fields zero q (suc r) h = absurd (omega arith)
bit_or_fields (suc k) q r h = ground (
  arith,
  bit_or-Digitwise r (q * 2 ^ suc k),
  wider_field k q,
  bit_or_fields k q (r / 2) (omega (arith, pow-suc 2 k)),
)

-- `|` with `k` ones fills the low field.
bit_or_split :
    (k high low : ℕ)
    → low < 2 ^ k
    → bit_or (high * 2 ^ k + low) (2 ^ k - 1) ≡ high * 2 ^ k + (2 ^ k - 1)
bit_or_split zero q r h = omega (arith, bit_or-zero (q * 1 + r))
bit_or_split (suc k) q r h = ground (
  arith,
  bit_or-Digitwise (q * 2 ^ suc k + r) (2 ^ suc k - 1),
  wider_field k q,
  pow-suc 2 k,
  one-le-pow k 2,
  bit_or_split k q (r / 2) (omega (arith, pow-suc 2 k)),
)

pub bit_or_ones : (k a : ℕ) → bit_or a (2 ^ k - 1) ≡ a / 2 ^ k * 2 ^ k + (2 ^ k - 1)
bit_or_ones k a = ground (arith, one-le-pow k 2, bit_or_split k (a / 2 ^ k) (a % 2 ^ k))

-- `^` with all ones of the width is the complement.
pub bit_xor_ones : (k a : ℕ) → a < 2 ^ k → bit_xor a (2 ^ k - 1) ≡ 2 ^ k - 1 - a
bit_xor_ones zero zero h = refl
bit_xor_ones zero (suc a) h = absurd (omega arith)
bit_xor_ones (suc k) a h =
    ground
      (arith, bit_xor_step a (2 ^ suc k - 1), pow-suc 2 k, one-le-pow k 2, bit_xor_ones k (a / 2))
