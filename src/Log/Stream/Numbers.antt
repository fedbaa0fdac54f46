-- ===== src/Log/Stream/Numbers.antt =====
-- The text that `convert` (spike/splog/LogStream.cpp) makes of an integer.
use mathlib.Core.List.{reverse, reverse-cons, reverse-append}
use native.Mathlib.Nat.{pow-suc}
use lim_webserver.Base.{Bool, if◌then◌else◌}
use lim_webserver.Base.{
  ℕ, zero, suc, ◌+◌, ◌-◌, ◌*◌, ◌/◌, ◌%◌, ◌^◌, ◌≤◌, ◌<◌, ◌≡◌, refl, ap, ◌∙◌, arith, ◌==◌, true,
  false, inl, inr, Bool-cases, List, [], ◌∷◌, ◌++◌, length, append-nil, checked_below, holds_below,
}
use lim_webserver.Base.Words.{ℤ, pos, negsuc}
use lim_webserver.Log.Stream.{
  negative, magnitude, last_digit, other_digits, digit_at, digits_loop, minus_sign, convert,
}

-- The number that decimal digits stand for, behind what was read before.
pub value_of : ℕ → List ℕ → ℕ
value_of before [] = before
value_of before (d ∷ ds) = value_of (before * 10 + (d - b'0')) ds

-- The same from the last digit on.
value_from_last : List ℕ → ℕ
value_from_last [] = 0
value_from_last (d ∷ ds) = (d - b'0') + 10 * value_from_last ds

value_of-snoc :
    (k d : ℕ) (ds : List ℕ) → value_of k (ds ++ (d ∷ [])) ≡ value_of k ds * 10 + (d - b'0')
unfolding value_of
value_of-snoc k d [] = refl
value_of-snoc k d (c ∷ cs) = value_of-snoc (k * 10 + (c - b'0')) d cs

value_of-reverse : (ds : List ℕ) → value_of 0 (reverse ds) ≡ value_from_last ds
unfolding value_of value_from_last
value_of-reverse [] = refl
value_of-reverse (d ∷ ds) =
    rw reverse-cons (omega (arith, value_of-snoc 0 d (reverse ds), value_of-reverse ds))

equal : (a b : ℕ) → (a == b) ≡ true → a ≡ b
equal a b h = ground arith

positive : (k : ℕ) → (k == 0) ≡ false → 0 < k
positive k h = ground arith

digit_at-pos : (k : ℕ) → k < 10 → digit_at (pos k) ≡ b'0' + k
unfolding digit_at checked_below
digit_at-pos k h = equal _ _ (holds_below (λ k. digit_at (pos k) == b'0' + k) 10 k h refl)

digit_at-negative : (k : ℕ) → k < 10 → digit_at (negative k) ≡ b'0' + k
unfolding digit_at checked_below
digit_at-negative k h = equal _ _ (holds_below (λ k. digit_at (negative k) == b'0' + k) 10 k h refl)

digit_at_lem : (i : ℤ) → digit_at (last_digit i) ≡ b'0' + magnitude i % 10
unfolding last_digit
digit_at_lem (pos n) = digit_at-pos (n % 10) (omega arith)
digit_at_lem (negsuc n) = digit_at-negative (suc n % 10) (omega arith)

other_digits_lem : (i : ℤ) → magnitude (other_digits i) ≡ magnitude i / 10
unfolding other_digits
other_digits_lem (pos n) = refl
other_digits_lem (negsuc n) = same (suc n / 10)
  where
    same : (k : ℕ) → magnitude (negative k) ≡ k
    same zero = refl
    same (suc k) = refl

digits_loop-value :
    (fuel : ℕ) (i : ℤ) → magnitude i < fuel → value_from_last (digits_loop fuel i) ≡ magnitude i
unfolding digits_loop value_from_last
digits_loop-value zero i h = absurd (omega arith)
digits_loop-value (suc fuel) i h =
    let d = digit_at_lem i in
    let q = other_digits_lem i in
    elim (Bool-cases (magnitude (other_digits i) == 0)) [
      | inl e ↦
          let z : magnitude (other_digits i) ≡ 0 = equal _ _ e in rw e (omega (arith, d, q, z))
      | inr e ↦
          let some_left = positive _ e in
          let ih = digits_loop-value fuel (other_digits i) (omega (arith, q, some_left)) in
          rw e (omega (arith, d, q, ih))
    ]

pub digits_loop-length :
    (fuel k : ℕ) (i : ℤ) → magnitude i < 10 ^ suc k → length (digits_loop fuel i) ≤ suc k
unfolding digits_loop
digits_loop-length zero k i h = omega arith
digits_loop-length (suc fuel) zero i h =
    let q = other_digits_lem i in
    let z : (magnitude (other_digits i) == 0) ≡ true = ground (arith, q) in rw z (omega arith)
digits_loop-length (suc fuel) (suc k) i h =
    let q = other_digits_lem i in
    let ih = digits_loop-length fuel k (other_digits i) (omega (arith, q, pow-suc 10 (suc k))) in
    elim (Bool-cases (magnitude (other_digits i) == 0)) [
      | inl e ↦ rw e (omega arith)
      | inr e ↦ rw e (omega (arith, ih))
    ]

abbrev pub AreDigits : List ℕ → Type 0
AreDigits [] = Unit {0}
AreDigits (d ∷ ds) = (b'0' ≤ d) × (d ≤ b'9') × AreDigits ds

AreDigits-snoc :
    (ds : List ℕ) (d : ℕ) → AreDigits ds → b'0' ≤ d → d ≤ b'9' → AreDigits (ds ++ (d ∷ []))
AreDigits-snoc [] d a l h = (l, h, tt)
AreDigits-snoc (c ∷ cs) d (p, q, a) l h = (p, q, AreDigits-snoc cs d a l h)

AreDigits-reverse : (ds : List ℕ) → AreDigits ds → AreDigits (reverse ds)
AreDigits-reverse [] a = tt
AreDigits-reverse (d ∷ ds) (l, h, a) =
    rw reverse-cons (AreDigits-snoc (reverse ds) d (AreDigits-reverse ds a) l h)

digits_loop-AreDigits : (fuel : ℕ) (i : ℤ) → AreDigits (digits_loop fuel i)
unfolding digits_loop
digits_loop-AreDigits zero i = tt
digits_loop-AreDigits (suc fuel) i =
    let d = digit_at_lem i in
    let rest = digits_loop-AreDigits fuel (other_digits i) in
    (
      omega (arith, d),
      omega (arith, d),
      either (magnitude (other_digits i) == 0) (digits_loop fuel (other_digits i)) rest,
    )
  where
    either : (b : Bool) (ds : List ℕ) → AreDigits ds → AreDigits (if b then [] else ds)
    either true ds a = tt
    either false ds a = a

-- The text of an integer is a minus sign if it is negative, and then decimal digits that stand for
-- its magnitude.
pub convert-value :
    (v : ℤ)
    → (ds : List ℕ) × (convert v ≡ minus_sign v ++ ds)
      × (value_of 0 ds ≡ magnitude v)
      × AreDigits ds
unfolding convert minus_sign
convert-value v =
    let m = magnitude v in
    let ds = digits_loop (suc m) v in
    (
      reverse ds,
      signed_text v ds,
      value_of-reverse ds ∙ digits_loop-value (suc m) v (omega arith),
      AreDigits-reverse ds (digits_loop-AreDigits (suc m) v),
    )
  where
    signed_text : (v : ℤ) (ds : List ℕ) → reverse (ds ++ minus_sign v) ≡ minus_sign v ++ reverse ds
    signed_text (pos n) ds = ap reverse (append-nil ds)
    signed_text (negsuc n) ds = reverse-append ds (b'-' ∷ [])
