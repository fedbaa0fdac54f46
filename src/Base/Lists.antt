-- ===== src/Base/Lists.antt =====
-- Lists measured and indexed by native numbers, and a write of a block into a list.
use Prim.Native.Nat.{ℕ, zero, suc, ◌+◌, ◌-◌, ◌≤◌, min}
use mathlib.Core.Path.{◌≡◌, refl, ap}
use native.Mathlib.Nat.{zero-add, suc-add}
use mathlib.Core.List.{List, [], ◌∷◌, ◌++◌}
use mathlib.Core.Option.{Option, none, some}
use native.Mathlib.Omega.{arith}

module _ {ℓ} {A : Type ℓ} where
  abbrev pub length : List A → ℕ
  length [] = 0
  length (x ∷ xs) = suc (length xs)

  abbrev pub get_elem? : List A → ℕ → Option A
  get_elem? [] i = none
  get_elem? (x ∷ xs) zero = some x
  get_elem? (x ∷ xs) (suc i) = get_elem? xs i

  abbrev pub set : List A → ℕ → A → List A
  set [] i v = []
  set (x ∷ xs) zero v = v ∷ xs
  set (x ∷ xs) (suc i) v = x ∷ set xs i v

  abbrev pub get_or : List A → ℕ → A → A
  get_or [] i d = d
  get_or (x ∷ xs) zero d = x
  get_or (x ∷ xs) (suc i) d = get_or xs i d

  abbrev pub take : ℕ → List A → List A
  take zero xs = []
  take (suc n) [] = []
  take (suc n) (x ∷ xs) = x ∷ take n xs

  abbrev pub drop : ℕ → List A → List A
  drop zero xs = xs
  drop (suc n) [] = []
  drop (suc n) (x ∷ xs) = drop n xs

  abbrev pub replicate : ℕ → A → List A
  replicate zero a = []
  replicate (suc n) a = a ∷ replicate n a

  abbrev pub flatten : List (List A) → List A
  flatten [] = []
  flatten (xs ∷ xss) = xs ++ flatten xss

module _ {ℓ} {A : Type ℓ} where
  pub length-append : (xs ys : List A) → length (xs ++ ys) ≡ length xs + length ys
  length-append [] ys = omega arith
  length-append (x ∷ xs) ys = omega (arith, length-append xs ys)

  pub length-set : (xs : List A) (i : ℕ) (v : A) → length (set xs i v) ≡ length xs
  length-set [] i v = refl
  length-set (x ∷ xs) zero v = refl
  length-set (x ∷ xs) (suc i) v = ap suc (length-set xs i v)

  pub length-replicate : (n : ℕ) (a : A) → length (replicate n a) ≡ n
  length-replicate zero a = refl
  length-replicate (suc n) a = ap suc (length-replicate n a)

  pub length-take : (n : ℕ) (xs : List A) → length (take n xs) ≡ min n (length xs)
  length-take zero xs = omega arith
  length-take (suc n) [] = omega arith
  length-take (suc n) (x ∷ xs) = omega (arith, length-take n xs)

  pub length-drop : (n : ℕ) (xs : List A) → length (drop n xs) ≡ length xs - n
  length-drop zero xs = omega arith
  length-drop (suc n) [] = omega arith
  length-drop (suc n) (x ∷ xs) = omega (arith, length-drop n xs)

  pub take-append-drop : (n : ℕ) (xs : List A) → take n xs ++ drop n xs ≡ xs
  take-append-drop zero xs = refl
  take-append-drop (suc n) [] = refl
  take-append-drop (suc n) (x ∷ xs) = ap (λ ys. x ∷ ys) (take-append-drop n xs)

  pub take_all : (xs : List A) (n : ℕ) → length xs ≤ n → take n xs ≡ xs
  take_all [] zero h = refl
  take_all [] (suc n) h = refl
  take_all (x ∷ xs) zero h = absurd (omega arith)
  take_all (x ∷ xs) (suc n) h = ap (λ ys. x ∷ ys) (take_all xs n (omega arith))

  pub take_append : (xs ys : List A) (n : ℕ) → n ≤ length xs → take n (xs ++ ys) ≡ take n xs
  take_append [] ys zero h = refl
  take_append [] ys (suc n) h = absurd (omega arith)
  take_append (x ∷ xs) ys zero h = refl
  take_append (x ∷ xs) ys (suc n) h = ap (λ zs. x ∷ zs) (take_append xs ys n (omega arith))

  pub take_append_left : (xs ys : List A) → take (length xs) (xs ++ ys) ≡ xs
  take_append_left [] ys = refl
  take_append_left (x ∷ xs) ys = ap (λ zs. x ∷ zs) (take_append_left xs ys)

  pub drop_append_left : (xs ys : List A) → drop (length xs) (xs ++ ys) ≡ ys
  drop_append_left [] ys = refl
  drop_append_left (x ∷ xs) ys = drop_append_left xs ys

  pub drop_append : (xs ys : List A) (n : ℕ) → n ≤ length xs → drop n (xs ++ ys) ≡ drop n xs ++ ys
  drop_append [] ys zero h = refl
  drop_append [] ys (suc n) h = absurd (omega arith)
  drop_append (x ∷ xs) ys zero h = refl
  drop_append (x ∷ xs) ys (suc n) h = drop_append xs ys n (omega arith)

  drop_nil : (n : ℕ) → ◌≡◌ {A = List A} [] (drop n [])
  drop_nil zero = refl
  drop_nil (suc n) = refl

  pub drop-drop : (n m : ℕ) (xs : List A) → drop n (drop m xs) ≡ drop (m + n) xs
  drop-drop n zero xs = rw zero-add
  drop-drop zero (suc m) [] = drop_nil (suc m + zero)
  drop-drop (suc n) (suc m) [] = drop_nil (suc m + suc n)
  drop-drop n (suc m) (x ∷ xs) = rw suc-add (drop-drop n m xs)

  pub take_past :
      (xs ys : List A) (n k : ℕ) → n ≡ length xs + k → take n (xs ++ ys) ≡ xs ++ take k ys
  take_past [] ys n k h = ap (λ m. take m ys) (omega arith)
  take_past (x ∷ xs) ys zero k h = absurd (omega arith)
  take_past (x ∷ xs) ys (suc n) k h = ap (λ zs. x ∷ zs) (take_past xs ys n k (omega arith))

  pub drop_past : (xs ys : List A) (n k : ℕ) → n ≡ length xs + k → drop n (xs ++ ys) ≡ drop k ys
  drop_past [] ys n k h = ap (λ m. drop m ys) (omega arith)
  drop_past (x ∷ xs) ys zero k h = absurd (omega arith)
  drop_past (x ∷ xs) ys (suc n) k h = drop_past xs ys n k (omega arith)

  -- A block of `m + k` elements is the block of `m` and the `k` behind it.
  pub take_add : (m k n : ℕ) (xs : List A) → n ≡ m + k → take n xs ≡ take m xs ++ take k (drop m xs)
  take_add zero k n xs h = ap (λ j. take j xs) (omega arith)
  take_add (suc m) zero zero [] h = refl
  take_add (suc m) (suc k) zero [] h = refl
  take_add (suc m) zero (suc n) [] h = refl
  take_add (suc m) (suc k) (suc n) [] h = refl
  take_add (suc m) k zero (x ∷ xs) h = absurd (omega arith)
  take_add (suc m) k (suc n) (x ∷ xs) h = ap (λ zs. x ∷ zs) (take_add m k n xs (omega arith))

  -- A window that lies in the first `m` elements does not see the others.
  pub take-drop-take :
      (n r m : ℕ) (xs : List A) → r + n ≤ m → take n (drop r (take m xs)) ≡ take n (drop r xs)
  take-drop-take zero r m xs h = refl
  take-drop-take (suc n) zero zero xs h = absurd (omega arith)
  take-drop-take (suc n) zero (suc m) [] h = refl
  take-drop-take (suc n) zero (suc m) (x ∷ xs) h =
      ap (λ zs. x ∷ zs) (take-drop-take n zero m xs (omega arith))
  take-drop-take (suc n) (suc r) zero xs h = absurd (omega arith)
  take-drop-take (suc n) (suc r) (suc m) [] h = refl
  take-drop-take (suc n) (suc r) (suc m) (x ∷ xs) h = take-drop-take (suc n) r m xs (omega arith)

  pub eq_nil : (xs : List A) → length xs ≡ 0 → xs ≡ []
  eq_nil [] h = refl
  eq_nil (x ∷ xs) h = absurd (omega arith)
