-- ===== src/Timer/Order.antt =====
-- The order of the set of timers (spike/coroutine/Timer.cpp): insertion and removal keep it.
use lim_webserver.Base.{ℕ, ◌≡◌, refl, sym, ap, ◌∙◌, arith, Bool, true, false, ◌||◌}
use lim_webserver.Base.{none, some, List, [], ◌∷◌, inl, inr, Bool-cases, ◌==◌, ◌⊎◌}
use lim_webserver.Timer.{Timer, less, insert, extract, update}

-- `i` comes before all of `js`.
abbrev pub Before : (ℕ → Timer) → ℕ → List ℕ → Type 0
Before heap i [] = Unit {0}
Before heap i (j ∷ js) = (less heap i j ≡ true) × Before heap i js

abbrev pub IsSorted : (ℕ → Timer) → List ℕ → Type 0
IsSorted heap [] = Unit {0}
IsSorted heap (i ∷ is) = Before heap i is × IsSorted heap is

abbrev pub contains : ℕ → List ℕ → Bool
contains i [] = false
contains i (j ∷ js) = j == i || contains i js

pub less_trans :
    (heap : ℕ → Timer) (i j k : ℕ)
    → less heap i j ≡ true
    → less heap j k ≡ true
    → less heap i k ≡ true
unfolding less
less_trans heap i j k p q = ground arith

pub less_irrefl : (heap : ℕ → Timer) (i : ℕ) → less heap i i ≡ false
unfolding less
less_irrefl heap i = ground arith

less_asym : (heap : ℕ → Timer) (i j : ℕ) → less heap i j ≡ true → less heap j i ≡ false
unfolding less
less_asym heap i j h = ground arith

less_total : (heap : ℕ → Timer) (i j : ℕ) → less heap i j ≡ false → less heap j i ≡ false → i ≡ j
unfolding less
less_total heap i j p q = ground arith

pub Before-trans :
    (heap : ℕ → Timer) (i j : ℕ) (js : List ℕ)
    → less heap i j ≡ true
    → Before heap j js
    → Before heap i js
Before-trans heap i j [] h b = tt
Before-trans heap i j (k ∷ js) h (p, b) = (less_trans heap i j k h p, Before-trans heap i j js h b)

-- What comes before all of a list is not in it.
pub Before-contains :
    (heap : ℕ → Timer) (i : ℕ) (js : List ℕ) → Before heap i js → contains i js ≡ false
Before-contains heap i [] b = refl
Before-contains heap i (j ∷ js) (p, b) = elim (Bool-cases (j == i)) [
  | inl t ↦ absurd (clash t)
  | inr f ↦ rw (f, Before-contains heap i js b)
]
  where
    clash : (j == i) ≡ true → ⊥
    clash t =
        let e : i ≡ j = ground arith in
        let self : less heap i i ≡ true = ap (less heap i) e ∙ p in cc (less_irrefl heap i)

Before-insert :
    (heap : ℕ → Timer) (k i : ℕ) (js : List ℕ)
    → less heap k i ≡ true
    → Before heap k js
    → Before heap k (insert heap i js)
unfolding insert
Before-insert heap k i [] h b = (h, tt)
Before-insert heap k i (j ∷ js) h (p, b) = elim (Bool-cases (less heap i j)) [
  | inl t ↦ rw t (h, (p, b))
  | inr f ↦ elim (Bool-cases (less heap j i)) [
    | inl t ↦ rw (f, t) (p, Before-insert heap k i js h b)
    | inr g ↦ rw (f, g) (p, b)
  ]
]

pub insert-IsSorted :
    (heap : ℕ → Timer) (i : ℕ) (js : List ℕ) → IsSorted heap js → IsSorted heap (insert heap i js)
unfolding insert
insert-IsSorted heap i [] s = (tt, tt)
insert-IsSorted heap i (j ∷ js) (b, s) = elim (Bool-cases (less heap i j)) [
  | inl t ↦ rw t ((t, Before-trans heap i j js t b), (b, s))
  | inr f ↦ elim (Bool-cases (less heap j i)) [
    | inl t ↦ rw (f, t) (Before-insert heap j i js t b, insert-IsSorted heap i js s)
    | inr g ↦ rw (f, g) (b, s)
  ]
]

-- The set holds what was inserted and what it held before.
pub contains-insert :
    (heap : ℕ → Timer) (i k : ℕ) (js : List ℕ)
    → contains k (insert heap i js) ≡ (i == k || contains k js)
unfolding insert
contains-insert heap i k [] = refl
contains-insert heap i k (j ∷ js) = elim (Bool-cases (less heap i j)) [
  | inl t ↦ rw t
  | inr f ↦ elim (Bool-cases (less heap j i)) [
    | inl t ↦ rw (f, t, contains-insert heap i k js) (or_swap (j == k) (i == k) (contains k js))
    | inr g ↦ rw (f, g) (or_same i j k (contains k js) (less_total heap i j f g))
  ]
]
  where
    or_swap : (a b c : Bool) → (a || (b || c)) ≡ (b || (a || c))
    or_swap true true c = refl
    or_swap true false c = refl
    or_swap false true c = refl
    or_swap false false c = refl

    or_same : (i j k : ℕ) (c : Bool) → i ≡ j → (j == k || c) ≡ (i == k || (j == k || c))
    or_same i j k c e = ground arith

less-ne : (heap : ℕ → Timer) (i j : ℕ) → less heap i j ≡ true → (i == j) ≡ false
unfolding less
less-ne heap i j h = ground arith

-- What the set is after an element was found and erased.
pub record Extracted (heap : ℕ → Timer) (i : ℕ) (js ks : List ℕ) : Type 0 where
  pub sorted : IsSorted heap ks
  pub gone : contains i ks ≡ false
  pub others : (k : ℕ) → (k == i) ≡ false → contains k ks ≡ contains k js
  pub before : (k : ℕ) → Before heap k js → Before heap k ks

other_first :
    (i j k : ℕ) (js : List ℕ) → j ≡ i → (k == i) ≡ false → contains k (j ∷ js) ≡ contains k js
other_first i j k js e h = ground arith

found_first : (i j : ℕ) (js : List ℕ) → j ≡ i → contains i (j ∷ js) ≡ true
found_first i j js e = ground arith

-- An element of a sorted set is found, and what is not there is not.
pub extract_cases :
    (heap : ℕ → Timer) (i : ℕ) (js : List ℕ)
    → IsSorted heap js
    → ((ks : List ℕ) × (extract heap i js ≡ some ks)
        × Extracted heap i js ks
        × (contains i js ≡ true))
      ⊎ ((extract heap i js ≡ none) × (contains i js ≡ false))
unfolding extract
extract_cases heap i [] s = inr (refl, refl)
extract_cases heap i (j ∷ js) (b, s) = elim (Bool-cases (less heap j i)) [
  | inl t ↦
      let ne : (j == i) ≡ false = less-ne heap j i t in
      elim (extract_cases heap i js s) [
        | inl (ks, e, x, c) ↦ inl (
          j ∷ ks,
          rw (t, e),
          record {
            sorted = (x.before j b, x.sorted);
            gone = rw (ne, x.gone);
            others = λ k h. rw (x.others k h);
            before = λ k q. (q.0, x.before k q.1);
          },
          rw (ne, c),
        )
        | inr (e, c) ↦ inr (rw (t, e), rw (ne, c))
      ]
  | inr f ↦ elim (Bool-cases (less heap i j)) [
    | inl t ↦ inr (rw (f, t), Before-contains heap i (j ∷ js) (t, Before-trans heap i j js t b))
    | inr g ↦
        let e : j ≡ i = less_total heap j i f g in
        inl (
          js,
          rw (f, g),
          record {
            sorted = s;
            gone = ap (λ (x : ℕ). contains x js) (sym e) ∙ Before-contains heap j js b;
            others = λ k h. sym (other_first i j k js e h);
            before = λ k q. q.1;
          },
          found_first i j js e,
        )
  ]
]

pub not_first : (i j : ℕ) (js : List ℕ) → contains i (j ∷ js) ≡ false → (j == i) ≡ false
not_first i j js c = ground arith

pub not_later : (i j : ℕ) (js : List ℕ) → contains i (j ∷ js) ≡ false → contains i js ≡ false
not_later i j js c = ground arith

-- A timer that is not in the set may change without disturbing its order.
less-update :
    (heap : ℕ → Timer) (i j k : ℕ) (t : Timer)
    → (j == i) ≡ false
    → (k == i) ≡ false
    → less (update heap i t) j k ≡ less heap j k
unfolding less
less-update heap i j k t p q = rw (p, q)

Before-update :
    (heap : ℕ → Timer) (i j : ℕ) (t : Timer) (js : List ℕ)
    → (j == i) ≡ false
    → contains i js ≡ false
    → Before heap j js
    → Before (update heap i t) j js
Before-update heap i j t [] h c b = tt
Before-update heap i j t (k ∷ js) h c (p, b) = (
  less-update heap i j k t h (not_first i k js c) ∙ p,
  Before-update heap i j t js h (not_later i k js c) b,
)

pub IsSorted-update :
    (heap : ℕ → Timer) (i : ℕ) (t : Timer) (js : List ℕ)
    → contains i js ≡ false
    → IsSorted heap js
    → IsSorted (update heap i t) js
IsSorted-update heap i t [] c s = tt
IsSorted-update heap i t (j ∷ js) c (b, s) = (
  Before-update heap i j t js (not_first i j js c) (not_later i j js c) b,
  IsSorted-update heap i t js (not_later i j js c) s,
)
