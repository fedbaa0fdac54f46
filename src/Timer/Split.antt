-- ===== src/Timer/Split.antt =====
-- The search for the expired timers in `TimerManager::listExpiredCallback`
-- (spike/coroutine/Timer.cpp): where `lower_bound` and the loop behind it divide the set.
use lim_webserver.Base.{ℕ, suc, ◌≤◌, ◌≡◌, refl, ap, ◌∙◌, arith, true, false, ◌||◌, ◌&&◌}
use lim_webserver.Base.{List, [], ◌∷◌, ◌++◌, append_assoc, inl, inr, Bool-cases, ltb, ◌==◌}
use lim_webserver.Timer.{Timer, less, lower_bound, skip_equal, split_at}
use lim_webserver.Timer.Order.{Before, IsSorted}

-- The timers of a list are due at `n`.
abbrev pub Until : (ℕ → Timer) → ℕ → List ℕ → Type 0
Until heap n [] = Unit {0}
Until heap n (j ∷ js) = ((heap j).next ≤ n) × Until heap n js

-- The timers of a list are due at `n` or later.
abbrev pub From : (ℕ → Timer) → ℕ → List ℕ → Type 0
From heap n [] = Unit {0}
From heap n (j ∷ js) = (n ≤ (heap j).next) × From heap n js

less-next : (heap : ℕ → Timer) (i j : ℕ) → less heap i j ≡ true → (heap i).next ≤ (heap j).next
unfolding less
less-next heap i j h = ground arith

le_trans : (a b c : ℕ) → a ≤ b → b ≤ c → a ≤ c
le_trans a b c p q = omega arith

Before-From :
    (heap : ℕ → Timer) (n i : ℕ) (js : List ℕ)
    → n ≤ (heap i).next
    → Before heap i js
    → From heap n js
Before-From heap n i [] h b = tt
Before-From heap n i (j ∷ js) h (p, b) =
    (le_trans n (heap i).next (heap j).next h (less-next heap i j p), Before-From heap n i js h b)

Until-append :
    (heap : ℕ → Timer) (n : ℕ) (is js : List ℕ)
    → Until heap n is
    → Until heap n js
    → Until heap n (is ++ js)
Until-append heap n [] js u v = v
Until-append heap n (i ∷ is) js (h, u) v = (h, Until-append heap n is js u v)

lower_bound_lem :
    (heap : ℕ → Timer) (now a : ℕ) (set : List ℕ)
    → IsSorted heap set
    → ((lower_bound heap now a set).0 ++ (lower_bound heap now a set).1 ≡ set)
      × Until heap now (lower_bound heap now a set).0
      × From heap now (lower_bound heap now a set).1
      × IsSorted heap (lower_bound heap now a set).1
unfolding lower_bound
lower_bound_lem heap now a [] s = (refl, tt, tt, tt)
lower_bound_lem heap now a (j ∷ js) (b, s) =
    elim (Bool-cases (ltb (heap j).next now || ((heap j).next == now && ltb j a))) [
      | inl h ↦
          let (e, u, f, s') = lower_bound_lem heap now a js s in
          rw h (ap (λ ks. j ∷ ks) e, (early (heap j).next h, u), f, s')
      | inr h ↦ rw h (
        refl,
        tt,
        (late (heap j).next h, Before-From heap now j js (late (heap j).next h) b),
        (b, s),
      )
    ]
  where
    early : (n : ℕ) → (ltb n now || (n == now && ltb j a)) ≡ true → n ≤ now
    early n h = ground arith

    late : (n : ℕ) → (ltb n now || (n == now && ltb j a)) ≡ false → now ≤ n
    late n h = ground arith

skip_equal_lem :
    (heap : ℕ → Timer) (now : ℕ) (set : List ℕ)
    → IsSorted heap set
    → From heap now set
    → ((skip_equal heap now set).0 ++ (skip_equal heap now set).1 ≡ set)
      × Until heap now (skip_equal heap now set).0
      × From heap (suc now) (skip_equal heap now set).1
unfolding skip_equal
skip_equal_lem heap now [] s f = (refl, tt, tt)
skip_equal_lem heap now (j ∷ js) (b, s) (l, f) = elim (Bool-cases ((heap j).next == now)) [
  | inl h ↦
      let (e, u, g) = skip_equal_lem heap now js s f in
      rw h (ap (λ ks. j ∷ ks) e, (same (heap j).next h, u), g)
  | inr h ↦ rw h (
    refl,
    tt,
    (late (heap j).next h l, Before-From heap (suc now) j js (late (heap j).next h l) b),
  )
]
  where
    same : (n : ℕ) → (n == now) ≡ true → n ≤ now
    same n h = ground arith

    late : (n : ℕ) → (n == now) ≡ false → now ≤ n → suc now ≤ n
    late n h l = ground arith

-- In a set in order the search of `listExpiredCallback` divides the set into the timers that
-- are due at `now` and those that are later, wherever the timer that is searched for lies.
pub split_at_lem :
    (heap : ℕ → Timer) (now a : ℕ) (set : List ℕ)
    → IsSorted heap set
    → ((split_at heap now a set).0 ++ (split_at heap now a set).1 ≡ set)
      × Until heap now (split_at heap now a set).0
      × From heap (suc now) (split_at heap now a set).1
unfolding split_at
split_at_lem heap now a set s =
    let (e, u, f, s') = lower_bound_lem heap now a set s in
    let (e', v, g) = skip_equal_lem heap now (lower_bound heap now a set).1 s' f in
    (
      append_assoc (lower_bound heap now a set).0 _ _
          ∙ (ap (λ ks. (lower_bound heap now a set).0 ++ ks) e' ∙ e),
      Until-append heap now (lower_bound heap now a set).0 _ u v,
      g,
    )

-- If the first timer of a set in order is later than `now`, so are all.
pub sorted-From :
    (heap : ℕ → Timer) (n i : ℕ) (is : List ℕ)
    → n ≤ (heap i).next
    → IsSorted heap (i ∷ is)
    → From heap n (i ∷ is)
sorted-From heap n i is h (b, s) = (h, Before-From heap n i is h b)
