-- ===== src/Base/Outcome.antt =====
-- The results of fallible code. `thrown` is a C++ exception that leaves the call, `fault` is
-- undefined behaviour: the code dereferences a null pointer or leaves an array. `stuck` is no result of
-- the code: the fuel of a loop ran out.
use mathlib.Core.Path.{◌≡◌, refl, subst}
use mathlib.Core.Bool.{Bool, true, false}
use lim_webserver.Base.Tests.{if◌then◌else◌}

pub data Exception : Type 0 where
  out_of_range logic_error invalid_argument : Exception

pub data Outcome {ℓ} (A : Type ℓ) : Type ℓ where
  ok : A → Outcome A
  thrown : Exception → Outcome A
  fault : Outcome A
  stuck : Outcome A

infixl 5 ◌>>=◌
abbrev pub ◌>>=◌ {ℓ κ} : {A : Type ℓ} {B : Type κ} → Outcome A → (A → Outcome B) → Outcome B
ok a >>= f = f a
thrown e >>= f = thrown e
fault >>= f = fault
stuck >>= f = stuck

-- The call gives back a result, and the result has a property.
abbrev pub Returns {ℓ} : {A : Type ℓ} → Outcome A → (A → Type 0) → Type 0
Returns (ok a) P = P a
Returns _ P = ⊥

pub Returns-ok {ℓ} :
    {A : Type ℓ} (P : A → Type 0) (r : Outcome A) (a : A) → Returns r P → r ≡ ok a → P a
Returns-ok P r a h e = subst (λ o. Returns o P) e h

pub Returns-bind {ℓ κ} :
    {A : Type ℓ} {B : Type κ} (P : A → Type 0) (Q : B → Type 0) (r : Outcome A) (f : A → Outcome B)
    → Returns r P
    → ((a : A) → P a → Returns (f a) Q)
    → Returns (r >>= f) Q
Returns-bind P Q (ok a) f h k = k a h
Returns-bind P Q (thrown e) f h k = absurd h
Returns-bind P Q fault f h k = absurd h
Returns-bind P Q stuck f h k = absurd h

pub Returns-if {ℓ} :
    {A : Type ℓ} (P : A → Type 0) (c : Bool) (r s : Outcome A)
    → (c ≡ true → Returns r P)
    → (c ≡ false → Returns s P)
    → Returns (if c then r else s) P
Returns-if P true r s h k = h refl
Returns-if P false r s h k = k refl

pub Returns-weaken {ℓ} :
    {A : Type ℓ} (P Q : A → Type 0) (r : Outcome A)
    → Returns r P
    → ((a : A) → P a → Q a)
    → Returns r Q
Returns-weaken P Q (ok a) h k = k a h
Returns-weaken P Q (thrown e) h k = absurd h
Returns-weaken P Q fault h k = absurd h
Returns-weaken P Q stuck h k = absurd h
