-- ===== src/Configer/Registry.antt =====
-- `Configer::Lookup` (spike/base/Configer.h): the variables by name. A variable is the number of its object with
-- the number of its type, by which `dynamic_pointer_cast` decides.
use lim_webserver.Base.{
  ℕ, ◌≡◌, ◌≢◌, refl, ap, ◌∙◌, arith, leb, ◌==◌, ==_refl, ne→==, if◌then◌else◌, Bool, true, false,
  not, ◌&&◌, ◌||◌, ◌⊎◌, Option, none, some, List, [], ◌∷◌, Bool-cases, inl, inr,
}
use lim_webserver.Base.Outcome.{Outcome, ok, thrown, invalid_argument}
use lim_webserver.Base.Dict.{Dict, lookup, insert, lookup-insert_self, lookup-insert_ne}

-- `\w` and `.` in a bracket
unfoldable pub is_word : ℕ → Bool
is_word c =
    (leb b'a' c && leb c b'z')
    || (leb b'A' c && leb c b'Z')
    || (leb b'0' c && leb c b'9')
    || c == b'_'
    || c == b'.'

-- `.` outside of one, which is no end of a line
unfoldable pub no_break : List ℕ → Bool
no_break [] = true
no_break (c ∷ cs) = not (c == 10) && not (c == 13) && no_break cs

-- `std::regex_match(name, "^[\\w.].*|")`
unfoldable pub is_valid : List ℕ → Bool
unfolding is_word no_break
is_valid [] = true
is_valid (c ∷ cs) = is_word c && no_break cs

pub record Var : Type 0 where
  pub type : ℕ
  pub object : ℕ

abbrev pub Registry : Type 0
Registry = Dict Var

-- `dynamic_pointer_cast` of what was found
unfoldable pub cast : ℕ → Option Var → Option ℕ
cast type none = none
cast type (some v) = if v.type == type then some v.object else none

-- `Lookup<T>(name)`
unfoldable pub lookup_as : ℕ → List ℕ → Registry → Option ℕ
unfolding cast
lookup_as type name r = cast type (lookup name r)

-- `Lookup<T>(name, default_value)`, where `fresh` is the object that would be created.
unfoldable pub lookup_or_create : ℕ → List ℕ → ℕ → Registry → Outcome (ℕ × Registry)
lookup_or_create type name fresh r = elim (lookup_as type name r) [
  | some object ↦ ok (object, r)
  | none ↦
      if is_valid name
      then ok (fresh, insert name (record { type = type; object = fresh }) r)
      else thrown invalid_argument
]

lookup_as-insert :
    (type : ℕ) (name : List ℕ) (v : Var) (r : Registry)
    → lookup_as type name (insert name v r) ≡ cast type (some v)
unfolding lookup_as
lookup_as-insert type name v r = ap (cast type) (lookup-insert_self name v r)

-- What `Lookup` with a default value does.
abbrev pub IsLookedUp : ℕ → List ℕ → ℕ → Registry → Outcome (ℕ × Registry) → Type 0
IsLookedUp type name fresh r (ok (object, r')) =
    ((lookup_as type name r ≡ some object) × (r' ≡ r))
    ⊎ ((lookup_as type name r ≡ none)
        × (is_valid name ≡ true)
        × (object ≡ fresh)
        × (lookup_as type name r' ≡ some fresh)
        × ((other : List ℕ) → name ≢ other → lookup other r' ≡ lookup other r))
IsLookedUp type name fresh r (thrown e) = (is_valid name ≡ false) × (lookup_as type name r ≡ none)
IsLookedUp type name fresh r _ = ⊥

-- `Lookup` of a type and a name with a default value gives the variable of that type that is registered under the name
-- and changes nothing. When there is none and the name fits the pattern, it gives the new variable, which is then
-- registered under the name, also in place of one of another type, and leaves those of all other names as they were. When there is none
-- and the name does not fit, it throws.
pub lookup_or_create-IsLookedUp :
    (type : ℕ) (name : List ℕ) (fresh : ℕ) (r : Registry)
    → IsLookedUp type name fresh r (lookup_or_create type name fresh r)
unfolding lookup_or_create cast
lookup_or_create-IsLookedUp type name fresh r = found (lookup_as type name r) refl
  where
    created :
        lookup_as type name (insert name (record { type = type; object = fresh }) r) ≡ some fresh
    created =
        lookup_as-insert type name (record { type = type; object = fresh }) r
        ∙ rw (==_refl type) refl

    found :
        (o : Option ℕ)
        → lookup_as type name r ≡ o
        → IsLookedUp type name fresh r (lookup_or_create type name fresh r)
    found (some object) e = rw (e, lookup_or_create) (inl (e, refl))
    found none e = elim (Bool-cases (is_valid name)) [
      | inl v ↦
          rw (e, lookup_or_create)
            (rw v (inr (e, v, refl, created, λ other ne. lookup-insert_ne other name _ r ne)))
      | inr v ↦ rw (e, lookup_or_create) (rw v (v, e))
    ]

cast_other :
    (type type' object : ℕ) (o : Option Var)
    → cast type' o ≡ some object
    → type ≢ type'
    → cast type o ≡ none
unfolding cast
cast_other type type' object none h ne = refl
cast_other type type' object (some v) h ne = ground arith

lookup_as_other :
    (type type' object : ℕ) (name : List ℕ) (r : Registry)
    → lookup_as type' name r ≡ some object
    → type ≢ type'
    → lookup_as type name r ≡ none
unfolding lookup_as
lookup_as_other type type' object name r = cast_other type type' object (lookup name r)

-- A variable of another type that is registered under a valid name is replaced by the new one: nobody who looks it
-- up by its own type finds it afterwards.
pub lookup_or_create-replaces :
    (type type' : ℕ) (name : List ℕ) (fresh object : ℕ) (r : Registry)
    → lookup_as type' name r ≡ some object
    → type ≢ type'
    → is_valid name ≡ true
    → (r' : Registry) × (lookup_or_create type name fresh r ≡ ok (fresh, r'))
      × (lookup_as type' name r' ≡ none)
unfolding lookup_or_create cast
lookup_or_create-replaces type type' name fresh object r h ne v = (
  insert name (record { type = type; object = fresh }) r,
  rw (lookup_as_other type type' object name r h ne, lookup_or_create) (rw v refl),
  lookup_as-insert type' name (record { type = type; object = fresh }) r
      ∙ rw (ne→== type type' ne) refl,
)
