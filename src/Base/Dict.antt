-- ===== src/Base/Dict.antt =====
-- A `std::unordered_map` from texts: the list of its entries, of which no two have the same key. The
-- order in which the code would walk over it is not used.
use mathlib.Core.Path.{subst}
use lim_webserver.Base.{
  ℕ, ◌≡◌, ◌≢◌, ◌↔◌, refl, arith, Bool, true, false, ◌&&◌, ◌==◌, if◌then◌else◌, Option, none, some,
  List, [], ◌∷◌,
}

-- `==` of `std::string`
abbrev pub text_eq : List ℕ → List ℕ → Bool
text_eq [] [] = true
text_eq [] (d ∷ ds) = false
text_eq (c ∷ cs) [] = false
text_eq (c ∷ cs) (d ∷ ds) = c == d && text_eq cs ds

text_eq_sound : (cs ds : List ℕ) → text_eq cs ds ≡ true → cs ≡ ds
text_eq_sound [] [] h = refl
text_eq_sound [] (d ∷ ds) h = absurd (cc h)
text_eq_sound (c ∷ cs) [] h = absurd (cc h)
text_eq_sound (c ∷ cs) (d ∷ ds) h = ground (arith, text_eq_sound cs ds)

pub text_eq_refl : (cs : List ℕ) → text_eq cs cs ≡ true
text_eq_refl [] = refl
text_eq_refl (c ∷ cs) = ground (arith, text_eq_refl cs)

pub text_eq_iff : (cs ds : List ℕ) → (text_eq cs ds ≡ true) ↔ (cs ≡ ds)
text_eq_iff cs ds =
    (text_eq_sound cs ds, λ e. subst (λ es. text_eq cs es ≡ true) e (text_eq_refl cs))

module _ {ℓ} where
  abbrev pub Dict : Type ℓ → Type ℓ
  Dict V = List (List ℕ × V)

module _ {ℓ} {V : Type ℓ} where
  -- `find`
  unfoldable pub lookup : List ℕ → Dict V → Option V
  lookup k [] = none
  lookup k ((j, v) ∷ m) = if text_eq j k then some v else lookup k m

  -- `m[k] = v`
  pub insert : List ℕ → V → Dict V → Dict V
  insert k v [] = (k, v) ∷ []
  insert k v ((j, w) ∷ m) = if text_eq j k then (k, v) ∷ m else (j, w) ∷ insert k v m

  pub erase : List ℕ → Dict V → Dict V
  erase k [] = []
  erase k ((j, v) ∷ m) = if text_eq j k then erase k m else (j, v) ∷ erase k m

  pub lookup-insert :
      (j k : List ℕ) (v : V) (m : Dict V)
      → lookup j (insert k v m) ≡ (if text_eq k j then some v else lookup j m)
  unfolding lookup insert
  lookup-insert j k v [] = refl
  lookup-insert j k v ((i, w) ∷ m) =
      ground (arith, text_eq_iff k j, text_eq_iff i k, text_eq_iff i j, lookup-insert j k v m)

  pub lookup-insert_self : (k : List ℕ) (v : V) (m : Dict V) → lookup k (insert k v m) ≡ some v
  lookup-insert_self k v m = rw (lookup-insert k k v m, text_eq_refl k) refl

  pub lookup-insert_ne :
      (j k : List ℕ) (v : V) (m : Dict V) → k ≢ j → lookup j (insert k v m) ≡ lookup j m
  lookup-insert_ne j k v m h = ground (arith, lookup-insert j k v m, text_eq_iff k j)

  pub lookup-erase :
      (j k : List ℕ) (m : Dict V)
      → lookup j (erase k m) ≡ (if text_eq k j then none else lookup j m)
  unfolding lookup erase
  lookup-erase j k [] = ground arith
  lookup-erase j k ((i, w) ∷ m) =
      ground (arith, text_eq_iff k j, text_eq_iff i k, text_eq_iff i j, lookup-erase j k m)
