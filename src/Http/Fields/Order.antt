-- ===== src/Http/Fields/Order.antt =====
-- The order of the keys of a map of fields (`CaseInsensitiveLess`, spike/net/http/Http.cpp).
use lim_webserver.Base.{ℕ, ◌≡◌, refl, sym, ◌∙◌, arith, Bool, true, false, ◌||◌, ◌&&◌}
use lim_webserver.Base.{List, [], ◌∷◌, inl, inr, ◌⊎◌, Bool-cases, ltb, ◌==◌}
use lim_webserver.Http.Fields.{lex_less}

pub lex_trans : (a b c : List ℕ) → lex_less a b ≡ true → lex_less b c ≡ true → lex_less a c ≡ true
unfolding lex_less
lex_trans a [] c p q = absurd (clash p)
  where
    clash : false ≡ true → ⊥
    clash e = cc
lex_trans a (y ∷ b) [] p q = absurd (clash q)
  where
    clash : false ≡ true → ⊥
    clash e = cc
lex_trans [] (y ∷ b) (z ∷ c) p q = refl
lex_trans (x ∷ a) (y ∷ b) (z ∷ c) p q =
    join (lex_less a b) (lex_less b c) (lex_less a c) (lex_trans a b c) p q
  where
    join :
        (s t u : Bool)
        → (s ≡ true → t ≡ true → u ≡ true)
        → (ltb x y || (x == y && s)) ≡ true
        → (ltb y z || (y == z && t)) ≡ true
        → (ltb x z || (x == z && u)) ≡ true
    join true true u h p q = let e : u ≡ true = h refl refl in ground arith
    join true false u h p q = ground arith
    join false true u h p q = ground arith
    join false false u h p q = ground arith

pub lex_irrefl : (a : List ℕ) → lex_less a a ≡ false
unfolding lex_less
lex_irrefl [] = refl
lex_irrefl (x ∷ a) = ground (arith, lex_irrefl a)

pub lex_asym : (a b : List ℕ) → lex_less a b ≡ true → lex_less b a ≡ false
lex_asym a b h = elim (Bool-cases (lex_less b a)) [
  | inl t ↦ absurd (clash (sym (lex_irrefl a) ∙ lex_trans a b a h t))
  | inr f ↦ f
]
  where
    clash : false ≡ true → ⊥
    clash e = cc

pub lex_total : (a b : List ℕ) → lex_less a b ≡ false → lex_less b a ≡ false → a ≡ b
unfolding lex_less
lex_total [] [] p q = refl
lex_total [] (y ∷ b) p q = absurd (clash p)
  where
    clash : true ≡ false → ⊥
    clash e = cc
lex_total (x ∷ a) [] p q = absurd (clash q)
  where
    clash : true ≡ false → ⊥
    clash e = cc
lex_total (x ∷ a) (y ∷ b) p q =
    let e : x ≡ y = ground arith in
    let tails = same_head (lex_less a b) (lex_less b a) p q in cc (e, lex_total a b tails.0 tails.1)
  where
    same_head :
        (s t : Bool)
        → (ltb x y || (x == y && s)) ≡ false
        → (ltb y x || (y == x && t)) ≡ false
        → (s ≡ false) × (t ≡ false)
    same_head false false p q = (refl, refl)
    same_head true t p q = absurd (ground arith)
    same_head false true p q = absurd (ground arith)

-- Two keys come one before the other or are equivalent.
pub lex_cases :
    (a b : List ℕ)
    → ((lex_less a b ≡ true) × (lex_less b a ≡ false))
      ⊎ (((lex_less a b ≡ false) × (lex_less b a ≡ true))
          ⊎ ((lex_less a b ≡ false) × (lex_less b a ≡ false) × (a ≡ b)))
lex_cases a b = elim (Bool-cases (lex_less a b)) [
  | inl t ↦ inl (t, lex_asym a b t)
  | inr f ↦ elim (Bool-cases (lex_less b a)) [
    | inl t ↦ inr (inl (f, t))
    | inr g ↦ inr (inr (f, g, lex_total a b f g))
  ]
]
