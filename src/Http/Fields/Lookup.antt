-- ===== src/Http/Fields/Lookup.antt =====
-- Finding an entry of a map of fields after one was assigned, inserted or erased
-- (spike/net/http/HttpRequest.cpp and HttpResponse.cpp use the maps so).
use lim_webserver.Base.{ℕ, ◌≡◌, refl, sym, ap, ◌∙◌, Bool, true, false, ◌&&◌, not}
use lim_webserver.Base.{Option, none, some, List, [], ◌∷◌, inl, inr, Bool-cases, if◌then◌else◌}
use lim_webserver.Http.Fields.{
  lex_less, MapType, folded, case_insensitive_less, find, assign, insert, erase,
}
use lim_webserver.Http.Fields.Order.{lex_cases, lex_trans, lex_asym}

-- Two keys that neither comes before the other: they differ in case only.
abbrev pub equivalent : List ℕ → List ℕ → Bool
equivalent j k = not (case_insensitive_less j k) && not (case_insensitive_less k j)

-- After `m[j] = v` a key that is equivalent to `j` finds `v`, and any other finds what it found
-- before.
pub find-assign :
    (j k v : List ℕ) (m : MapType)
    → find k (assign j v m) ≡ (if equivalent j k then some v else find k m)
unfolding find assign
find-assign j k v [] = elim (lex_cases (folded j) (folded k)) [
  | inl (p, q) ↦ rw p
  | inr (inl (p, q)) ↦ rw (p, q)
  | inr (inr (p, q, _)) ↦ rw (p, q)
]
find-assign j k v ((i, w) ∷ m) = elim (lex_cases (folded i) (folded j)) [
  | inl (ij, ji) ↦ elim (lex_cases (folded i) (folded k)) [
    | inl (ik, ki) ↦ rw (ij, ik) (find-assign j k v m)
    | inr (inl (ik, ki)) ↦ let kj = lex_trans _ _ _ ki ij in rw (ij, ik, ki, lex_asym _ _ kj, kj)
    | inr (inr (ik, ki, e)) ↦
        let kj : lex_less (folded k) (folded j) ≡ true =
          ap (λ s. lex_less s (folded j)) (sym e) ∙ ij in
        rw (ij, ik, ki, lex_asym _ _ kj, kj)
  ]
  | inr (inl (ij, ji)) ↦ elim (lex_cases (folded j) (folded k)) [
    | inl (jk, kj) ↦ rw (ij, ji, jk)
    | inr (inl (jk, kj)) ↦
        let ki = lex_trans _ _ _ kj ji in rw (ij, ji, jk, kj, ki, lex_asym _ _ ki)
    | inr (inr (jk, kj, e)) ↦ rw (ij, ji, jk, kj)
  ]
  | inr (inr (ij, ji, e)) ↦ elim (lex_cases (folded i) (folded k)) [
    | inl (ik, ki) ↦
        let jk : lex_less (folded j) (folded k) ≡ true =
          ap (λ s. lex_less s (folded k)) (sym e) ∙ ik in
        rw (ij, ji, ik, jk)
    | inr (inl (ik, ki)) ↦
        let kj : lex_less (folded k) (folded j) ≡ true = ap (lex_less (folded k)) (sym e) ∙ ki in
        rw (ij, ji, ik, ki, lex_asym _ _ kj, kj)
    | inr (inr (ik, ki, f)) ↦
        let jk : lex_less (folded j) (folded k) ≡ false =
          ap (λ s. lex_less s (folded k)) (sym e) ∙ ik in
        let kj : lex_less (folded k) (folded j) ≡ false = ap (lex_less (folded k)) (sym e) ∙ ki in
        rw (ij, ji, ik, ki, jk, kj)
  ]
]

-- `m.insert` adds an entry as `m[j] = v` does if there is none for the key, and else does nothing.
pub insert-assign :
    (j v : List ℕ) (m : MapType)
    → insert j v m ≡ elim (find j m) [ none ↦ assign j v m | some w ↦ m ]
unfolding find assign insert
insert-assign j v [] = refl
insert-assign j v ((i, w) ∷ m) = elim (lex_cases (folded i) (folded j)) [
  | inl (ij, ji) ↦ rw (ij, insert-assign j v m) (push (find j m) _ (rw ij))
  | inr (inl (ij, ji)) ↦
      let step : (j, v) ∷ (i, w) ∷ m ≡ assign j v ((i, w) ∷ m) = rw (ij, ji) in rw (ij, ji) step
  | inr (inr (ij, ji, e)) ↦ rw (ij, ji)
]
  where
    push :
        (o : Option (List ℕ)) (t : MapType)
        → (i, w) ∷ assign j v m ≡ t
        → (i, w) ∷ elim o [ none ↦ assign j v m | some x ↦ m ]
          ≡ elim o [ none ↦ t | some x ↦ (i, w) ∷ m ]
    push none t e = e
    push (some x) t e = refl

-- The first key of a map comes after `i`.
abbrev pub Head : List ℕ → MapType → Type 0
Head i [] = Unit {0}
Head i ((k, v) ∷ m) = case_insensitive_less i k ≡ true

-- The keys of a map are in order.
abbrev pub IsOrdered : MapType → Type 0
IsOrdered [] = Unit {0}
IsOrdered ((k, v) ∷ m) = Head k m × IsOrdered m

Head-assign :
    (i j v : List ℕ) (m : MapType)
    → case_insensitive_less i j ≡ true
    → Head i m
    → Head i (assign j v m)
unfolding assign
Head-assign i j v [] h b = h
Head-assign i j v ((k, w) ∷ m) h b = elim (lex_cases (folded k) (folded j)) [
  | inl (p, q) ↦ rw p b
  | inr (inl (p, q)) ↦ rw (p, q) h
  | inr (inr (p, q, e)) ↦ rw (p, q) b
]

-- Assigning keeps the keys in order.
pub assign-IsOrdered : (j v : List ℕ) (m : MapType) → IsOrdered m → IsOrdered (assign j v m)
unfolding assign
assign-IsOrdered j v [] o = (tt, tt)
assign-IsOrdered j v ((i, w) ∷ m) o = elim (lex_cases (folded i) (folded j)) [
  | inl (p, q) ↦ rw p (Head-assign i j v m p o.0, assign-IsOrdered j v m o.1)
  | inr (inl (p, q)) ↦ rw (p, q) (q, o)
  | inr (inr (p, q, e)) ↦ rw (p, q) o
]

find_before :
    (i k : List ℕ) (m : MapType) → case_insensitive_less i k ≡ false → Head i m → find k m ≡ none
unfolding find
find_before i k [] h b = refl
find_before i k ((j, v) ∷ m) h b = elim (lex_cases (folded i) (folded k)) [
  | inl (p, q) ↦ absurd (clash (sym p ∙ h))
  | inr (inl (p, q)) ↦ let kj = lex_trans _ _ _ q b in rw (lex_asym _ _ kj, kj)
  | inr (inr (p, q, e)) ↦
      let kj : lex_less (folded k) (folded j) ≡ true =
        ap (λ s. lex_less s (folded j)) (sym e) ∙ b in
      rw (lex_asym _ _ kj, kj)
]
  where
    clash : true ≡ false → ⊥
    clash e = cc

-- In a map in order, after `m.erase(j)` a key that is equivalent to `j` finds nothing, and any other
-- finds what it found before.
pub find-erase :
    (j k : List ℕ) (m : MapType)
    → IsOrdered m
    → find k (erase j m) ≡ (if equivalent j k then none else find k m)
unfolding find erase
find-erase j k [] o = elim (Bool-cases (equivalent j k)) [ inl t ↦ rw t | inr f ↦ rw f ]
find-erase j k ((i, w) ∷ m) o = elim (lex_cases (folded i) (folded j)) [
  | inl (ij, ji) ↦ elim (lex_cases (folded i) (folded k)) [
    | inl (ik, ki) ↦ rw (ij, ik) (find-erase j k m o.1)
    | inr (inl (ik, ki)) ↦ let kj = lex_trans _ _ _ ki ij in rw (ij, ik, ki, lex_asym _ _ kj, kj)
    | inr (inr (ik, ki, e)) ↦
        let kj : lex_less (folded k) (folded j) ≡ true =
          ap (λ s. lex_less s (folded j)) (sym e) ∙ ij in
        rw (ij, ik, ki, lex_asym _ _ kj, kj)
  ]
  | inr (inl (ij, ji)) ↦ elim (lex_cases (folded j) (folded k)) [
    | inl (jk, kj) ↦ rw (ij, ji, jk)
    | inr (inl (jk, kj)) ↦ rw (ij, ji, jk, kj)
    | inr (inr (jk, kj, e)) ↦
        let ki : lex_less (folded k) (folded i) ≡ true =
          ap (λ s. lex_less s (folded i)) (sym e) ∙ ji in
        rw (ij, ji, jk, kj, lex_asym _ _ ki, ki)
  ]
  | inr (inr (ij, ji, e)) ↦ elim (lex_cases (folded i) (folded k)) [
    | inl (ik, ki) ↦
        let jk : lex_less (folded j) (folded k) ≡ true =
          ap (λ s. lex_less s (folded k)) (sym e) ∙ ik in
        rw (ij, ji, ik, jk)
    | inr (inl (ik, ki)) ↦
        let kj : lex_less (folded k) (folded j) ≡ true = ap (lex_less (folded k)) (sym e) ∙ ki in
        rw (ij, ji, ik, ki, lex_asym _ _ kj, kj) (find_before i k m ik o.0)
    | inr (inr (ik, ki, f)) ↦
        let jk : lex_less (folded j) (folded k) ≡ false =
          ap (λ s. lex_less s (folded k)) (sym e) ∙ ik in
        let kj : lex_less (folded k) (folded j) ≡ false = ap (lex_less (folded k)) (sym e) ∙ ki in
        rw (ij, ji, jk, kj) (find_before i k m ik o.0)
  ]
]
