-- ===== src/Log/Manager/Pointers.antt =====
-- The loop of `LogManager::updateLogger` (spike/splog/LogManager.cpp), which adds appenders by their names.
use mathlib.Core.Path.{subst}
use lim_webserver.Base.{
  ℕ, zero, suc, ◌≡◌, ◌≢◌, inl, inr, refl, ap, sym, ◌∙◌, arith, Option, none, some, List, [], ◌∷◌,
  ◌++◌, get_elem?, set, append_assoc, append-nil, Option-cases,
}
use lim_webserver.Base.Outcome.{Outcome, ok, thrown, fault, stuck, ◌>>=◌, Returns, Returns-weaken}
use lim_webserver.Base.Dict.{Dict, lookup}
use lim_webserver.Log.Appender.{OutputAppender}
use lim_webserver.Log.Manager.{
  LogManager, Logger, set_logger, set_appender, start_if_stopped, add_appender, appender_at,
  add_appenders,
}

abbrev pub with_pointer : Option (Option ℕ) → Option (List ℕ) → Option (List ℕ)
with_pointer none q = none
with_pointer (some none) q = none
with_pointer (some (some p)) none = none
with_pointer (some (some p)) (some ps) = some (p ∷ ps)

-- The appenders of these names, if none of them is missing or null.
pub pointers : Dict (Option ℕ) → List (List ℕ) → Option (List ℕ)
pointers m [] = some []
pointers m (name ∷ names) = with_pointer (lookup name m) (pointers m names)

abbrev pub with_appenders : Logger → List ℕ → Logger
with_appenders l ps = record l { appenders = l.appenders ++ ps }

pub get_elem?-set_self {ℓ} :
    {A : Type ℓ} (ls : List A) (i : ℕ) (l l' : A)
    → get_elem? ls i ≡ some l
    → get_elem? (set ls i l') i ≡ some l'
get_elem?-set_self [] i l l' h = absurd (cc h)
get_elem?-set_self (x ∷ ls) zero l l' h = refl
get_elem?-set_self (x ∷ ls) (suc i) l l' h = get_elem?-set_self ls i l l' h

pub get_elem?-set_ne {ℓ} :
    {A : Type ℓ} (ls : List A) (i j : ℕ) (l : A) → j ≢ i → get_elem? (set ls i l) j ≡ get_elem? ls j
get_elem?-set_ne [] i j l h = refl
get_elem?-set_ne (x ∷ ls) zero zero l h = absurd (h refl)
get_elem?-set_ne (x ∷ ls) zero (suc j) l h = refl
get_elem?-set_ne (x ∷ ls) (suc i) zero l h = refl
get_elem?-set_ne (x ∷ ls) (suc i) (suc j) l h = get_elem?-set_ne ls i j l (λ e. h (ap suc e))

set-set : (ls : List Logger) (i : ℕ) (l l' : Logger) → set (set ls i l) i l' ≡ set ls i l'
set-set [] i l l' = refl
set-set (x ∷ ls) zero l l' = refl
set-set (x ∷ ls) (suc i) l l' = ap (λ xs. x ∷ xs) (set-set ls i l l')

set_same : (ls : List Logger) (i : ℕ) (l : Logger) → get_elem? ls i ≡ some l → set ls i l ≡ ls
set_same [] i l h = refl
set_same (x ∷ ls) zero l h = ground arith
set_same (x ∷ ls) (suc i) l h = ap (λ xs. x ∷ xs) (set_same ls i l h)

pub set_logger_at :
    (id : ℕ) (f : Logger → Logger) (l : Logger) (m : LogManager)
    → get_elem? m.loggers id ≡ some l
    → set_logger id f m ≡ record m { loggers = set m.loggers id (f l) }
unfolding set_logger
set_logger_at id f l m h = rw (h, set_logger) refl

set_appender_rest :
    (p : ℕ) (f : OutputAppender → OutputAppender) (m : LogManager)
    → set_appender p f m ≡ record m { appenders = (set_appender p f m).appenders }
unfolding set_appender
set_appender_rest p f m = elim (Option-cases (get_elem? m.appenders p)) [
  | inl e ↦ rw (e, set_appender) refl
  | inr (a, e) ↦ rw (e, set_appender) refl
]

-- The logger `l` at `id` has these appenders too, and the maps are as they were.
abbrev pub IsAdded : ℕ → Logger → List ℕ → LogManager → LogManager → Type 0
IsAdded id l ps m m' =
    (m'.loggers ≡ set m.loggers id (with_appenders l ps))
    × (m'.appender_map ≡ m.appender_map)
    × (m'.logger_map ≡ m.logger_map)

add_appender-IsAdded :
    (p id : ℕ) (l : Logger) (m : LogManager)
    → get_elem? m.loggers id ≡ some l
    → Returns (add_appender (some p) id m) (IsAdded id l (p ∷ []) m)
unfolding add_appender
add_appender-IsAdded p id l m h =
    let m1 = set_appender p start_if_stopped m in
    let rest : m1 ≡ record m { appenders = m1.appenders } =
      set_appender_rest p start_if_stopped m in
    let at : get_elem? m1.loggers id ≡ some l =
      ap (λ (n : LogManager). get_elem? n.loggers id) rest ∙ h in
    let e = set_logger_at id (λ x. with_appenders x (p ∷ [])) l m1 at in
    (
      ap (λ (n : LogManager). n.loggers) e
          ∙ ap (λ (n : LogManager). set n.loggers id (with_appenders l (p ∷ []))) rest,
      ap (λ (n : LogManager). n.appender_map) e ∙ ap (λ (n : LogManager). n.appender_map) rest,
      ap (λ (n : LogManager). n.logger_map) e ∙ ap (λ (n : LogManager). n.logger_map) rest,
    )

-- What a call with these pointers does: it follows a null pointer, or it gives a result.
abbrev pub Answers : Option (List ℕ) → (List ℕ → LogManager → Type 0) → Outcome LogManager → Type 0
Answers none P r = r ≡ fault
Answers (some ps) P r = Returns r (P ps)

Answers-bind :
    (P : LogManager → Type 0) (q : Option (List ℕ)) (Q : List ℕ → LogManager → Type 0)
    (r : Outcome LogManager) (f : LogManager → Outcome LogManager)
    → Returns r P
    → ((m : LogManager) → P m → Answers q Q (f m))
    → Answers q Q (r >>= f)
Answers-bind P q Q (ok m) f h k = k m h
Answers-bind P q Q (thrown e) f h k = absurd h
Answers-bind P q Q fault f h k = absurd h
Answers-bind P q Q stuck f h k = absurd h

Answers-cons :
    (p : ℕ) (q : Option (List ℕ)) (P Q : List ℕ → LogManager → Type 0) (r : Outcome LogManager)
    → Answers q P r
    → ((ps : List ℕ) (m : LogManager) → P ps m → Q (p ∷ ps) m)
    → Answers (with_pointer (some (some p)) q) Q r
Answers-cons p none P Q r h k = h
Answers-cons p (some ps) P Q r h k = Returns-weaken (P ps) (Q (p ∷ ps)) r h (k ps)

-- One more appender behind those that were added.
IsAdded-cons :
    (id p : ℕ) (l : Logger) (m m1 : LogManager)
    → IsAdded id l (p ∷ []) m m1
    → (ps : List ℕ) (m' : LogManager) → IsAdded id (with_appenders l (p ∷ [])) ps m1 m'
    → IsAdded id l (p ∷ ps) m m'
IsAdded-cons id p l m m1 (e1, e2, e3) ps m' (f1, f2, f3) = (
  f1
      ∙ ap (λ ls. set ls id (with_appenders (with_appenders l (p ∷ [])) ps)) e1
      ∙ set-set m.loggers id _ _
      ∙ ap (λ qs. set m.loggers id (record l { appenders = qs }))
          (append_assoc l.appenders (p ∷ []) ps),
  f2 ∙ e2,
  f3 ∙ e3,
)

missing :
    (name : List ℕ) (names : List (List ℕ)) (id : ℕ) (m : LogManager)
    → lookup name m.appender_map ≡ none
    → add_appenders (name ∷ names) id m ≡ fault
unfolding add_appenders add_appender appender_at
missing name names id m e = rw (e, appender_at) refl

module _ (name : List ℕ) (names : List (List ℕ)) (id : ℕ) (m : LogManager) where
  null : lookup name m.appender_map ≡ some none → add_appenders (name ∷ names) id m ≡ fault
  unfolding add_appenders add_appender appender_at
  null e = rw (e, appender_at) refl

  present :
      (p : ℕ)
      → lookup name m.appender_map ≡ some (some p)
      → add_appenders (name ∷ names) id m ≡ (add_appender (some p) id m >>= add_appenders names id)
  unfolding add_appenders appender_at
  present p e = rw (e, appender_at) refl

pub add_appenders-Answers :
    (names : List (List ℕ)) (id : ℕ) (l : Logger) (m : LogManager)
    → get_elem? m.loggers id ≡ some l
    → Answers (pointers m.appender_map names) (λ ps. IsAdded id l ps m) (add_appenders names id m)
unfolding pointers add_appenders
add_appenders-Answers [] id l m h =
    (sym (ap (set m.loggers id) (with_none l) ∙ set_same m.loggers id l h), refl, refl)
  where
    with_none : (l : Logger) → with_appenders l [] ≡ l
    with_none l = λ i. record l { appenders = append-nil l.appenders i }
add_appenders-Answers (name ∷ names) id l m h = at (lookup name m.appender_map) refl (λ p m1 a.
    subst
      (λ (d : Dict (Option ℕ)).
        Answers (pointers d names) (λ ps. IsAdded id (with_appenders l (p ∷ [])) ps m1)
          (add_appenders names id m1))
      a.1
      (add_appenders-Answers names id (with_appenders l (p ∷ [])) m1
        (ap (λ ls. get_elem? ls id) a.0 ∙ get_elem?-set_self m.loggers id l _ h)))
  where
    at :
        (o : Option (Option ℕ))
        → lookup name m.appender_map ≡ o
        → ((p : ℕ) (m1 : LogManager)
            → IsAdded id l (p ∷ []) m m1
            → Answers
                (pointers m.appender_map names)
                (λ ps. IsAdded id (with_appenders l (p ∷ [])) ps m1)
                (add_appenders names id m1))
        → Answers
            (with_pointer o (pointers m.appender_map names))
            (λ ps. IsAdded id l ps m)
            (add_appenders (name ∷ names) id m)
    at none e k = missing name names id m e
    at (some none) e k = null name names id m e
    at (some (some p)) e k = rw (present name names id m p e) (
        Answers-bind (IsAdded id l (p ∷ []) m)
          (with_pointer (some (some p)) (pointers m.appender_map names)) (λ ps. IsAdded id l ps m)
          (add_appender (some p) id m) (add_appenders names id) (add_appender-IsAdded p id l m h)
          λ m1 a.
            Answers-cons p (pointers m.appender_map names)
              (λ ps. IsAdded id (with_appenders l (p ∷ [])) ps m1) (λ ps. IsAdded id l ps m)
              (add_appenders names id m1) (k p m1 a) (IsAdded-cons id p l m m1 a))
