-- ===== src/Log/Manager/Update.antt =====
-- `LogManager::createOrUpdateLogger` (spike/splog/LogManager.cpp): what becomes of a logger, and when the
-- code follows a null pointer.
use lim_webserver.Base.{
  ℕ, zero, suc, ◌≡◌, ◌≢◌, refl, ap, ◌∙◌, Option, none, some, List, [], ◌∷◌, ◌++◌, length, get_elem?,
  set, Option-cases, inl, inr,
}
use lim_webserver.Base.Outcome.{Outcome, Returns-weaken}
use lim_webserver.Base.Dict.{lookup, lookup-insert_self}
use lim_webserver.Log.Manager.{
  LogManager, Logger, LoggerDefine, update_logger, new_logger, create_logger,
  create_or_update_logger,
}
use lim_webserver.Log.Manager.Pointers.{
  pointers, Answers, IsAdded, get_elem?-set_self, get_elem?-set_ne, set_logger_at,
  add_appenders-Answers,
}

-- The logger that a definition asks for, with these appenders.
abbrev pub defined : LoggerDefine → List ℕ → Logger
defined ld ps = record { name = ld.name; level = ld.level; appenders = ps }

-- The logger of the definition is registered and is as it was asked for, and no other logger is changed.
pub record IsDefinedAt (id : ℕ) (ld : LoggerDefine) (m : LogManager) (ps : List ℕ) (m' : LogManager)
    : Type 0 where
  pub registered : lookup ld.name m'.logger_map ≡ some id
  pub at_id : get_elem? m'.loggers id ≡ some (defined ld ps)
  pub others : (j : ℕ) → j ≢ id → get_elem? m'.loggers j ≡ get_elem? m.loggers j
  pub same_appenders : m'.appender_map ≡ m.appender_map

abbrev pub IsDefined : LoggerDefine → LogManager → List ℕ → LogManager → Type 0
IsDefined ld m ps m' = (id : ℕ) × IsDefinedAt id ld m ps m'

-- Every registered logger is on the heap.
abbrev pub IsLinked : LogManager → Type 0
IsLinked m =
    (name : List ℕ) (id : ℕ)
    → lookup name m.logger_map ≡ some id
    → (l : Logger) × (get_elem? m.loggers id ≡ some l)

Answers-weaken :
    (q : Option (List ℕ)) (P Q : List ℕ → LogManager → Type 0) (r : Outcome LogManager)
    → Answers q P r
    → ((ps : List ℕ) (m : LogManager) → P ps m → Q ps m)
    → Answers q Q r
Answers-weaken none P Q r h k = h
Answers-weaken (some ps) P Q r h k = Returns-weaken (P ps) (Q ps) r h (k ps)

update_logger-IsDefined :
    (id : ℕ) (ld : LoggerDefine) (l : Logger) (m : LogManager)
    → get_elem? m.loggers id ≡ some l
    → lookup ld.name m.logger_map ≡ some id
    → Answers
        (pointers m.appender_map ld.appender_refs)
        (IsDefinedAt id ld m)
        (update_logger id ld m)
unfolding update_logger
update_logger-IsDefined id ld l m h named = rw (set_logger_at id (λ _. defined ld []) l m h) (
    Answers-weaken (pointers m.appender_map ld.appender_refs)
      (λ ps.
        IsAdded id (defined ld []) ps (record m { loggers = set m.loggers id (defined ld []) }))
      (IsDefinedAt id ld m) _
      (add_appenders-Answers ld.appender_refs id (defined ld [])
        (record m { loggers = set m.loggers id (defined ld []) })
        (get_elem?-set_self m.loggers id l (defined ld []) h))
      λ ps m' (e1, e2, e3). record {
        registered = ap (lookup ld.name) e3 ∙ named;
        at_id =
            ap (λ ls. get_elem? ls id) e1
            ∙ get_elem?-set_self _ id (defined ld []) _
                (get_elem?-set_self m.loggers id l (defined ld []) h);
        others = λ j ne.
            ap (λ ls. get_elem? ls j) e1
            ∙ get_elem?-set_ne _ id j _ ne
            ∙ get_elem?-set_ne m.loggers id j _ ne;
        same_appenders = e2;
      })

get_elem?_last : (ls : List Logger) (l : Logger) → get_elem? (ls ++ (l ∷ [])) (length ls) ≡ some l
get_elem?_last [] l = refl
get_elem?_last (x ∷ ls) l = get_elem?_last ls l

get_elem?_before :
    (ls : List Logger) (l : Logger) (j : ℕ)
    → j ≢ length ls
    → get_elem? (ls ++ (l ∷ [])) j ≡ get_elem? ls j
get_elem?_before [] l zero ne = absurd (ne refl)
get_elem?_before [] l (suc j) ne = refl
get_elem?_before (x ∷ ls) l zero ne = refl
get_elem?_before (x ∷ ls) l (suc j) ne = get_elem?_before ls l j (λ e. ne (ap suc e))

create_logger-IsDefined :
    (ld : LoggerDefine) (m : LogManager)
    → Answers (pointers m.appender_map ld.appender_refs) (IsDefined ld m) (create_logger ld m)
unfolding create_logger new_logger
create_logger-IsDefined ld m =
    Answers-weaken (pointers m.appender_map ld.appender_refs)
      (IsDefinedAt (length m.loggers) ld (new_logger ld.name m)) (IsDefined ld m)
      (create_logger ld m)
      (update_logger-IsDefined (length m.loggers) ld _ (new_logger ld.name m)
        (get_elem?_last m.loggers _) (lookup-insert_self ld.name (length m.loggers) m.logger_map))
      λ ps m' d. (
        length m.loggers,
        record {
          registered = d.registered;
          at_id = d.at_id;
          others = λ j ne. d.others j ne ∙ get_elem?_before m.loggers _ j ne;
          same_appenders = d.same_appenders;
        },
      )

-- `createOrUpdateLogger` follows a null pointer when one of the appenders that the definition refers to is
-- not registered or is null. Otherwise the logger of that name is registered, with the level and the
-- appenders of the definition in their order, whether it was there before or not, and neither
-- another logger nor the map from names to appenders is changed. The registered loggers are on the heap.
pub create_or_update_logger-IsDefined :
    (ld : LoggerDefine) (m : LogManager)
    → IsLinked m
    → Answers
        (pointers m.appender_map ld.appender_refs)
        (IsDefined ld m)
        (create_or_update_logger ld m)
unfolding create_or_update_logger
create_or_update_logger-IsDefined ld m linked = elim (Option-cases (lookup ld.name m.logger_map)) [
  | inl e ↦ rw (e, create_or_update_logger) (create_logger-IsDefined ld m)
  | inr (id, e) ↦
      rw (e, create_or_update_logger)
        (Answers-weaken (pointers m.appender_map ld.appender_refs) (IsDefinedAt id ld m)
          (IsDefined ld m) (update_logger id ld m)
          (update_logger-IsDefined id ld (linked ld.name id e).0 m (linked ld.name id e).1 e)
          (λ ps m' d. (id, d)))
]
