-- ===== src/Log/Config/Merge.antt =====
-- What the listener of the log configuration calls (spike/splog/LogInitializer.cpp).
use lim_webserver.Base.{◌≡◌, refl, ap, ◌∙◌, arith, true, Option, none, some, List, [], ◌∷◌, map}
use lim_webserver.Base.Outcome.{ok, fault}
use lim_webserver.Http.Fields.{lex_less}
use lim_webserver.Http.Fields.Order.{lex_irrefl, lex_asym}
use lim_webserver.Log.Manager.{LogAppenderDefine, LoggerDefine}
use lim_webserver.Log.Config.{
  Action, define, remove, before, removed, merge_appenders, merge_loggers,
}

-- Whatever the old configuration was, each appender of the new one is created or updated, in order.
pub merge_appenders-all : (ns os : List LogAppenderDefine) → merge_appenders ns os ≡ ns
unfolding merge_appenders
merge_appenders-all [] os = refl
merge_appenders-all (n ∷ ns) [] = refl
merge_appenders-all (n ∷ ns) (o ∷ os) = ground (
  arith,
  merge_appenders-all ns (o ∷ os),
  merge_appenders-all (n ∷ ns) os,
  merge_appenders-all ns os,
)

-- An old configuration in order, each logger with its new definition if it is kept.
abbrev pub Plan : Type 0
Plan = List (LoggerDefine × Option LoggerDefine)

abbrev pub olds : Plan → List LoggerDefine
olds plan = map (λ (e : LoggerDefine × Option LoggerDefine). e.0) plan

abbrev pub news : Plan → List LoggerDefine
news [] = []
news ((o, none) ∷ plan) = news plan
news ((o, some n) ∷ plan) = n ∷ news plan

abbrev pub actions : Plan → List Action
actions [] = []
actions ((o, none) ∷ plan) = remove o.name ∷ actions plan
actions ((o, some n) ∷ plan) = define n ∷ actions plan

abbrev pub Follows : LoggerDefine → Plan → Type 0
Follows o [] = Unit {0}
Follows o ((o', n) ∷ plan) = (lex_less o.name o'.name ≡ true) × Follows o plan

-- The names are in order without doubles, and what is kept keeps its name.
abbrev pub IsPlan : Plan → Type 0
IsPlan [] = Unit {0}
IsPlan ((o, none) ∷ plan) = Follows o plan × IsPlan plan
IsPlan ((o, some n) ∷ plan) = Follows o plan × (n.name ≡ o.name) × IsPlan plan

abbrev Ahead : LoggerDefine → List LoggerDefine → Type 0
Ahead o [] = Unit {0}
Ahead o (n ∷ ns) = lex_less o.name n.name ≡ true

merge_loggers_nil : (os : List LoggerDefine) → merge_loggers [] os ≡ ok (removed os)
unfolding merge_loggers
merge_loggers_nil [] = refl
merge_loggers_nil (o ∷ os) = refl

module _ (o : LoggerDefine) (os : List LoggerDefine) where
  merge_loggers-kept :
      (n : LoggerDefine) (ns : List LoggerDefine)
      → n.name ≡ o.name
      → merge_loggers (n ∷ ns) (o ∷ os) ≡ before (define n) (merge_loggers ns os)
  unfolding merge_loggers
  merge_loggers-kept n [] e = rw (e, lex_irrefl o.name) refl
  merge_loggers-kept n (n' ∷ ns) e = rw (e, lex_irrefl o.name) refl

  merge_loggers-gone :
      (ns : List LoggerDefine)
      → Ahead o ns
      → merge_loggers ns (o ∷ os) ≡ before (remove o.name) (merge_loggers ns os)
  unfolding merge_loggers before
  merge_loggers-gone [] h = rw (merge_loggers_nil os) refl
  merge_loggers-gone (n ∷ []) h = rw (lex_asym o.name n.name h, h) refl
  merge_loggers-gone (n ∷ n' ∷ ns) h = rw (lex_asym o.name n.name h, h) refl

Follows-Ahead :
    (o : LoggerDefine) (plan : Plan) → Follows o plan → IsPlan plan → Ahead o (news plan)
Follows-Ahead o [] f h = tt
Follows-Ahead o ((o', none) ∷ plan) f h = Follows-Ahead o plan f.1 h.1
Follows-Ahead o ((o', some n) ∷ plan) f h = rw h.1 f.0

-- When no logger is new, every old logger that is kept is given its new definition, and every other one is
-- removed. Both lists are in the order of the names, without doubles.
pub merge_loggers-actions :
    (plan : Plan) → IsPlan plan → merge_loggers (news plan) (olds plan) ≡ ok (actions plan)
unfolding merge_loggers before
merge_loggers-actions [] h = refl
merge_loggers-actions ((o, none) ∷ plan) h =
    merge_loggers-gone o (olds plan) (news plan) (Follows-Ahead o plan h.0 h.1)
    ∙ ap (before (remove o.name)) (merge_loggers-actions plan h.1)
merge_loggers-actions ((o, some n) ∷ plan) h =
    merge_loggers-kept o (olds plan) n (news plan) h.1
    ∙ ap (before (define n)) (merge_loggers-actions plan h.2)

-- When the last new logger comes before an old one that is not yet passed, the loop looks at the name of the logger behind the last.
pub merge_loggers-beyond :
    (n o : LoggerDefine) (os : List LoggerDefine)
    → lex_less n.name o.name ≡ true
    → merge_loggers (n ∷ []) (o ∷ os) ≡ fault
unfolding merge_loggers
merge_loggers-beyond n o os h = rw h refl
