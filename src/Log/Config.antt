-- ===== src/Log/Config.antt =====
-- The configuration of the loggers (spike/splog/LogInitializer.h and LogInitializer.cpp): its conversion to
-- and from YAML, and the listener that brings the `LogManager` to a new configuration. A YAML node is what
-- the code asks of it: the texts at its keys, where they are defined.
pub mod Cast
pub mod Merge
mod Tests
use lim_webserver.Base.{
  ℕ, ◌==◌, if◌then◌else◌, Bool, true, false, Option, none, some, List, [], ◌∷◌, codes, map,
}
use lim_webserver.Base.Outcome.{Outcome, ok, thrown, fault, stuck, logic_error, ◌>>=◌}
use lim_webserver.Base.Dict.{text_eq}
use lim_webserver.Http.Fields.{lex_less}
use lim_webserver.Log.{LogLevel, unknown, to_text, from_text}
use lim_webserver.Log.Manager.{
  LogManager, LogAppenderDefine, LoggerDefine, create_or_update_logger, del_logger,
}

pub record LogConfigerDefine : Type 0 where
  pub loggers : List LoggerDefine
  pub appenders : List LogAppenderDefine

pub record AppenderNode : Type 0 where
  pub type : Option (List ℕ)
  pub name : Option (List ℕ)
  pub file : Option (List ℕ)
  pub append : Option Bool
  pub level : Option (List ℕ)
  pub formatter : Option (List ℕ)

pub record LoggerNode : Type 0 where
  pub name : Option (List ℕ)
  pub level : Option (List ℕ)
  pub appender_ref : Option (List (List ℕ))

abbrev pub value_or {ℓ} : {A : Type ℓ} → A → Option A → A
value_or d none = d
value_or d (some x) = x

abbrev pub default_pattern : List ℕ
default_pattern = codes "%d%T%t %N%T[%c] [%p] %f:%l%T%m%n"

abbrev level_at : Option (List ℕ) → LogLevel
level_at none = unknown
level_at (some text) = from_text text

-- One round of the loop over the appenders; `none` is a `continue`.
unfoldable pub read_file_appender : AppenderNode → Option LogAppenderDefine
read_file_appender n = elim n.file [
  | none ↦ none
  | some file ↦ some record {
    type = 1;
    name = value_or [] n.name;
    file = file;
    formatter = value_or default_pattern n.formatter;
    level = level_at n.level;
    append = value_or true n.append;
  }
]

unfoldable pub read_appender : AppenderNode → Option LogAppenderDefine
unfolding read_file_appender
read_appender n = elim n.type [
  | none ↦ none
  | some type ↦
      if text_eq type (codes "1")
      then read_file_appender n
      else if text_eq type (codes "0")
      then some record {
        type = 0;
        name = value_or [] n.name;
        file = [];
        formatter = value_or default_pattern n.formatter;
        level = level_at n.level;
        append = true;
      }
      else none
]

pub read_appenders : List AppenderNode → List LogAppenderDefine
read_appenders [] = []
read_appenders (n ∷ ns) = elim (read_appender n) [
  | none ↦ read_appenders ns
  | some lad ↦ lad ∷ read_appenders ns
]

unfoldable pub read_logger : LoggerNode → Outcome LoggerDefine
read_logger n = elim n.name [
  | none ↦ thrown logic_error
  | some name ↦ ok record {
    name = name;
    appender_refs = value_or [] n.appender_ref;
    level = from_text (value_or [] n.level);
  }
]

pub read_loggers : List LoggerNode → Outcome (List LoggerDefine)
read_loggers [] = ok []
read_loggers (n ∷ ns) = do ld ← read_logger n; rest ← read_loggers ns; ok (ld ∷ rest)

-- The two lists of a document.
pub record ConfigNode : Type 0 where
  pub appenders : List AppenderNode
  pub loggers : List LoggerNode

unfoldable pub read_config : ConfigNode → Outcome LogConfigerDefine
read_config node = do
  loggers ← read_loggers node.loggers
  ok (record { loggers = loggers; appenders = read_appenders node.appenders })

-- A key is set unless its text is empty.
abbrev if_given {ℓ} : {A : Type ℓ} → List A → Option (List A)
if_given [] = none
if_given (c ∷ cs) = some (c ∷ cs)

pub level_text : LogLevel → Option (List ℕ)
level_text unknown = none
level_text level = some (to_text level)

unfoldable pub write_appender : LogAppenderDefine → AppenderNode
write_appender lad = record {
  type =
      if lad.type == 1
      then some (codes "FileAppender")
      else if lad.type == 0
      then some (codes "ConsoleAppender")
      else none;
  name = if_given lad.name;
  file = if lad.type == 1 then some lad.file else none;
  append = if lad.type == 1 then some lad.append else none;
  level = level_text lad.level;
  formatter = if_given lad.formatter;
}

unfoldable pub write_logger : LoggerDefine → LoggerNode
write_logger ld = record {
  name = some ld.name;
  level = level_text ld.level;
  appender_ref = if_given ld.appender_refs;
}

unfoldable pub write_config : LogConfigerDefine → ConfigNode
write_config lcd = record {
  appenders = map write_appender lcd.appenders;
  loggers = map write_logger lcd.loggers;
}

-- The first loop of the listener and the one behind it, on sorted lists: the definitions that are given to
-- `createOrUpdateAppender`.
pub merge_appenders : List LogAppenderDefine → List LogAppenderDefine → List LogAppenderDefine
merge_appenders [] os = []
merge_appenders (n ∷ ns) [] = n ∷ ns
merge_appenders (n ∷ ns) (o ∷ os) =
    let created = n ∷ merge_appenders ns (o ∷ os) in
    let passed = merge_appenders (n ∷ ns) os in
    let updated = n ∷ merge_appenders ns os in
    if lex_less n.name o.name then created else if lex_less o.name n.name then passed else updated

-- What the listener calls for the loggers.
pub data Action : Type 0 where
  define : LoggerDefine → Action
  remove : List ℕ → Action

unfoldable pub before : Action → Outcome (List Action) → Outcome (List Action)
before a later = later >>= λ rest. ok (a ∷ rest)

abbrev pub removed : List LoggerDefine → List Action
removed os = map (λ (o : LoggerDefine). remove o.name) os

-- The second pair of loops, on sorted lists. The test for a removed logger is not the `else` of that for a
-- new one, so it follows in the same round, on the next new logger; behind the last one it looks at `end()`.
pub merge_loggers : List LoggerDefine → List LoggerDefine → Outcome (List Action)
unfolding before
merge_loggers ns [] = ok (map define ns)
merge_loggers [] (o ∷ os) = ok (removed (o ∷ os))
merge_loggers (n ∷ []) (o ∷ os) =
    let passed = before (remove o.name) (merge_loggers (n ∷ []) os) in
    let updated = before (define n) (merge_loggers [] os) in
    if lex_less n.name o.name then fault else if lex_less o.name n.name then passed else updated
merge_loggers (n ∷ n' ∷ ns) (o ∷ os) =
    let new_passed = before (define n) (before (remove o.name) (merge_loggers (n' ∷ ns) os)) in
    let new_updated = before (define n) (before (define n') (merge_loggers ns os)) in
    let passed = before (remove o.name) (merge_loggers (n ∷ n' ∷ ns) os) in
    let updated = before (define n) (merge_loggers (n' ∷ ns) os) in
    if lex_less n.name o.name
    then if lex_less o.name n'.name then new_passed else new_updated
    else if lex_less o.name n.name
    then passed
    else updated

unfoldable pub apply_action : Action → LogManager → Outcome LogManager
apply_action (define ld) m = create_or_update_logger ld m
apply_action (remove name) m = ok (del_logger name m)

pub apply_actions : List Action → LogManager → Outcome LogManager
apply_actions [] m = ok m
apply_actions (a ∷ rest) m = apply_action a m >>= apply_actions rest
