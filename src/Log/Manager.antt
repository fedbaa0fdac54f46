-- ===== src/Log/Manager.antt =====
-- `Logger` (spike/splog/Logger.h and Logger.cpp) and `LogManager` (spike/splog/LogManager.h and
-- LogManager.cpp) over a heap: a logger and an appender are numbers, and a null pointer is `none`. A call
-- under the lock is one step. Parameters are what `LogFormatter::Create` makes of a pattern, the file
-- of an appender by its type and file name, and the value that `m_started` of a new appender happens to have, which nothing sets.
pub mod Pointers
pub mod Update
pub mod Deliver
pub mod Routing
use lim_webserver.Base.{
  ℕ, zero, suc, ◌==◌, if◌then◌else◌, Bool, true, false, not, ◌||◌, Option, none, some, List, [],
  ◌∷◌, ◌++◌, length, get_elem?, set, codes,
}
use lim_webserver.Base.Outcome.{Outcome, ok, fault, stuck, ◌>>=◌}
use lim_webserver.Base.Dict.{Dict, text_eq, lookup, insert, erase}
use lim_webserver.Log.{LogLevel, trace, debug, off}
use lim_webserver.Log.Appender.Sink.{Sink}
use lim_webserver.Log.Appender.{Message, OutputAppender, passes, start_appender, do_append}

pub record LogAppenderDefine : Type 0 where
  pub type : ℕ
  pub name : List ℕ
  pub file : List ℕ
  pub formatter : List ℕ
  pub level : LogLevel
  pub append : Bool

pub record LoggerDefine : Type 0 where
  pub name : List ℕ
  pub appender_refs : List (List ℕ)
  pub level : LogLevel

-- A `ConsoleAppender` (type 0) or a `FileAppender` (type 1).
pub record Appender : Type 0 where
  pub type : ℕ
  pub output : OutputAppender

pub record Logger : Type 0 where
  pub name : List ℕ
  pub level : LogLevel
  pub appenders : List ℕ

pub record LogManager : Type 0 where
  pub appender_map : Dict (Option ℕ)
  pub logger_map : Dict ℕ
  pub root : ℕ
  pub appenders : List Appender
  pub loggers : List Logger

-- Writes through a pointer.
unfoldable pub set_logger : ℕ → (Logger → Logger) → LogManager → LogManager
set_logger id f m = elim (get_elem? m.loggers id) [
  | none ↦ m
  | some l ↦ record m { loggers = set m.loggers id (f l) }
]

unfoldable pub set_appender : ℕ → (OutputAppender → OutputAppender) → LogManager → LogManager
set_appender p f m = elim (get_elem? m.appenders p) [
  | none ↦ m
  | some a ↦ record m { appenders = set m.appenders p (record a { output = f a.output }) }
]

unfoldable pub start_if_stopped : OutputAppender → OutputAppender
start_if_stopped o = if not o.started then start_appender o else o

-- `Logger::addAppender`
unfoldable pub add_appender : Option ℕ → ℕ → LogManager → Outcome LogManager
unfolding set_logger set_appender start_if_stopped
add_appender none id m = fault
add_appender (some p) id m = ok (
    set_logger id (λ l. record l { appenders = l.appenders ++ (p ∷ []) })
      (set_appender p start_if_stopped m))

-- `m_appenders[name]`, which puts a null pointer at a name that is not there.
unfoldable pub appender_at : List ℕ → LogManager → Option ℕ × LogManager
appender_at name m = elim (lookup name m.appender_map) [
  | none ↦ (none, record m { appender_map = insert name none m.appender_map })
  | some p ↦ (p, m)
]

-- The loop of `updateLogger`.
pub add_appenders : List (List ℕ) → ℕ → LogManager → Outcome LogManager
add_appenders [] id m = ok m
add_appenders (name ∷ names) id m =
    let (p, m') = appender_at name m in add_appender p id m' >>= add_appenders names id

unfoldable pub update_logger : ℕ → LoggerDefine → LogManager → Outcome LogManager
update_logger id ld m =
    add_appenders ld.appender_refs id
      (set_logger id (λ l. record { name = ld.name; level = ld.level; appenders = [] }) m)

-- A new object on the heap.
unfoldable pub new_logger : List ℕ → LogManager → LogManager
new_logger name m = record m {
  loggers = m.loggers ++ (record { name = name; level = debug; appenders = [] } ∷ []);
  logger_map = insert name (length m.loggers) m.logger_map;
}

unfoldable pub create_logger : LoggerDefine → LogManager → Outcome LogManager
create_logger ld m = update_logger (length m.loggers) ld (new_logger ld.name m)

unfoldable pub create_or_update_logger : LoggerDefine → LogManager → Outcome LogManager
create_or_update_logger ld m = elim (lookup ld.name m.logger_map) [
  | some id ↦ update_logger id ld m
  | none ↦ create_logger ld m
]

abbrev pub name_of : ℕ → LogManager → List ℕ
name_of id m = elim (get_elem? m.loggers id) [ none ↦ [] | some l ↦ l.name ]

unfoldable pub get_logger : List ℕ → LogManager → ℕ × LogManager
get_logger name m =
    if text_eq (name_of m.root m) name then (m.root, m) else elim (lookup name m.logger_map) [
      | some id ↦ (id, m)
      | none ↦ (length m.loggers, new_logger name m)
    ]

unfoldable pub del_logger : List ℕ → LogManager → LogManager
del_logger name m = elim (lookup name m.logger_map) [
  | none ↦ m
  | some id ↦ set_logger id (λ l. record l { level = off; appenders = [] }) m
]

unfoldable pub get_appender : List ℕ → LogManager → Option ℕ × LogManager
get_appender name m = elim (lookup name m.appender_map) [
  | some p ↦ (p, m)
  | none ↦ appender_at (codes "console") m
]

abbrev pub appender_name : ℕ → LogManager → List ℕ
appender_name p m = elim (get_elem? m.appenders p) [ none ↦ [] | some a ↦ a.output.name ]

-- `Logger::detachAppender` on the list of a logger.
pub detach : List ℕ → LogManager → List ℕ → List ℕ
detach name m [] = []
detach name m (p ∷ ps) =
    if text_eq (appender_name p m) name then detach name m ps else p ∷ detach name m ps

-- The loop of `delAppender` over the loggers.
pub detach_all : List ℕ → Dict ℕ → LogManager → LogManager
detach_all name [] m = m
detach_all name ((_, id) ∷ entries) m =
    detach_all name entries
      (set_logger id (λ l. record l { appenders = detach name m l.appenders }) m)

pub del_appender : List ℕ → LogManager → LogManager
del_appender name m =
    detach_all name m.logger_map (record m { appender_map = erase name m.appender_map })

module _ (create_formatter : List ℕ → Message → List ℕ) (open_sink : ℕ → List ℕ → Sink)
    (memory : Bool) where
  abbrev pub new_appender : LogAppenderDefine → Appender
  new_appender lad = record {
    type = lad.type;
    output = record {
      name = lad.name;
      started = memory;
      level = lad.level;
      formatter = some (create_formatter lad.formatter);
      sink = some (open_sink lad.type lad.file);
    };
  }

  -- `createAppender`; an empty file name is not refused.
  unfoldable pub create_appender : LogAppenderDefine → LogManager → LogManager
  create_appender lad m =
      if lad.type == 0 || lad.type == 1
      then record m {
        appenders = m.appenders ++ (new_appender lad ∷ []);
        appender_map = insert lad.name (some (length m.appenders)) m.appender_map;
      }
      else record m { appender_map = insert lad.name none m.appender_map }

  unfoldable pub create_or_update_appender : LogAppenderDefine → LogManager → Outcome LogManager
  create_or_update_appender lad m = elim (lookup lad.name m.appender_map) [
    | none ↦ ok (create_appender lad m)
    | some none ↦ fault
    | some (some p) ↦ elim (get_elem? m.appenders p) [
      | none ↦ fault
      | some a ↦
          if not (a.type == lad.type)
          then ok m
          else ok (set_appender p (λ o. record o { name = lad.name }) m)
    ]
  ]

  -- `init`
  unfoldable pub init_manager : List ℕ → LogManager
  init_manager pattern = record {
    appender_map = (codes "console", some 0) ∷ [];
    logger_map = (codes "system", 1) ∷ [];
    root = 0;
    appenders =
        record {
          type = 0;
          output = start_appender record {
            name = codes "console";
            started = memory;
            level = trace;
            formatter = some (create_formatter pattern);
            sink = some (open_sink 0 []);
          };
        }
        ∷ [];
    loggers =
        record { name = codes "root"; level = debug; appenders = 0 ∷ [] }
        ∷ record { name = codes "system"; level = debug; appenders = 0 ∷ [] }
        ∷ [];
  }

-- The loop of `Logger::log` over the appenders.
pub append_each : Message → List ℕ → List Appender → Outcome (List Appender)
append_each message [] heap = ok heap
append_each message (p ∷ ps) heap = elim (get_elem? heap p) [
  | none ↦ fault
  | some a ↦ do_append message a.output >>= λ o.
      append_each message ps (set heap p (record a { output = o }))
]

-- `Logger::log`, on fuel: without appenders the call goes to the root logger.
pub log : ℕ → Message → ℕ → LogManager → Outcome LogManager
log zero message id m = stuck
log (suc fuel) message id m =
    let by_root = log fuel message m.root m in
    elim (get_elem? m.loggers id) [
      | none ↦ fault
      | some l ↦ if not (passes l.level message.level) then ok m else elim l.appenders [
        | [] ↦ by_root
        | p ∷ ps ↦
            append_each message (p ∷ ps) m.appenders >>= λ heap. ok (record m { appenders = heap })
      ]
    ]
