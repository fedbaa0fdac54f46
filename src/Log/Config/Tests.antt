-- ===== src/Log/Config/Tests.antt =====
-- Runs of the sink, of `LogManager` and of its configuration (spike/splog).
use lim_webserver.Base.{
  ℕ, suc, ◌≡◌, refl, ap, arith, Bool, true, false, none, some, Option, List, [], ◌∷◌, codes,
  get_elem?, length, if◌then◌else◌,
}
use lim_webserver.Base.Outcome.{ok, stuck}
use lim_webserver.Base.Words.{pos}
use lim_webserver.Base.Dict.{lookup, text_eq}
use lim_webserver.Log.{debug, info, warn}
use lim_webserver.Log.Appender.{Message}
use lim_webserver.Log.Appender.Sink.{sink_append, sink_append_short}
use lim_webserver.Log.Manager.{
  LogManager, Logger, Appender, LoggerDefine, init_manager, create_or_update_logger,
}
use lim_webserver.Log.Manager.Pointers.{pointers, Answers}
use lim_webserver.Log.Manager.Update.{IsDefined, IsLinked, create_or_update_logger-IsDefined}
use lim_webserver.Log.Config.{LogConfigerDefine, read_config, write_config, merge_loggers}
use lim_webserver.Log.Config.Cast.{read_config-write_config}
use lim_webserver.Log.Config.Merge.{Plan, olds, news, actions, merge_loggers-actions}
use lim_webserver.Http.Fields.{lex_less}

-- A file that takes one byte in each call.
abbrev slow_file : List ℕ → ℕ → ℕ × ℕ
slow_file text n = (1, suc n)

sink_append_short_example : sink_append slow_file 100 (codes "ab") 0 ≡ stuck
sink_append_short_example =
    sink_append_short slow_file 100 (codes "ab") 0 (omega arith) (λ file h. absurd (omega arith))

abbrev manager : LogManager
manager =
    init_manager (λ pattern m. codes "hi")
      (λ type file. record { bytes = []; takes = λ bytes text. length text; rounds = 0 }) false
      (codes "%m")

some_injective : {a b : ℕ} → ◌≡◌ {A = Option ℕ} (some a) (some b) → b ≡ a
some_injective h = cc h

linked : IsLinked manager
unfolding init_manager lookup
linked name id h = found (text_eq (codes "system") name) h
  where
    found :
        (b : Bool)
        → (if b then some 1 else none) ≡ some id
        → (l : Logger) × (get_elem? manager.loggers id ≡ some l)
    found true e = (
      record { name = codes "system"; level = debug; appenders = 0 ∷ [] },
      ap (get_elem? manager.loggers) (some_injective e),
    )
    found false e = absurd (cc e)

abbrev definition : LoggerDefine
definition = record { name = codes "net"; appender_refs = codes "console" ∷ []; level = warn }

create_or_update_logger-IsDefined_example :
    Answers
      (pointers manager.appender_map definition.appender_refs)
      (IsDefined definition manager)
      (create_or_update_logger definition manager)
create_or_update_logger-IsDefined_example =
    create_or_update_logger-IsDefined definition manager linked

abbrev message : Message
message = record {
  level = info;
  texts = record {
    level = codes "INFO";
    file = codes "a.cpp";
    line = pos 7;
    time = codes "12:00";
    thread_id = pos 1;
    thread_name = codes "main";
    content = codes "hi";
    name = codes "system";
  };
}

abbrev console_logger : List ℕ → Logger
console_logger name = record { name = name; level = debug; appenders = 0 ∷ [] }

abbrev configuration : LogConfigerDefine
configuration = record {
  loggers = definition ∷ [];
  appenders =
      record {
        type = 1;
        name = codes "out";
        file = codes "out.txt";
        formatter = codes "%m";
        level = info;
        append = true;
      }
      ∷ [];
}

read_config-write_config_example :
    read_config (write_config configuration)
    ≡ ok (record { loggers = configuration.loggers; appenders = [] })
read_config-write_config_example = read_config-write_config configuration

abbrev named : List ℕ → LoggerDefine
named name = record { name = name; appender_refs = []; level = debug }

abbrev plan : Plan
plan = (named (codes "a"), some (named (codes "a"))) ∷ (named (codes "b"), none) ∷ []

merge_loggers-actions_example : merge_loggers (news plan) (olds plan) ≡ ok (actions plan)
unfolding lex_less
merge_loggers-actions_example = merge_loggers-actions plan ((refl, tt), refl, (tt, tt))
