-- ===== src/Log/Config/Cast.antt =====
-- The conversion of the log configuration (spike/splog/LogInitializer.h) to YAML and back.
use lim_webserver.Base.{◌≡◌, refl, ap, arith, ◌==◌, Bool-cases, inl, inr, none, List, [], ◌∷◌, map}
use lim_webserver.Base.Outcome.{ok}
use lim_webserver.Log.{unknown, trace, debug, info, warn, error, fatal, off, LogLevel, from_text}
use lim_webserver.Log.RoundTrip.{from_text-to_text}
use lim_webserver.Log.Manager.{LogAppenderDefine, LoggerDefine}
use lim_webserver.Log.Config.{
  LogConfigerDefine, value_or, read_appender, read_appenders, read_logger, read_loggers,
  read_config, write_appender, write_logger, write_config, level_text, if_given,
}

-- No type that is written is one that is read.
read_appender-write_appender : (lad : LogAppenderDefine) → read_appender (write_appender lad) ≡ none
unfolding read_appender write_appender
read_appender-write_appender lad = elim (Bool-cases (lad.type == 1)) [
  | inl file ↦ ground arith
  | inr not_file ↦ ground arith
]

read_appenders-write :
    (lads : List LogAppenderDefine) → read_appenders (map write_appender lads) ≡ []
unfolding read_appenders
read_appenders-write [] = refl
read_appenders-write (lad ∷ lads) =
    rw (read_appender-write_appender lad, read_appenders) (read_appenders-write lads)

from_text-level_text : (l : LogLevel) → from_text (value_or [] (level_text l)) ≡ l
unfolding level_text from_text
from_text-level_text unknown = refl
from_text-level_text trace = from_text-to_text trace
from_text-level_text debug = from_text-to_text debug
from_text-level_text info = from_text-to_text info
from_text-level_text warn = from_text-to_text warn
from_text-level_text error = from_text-to_text error
from_text-level_text fatal = from_text-to_text fatal
from_text-level_text off = from_text-to_text off

value_or-if_given {ℓ} : {A : Type ℓ} (xs : List A) → value_or [] (if_given xs) ≡ xs
value_or-if_given [] = refl
value_or-if_given (x ∷ xs) = refl

read_logger-write_logger : (ld : LoggerDefine) → read_logger (write_logger ld) ≡ ok ld
unfolding read_logger write_logger
read_logger-write_logger ld = λ i. ok record {
  name = ld.name;
  appender_refs = value_or-if_given ld.appender_refs i;
  level = from_text-level_text ld.level i;
}

read_loggers-write : (lds : List LoggerDefine) → read_loggers (map write_logger lds) ≡ ok lds
unfolding read_loggers
read_loggers-write [] = refl
read_loggers-write (ld ∷ lds) = rw (read_logger-write_logger ld) (rw (read_loggers-write lds) refl)

-- What the conversion to YAML writes is read back with the same loggers, in their order, but without any of the appenders:
-- they are written with the types "FileAppender" and "ConsoleAppender", and read with "1" and "0".
pub read_config-write_config :
    (lcd : LogConfigerDefine)
    → read_config (write_config lcd) ≡ ok (record { loggers = lcd.loggers; appenders = [] })
unfolding read_config write_config
read_config-write_config lcd = rw (read_loggers-write lcd.loggers) (
    ap (λ ads. ok (record { loggers = lcd.loggers; appenders = ads }))
      (read_appenders-write lcd.appenders))
