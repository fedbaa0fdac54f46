-- ===== src/Log.antt =====
-- `LogLevel` and `LogLevelHandler` (spike/splog/LogLevel.h), and below it patterns, streams,
-- appenders, the manager of the loggers and their configuration.
pub mod RoundTrip
pub mod Pattern
pub mod Stream
pub mod Appender
pub mod Async
pub mod Manager
pub mod Config
mod Tests
use lim_webserver.Base.{ℕ, List, Bool, if◌then◌else◌, codes}
use lim_webserver.Http.Method.{str_eq}

pub data LogLevel : Type 0 where
  unknown trace debug info warn error fatal off : LogLevel

pub to_text : LogLevel → List ℕ
to_text trace = codes "TRACE"
to_text debug = codes "DEBUG"
to_text info = codes "INFO"
to_text warn = codes "WARN"
to_text error = codes "ERROR"
to_text fatal = codes "FATAL"
to_text off = codes "OFF"
to_text _ = codes "UNKNOWN"

pub from_text : List ℕ → LogLevel
from_text val =
    if str_eq val (codes "TRACE")
    then trace
    else if str_eq val (codes "DEBUG")
    then debug
    else if str_eq val (codes "INFO")
    then info
    else if str_eq val (codes "WARN")
    then warn
    else if str_eq val (codes "ERROR")
    then error
    else if str_eq val (codes "FATAL")
    then fatal
    else if str_eq val (codes "OFF")
    then off
    else unknown
