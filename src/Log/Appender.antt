-- ===== src/Log/Appender.antt =====
-- `OutputAppender` and its children, and `LogAppender::doAppend` (spike/splog/LogAppender.h and
-- LogAppender.cpp), with `LogSink::append` below. The formatter is a function from a message to
-- the bytes that it leaves in a new `LogStream`.
pub mod Sink
use lim_webserver.Base.{
  ℕ, leb, if◌then◌else◌, Bool, true, false, not, ◌&&◌, Option, none, some, List, [], ◌++◌,
}
use lim_webserver.Base.Outcome.{Outcome, ok, fault, ◌>>=◌}
use lim_webserver.Log.Appender.Sink
use lim_webserver.Log.{LogLevel, unknown, trace, debug, info, warn, error, fatal, off}
use lim_webserver.Log.Pattern.{LogMessage}

-- A message with its level, and the texts that a formatter may use.
pub record Message : Type 0 where
  pub level : LogLevel
  pub texts : LogMessage

pub record OutputAppender : Type 0 where
  pub name : List ℕ
  pub started : Bool
  pub level : LogLevel
  pub formatter : Option (Message → List ℕ)
  pub sink : Option Sink.Sink

-- The value of a level.
unfoldable pub level_number : LogLevel → ℕ
level_number unknown = 0
level_number trace = 1
level_number debug = 2
level_number info = 3
level_number warn = 4
level_number error = 5
level_number fatal = 6
level_number off = 7

-- `message->getLevel() >= m_level`
unfoldable pub passes : LogLevel → LogLevel → Bool
unfolding level_number
passes least level = leb (level_number least) (level_number level)

-- `OutputAppender::format` into an empty stream; `none` where it follows a null formatter.
unfoldable pub format_message : Message → OutputAppender → Option (List ℕ)
format_message m a =
    if not a.started
    then some []
    else if not (passes a.level m.level)
    then some []
    else elim a.formatter [ none ↦ none | some f ↦ some (f m) ]

unfoldable pub with_sink : OutputAppender → Sink.Sink → Outcome OutputAppender
with_sink a s = ok (record a { sink = some s })

-- `OutputAppender::append`
unfoldable pub append_text : List ℕ → OutputAppender → Outcome OutputAppender
unfolding with_sink
append_text text a =
    if not a.started
    then ok a
    else elim a.sink [ none ↦ fault | some s ↦ Sink.append_sink text s >>= with_sink a ]

unfoldable pub is_set {ℓ} : {A : Type ℓ} → Option A → Bool
is_set none = false
is_set (some x) = true

-- `OutputAppender::start`, which counts what is missing.
unfoldable pub start_appender : OutputAppender → OutputAppender
start_appender a = if is_set a.formatter && is_set a.sink then record a { started = true } else a

-- `OutputAppender::stop`
unfoldable pub stop_appender : OutputAppender → OutputAppender
stop_appender a = if not a.started then a else record a { started = false }

-- `LogAppender::doAppend` of an `OutputAppender`
unfoldable pub do_append : Message → OutputAppender → Outcome OutputAppender
unfolding format_message append_text
do_append m a =
    if not a.started
    then ok a
    else elim (format_message m a) [ none ↦ fault | some text ↦ append_text text a ]
