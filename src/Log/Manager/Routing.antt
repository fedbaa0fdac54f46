-- ===== src/Log/Manager/Routing.antt =====
-- `Logger::log` (spike/splog/Logger.cpp): where a message goes.
use lim_webserver.Base.{
  ℕ, zero, suc, ◌≡◌, refl, Bool, true, some, List, [], ◌∷◌, get_elem?, ap, ◌∙◌, ◌&&◌, leb,
}
use lim_webserver.Base.Outcome.{Outcome, ok, stuck, ◌>>=◌}
use lim_webserver.Log.{LogLevel}
use lim_webserver.Log.Appender.{Message, passes, level_number}
use lim_webserver.Log.Manager.{Appender, Logger, LogManager, append_each, log}

abbrev pub given_to : Message → List ℕ → LogManager → Outcome LogManager
given_to message ps m =
    append_each message ps m.appenders >>= λ heap. ok (record m { appenders = heap })

abbrev logger_of : List ℕ → LogLevel → List ℕ → Logger
logger_of name level ps = record { name = name; level = level; appenders = ps }

log_empty :
    (fuel id : ℕ) (message : Message) (name : List ℕ) (level : LogLevel) (m : LogManager)
    → get_elem? m.loggers id ≡ some (logger_of name level [])
    → passes level message.level ≡ true
    → log (suc fuel) message id m ≡ log fuel message m.root m
unfolding log
log_empty fuel id message name level m h high = rw (h, log) (rw high refl)

-- The appenders that get a message: those of the logger, or those of the root logger where it has none.
abbrev pub receivers : List ℕ → List ℕ → List ℕ
receivers [] rs = rs
receivers (p ∷ ps) rs = p ∷ ps

abbrev pub lets_pass : Bool → Bool → List ℕ → Bool
lets_pass own by_root [] = own && by_root
lets_pass own by_root (p ∷ ps) = own

-- Its level is at least the given one.
abbrev pub is_high : Message → LogLevel → Bool
is_high message level = leb (level_number level) (level_number message.level)

-- When neither the logger nor the root logger has an appender, a message that passes both levels is handed to the root
-- logger again and again: the call does not end.
pub log_endless :
    (fuel id : ℕ) (message : Message) (l r : Logger) (m : LogManager)
    → get_elem? m.loggers id ≡ some l
    → get_elem? m.loggers m.root ≡ some r
    → l.appenders ≡ []
    → r.appenders ≡ []
    → passes l.level message.level ≡ true
    → passes r.level message.level ≡ true
    → log fuel message id m ≡ stuck
unfolding log
log_endless zero id message l r m h hr e er high highr = refl
log_endless (suc fuel) id message l r m h hr e er high highr =
    log_empty fuel id message l.name l.level m (h ∙ ap (λ ps. some (logger_of l.name l.level ps)) e)
      high
    ∙ log_endless fuel m.root message r r m hr hr er er highr highr
