-- ===== src/Log/RoundTrip.antt =====
-- The texts of the log levels (spike/splog/LogLevel.h) there and back.
use lim_webserver.Base.{◌≡◌, refl}
use lim_webserver.Log.{
  LogLevel, unknown, trace, debug, info, warn, error, fatal, off, to_text, from_text,
}

-- The text of every level is read back as that level, `UNKNOWN` included.
pub from_text-to_text : (l : LogLevel) → from_text (to_text l) ≡ l
unfolding from_text to_text
from_text-to_text unknown = refl
from_text-to_text trace = refl
from_text-to_text debug = refl
from_text-to_text info = refl
from_text-to_text warn = refl
from_text-to_text error = refl
from_text-to_text fatal = refl
from_text-to_text off = refl
