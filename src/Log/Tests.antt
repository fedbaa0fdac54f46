-- ===== src/Log/Tests.antt =====
-- Runs of `LogLevelHandler`, `LogFormatter` and `LogStream` (spike/splog).
use lim_webserver.Base.{◌≡◌}
use lim_webserver.Log.{warn, to_text, from_text}
use lim_webserver.Log.RoundTrip.{from_text-to_text}
use lim_webserver.Base.{◌≤◌, arith, [], ◌∷◌, length, codes}
use lim_webserver.Base.Words.{pos, negsuc}
use lim_webserver.Log.Stream.{text, integer, put_all}
use lim_webserver.Log.Stream.Bounds.{output_text, put_all-Bounded}
use lim_webserver.Log.Pattern.{LogMessage, init_formatter, format, find_item, item_output}
use lim_webserver.Log.Pattern.Expand.{expand, item_text, placeholder_text, format-init_formatter}

from_text-to_text_example : from_text (to_text warn) ≡ warn
from_text-to_text_example = from_text-to_text warn

abbrev message : LogMessage
message = record {
  level = codes "WARN";
  file = codes "a.cpp";
  line = pos 7;
  time = codes "12:00";
  thread_id = pos 1;
  thread_name = codes "main";
  content = codes "hi";
  name = codes "root";
}

format-init_formatter_example :
    format (init_formatter (codes "[%p] %m%%%z%")) message [] ≡ codes "[WARN] hi%<error format>"
unfolding expand placeholder_text find_item item_text item_output output_text
format-init_formatter_example = format-init_formatter (codes "[%p] %m%%%z%") message (omega arith)

put_all-Bounded_example :
    length (put_all 60 (text (codes "n = ") ∷ integer (negsuc 41) ∷ []) []) ≤ 60
put_all-Bounded_example =
    put_all-Bounded 60 (text (codes "n = ") ∷ integer (negsuc 41) ∷ []) []
      (omega arith, (omega arith, tt)) (omega arith)
