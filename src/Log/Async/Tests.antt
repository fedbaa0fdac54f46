-- ===== src/Log/Async/Tests.antt =====
-- Runs of an `AsyncAppender` (spike/splog/LogAppender.cpp).
use lim_webserver.Base.{◌≡◌, refl, arith, true, false, some, [], ◌∷◌, ◌++◌, codes, flatten, length}
use lim_webserver.Base.Outcome.{ok, ◌>>=◌, Returns}
use lim_webserver.Log.Stream
use lim_webserver.Log.{trace}
use lim_webserver.Log.Appender.{OutputAppender}
use lim_webserver.Log.Async.{
  AsyncAppender, new_double_buffer, testing, ended, append_async, stop_async, stop_submit, run_step,
  run_loop, start_async, test_run,
}
use lim_webserver.Log.Async.Invariant.{content}
use lim_webserver.Log.Async.Steps.{written}
use lim_webserver.Log.Async.Reach.{Runs, begun, logged, stopped}
use lim_webserver.Log.Async.Delivery.{Succeeds, written-logged, run-Succeeds}
use lim_webserver.Log.Async.Shutdown.{stop-written, stop-lost}

abbrev output : OutputAppender
output = record {
  name = codes "out";
  started = true;
  level = trace;
  formatter = some (λ m. []);
  sink = some (record { bytes = []; takes = λ bytes text. length text; rounds = 0 });
}

abbrev one_text : AsyncAppender
one_text = record {
  started = true;
  buffer = record { buffer1 = some (codes "ab"); buffer2 = some []; buffer_vec = [] };
  new_buffer = new_double_buffer;
  appender = output;
  stage = testing;
}

abbrev no_more : AsyncAppender
no_more = record one_text { started = false }

logged_once : Runs 25 (codes "ab" ∷ []) one_text
unfolding append_async start_async Stream.append
logged_once =
    logged (codes "ab")
      (begun output
        (record {
          is_started = refl;
          sunk = record { bytes = []; takes = λ bytes text. length text; rounds = 0 };
          has_sink = refl;
          takes_all = λ bytes text. refl;
        })
        refl refl refl)
      refl (omega arith) refl refl

no_more-Runs : Runs 25 (codes "ab" ∷ []) no_more
unfolding stop_async
no_more-Runs = stopped logged_once refl

written-logged_example :
    written one_text.appender ++ (content one_text.new_buffer ++ content one_text.buffer)
    ≡ flatten (codes "ab" ∷ [])
written-logged_example = written-logged logged_once

run-Succeeds_example :
    Succeeds (append_async (codes "c") one_text)
    × Succeeds (stop_submit one_text)
    × Succeeds (run_step one_text)
run-Succeeds_example = run-Succeeds (codes "c") logged_once

stop-written_example :
    Returns
      (stop_submit no_more >>= run_loop 6)
      λ a. (a.stage ≡ ended) × (written a.appender ≡ flatten (codes "ab" ∷ []))
stop-written_example = stop-written 0 no_more-Runs refl refl (omega arith) (omega arith)

stop-lost_example : Returns (test_run (stop_async one_text) >>= stop_submit) λ a.
    (a.buffer.buffer_vec ≡ codes "ab" ∷ []) × (a.appender ≡ one_text.appender) × (run_step a ≡ ok a)
stop-lost_example = stop-lost one_text (codes "ab") refl refl refl
