-- ===== src/Log/Async.antt =====
-- `AsyncAppender` (spike/splog/LogAppender.h and LogAppender.cpp): the threads that log put texts into
-- the front buffers, and `run` writes what it takes from them. Each critical section, and each part
-- of `run` outside of one, is a function; `stage` says where `run` stands.
pub mod Invariant
pub mod Steps
pub mod Reach
pub mod Delivery
pub mod Shutdown
mod Tests
use lim_webserver.Base.{
  ℕ, zero, suc, ◌-◌, ◌*◌, ltb, if◌then◌else◌, Bool, true, false, not, ◌&&◌, ◌||◌, Option, none,
  some, List, [], ◌∷◌, ◌++◌, length, take,
}
use lim_webserver.Base.Outcome.{Outcome, ok, fault, stuck, ◌>>=◌}
use lim_webserver.Log.Stream
use lim_webserver.Log.Appender.{OutputAppender, append_text, start_appender}

-- `kLargeBuffer`
abbrev pub large_buffer : ℕ
large_buffer = 4000 * 1000

pub record DoubleBuffer : Type 0 where
  pub buffer1 : Option (List ℕ)
  pub buffer2 : Option (List ℕ)
  pub buffer_vec : List (List ℕ)

abbrev pub new_double_buffer : DoubleBuffer
new_double_buffer = record { buffer1 = some []; buffer2 = some []; buffer_vec = [] }

-- Where `run` stands: before its loop's test, between the test and the taking of the buffers, behind the
-- critical section, or at its end.
pub data Stage : Type 0 where
  testing collecting writing ended : Stage

pub record AsyncAppender : Type 0 where
  pub started : Bool
  pub buffer : DoubleBuffer
  pub new_buffer : DoubleBuffer
  pub appender : OutputAppender
  pub stage : Stage

-- `submitBuffer`. A null `buffer1` would be put into the vector and followed later.
unfoldable pub submit_buffer : DoubleBuffer → Outcome DoubleBuffer
submit_buffer d = elim d.buffer1 [
  | none ↦ fault
  | some b ↦ ok record {
    buffer1 = elim d.buffer2 [ none ↦ some [] | some b' ↦ some b' ];
    buffer2 = none;
    buffer_vec = d.buffer_vec ++ (b ∷ []);
  }
]

-- `m_buffer.buffer1->append`
unfoldable pub put : List ℕ → DoubleBuffer → Outcome DoubleBuffer
put text d = elim d.buffer1 [
  | none ↦ fault
  | some b ↦ ok (record d { buffer1 = some (Stream.append large_buffer text b) })
]

-- `AsyncAppender::append` under its lock.
unfoldable pub put_or_submit : List ℕ → DoubleBuffer → Outcome DoubleBuffer
unfolding submit_buffer put
put_or_submit text d = elim d.buffer1 [
  | none ↦ fault
  | some b ↦
      if ltb (length text) (large_buffer - length b)
      then put text d
      else submit_buffer d >>= put text
]

unfoldable pub with_buffer : AsyncAppender → DoubleBuffer → Outcome AsyncAppender
with_buffer a d = ok (record a { buffer = d })

-- `AsyncAppender::append`
unfoldable pub append_async : List ℕ → AsyncAppender → Outcome AsyncAppender
unfolding put_or_submit with_buffer
append_async text a = if not a.started then ok a else put_or_submit text a.buffer >>= with_buffer a

-- `AsyncAppender::stop` up to its critical section, and that section.
unfoldable pub stop_async : AsyncAppender → AsyncAppender
stop_async a = record a { started = false }

unfoldable pub stop_submit : AsyncAppender → Outcome AsyncAppender
unfolding submit_buffer with_buffer
stop_submit a = submit_buffer a.buffer >>= with_buffer a

abbrev pub is_empty : List (List ℕ) → Bool
is_empty [] = true
is_empty (b ∷ bs) = false

-- `assert(buffer && buffer->length() == 0)`
abbrev pub is_clear : Option (List ℕ) → Bool
is_clear none = false
is_clear (some []) = true
is_clear (some (x ∷ b)) = false

abbrev pub is_fresh : DoubleBuffer → Bool
is_fresh d = is_clear d.buffer1 && is_clear d.buffer2 && is_empty d.buffer_vec

-- The test of the loop of `run`, and the three assertions behind it. The last `flush` writes nothing new.
unfoldable pub test_run : AsyncAppender → Outcome AsyncAppender
test_run a =
    if a.started || not (is_empty a.buffer.buffer_vec)
    then if is_fresh a.new_buffer then ok (record a { stage = collecting }) else fault
    else ok (record a { stage = ended })

-- The critical section of `run` behind the wait.
unfoldable pub collect : AsyncAppender → Outcome AsyncAppender
collect a = elim a.buffer.buffer1 [
  | none ↦ fault
  | some b ↦ ok record a {
    buffer = record {
      buffer1 = a.new_buffer.buffer1;
      buffer2 = elim a.buffer.buffer2 [ none ↦ a.new_buffer.buffer2 | some b2 ↦ some b2 ];
      buffer_vec = a.new_buffer.buffer_vec;
    };
    new_buffer = record {
      buffer1 = none;
      buffer2 = elim a.buffer.buffer2 [ none ↦ none | some b2 ↦ a.new_buffer.buffer2 ];
      buffer_vec = a.buffer.buffer_vec ++ (b ∷ []);
    };
    stage = writing;
  }
]

-- The buffers that are kept when there are too many.
unfoldable pub without_excess : List (List ℕ) → List (List ℕ)
without_excess bs = if ltb 25 (length bs) then take 2 bs else bs

-- The loop that writes the buffers.
pub append_all : List (List ℕ) → OutputAppender → Outcome OutputAppender
append_all [] o = ok o
append_all (b ∷ bs) o = append_text b o >>= append_all bs

-- The refilling of the two buffers in `DoubleBuffer::reset`. `back` of an empty vector is undefined; a
-- buffer that is taken from the vector is reset.
unfoldable pub refill : Option (List ℕ) → Option (List ℕ) → List (List ℕ) → Outcome DoubleBuffer
refill (some b1) (some b2) bs =
    ok (record { buffer1 = some b1; buffer2 = some b2; buffer_vec = [] })
refill none (some b2) (b ∷ bs) =
    ok (record { buffer1 = some []; buffer2 = some b2; buffer_vec = [] })
refill (some b1) none (b ∷ bs) =
    ok (record { buffer1 = some b1; buffer2 = some []; buffer_vec = [] })
refill none none (b ∷ b' ∷ bs) =
    ok (record { buffer1 = some []; buffer2 = some []; buffer_vec = [] })
refill b1 b2 bs = fault

-- `DoubleBuffer::reset`, which first cuts the vector to at most two buffers.
unfoldable pub reset : DoubleBuffer → Outcome DoubleBuffer
unfolding refill
reset d = refill d.buffer1 d.buffer2 (take 2 d.buffer_vec)

unfoldable pub with_new_buffer :
    AsyncAppender → OutputAppender → DoubleBuffer → Outcome AsyncAppender
with_new_buffer a o d = ok (record a { appender = o; new_buffer = d; stage = testing })

-- `run` from the critical section to the next test: the assertion, the writing and the reset.
unfoldable pub write_out : AsyncAppender → Outcome AsyncAppender
unfolding without_excess with_new_buffer
write_out a = if is_empty a.new_buffer.buffer_vec then fault else do
  o ← append_all (without_excess a.new_buffer.buffer_vec) a.appender
  d ← reset (record a.new_buffer { buffer_vec = without_excess a.new_buffer.buffer_vec })
  with_new_buffer a o d

-- `AsyncAppender::start` of an appender that is bound.
unfoldable pub start_async : OutputAppender → AsyncAppender
start_async o = record {
  started = true;
  buffer = new_double_buffer;
  new_buffer = new_double_buffer;
  appender = if o.started then o else start_appender o;
  stage = testing;
}

-- The part of `run` that begins at a stage, and the next step.
unfoldable pub run_from : Stage → AsyncAppender → Outcome AsyncAppender
run_from testing a = test_run a
run_from collecting a = collect a
run_from writing a = write_out a
run_from ended a = ok a

unfoldable pub run_step : AsyncAppender → Outcome AsyncAppender
unfolding run_from
run_step a = run_from a.stage a

abbrev pub is_ended : Stage → Bool
is_ended ended = true
is_ended _ = false

-- `run` from a stage to its end, on fuel, when no other thread comes between.
unfoldable pub run_loop : ℕ → AsyncAppender → Outcome AsyncAppender
unfolding run_step
run_loop zero a = stuck
run_loop (suc fuel) a =
    let rest = run_step a >>= run_loop fuel in if is_ended a.stage then ok a else rest
