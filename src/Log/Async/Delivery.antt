-- ===== src/Log/Async/Delivery.antt =====
-- The texts that are logged on their way through an `AsyncAppender` (spike/splog/LogAppender.cpp), when the threads
-- that log, the one that stops the appender and the one that writes take turns in any order.
use lim_webserver.Base.{
  ℕ, ◌+◌, ◌≤◌, ◌≡◌, arith, true, false, not, ◌||◌, List, [], ◌∷◌, ◌++◌, ap, sym, ◌∙◌, length,
  flatten, if◌then◌else◌,
}
use lim_webserver.Base.Outcome.{
  Outcome, ok, fault, ◌>>=◌, Returns, Returns-ok, Returns-if, Returns-bind, Returns-weaken,
}
use mathlib.Core.Path.{subst}
use lim_webserver.Log.Async.{
  large_buffer, new_double_buffer, AsyncAppender, Stage, testing, collecting, writing, ended,
  append_async, put_or_submit, with_buffer, submit_buffer, stop_async, stop_submit, run_step,
  run_from, test_run, is_empty, is_fresh, collect, write_out,
}
use lim_webserver.Log.Async.Invariant.{
  IsFront, IsTaken, bytes, content, flatten-append, IsFollowed, put_or_submit-IsFront,
  submit_buffer-IsFront,
}
use lim_webserver.Log.Async.Steps.{
  written, IsOpen, IsCollected, collect-IsCollected, IsWritten, write_out-IsWritten,
}
use lim_webserver.Log.Async.Reach.{
  Runs, begun, logged, stopped, submitted, ran, IsBack, Inv, start_async-Inv, behind, moved_on,
  written_on, IsTaken-content, kept_all,
}

module _ (most : ℕ) (ts : List (List ℕ)) (a : AsyncAppender) (i : Inv most ts a) where
  append_async-Inv :
      (text : List ℕ)
      → a.started ≡ true
      → length text ≤ large_buffer
      → Returns (append_async text a) (Inv most (ts ++ (text ∷ [])))
  unfolding append_async with_buffer
  append_async-Inv text h small =
      Returns-if (Inv most (ts ++ (text ∷ []))) (not a.started) (ok a)
        (put_or_submit text a.buffer >>= with_buffer a) (λ e. absurd (ground arith))
        λ _.
          Returns-bind (IsFollowed text a.buffer) (Inv most (ts ++ (text ∷ [])))
            (put_or_submit text a.buffer) (with_buffer a)
            (put_or_submit-IsFront text a.buffer i.front)
            λ f (front', more). record {
              front = front';
              back = i.back;
              output = i.output;
              delivered = λ calm. rw (more small) (
                  behind (written a.appender) (content a.new_buffer) (content a.buffer) text
                    (flatten ts) (i.delivered calm)
                  ∙ sym (flatten-append ts (text ∷ [])));
            }

  stop_submit-Inv : Returns (stop_submit a) (Inv most ts)
  unfolding stop_submit with_buffer
  stop_submit-Inv =
      Returns-bind (λ f. IsFront f × (content f ≡ content a.buffer) × (bytes f.buffer1 ≡ []))
        (Inv most ts) (submit_buffer a.buffer) (with_buffer a)
        (submit_buffer-IsFront a.buffer i.front)
        λ f (front', same, clear). record {
          front = front';
          back = i.back;
          output = i.output;
          delivered = λ calm. rw same (i.delivered calm);
        }

  stop_async-Inv : Inv most ts (stop_async a)
  unfolding stop_async
  stop_async-Inv = record {
    front = i.front;
    back = i.back;
    output = i.output;
    delivered = i.delivered;
  }

  test_run-Inv : a.new_buffer ≡ new_double_buffer → Returns (test_run a) (Inv most ts)
  unfolding test_run
  test_run-Inv e =
      Returns-if (Inv most ts) (a.started || not (is_empty a.buffer.buffer_vec))
        (if is_fresh a.new_buffer then ok (record a { stage = collecting }) else fault)
        (ok (record a { stage = ended }))
        (λ _.
          Returns-if (Inv most ts) (is_fresh a.new_buffer) (ok (record a { stage = collecting }))
            fault
            (λ _. record { front = i.front; back = e; output = i.output; delivered = i.delivered })
            (λ unclear. absurd (fresh unclear)))
        (λ _. record { front = i.front; back = e; output = i.output; delivered = i.delivered })
    where
      fresh : is_fresh a.new_buffer ≡ false → ⊥
      fresh unclear = cc (ap is_fresh e)

  collect-Inv : a.new_buffer ≡ new_double_buffer → Returns (collect a) (Inv most ts)
  collect-Inv e =
      Returns-weaken (IsCollected a) (Inv most ts) (collect a) (collect-IsCollected a i.front e)
        λ a' c. record {
          front = c.front;
          back = subst (λ s. IsBack s a'.new_buffer) (sym c.then_writing) c.taken;
          output = subst IsOpen (sym c.same_output) i.output;
          delivered = λ calm.
              moved_on (written a.appender) (content a.new_buffer) (content a.buffer)
                (written a'.appender) (content a'.new_buffer) (content a'.buffer) (flatten ts)
                (ap written c.same_output) (ap content e) c.moved c.emptied (i.delivered calm);
        }

  write_out-Inv :
      IsTaken a.new_buffer
      → length a.new_buffer.buffer_vec ≤ most
      → Returns (write_out a) (Inv most ts)
  write_out-Inv t few =
      Returns-weaken (IsWritten a) (Inv most ts) (write_out a) (write_out-IsWritten a t i.output)
        λ a' c. record {
          front = subst IsFront (sym c.same_buffer) i.front;
          back = subst (λ s. IsBack s a'.new_buffer) (sym c.then_testing) c.cleared;
          output = c.output;
          delivered = λ calm.
              written_on (written a.appender) (content a.new_buffer) (content a.buffer)
                (written a'.appender) (content a'.new_buffer) (content a'.buffer) (flatten ts)
                (flatten a.new_buffer.buffer_vec)
                (c.gained
                  ∙ ap (λ bs. written a.appender ++ flatten bs)
                      (kept_all a.new_buffer.buffer_vec (omega arith)))
                (IsTaken-content t) (ap content c.cleared) (ap content c.same_buffer)
                (i.delivered calm);
        }

  run_from-Inv :
      (s : Stage)
      → IsBack s a.new_buffer
      → length a.new_buffer.buffer_vec ≤ most
      → Returns (run_from s a) (Inv most ts)
  unfolding run_from
  run_from-Inv testing b few = test_run-Inv b
  run_from-Inv collecting b few = collect-Inv b
  run_from-Inv writing b few = write_out-Inv b few
  run_from-Inv ended b few = i

  run_step-Inv : length a.new_buffer.buffer_vec ≤ most → Returns (run_step a) (Inv most ts)
  unfolding run_step
  run_step-Inv few = run_from-Inv a.stage i.back few

pub Runs-Inv : {most : ℕ} {ts : List (List ℕ)} {a : AsyncAppender} → Runs most ts a → Inv most ts a
Runs-Inv {most} {ts} {a} (begun o h e ea et) = rw (ea, et) (start_async-Inv most o h e)
Runs-Inv {most} {a = a'} (logged {ts = ts} {a = a} text r h small e et) = rw et (
    Returns-ok (Inv most (ts ++ (text ∷ []))) (append_async text a) a'
      (append_async-Inv most ts a (Runs-Inv r) text h small) e)
Runs-Inv {most} {ts} (stopped {a} r e) = rw e (stop_async-Inv most ts a (Runs-Inv r))
Runs-Inv {most} {ts} {a = a'} (submitted {a} r h e) =
    Returns-ok (Inv most ts) (stop_submit a) a' (stop_submit-Inv most ts a (Runs-Inv r)) e
Runs-Inv {most} {ts} {a = a'} (ran {a} r few e) =
    Returns-ok (Inv most ts) (run_step a) a' (run_step-Inv most ts a (Runs-Inv r) few) e

abbrev pub Succeeds : Outcome AsyncAppender → Type 0
Succeeds r = Returns r (λ _. Unit {0})

-- However the threads that log, the one that stops the appender and the one that writes take turns, none
-- of their steps follows a null pointer, takes the last of an empty vector or fails an assertion of
-- `run`: a text can be logged, the buffers can be submitted and `run` can go on. The output was
-- started with a formatter and a sink, whose file takes each text whole in one call of `fwrite`.
pub run-Succeeds :
    {most : ℕ} {ts : List (List ℕ)} {a : AsyncAppender} (text : List ℕ)
    → Runs most ts a
    → Succeeds (append_async text a) × Succeeds (stop_submit a) × Succeeds (run_step a)
unfolding append_async with_buffer
run-Succeeds {most} {ts} {a} text r =
    let i = Runs-Inv r in
    let many : ℕ = length a.new_buffer.buffer_vec + 26 in
    let j : Inv many ts a = record {
      front = i.front;
      back = i.back;
      output = i.output;
      delivered = λ few. absurd (omega arith);
    } in
    (
      Returns-if (λ _. Unit {0}) (not a.started) (ok a)
          (put_or_submit text a.buffer >>= with_buffer a) (λ _. tt)
          λ _.
            Returns-bind (IsFollowed text a.buffer) (λ _. Unit {0}) (put_or_submit text a.buffer)
              (with_buffer a) (put_or_submit-IsFront text a.buffer i.front) (λ _ _. tt),
      Returns-weaken (Inv many ts) (λ _. Unit {0}) (stop_submit a) (stop_submit-Inv many ts a j)
          (λ _ _. tt),
      Returns-weaken (Inv many ts) (λ _. Unit {0}) (run_step a)
          (run_step-Inv many ts a j (omega arith)) (λ _ _. tt),
    )

-- While `run` never finds more than 25 buffers, what it has written, followed by what it is about to write and
-- by what is in the front buffers, is the texts in the order in which they were logged: none is
-- lost, doubled or overtaken. Each text fits an empty buffer, and the file of the
-- output takes each text whole in one call of `fwrite`.
pub written-logged :
    {ts : List (List ℕ)} {a : AsyncAppender}
    → Runs 25 ts a
    → written a.appender ++ (content a.new_buffer ++ content a.buffer) ≡ flatten ts
written-logged r = (Runs-Inv r).delivered (omega arith)
