-- ===== src/Log/Async/Shutdown.antt =====
-- How `AsyncAppender` stops (spike/splog/LogAppender.cpp): what `run` still writes once `stop` has submitted
-- the current buffer, and what is lost when `run` ends before that.
use mathlib.Core.Path.{subst}
use lim_webserver.Base.{
  ℕ, suc, ◌≤◌, ◌≡◌, refl, arith, true, false, not, ◌||◌, List, [], ◌∷◌, ◌++◌, ap, sym, ◌∙◌, length,
  flatten, append-nil, if◌then◌else◌, some,
}
use lim_webserver.Base.Outcome.{Outcome, ok, fault, ◌>>=◌, Returns, Returns-if, Returns-bind}
use lim_webserver.Log.Async.{
  DoubleBuffer, new_double_buffer, AsyncAppender, Stage, testing, collecting, writing, ended,
  submit_buffer, with_buffer, is_ended, is_fresh, is_empty, stop_async, stop_submit, run_from,
  run_step, run_loop, test_run,
}
use lim_webserver.Log.Async.Invariant.{IsFront, IsTaken, spare, used, content}
use lim_webserver.Log.Async.Steps.{
  written, length_last, flatten_last, IsOpen, IsCollected, collect-IsCollected, IsWritten,
  write_out-IsWritten,
}
use lim_webserver.Log.Async.Reach.{Runs, IsBack, written_on, IsTaken-content, kept_all}
use lim_webserver.Log.Async.Delivery.{Runs-Inv}

abbrev IsDone : List ℕ → AsyncAppender → Type 0
IsDone bs a = (a.stage ≡ ended) × (written a.appender ≡ bs)

run_loop-step :
    (P Q : AsyncAppender → Type 0) (fuel : ℕ) (s : Stage) (a : AsyncAppender)
    → a.stage ≡ s
    → is_ended s ≡ false
    → Returns (run_from s a) P
    → ((a' : AsyncAppender) → P a' → Returns (run_loop fuel a') Q)
    → Returns (run_loop (suc fuel) a) Q
unfolding run_loop run_step
run_loop-step P Q fuel s a e n h k =
    Returns-if Q (is_ended a.stage) (ok a) (run_from a.stage a >>= run_loop fuel)
      (λ y. absurd (not_ended y))
      (λ _.
        Returns-bind P Q (run_from a.stage a) (run_loop fuel)
          (subst (λ s. Returns (run_from s a) P) (sym e) h) k)
  where
    not_ended : is_ended a.stage ≡ true → ⊥
    not_ended y = cc (ap is_ended e)

-- At its end `run` does nothing more.
from_ended :
    (bs : List ℕ) (fuel : ℕ) (a : AsyncAppender)
    → IsDone bs a
    → Returns (run_loop (suc fuel) a) (IsDone bs)
unfolding run_loop
from_ended bs fuel a d =
    Returns-if (IsDone bs) (is_ended a.stage) (ok a) (run_step a >>= run_loop fuel) (λ _. d)
      (λ n. absurd (is_not n))
  where
    is_not : is_ended a.stage ≡ false → ⊥
    is_not n = cc (ap is_ended d.0)

module _ (bs : List ℕ) (fuel : ℕ) (a : AsyncAppender) (stopped : a.started ≡ false) where
  no_more : a.buffer.buffer_vec ≡ [] → (a.started || not (is_empty a.buffer.buffer_vec)) ≡ false
  no_more clear = simp (stopped, clear)

  -- A stopped appender without full buffers ends at the test.
  from_last_test :
      a.stage ≡ testing
      → a.buffer.buffer_vec ≡ []
      → written a.appender ≡ bs
      → Returns (run_loop (suc (suc fuel)) a) (IsDone bs)
  unfolding run_from test_run
  from_last_test e clear w =
      run_loop-step (IsDone bs) (IsDone bs) (suc fuel) testing a e refl
        (Returns-if (IsDone bs) (a.started || not (is_empty a.buffer.buffer_vec))
          (if is_fresh a.new_buffer then ok (record a { stage = collecting }) else fault)
          (ok (record a { stage = ended })) (λ y. absurd (cc (no_more clear))) (λ _. (refl, w)))
        (from_ended bs fuel)

module _ (bs : List ℕ) (fuel : ℕ) where
  -- From the writing of the last buffers on.
  from_last_writing :
      (a : AsyncAppender)
      → a.started ≡ false
      → a.stage ≡ writing
      → IsTaken a.new_buffer
      → IsOpen a.appender
      → length a.new_buffer.buffer_vec ≤ 25
      → a.buffer.buffer_vec ≡ []
      → written a.appender ++ content a.new_buffer ≡ bs
      → Returns (run_loop (suc (suc (suc fuel))) a) (IsDone bs)
  unfolding run_from
  from_last_writing a stopped e t o few clear w =
      run_loop-step (IsWritten a) (IsDone bs) (suc (suc fuel)) writing a e refl
        (write_out-IsWritten a t o)
        λ a' c.
          from_last_test bs fuel a' (c.same_started ∙ stopped) c.then_testing
            (ap (λ (d : DoubleBuffer). d.buffer_vec) c.same_buffer ∙ clear)
            (c.gained
              ∙ ap (λ vs. written a.appender ++ flatten vs) (kept_all a.new_buffer.buffer_vec few)
              ∙ ap (λ cs. written a.appender ++ cs) (sym (IsTaken-content t))
              ∙ w)

  from_last_collecting :
      (a : AsyncAppender)
      → a.started ≡ false
      → a.stage ≡ collecting
      → IsFront a.buffer
      → a.new_buffer ≡ new_double_buffer
      → IsOpen a.appender
      → length a.buffer.buffer_vec ≤ 24
      → written a.appender ++ content a.buffer ≡ bs
      → Returns (run_loop (suc (suc (suc (suc fuel)))) a) (IsDone bs)
  unfolding run_from
  from_last_collecting a stopped e f n o few w =
      run_loop-step (IsCollected a) (IsDone bs) (suc (suc (suc fuel))) collecting a e refl
        (collect-IsCollected a f n)
        λ a' c.
          from_last_writing a' (c.same_started ∙ stopped) c.then_writing c.taken
            (subst IsOpen (sym c.same_output) o) (omega (arith, c.several)) c.no_full
            (ap (λ x. written x ++ content a'.new_buffer) c.same_output
              ∙ ap (λ cs. written a.appender ++ cs) c.moved
              ∙ w)

  from_testing :
      (a : AsyncAppender)
      → a.started ≡ false
      → a.stage ≡ testing
      → IsFront a.buffer
      → a.new_buffer ≡ new_double_buffer
      → IsOpen a.appender
      → is_empty a.buffer.buffer_vec ≡ false
      → length a.buffer.buffer_vec ≤ 24
      → written a.appender ++ content a.buffer ≡ bs
      → Returns (run_loop (suc (suc (suc (suc (suc fuel))))) a) (IsDone bs)
  unfolding run_from test_run
  from_testing a stopped e f n o full few w =
      let P : AsyncAppender → Type 0 = λ a'. a' ≡ record a { stage = collecting } in
      run_loop-step P (IsDone bs) (suc (suc (suc (suc fuel)))) testing a e refl
        (Returns-if P (a.started || not (is_empty a.buffer.buffer_vec))
          (if is_fresh a.new_buffer then ok (record a { stage = collecting }) else fault)
          (ok (record a { stage = ended }))
          (λ _.
            Returns-if P (is_fresh a.new_buffer) (ok (record a { stage = collecting })) fault
              (λ _. refl) (λ u. absurd (unclear u)))
          (λ none_left. absurd (more_left none_left)))
        λ a' c.
          subst (λ x. Returns (run_loop (suc (suc (suc (suc fuel)))) x) (IsDone bs)) (sym c)
            (from_last_collecting (record a { stage = collecting }) stopped refl f n o few w)
    where
      unclear : is_fresh a.new_buffer ≡ false → ⊥
      unclear u = cc (ap is_fresh n)

      more_left : (a.started || not (is_empty a.buffer.buffer_vec)) ≡ false → ⊥
      more_left h = ground arith

abbrev IsSubmitted : Outcome DoubleBuffer → DoubleBuffer → Type 0
IsSubmitted r f =
    (f' : DoubleBuffer) × (r ≡ ok f')
    × IsFront f'
    × (content f' ≡ content f)
    × (is_empty f'.buffer_vec ≡ false)
    × (length f'.buffer_vec ≡ suc (length f.buffer_vec))

-- The submission of `stop`: the front has one full buffer more.
submit_lem : (f : DoubleBuffer) → IsFront f → IsSubmitted (submit_buffer f) f
unfolding submit_buffer
submit_lem f (spare b []) = (_, refl, used [] b [], simp append-nil, refl, refl)
submit_lem f (spare b (c ∷ bs)) =
    (_, refl, used [] c (bs ++ (b ∷ [])), flatten_last (c ∷ bs) b, refl, length_last (c ∷ bs) b)
submit_lem f (used b c bs) =
    (_, refl, used [] c (bs ++ (b ∷ [])), flatten_last (c ∷ bs) b, refl, length_last (c ∷ bs) b)

only_front :
    (w c bs : List ℕ) (n : DoubleBuffer)
    → n ≡ new_double_buffer
    → w ++ (content n ++ c) ≡ bs
    → w ++ c ≡ bs
only_front w c bs n e h = subst (λ (d : DoubleBuffer). w ++ (content d ++ c) ≡ bs) e h

module _ (bs : List ℕ) (fuel : ℕ) where
  -- From any stage but the end.
  from_any :
      (s : Stage) (a : AsyncAppender)
      → a.started ≡ false
      → a.stage ≡ s
      → is_ended s ≡ false
      → IsFront a.buffer
      → IsBack s a.new_buffer
      → IsOpen a.appender
      → is_empty a.buffer.buffer_vec ≡ false
      → length a.buffer.buffer_vec ≤ 24
      → length a.new_buffer.buffer_vec ≤ 25
      → written a.appender ++ (content a.new_buffer ++ content a.buffer) ≡ bs
      → Returns (run_loop (suc (suc (suc (suc (suc (suc fuel)))))) a) (IsDone bs)
  unfolding run_from
  from_any testing a stopped e ne f n o full few _ w =
      from_testing bs (suc fuel) a stopped e f n o full few
        (only_front (written a.appender) (content a.buffer) bs a.new_buffer n w)
  from_any collecting a stopped e ne f n o full few _ w =
      from_last_collecting bs (suc (suc fuel)) a stopped e f n o few
        (only_front (written a.appender) (content a.buffer) bs a.new_buffer n w)
  from_any ended a stopped e ne f n o full few _ w = absurd (cc ne)
  from_any writing a stopped e ne f t o full few few' w =
      run_loop-step (IsWritten a) (IsDone bs) (suc (suc (suc (suc (suc fuel))))) writing a e refl
        (write_out-IsWritten a t o)
        λ a' c.
          from_testing bs fuel a' (c.same_started ∙ stopped) c.then_testing
            (subst IsFront (sym c.same_buffer) f) c.cleared c.output
            (ap (λ (d : DoubleBuffer). is_empty d.buffer_vec) c.same_buffer ∙ full)
            (subst (λ (d : DoubleBuffer). length d.buffer_vec ≤ 24) (sym c.same_buffer) few)
            (written_on (written a.appender) (content a.new_buffer) (content a.buffer)
              (written a'.appender) [] (content a'.buffer) bs (flatten a.new_buffer.buffer_vec)
              (c.gained
                ∙ ap (λ vs. written a.appender ++ flatten vs)
                    (kept_all a.new_buffer.buffer_vec few'))
              (IsTaken-content t) refl (ap content c.same_buffer) w)

-- When `stop` submits its buffer before `run` has ended, `run` ends, and it has written all that was
-- logged; it needs at most six steps. At most 25 buffers were ever found, and the file of the output
-- takes each text whole in one call of `fwrite`, without which `LogSink::append` may not return.
pub stop-written :
    {ts : List (List ℕ)} {a : AsyncAppender} (fuel : ℕ)
    → Runs 25 ts a
    → a.started ≡ false
    → is_ended a.stage ≡ false
    → length a.buffer.buffer_vec ≤ 23
    → length a.new_buffer.buffer_vec ≤ 25
    → Returns
        (stop_submit a >>= run_loop (suc (suc (suc (suc (suc (suc fuel)))))))
        (λ a'. (a'.stage ≡ ended) × (written a'.appender ≡ flatten ts))
unfolding stop_submit with_buffer
stop-written {ts} {a} fuel r stopped ne few few' =
    let i = Runs-Inv r in
    let (f, e, front, same, full, more) = submit_lem a.buffer i.front in
    rw e (
      from_any (flatten ts) fuel a.stage (record a { buffer = f }) stopped refl ne front i.back
        i.output full (omega (arith, more)) few'
        (ap (λ cs. written a.appender ++ (content a.new_buffer ++ cs)) same
          ∙ i.delivered (omega arith)))

-- When `run` is at its test without a full buffer and looks between the two halves of `stop`, it
-- ends, and the current buffer, with what was logged since the last round, is never written: it stays in the
-- vector, and no later step of `run` changes anything.
pub stop-lost :
    (a : AsyncAppender) (b : List ℕ)
    → a.stage ≡ testing
    → a.buffer.buffer1 ≡ some b
    → a.buffer.buffer_vec ≡ []
    → Returns
        (test_run (stop_async a) >>= stop_submit)
        λ a'. (a'.buffer.buffer_vec ≡ b ∷ []) × (a'.appender ≡ a.appender) × (run_step a' ≡ ok a')
unfolding test_run stop_async stop_submit submit_buffer with_buffer run_step run_from
stop-lost a b e h clear = rw (h, clear) (refl, refl, refl)
