-- ===== src/Log/Async/Reach.antt =====
-- The states of an `AsyncAppender` (spike/splog/LogAppender.cpp) that its threads reach when they take turns in any order,
-- and what holds in each of them.
use lim_webserver.Base.{
  ℕ, ◌≤◌, ◌≡◌, refl, true, false, List, [], ◌∷◌, ◌++◌, sym, length, flatten, append_assoc,
  append-nil, ge→ltb,
}
use lim_webserver.Base.Outcome.{ok}
use lim_webserver.Log.Appender.{OutputAppender}
use mathlib.Core.Path.{subst}
use lim_webserver.Log.Async.{
  large_buffer, DoubleBuffer, new_double_buffer, AsyncAppender, Stage, writing, append_async,
  stop_async, stop_submit, start_async, run_step, without_excess,
}
use lim_webserver.Log.Async.Invariant.{IsFront, spare, IsTaken, one, two, content}
use lim_webserver.Log.Async.Steps.{written, IsOpen}

-- The states that are reached, with the texts that were logged, in the order in which the lock was given. The
-- back end never finds more than `most` buffers.
pub data Runs (most : ℕ) : List (List ℕ) → AsyncAppender → Type 0 where
  begun :
      {ts : List (List ℕ)} {a : AsyncAppender} (o : OutputAppender)
      → IsOpen (start_async o).appender
      → written (start_async o).appender ≡ []
      → a ≡ start_async o
      → ts ≡ []
      → Runs most ts a
  logged :
      {ts ts' : List (List ℕ)} {a a' : AsyncAppender} (text : List ℕ)
      → Runs most ts a
      → a.started ≡ true
      → length text ≤ large_buffer
      → append_async text a ≡ ok a'
      → ts' ≡ ts ++ (text ∷ [])
      → Runs most ts' a'
  stopped :
      {ts : List (List ℕ)} {a a' : AsyncAppender}
      → Runs most ts a
      → a' ≡ stop_async a
      → Runs most ts a'
  submitted :
      {ts : List (List ℕ)} {a a' : AsyncAppender}
      → Runs most ts a
      → a.started ≡ false
      → stop_submit a ≡ ok a'
      → Runs most ts a'
  ran :
      {ts : List (List ℕ)} {a a' : AsyncAppender}
      → Runs most ts a
      → length a.new_buffer.buffer_vec ≤ most
      → run_step a ≡ ok a'
      → Runs most ts a'

abbrev pub IsBack : Stage → DoubleBuffer → Type 0
IsBack writing d = IsTaken d
IsBack _ d = d ≡ new_double_buffer

pub record Inv (most : ℕ) (ts : List (List ℕ)) (a : AsyncAppender) : Type 0 where
  pub front : IsFront a.buffer
  pub back : IsBack a.stage a.new_buffer
  pub output : IsOpen a.appender
  pub delivered :
      most ≤ 25 → written a.appender ++ (content a.new_buffer ++ content a.buffer) ≡ flatten ts

pub start_async-Inv :
    (most : ℕ) (o : OutputAppender)
    → IsOpen (start_async o).appender
    → written (start_async o).appender ≡ []
    → Inv most [] (start_async o)
unfolding start_async
start_async-Inv most o h e = record {
  front = spare [] [];
  back = refl;
  output = h;
  delivered = λ _. simp (append-nil, e);
}

pub behind :
    (w n c text ts : List ℕ) → w ++ (n ++ c) ≡ ts → w ++ (n ++ (c ++ text)) ≡ ts ++ (text ++ [])
behind w n c text ts h = simp (sym h, append_assoc, append-nil)

pub moved_on :
    (w n c w' n' c' ts : List ℕ)
    → w' ≡ w
    → n ≡ []
    → n' ≡ c
    → c' ≡ []
    → w ++ (n ++ c) ≡ ts
    → w' ++ (n' ++ c') ≡ ts
moved_on w n c w' n' c' ts e1 e2 e3 e4 h =
    rw (e1, e3, e4, append-nil) (subst (λ (m : List ℕ). w ++ (m ++ c) ≡ ts) e2 h)

pub written_on :
    (w n c w' n' c' ts bs : List ℕ)
    → w' ≡ w ++ bs
    → n ≡ bs
    → n' ≡ []
    → c' ≡ c
    → w ++ (n ++ c) ≡ ts
    → w' ++ (n' ++ c') ≡ ts
written_on w n c w' n' c' ts bs e1 e2 e3 e4 h =
    rw (e1, e3, e4, append_assoc) (subst (λ (m : List ℕ). w ++ (m ++ c) ≡ ts) e2 h)

pub IsTaken-content : {d : DoubleBuffer} → IsTaken d → content d ≡ flatten d.buffer_vec
IsTaken-content (one b bs) = append-nil _
IsTaken-content (two b b' bs) = append-nil _

-- Up to 25 buffers are all kept.
pub kept_all : (bs : List (List ℕ)) → length bs ≤ 25 → without_excess bs ≡ bs
unfolding without_excess
kept_all bs h = rw (ge→ltb 25 (length bs) h) refl
