-- ===== src/Log/Async/Steps.antt =====
-- What each step of `run` does to the buffers and to what is written (spike/splog/LogAppender.cpp).
use lim_webserver.Base.{
  ℕ, suc, ◌≡◌, refl, arith, true, Bool-cases, inl, inr, ltb, Option, none, some, List, [], ◌∷◌,
  ◌++◌, ap, sym, ◌∙◌, length, length-append, take, flatten, append_assoc, append-nil,
}
use lim_webserver.Base.Outcome.{ok, Returns, Returns-bind, ◌>>=◌}
use mathlib.Core.Path.{subst}
use lim_webserver.Log.Appender.{OutputAppender, append_text, with_sink}
use lim_webserver.Log.Appender.Sink.{Sink, TakesAll, append_sink-all}
use lim_webserver.Log.Async.{
  DoubleBuffer, new_double_buffer, AsyncAppender, testing, writing, collect, without_excess,
  append_all, reset, write_out, with_new_buffer,
}
use lim_webserver.Log.Async.Invariant.{
  IsFront, spare, used, IsTaken, one, two, content, flatten-append,
}

abbrev pub sink_bytes : Option Sink → List ℕ
sink_bytes none = []
sink_bytes (some s) = s.bytes

-- What the file of the output holds.
abbrev pub written : OutputAppender → List ℕ
written o = sink_bytes o.sink

-- The output is started and has a sink, whose file takes each text whole in one call of `fwrite`.
pub record IsOpen (o : OutputAppender) : Type 0 where
  pub is_started : o.started ≡ true
  pub sunk : Sink
  pub has_sink : o.sink ≡ some sunk
  pub takes_all : TakesAll sunk

open_lem : (o : OutputAppender) (h : IsOpen o) → record o { started = true; sink = some h.sunk } ≡ o
open_lem o h = λ i. record o { started = sym h.is_started i; sink = sym h.has_sink i }

append_all-given :
    (bs : List (List ℕ)) (o : OutputAppender) (sunk : Sink)
    → TakesAll sunk
    → append_all bs (record o { started = true; sink = some sunk })
      ≡ ok (record o {
        started = true;
        sink = some (record sunk { bytes = sunk.bytes ++ flatten bs });
      })
unfolding append_all append_text with_sink
append_all-given [] o sunk h =
    ap (λ (c : List ℕ). ok (record o { started = true; sink = some (record sunk { bytes = c }) }))
      (sym (append-nil sunk.bytes))
append_all-given (b ∷ bs) o sunk h = rw (append_sink-all b sunk h) (
    append_all-given bs o (record sunk { bytes = sunk.bytes ++ b }) h
    ∙ ap (λ (c : List ℕ). ok (record o { started = true; sink = some (record sunk { bytes = c }) }))
        (append_assoc sunk.bytes b (flatten bs)))

-- The writing of the buffers gives their bytes, one buffer after the other, to the output.
pub append_all-written :
    (bs : List (List ℕ)) (o : OutputAppender)
    → IsOpen o
    → Returns (append_all bs o) (λ o'. IsOpen o' × (written o' ≡ written o ++ flatten bs))
append_all-written bs o h =
    let s : Sink = record h.sunk { bytes = h.sunk.bytes ++ flatten bs } in
    let e : append_all bs o ≡ ok (record o { started = true; sink = some s }) =
      ap (append_all bs) (sym (open_lem o h)) ∙ append_all-given bs o h.sunk h.takes_all in
    rw e (
      record { is_started = refl; sunk = s; has_sink = refl; takes_all = h.takes_all },
      ap (λ s. sink_bytes s ++ flatten bs) (sym h.has_sink),
    )

take-without_excess : (bs : List (List ℕ)) → take 2 (without_excess bs) ≡ take 2 bs
unfolding without_excess
take-without_excess [] = refl
take-without_excess (b ∷ []) = refl
take-without_excess (b ∷ b' ∷ bs) = elim (Bool-cases (ltb 25 (length (b ∷ b' ∷ bs)))) [
  | inl e ↦ rw e refl
  | inr e ↦ rw e refl
]

-- `reset` finds what it needs, and leaves two empty buffers.
reset-fresh :
    (d : DoubleBuffer)
    → IsTaken d
    → reset (record d { buffer_vec = without_excess d.buffer_vec }) ≡ ok new_double_buffer
unfolding reset
reset-fresh d (one b bs) = rw (take-without_excess (b ∷ bs)) refl
reset-fresh d (two b b' bs) = rw (take-without_excess (b ∷ b' ∷ bs)) refl

-- The critical section of `run`: all buffers of the front go to the back end, in order, and empty ones
-- take their place.
pub record IsCollected (a a' : AsyncAppender) : Type 0 where
  pub front : IsFront a'.buffer
  pub taken : IsTaken a'.new_buffer
  pub emptied : content a'.buffer ≡ []
  pub no_full : a'.buffer.buffer_vec ≡ []
  pub moved : content a'.new_buffer ≡ content a.buffer
  pub several : length a'.new_buffer.buffer_vec ≡ suc (length a.buffer.buffer_vec)
  pub same_output : a'.appender ≡ a.appender
  pub same_started : a'.started ≡ a.started
  pub then_writing : a'.stage ≡ writing

pub length_last : (bs : List (List ℕ)) (b : List ℕ) → length (bs ++ (b ∷ [])) ≡ suc (length bs)
length_last bs b = omega (arith, length-append {0} bs (b ∷ []))

pub flatten_last :
    (bs : List (List ℕ)) (b : List ℕ) → flatten (bs ++ (b ∷ [])) ++ [] ≡ flatten bs ++ b
flatten_last bs b = simp (flatten-append bs (b ∷ []), append-nil)

collect-fresh :
    (a : AsyncAppender) (f : DoubleBuffer)
    → IsFront f
    → Returns
        (collect (record a { buffer = f; new_buffer = new_double_buffer }))
        (IsCollected (record a { buffer = f; new_buffer = new_double_buffer }))
unfolding collect
collect-fresh a f (spare b []) = record {
  front = spare [] [];
  taken = one b [];
  emptied = refl;
  no_full = refl;
  moved = simp append-nil;
  several = refl;
  same_output = refl;
  same_started = refl;
  then_writing = refl;
}
collect-fresh a f (spare b (c ∷ bs)) = record {
  front = spare [] [];
  taken = one c (bs ++ (b ∷ []));
  emptied = refl;
  no_full = refl;
  moved = flatten_last (c ∷ bs) b;
  several = length_last (c ∷ bs) b;
  same_output = refl;
  same_started = refl;
  then_writing = refl;
}
collect-fresh a f (used b c []) = record {
  front = spare [] [];
  taken = two c b [];
  emptied = refl;
  no_full = refl;
  moved = flatten_last (c ∷ []) b;
  several = refl;
  same_output = refl;
  same_started = refl;
  then_writing = refl;
}
collect-fresh a f (used b c (c' ∷ bs)) = record {
  front = spare [] [];
  taken = two c c' (bs ++ (b ∷ []));
  emptied = refl;
  no_full = refl;
  moved = flatten_last (c ∷ c' ∷ bs) b;
  several = length_last (c ∷ c' ∷ bs) b;
  same_output = refl;
  same_started = refl;
  then_writing = refl;
}

pub collect-IsCollected :
    (a : AsyncAppender)
    → IsFront a.buffer
    → a.new_buffer ≡ new_double_buffer
    → Returns (collect a) (IsCollected a)
collect-IsCollected a h e =
    subst
      (λ (d : DoubleBuffer).
        Returns (collect (record a { new_buffer = d })) (IsCollected (record a { new_buffer = d })))
      (sym e) (collect-fresh a a.buffer h)

-- The rest of a round of `run`: what is kept of the buffers is written in their order.
pub record IsWritten (a a' : AsyncAppender) : Type 0 where
  pub output : IsOpen a'.appender
  pub gained :
      written a'.appender ≡ written a.appender ++ flatten (without_excess a.new_buffer.buffer_vec)
  pub cleared : a'.new_buffer ≡ new_double_buffer
  pub same_buffer : a'.buffer ≡ a.buffer
  pub same_started : a'.started ≡ a.started
  pub then_testing : a'.stage ≡ testing

module _ (a : AsyncAppender) (o : IsOpen a.appender) where
  -- The part of `write_out` behind its assertion.
  write_and_reset :
      (d : DoubleBuffer)
      → IsTaken d
      → Returns
          (do
            o' ← append_all (without_excess d.buffer_vec) a.appender
            d' ← reset (record d { buffer_vec = without_excess d.buffer_vec })
            with_new_buffer (record a { new_buffer = d }) o' d')
          (IsWritten (record a { new_buffer = d }))
  unfolding with_new_buffer
  write_and_reset d h =
      Returns-bind
        (λ o'.
          IsOpen o' × (written o' ≡ written a.appender ++ flatten (without_excess d.buffer_vec)))
        (IsWritten (record a { new_buffer = d }))
        (append_all (without_excess d.buffer_vec) a.appender) _
        (append_all-written (without_excess d.buffer_vec) a.appender o)
        λ o' (open', gained). rw (reset-fresh d h) (record {
          output = open';
          gained = gained;
          cleared = refl;
          same_buffer = refl;
          same_started = refl;
          then_testing = refl;
        })

  write_taken :
      (d : DoubleBuffer)
      → IsTaken d
      → Returns (write_out (record a { new_buffer = d })) (IsWritten (record a { new_buffer = d }))
  unfolding write_out
  write_taken d (one b bs) = write_and_reset d (one b bs)
  write_taken d (two b b' bs) = write_and_reset d (two b b' bs)

pub write_out-IsWritten :
    (a : AsyncAppender)
    → IsTaken a.new_buffer
    → IsOpen a.appender
    → Returns (write_out a) (IsWritten a)
write_out-IsWritten a h o = write_taken a o a.new_buffer h
