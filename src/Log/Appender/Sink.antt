-- ===== src/Log/Appender/Sink.antt =====
-- `LogSink::append` (spike/splog/LogSink.cpp), which writes a text in several calls of `fwrite`. The
-- file with `fwrite_unlocked` is a parameter.
use lim_webserver.Base.{
  ℕ, zero, suc, ◌-◌, ◌<◌, ◌≡◌, ◌≢◌, refl, arith, ◌==◌, if◌then◌else◌, List, [], ◌∷◌, ◌++◌, ap,
  length, drop, take,
}
use lim_webserver.Base.Outcome.{Outcome, ok, stuck, ◌>>=◌}

module _ {F : Type 0} (fwrite : List ℕ → F → ℕ × F) where
  -- The loop, on fuel: `n` is what the first call wrote and is not changed, since the code adds to `x`.
  pub retry_loop : ℕ → ℕ → List ℕ → F → Outcome F
  retry_loop zero n text file = stuck
  retry_loop (suc fuel) n text file =
      let (x, file') = fwrite (drop n text) file in
      let rest = retry_loop fuel n text file' in
      if length text - n == 0 then ok file else if x == 0 then ok file' else rest

  pub sink_append : ℕ → List ℕ → F → Outcome F
  unfolding retry_loop
  sink_append fuel text file = let (n, file') = fwrite text file in retry_loop fuel n text file'

  -- A text that the first call writes whole is written in that call.
  pub sink_append_whole :
      (fuel : ℕ) (text : List ℕ) (file : F)
      → (fwrite text file).0 ≡ length text
      → sink_append (suc fuel) text file ≡ ok (fwrite text file).1
  unfolding sink_append retry_loop
  sink_append_whole fuel text file h = ground arith

  retry_loop-stuck :
      (fuel n : ℕ) (text : List ℕ) (file : F)
      → n < length text
      → ((file' : F) → (fwrite (drop n text) file').0 ≢ 0)
      → retry_loop fuel n text file ≡ stuck
  unfolding retry_loop
  retry_loop-stuck zero n text file h progress = refl
  retry_loop-stuck (suc fuel) n text file h progress =
      ground (
        arith,
        progress file,
        retry_loop-stuck fuel n text (fwrite (drop n text) file).1 h progress,
      )

  -- When the first call writes a part of the text only, and the file always takes something of the
  -- rest, `append` does not end: it writes the same rest again and again, however long it runs.
  pub sink_append_short :
      (fuel : ℕ) (text : List ℕ) (file : F)
      → (fwrite text file).0 < length text
      → ((file' : F) → (fwrite (drop (fwrite text file).0 text) file').0 ≢ 0)
      → sink_append fuel text file ≡ stuck
  unfolding sink_append
  sink_append_short fuel text file h progress =
      retry_loop-stuck fuel (fwrite text file).0 text (fwrite text file).1 h progress

-- A file that is open for writing: what it holds, how many bytes of a text one call of `fwrite` takes then, and
-- for how many rounds of the loop an `append` to it is followed.
pub record Sink : Type 0 where
  pub bytes : List ℕ
  pub takes : List ℕ → List ℕ → ℕ
  pub rounds : ℕ

abbrev pub write_to : (List ℕ → List ℕ → ℕ) → List ℕ → List ℕ → ℕ × List ℕ
write_to takes text bytes = (takes bytes text, bytes ++ take (takes bytes text) text)

-- `LogSink::append` to such a file; `stuck` where it does not end within the rounds.
unfoldable pub append_sink : List ℕ → Sink → Outcome Sink
append_sink text s = sink_append (write_to s.takes) (suc s.rounds) text s.bytes >>= λ bytes.
    ok (record s { bytes = bytes })

-- Each call of `fwrite` takes the whole text.
abbrev pub TakesAll : Sink → Type 0
TakesAll s = (bytes text : List ℕ) → s.takes bytes text ≡ length text

pub append_sink-all :
    (text : List ℕ) (s : Sink)
    → TakesAll s
    → append_sink text s ≡ ok (record s { bytes = s.bytes ++ text })
unfolding append_sink
append_sink-all text s h =
    rw (sink_append_whole (write_to s.takes) s.rounds text s.bytes (h s.bytes text), h s.bytes text)
      (ap (λ t. ok (record s { bytes = s.bytes ++ t })) (take_all text))
  where
    take_all : (t : List ℕ) → take (length t) t ≡ t
    take_all [] = refl
    take_all (x ∷ t) = ap (λ r. x ∷ r) (take_all t)
