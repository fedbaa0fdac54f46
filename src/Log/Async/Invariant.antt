-- ===== src/Log/Async/Invariant.antt =====
-- What holds of an `AsyncAppender` between any two steps of its threads (spike/splog/LogAppender.cpp),
-- and what each step does to the texts that are not yet written.
use lim_webserver.Base.{
  ℕ, ◌-◌, ◌≤◌, ◌≡◌, refl, arith, true, ltb, Option, none, some, List, [], ◌∷◌, ◌++◌, length,
  flatten, append_assoc, append-nil, ap, ◌∙◌,
}
use lim_webserver.Base.Outcome.{◌>>=◌, Returns, Returns-if, Returns-bind, Returns-weaken}
use lim_webserver.Log.Stream
use lim_webserver.Log.Stream.Bounds.{fits_small}
use lim_webserver.Log.Async.{DoubleBuffer, large_buffer, submit_buffer, put, put_or_submit}

-- The front has a current buffer, and its spare one is empty, or went into the vector.
pub data IsFront : DoubleBuffer → Type 0 where
  spare :
      (b : List ℕ) (bs : List (List ℕ))
      → IsFront (record { buffer1 = some b; buffer2 = some []; buffer_vec = bs })
  used :
      (b b' : List ℕ) (bs : List (List ℕ))
      → IsFront (record { buffer1 = some b; buffer2 = none; buffer_vec = b' ∷ bs })

-- Behind the critical section the back end has what it needs to refill its buffers.
pub data IsTaken : DoubleBuffer → Type 0 where
  one :
      (b : List ℕ) (bs : List (List ℕ))
      → IsTaken (record { buffer1 = none; buffer2 = some []; buffer_vec = b ∷ bs })
  two :
      (b b' : List ℕ) (bs : List (List ℕ))
      → IsTaken (record { buffer1 = none; buffer2 = none; buffer_vec = b ∷ b' ∷ bs })

abbrev pub bytes : Option (List ℕ) → List ℕ
bytes none = []
bytes (some b) = b

-- The bytes that wait in the buffers, in the order of writing.
abbrev pub content : DoubleBuffer → List ℕ
content d = flatten d.buffer_vec ++ bytes d.buffer1

pub flatten-append : (bs cs : List (List ℕ)) → flatten (bs ++ cs) ≡ flatten bs ++ flatten cs
flatten-append [] cs = refl
flatten-append (b ∷ bs) cs = simp (flatten-append bs cs, append_assoc)

flatten_last : (bs : List (List ℕ)) (b : List ℕ) → flatten (bs ++ (b ∷ [])) ++ [] ≡ flatten bs ++ b
flatten_last bs b = simp (flatten-append bs (b ∷ []), append-nil)

pub submit_buffer-IsFront :
    (f : DoubleBuffer)
    → IsFront f
    → Returns
        (submit_buffer f)
        (λ f'. IsFront f' × (content f' ≡ content f) × (bytes f'.buffer1 ≡ []))
unfolding submit_buffer
submit_buffer-IsFront f (spare b []) = (used [] b [], simp append-nil, refl)
submit_buffer-IsFront f (spare b (c ∷ bs)) =
    (used [] c (bs ++ (b ∷ [])), flatten_last (c ∷ bs) b, refl)
submit_buffer-IsFront f (used b c bs) = (used [] c (bs ++ (b ∷ [])), flatten_last (c ∷ bs) b, refl)

append_fits :
    (text b : List ℕ)
    → length text ≤ large_buffer - length b
    → Stream.append large_buffer text b ≡ b ++ text
unfolding Stream.append
append_fits text b h =
    rw (fits_small (large_buffer - length b) (length text) (omega (arith, h))) (ground (arith, h))

put-IsFront :
    (text : List ℕ) (f : DoubleBuffer)
    → IsFront f
    → Returns (put text f) λ f'.
      IsFront f'
      × (length text ≤ large_buffer - length (bytes f.buffer1) → content f' ≡ content f ++ text)
unfolding put
put-IsFront text f (spare b bs) =
    (spare (Stream.append large_buffer text b) bs, λ h. simp (append_fits text b h, append_assoc))
put-IsFront text f (used b b' bs) =
    (used (Stream.append large_buffer text b) b' bs, λ h. simp (append_fits text b h, append_assoc))

module _ (text : List ℕ) where
  -- Behind the front buffers `f` stand now also the bytes of the text, if it fits an empty buffer.
  abbrev pub IsFollowed : DoubleBuffer → DoubleBuffer → Type 0
  IsFollowed f f' = IsFront f' × (length text ≤ large_buffer → content f' ≡ content f ++ text)

  submit_buffer-put :
      (f : DoubleBuffer) → IsFront f → Returns (submit_buffer f >>= put text) (IsFollowed f)
  submit_buffer-put f h =
      Returns-bind (λ f1. IsFront f1 × (content f1 ≡ content f) × (bytes f1.buffer1 ≡ []))
        (IsFollowed f) (submit_buffer f) (put text) (submit_buffer-IsFront f h)
        λ f1 (h1, same, clear).
          Returns-weaken
            (λ f'.
              IsFront f'
              × (length text ≤ large_buffer - length (bytes f1.buffer1)
                  → content f' ≡ content f1 ++ text))
            (IsFollowed f) (put text f1) (put-IsFront text f1 h1)
            λ f2 (h2, more). (h2, λ small. more (rw clear small) ∙ ap (λ bs. bs ++ text) same)

  fitting :
      (f : DoubleBuffer)
      → IsFront f
      → ltb (length text) (large_buffer - length (bytes f.buffer1)) ≡ true
      → Returns (put text f) (IsFollowed f)
  fitting f h e =
      Returns-weaken
        (λ f'.
          IsFront f'
          × (length text ≤ large_buffer - length (bytes f.buffer1)
              → content f' ≡ content f ++ text))
        (IsFollowed f) (put text f) (put-IsFront text f h)
        λ f2 (h2, more). (h2, λ _. more (ground arith))

  pub put_or_submit-IsFront :
      (f : DoubleBuffer) → IsFront f → Returns (put_or_submit text f) (IsFollowed f)
  unfolding put_or_submit
  put_or_submit-IsFront f (spare b bs) =
      Returns-if (IsFollowed f) (ltb (length text) (large_buffer - length b)) (put text f)
        (submit_buffer f >>= put text) (fitting f (spare b bs))
        (λ _. submit_buffer-put f (spare b bs))
  put_or_submit-IsFront f (used b b' bs) =
      Returns-if (IsFollowed f) (ltb (length text) (large_buffer - length b)) (put text f)
        (submit_buffer f >>= put text) (fitting f (used b b' bs))
        (λ _. submit_buffer-put f (used b b' bs))
