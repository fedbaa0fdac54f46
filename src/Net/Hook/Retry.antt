-- ===== src/Net/Hook/Retry.antt =====
-- What `do_io` (spike/coroutine/Hook.cpp) hides from a task.
use lim_webserver.Base.{
  ℕ, zero, suc, ◌≤◌, ◌≡◌, refl, arith, Bool, true, false, not, ◌&&◌, List, [], ◌∷◌, ◌++◌, replicate,
}
use lim_webserver.Net.Hook.{
  Call, bytes, interrupted, unavailable, failed, returned, call_again, io_round, io_loop, do_io,
}

-- A result that ends `do_io`.
abbrev pub is_final : Call → Bool
is_final (bytes n) = true
is_final (failed e) = true
is_final interrupted = false
is_final unavailable = false

-- How often the task has to wait for these calls.
abbrev pub waits : List Call → ℕ
waits [] = 0
waits (unavailable ∷ calls) = suc (waits calls)
waits (c ∷ calls) = waits calls

abbrev pub are_retried : List Call → Bool
are_retried [] = true
are_retried (c ∷ calls) = not (is_final c) && are_retried calls

retried :
    (pre : List Call) (c : Call) (rest : List Call) (n : ℕ)
    → are_retried pre ≡ true
    → is_final c ≡ true
    → waits pre ≤ n
    → io_loop (replicate n false) (pre ++ (c ∷ rest)) ≡ returned c
unfolding io_loop io_round call_again
retried [] (bytes x) rest zero r f h = refl
retried [] (bytes x) rest (suc n) r f h = refl
retried [] (failed x) rest zero r f h = refl
retried [] (failed x) rest (suc n) r f h = refl
retried [] interrupted rest n r f h = cc
retried [] unavailable rest n r f h = cc
retried (bytes x ∷ pre) c rest n r f h = cc
retried (failed x ∷ pre) c rest n r f h = cc
retried (interrupted ∷ pre) c rest zero r f h = retried pre c rest zero r f h
retried (interrupted ∷ pre) c rest (suc n) r f h = retried pre c rest (suc n) r f h
retried (unavailable ∷ pre) c rest zero r f h = absurd (omega arith)
retried (unavailable ∷ pre) c rest (suc n) r f h = retried pre c rest n r f (omega arith)

-- On a blocking socket a task gets the first result that is neither `EINTR` nor `EAGAIN`, when it is
-- woken, before the time is over, at least as often as `EAGAIN` came before it.
pub do_io-retried :
    (pre : List Call) (c : Call) (rest : List Call) (n : ℕ)
    → are_retried pre ≡ true
    → is_final c ≡ true
    → waits pre ≤ n
    → do_io true true (replicate n false) (pre ++ (c ∷ rest)) ≡ returned c
unfolding do_io
do_io-retried pre c rest n r f h = retried pre c rest n r f h
