-- ===== src/Http/Session/Loop.antt =====
-- The loop of `HttpSession::recvRequest` (spike/net/http/HttpSession.cpp) ends, and stays in its buffer.
use lim_webserver.Base.{
  ℕ, zero, suc, ◌-◌, ◌≤◌, ◌<◌, ◌≡◌, ◌≢◌, refl, arith, Option, none, some, List, [], ◌++◌, length,
  drop, length-append, length-drop,
}
use lim_webserver.Http.Session.{
  Received, closed, received, stuck, Driver, Connection, recv_round, recv_loop, recv_request,
  finish_request, recv_body, fill_body, given_body, after_loop,
}

module _ {S : Type 0} (resv : Connection S) where
  -- `left` bytes come at most: a call that delivers something delivers at least one of them.
  abbrev pub Dwindles : (S → ℕ) → Type 0
  Dwindles left = (n : ℕ) (s : S) (c : List ℕ) → (resv n s).0 ≡ some c → left (resv n s).1 < left s

  -- A call delivers at most what fits.
  abbrev pub Fits : Type 0
  Fits = (n : ℕ) (s : S) (c : List ℕ) → (resv n s).0 ≡ some c → length c ≤ n

module _ {S P : Type 0} (resv : Connection S) (driver : Driver P) where
  -- What holds of every round that parses on holds of the loop.
  recv_round_ends :
      (again : P → List ℕ → Received (P × List ℕ × S)) (size : ℕ) (s : S) (chunk : Option (List ℕ))
      (p : P) (rest : List ℕ)
      → ((c : List ℕ) (p' : P) (rest' : List ℕ) → chunk ≡ some c → again p' rest' ≢ stuck)
      → recv_round resv driver again size s chunk p rest ≢ stuck
  unfolding recv_round
  recv_round_ends again size s none p rest h e = cc
  recv_round_ends again size s (some c) p rest h e =
      let (nparse, p') = driver.execute (rest ++ c) p in
      ground (arith, h c p' (drop nparse (rest ++ c)) refl)

  recv_loop_ends :
      (left : S → ℕ) (fuel size : ℕ) (s : S) (p : P) (rest : List ℕ)
      → Dwindles resv left
      → left s < fuel
      → recv_loop resv driver fuel size s p rest ≢ stuck
  unfolding recv_loop
  recv_loop_ends left zero size s p rest ends h = absurd (omega arith)
  recv_loop_ends left (suc fuel) size s p rest ends h =
      let n = size - length rest in
      recv_round_ends (recv_loop resv driver fuel size (resv n s).1) size (resv n s).1 (resv n s).0
        p rest
        (λ c p' rest' e.
          recv_loop_ends left fuel size (resv n s).1 p' rest' ends (omega (arith, ends n s c e)))

  fill_body_ends :
      (n : ℕ) (rest : List ℕ) (chunk : Option (List ℕ)) (s : S)
      → fill_body resv driver n rest chunk s ≢ stuck
  unfolding fill_body
  fill_body_ends n rest none s e = cc
  fill_body_ends n rest (some c) s e = cc

  recv_body_ends : (n : ℕ) (rest : List ℕ) (s : S) → recv_body resv driver n rest s ≢ stuck
  unfolding recv_body
  recv_body_ends n rest s e =
      let k = n - length rest in ground (arith, fill_body_ends n rest (resv k s).0 (resv k s).1)

  given_body_ends :
      (p : P) (b : Received (List ℕ × S)) → b ≢ stuck → given_body resv driver p b ≢ stuck
  unfolding given_body
  given_body_ends p closed h e = cc
  given_body_ends p stuck h e = h refl
  given_body_ends p (received b) h e = cc

  finish_request_ends :
      (p : P) (rest : List ℕ) (s : S) → finish_request resv driver p rest s ≢ stuck
  unfolding finish_request
  finish_request_ends p rest s e =
      let n = driver.content_length p in
      let h = given_body_ends p (recv_body resv driver n rest s) (recv_body_ends n rest s) in
      ground (arith, h)

  after_loop_ends : (r : Received (P × List ℕ × S)) → r ≢ stuck → after_loop resv driver r ≢ stuck
  unfolding after_loop
  after_loop_ends closed h e = cc
  after_loop_ends stuck h e = h refl
  after_loop_ends (received (p, rest, s)) h e = finish_request_ends p rest s e

  -- When every call of the socket that delivers something leaves less to come, `recvRequest` returns
  -- a request or closes the connection, with one more unit of fuel than bytes to come.
  pub recv_request_ends :
      (left : S → ℕ) (size : ℕ) (s : S) (p : P)
      → Dwindles resv left
      → recv_request resv driver (suc (left s)) size s p ≢ stuck
  unfolding recv_request
  recv_request_ends left size s p ends =
      after_loop_ends (recv_loop resv driver (suc (left s)) size s p [])
        (recv_loop_ends left (suc (left s)) size s p [] ends (omega arith))

  recv_round-fits :
      (again : P → List ℕ → Received (P × List ℕ × S)) (size : ℕ) (s : S) (chunk : Option (List ℕ))
      (p p' : P) (rest rest' : List ℕ) (s' : S)
      → ((c : List ℕ) → chunk ≡ some c → length (rest ++ c) ≤ size)
      → ((q : P) (r : List ℕ)
          → length r < size
          → again q r ≡ received (p', rest', s')
          → length rest' < size)
      → recv_round resv driver again size s chunk p rest ≡ received (p', rest', s')
      → length rest' < size
  unfolding recv_round
  recv_round-fits again size s none p p' rest rest' s' f h e = cc
  recv_round-fits again size s (some c) p p' rest rest' s' f h e =
      let (nparse, q) = driver.execute (rest ++ c) p in
      ground (arith, h q (drop nparse (rest ++ c)), f c refl, length-drop nparse (rest ++ c))

  -- When a call of the socket delivers at most what fits, the bytes that are left in the buffer behind a parsed
  -- request do not fill it.
  pub recv_loop-fits :
      (fuel size : ℕ) (s : S) (p : P) (rest : List ℕ) (p' : P) (rest' : List ℕ) (s' : S)
      → Fits resv
      → length rest < size
      → recv_loop resv driver fuel size s p rest ≡ received (p', rest', s')
      → length rest' < size
  unfolding recv_loop
  recv_loop-fits zero size s p rest p' rest' s' f h e = cc
  recv_loop-fits (suc fuel) size s p rest p' rest' s' f h e =
      let n = size - length rest in
      recv_round-fits (recv_loop resv driver fuel size (resv n s).1) size (resv n s).1 (resv n s).0
        p p' rest rest' s' (λ c ec. omega (arith, f n s c ec, length-append rest c))
        (λ q r hr er. recv_loop-fits fuel size (resv n s).1 q r p' rest' s' f hr er) e
