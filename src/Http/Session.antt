-- ===== src/Http/Session.antt =====
-- `HttpSession` (spike/net/http/HttpSession.cpp). The connection and the generated parser that
-- `HttpRequestParser` drives are parameters: `resv n` gives what one call of the socket delivers into
-- a buffer of `n` bytes, nothing where it returns a number that is not positive.
pub mod Loop
pub mod Body
mod Tests
use lim_webserver.Base.{
  ℕ, zero, suc, ◌-◌, ◌^◌, Bool, true, false, ltb, leb, ◌==◌, ◌&&◌, if◌then◌else◌, Option, none,
  some, List, [], ◌∷◌, ◌++◌, length, take, drop, replicate,
}
use lim_webserver.Http.Request.{HttpRequest, init}

pub data Received {ℓ} (A : Type ℓ) : Type ℓ where
  closed : Received A
  received : A → Received A
  stuck : Received A

-- `HttpRequestParser::execute` gives the number of bytes parsed.
pub record Driver (P : Type 0) : Type 0 where
  pub execute : List ℕ → P → ℕ × P
  pub has_error : P → Bool
  pub is_finished : P → Bool
  pub content_length : P → ℕ
  pub request : P → HttpRequest

-- The texts of a connection's state `S`.
abbrev pub Connection : Type 0 → Type 0
Connection S = ℕ → S → Option (List ℕ) × S

module _ {S P : Type 0} (resv : Connection S) (driver : Driver P) where
  -- A round of the loop of `recvRequest` after its call of `resv`, with the next rounds as a function.
  pub recv_round :
      (P → List ℕ → Received (P × List ℕ × S))
      → ℕ
      → S
      → Option (List ℕ)
      → P
      → List ℕ
      → Received (P × List ℕ × S)
  recv_round again size s none p rest = closed
  recv_round again size s (some c) p rest =
      let (nparse, p') = driver.execute (rest ++ c) p in
      let rest' = drop nparse (rest ++ c) in
      if driver.has_error p'
      then closed
      else if length rest' == size
      then closed
      else if driver.is_finished p'
      then received (p', rest', s)
      else again p' rest'

  -- The loop, with the bytes `rest` at the start of the buffer of `size` bytes; `stuck` is out of fuel.
  pub recv_loop : ℕ → ℕ → S → P → List ℕ → Received (P × List ℕ × S)
  recv_loop zero size s p rest = stuck
  recv_loop (suc fuel) size s p rest =
      let (chunk, s') = resv (size - length rest) s in
      recv_round (recv_loop fuel size s') size s' chunk p rest

  pub fill_body : ℕ → List ℕ → Option (List ℕ) → S → Received (List ℕ × S)
  fill_body n rest none s = closed
  fill_body n rest (some c) s = received (rest ++ c ++ replicate (n - length rest - length c) 0, s)

  -- The body of `n` bytes: those at the start of the buffer, then those of one call of the socket.
  pub recv_body : ℕ → List ℕ → S → Received (List ℕ × S)
  recv_body n rest s =
      let (chunk, s') = resv (n - length rest) s in
      if leb n (length rest) then received (take n rest, s) else fill_body n rest chunk s'

  pub given_body : P → Received (List ℕ × S) → Received (HttpRequest × S)
  given_body p closed = closed
  given_body p stuck = stuck
  given_body p (received (body, s)) = received (init (record (driver.request p) { body = body }), s)

  -- `recvRequest` from `getContentLength` on, whose word is read as a signed number.
  pub finish_request : P → List ℕ → S → Received (HttpRequest × S)
  finish_request p rest s =
      let n = driver.content_length p in
      if ltb 0 n && ltb n (2 ^ 63)
      then (given_body p (recv_body n rest s))
      else received (init (driver.request p), s)

  -- `recvRequest` after its loop.
  pub after_loop : Received (P × List ℕ × S) → Received (HttpRequest × S)
  after_loop closed = closed
  after_loop stuck = stuck
  after_loop (received (p, rest, s)) = finish_request p rest s

  pub recv_request : ℕ → ℕ → S → P → Received (HttpRequest × S)
  recv_request fuel size s p = after_loop (recv_loop fuel size s p [])
