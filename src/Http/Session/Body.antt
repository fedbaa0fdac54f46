-- ===== src/Http/Session/Body.antt =====
-- The body that `HttpSession::recvRequest` (spike/net/http/HttpSession.cpp) gives a request.
use lim_webserver.Base.{
  ℕ, ◌-◌, ◌^◌, ◌≤◌, ◌<◌, ◌≡◌, refl, ap, ◌∙◌, arith, Option, some, List, ◌++◌, length, take,
  replicate, lt→ltb, le→leb, gt→leb,
}
use lim_webserver.Http.Request.{HttpRequest, init}
use lim_webserver.Http.Session.{
  received, Driver, Connection, finish_request, recv_body, fill_body, given_body,
}

body-init : (r : HttpRequest) → (init r).body ≡ r.body
unfolding init
body-init r = ground arith

module _ {S P : Type 0} (resv : Connection S) (driver : Driver P) where
  announced :
      (p : P) (rest : List ℕ) (s : S)
      → 0 < driver.content_length p
      → driver.content_length p < 2 ^ 63
      → finish_request resv driver p rest s
        ≡ given_body resv driver p (recv_body resv driver (driver.content_length p) rest s)
  unfolding finish_request
  announced p rest s a b = rw (lt→ltb _ _ a, lt→ltb _ _ b) refl

  buffered :
      (n : ℕ) (rest : List ℕ) (s : S)
      → n ≤ length rest
      → recv_body resv driver n rest s ≡ received (take n rest, s)
  unfolding recv_body
  buffered n rest s h = rw (le→leb n (length rest) h) refl

  called :
      (n : ℕ) (rest : List ℕ) (s : S) (r : Option (List ℕ) × S)
      → length rest < n
      → resv (n - length rest) s ≡ r
      → recv_body resv driver n rest s ≡ fill_body resv driver n rest r.0 r.1
  unfolding recv_body
  called n rest s r h e =
      rw (gt→leb n (length rest) h)
        (ap (λ (r : Option (List ℕ) × S). fill_body resv driver n rest r.0 r.1) e)

  -- A request with a content length of which the buffer holds the whole body: the body is that many bytes of
  -- the buffer, and no call of the socket is made.
  pub whole_body :
      (p : P) (rest : List ℕ) (s : S)
      → 0 < driver.content_length p
      → driver.content_length p < 2 ^ 63
      → driver.content_length p ≤ length rest
      → (r : HttpRequest) × (finish_request resv driver p rest s ≡ received (r, s))
        × (r.body ≡ take (driver.content_length p) rest)
  unfolding given_body
  whole_body p rest s a b h =
      let r = record (driver.request p) { body = take (driver.content_length p) rest } in
      (
        init r,
        announced p rest s a b
            ∙ ap (given_body resv driver p) (buffered (driver.content_length p) rest s h),
        body-init r,
      )

  -- A request of whose body some bytes are missing: the socket is called once, and what it delivers
  -- comes behind the bytes of the buffer; the rest of the announced length is filled with zeros, as
  -- many as the call delivered too few.
  pub rest_of_body :
      (p : P) (rest c : List ℕ) (s s' : S)
      → driver.content_length p < 2 ^ 63
      → length rest < driver.content_length p
      → resv (driver.content_length p - length rest) s ≡ (some c, s')
      → (r : HttpRequest) × (k : ℕ) × (finish_request resv driver p rest s ≡ received (r, s'))
        × (r.body ≡ rest ++ c ++ replicate k 0)
        × (k ≡ driver.content_length p - length rest - length c)
  unfolding fill_body given_body
  rest_of_body p rest c s s' b h e =
      let n = driver.content_length p in
      let k = n - length rest - length c in
      let r = record (driver.request p) { body = rest ++ c ++ replicate k 0 } in
      (
        init r,
        k,
        announced p rest s (omega arith) b
            ∙ ap (given_body resv driver p) (called n rest s (some c, s') h e),
        body-init r,
        refl,
      )
