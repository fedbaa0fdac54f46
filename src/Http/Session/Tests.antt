-- ===== src/Http/Session/Tests.antt =====
-- Runs of `HttpSession::recvRequest` and of the callbacks of the parsers (spike/net/http).
use lim_webserver.Base.{
  ℕ, zero, suc, ◌≡◌, sym, ◌||◌, ◌≢◌, ◌≤◌, refl, arith, Bool, true, false, ◌==◌, ◌&&◌, Option, none,
  some, List, [], ◌∷◌, ◌++◌, length, replicate, codes,
}
use lim_webserver.Http.Request.{HttpRequest, new_request, get_header}
use lim_webserver.Http.Session.{
  received, stuck, Driver, Connection, recv_loop, recv_round, recv_request, finish_request,
}
use lim_webserver.Http.Session.Loop.{Dwindles, Fits, recv_request_ends, recv_loop-fits}
use lim_webserver.Http.Session.Body.{rest_of_body, whole_body}
use lim_webserver.Http.Parser.{new_request_parser, version_of}
use lim_webserver.Http.Parser.Events.{
  Event, method, version, http_field, on_events, are_good, last_value, on_events-error,
  on_events-header,
}
use lim_webserver.Http.Parser.Version.{version_of_lem}

-- A connection with some bytes to come, of which a call delivers one.
abbrev wire : Connection (List ℕ)
wire n [] = (none, [])
wire zero (b ∷ bs) = (none, b ∷ bs)
wire (suc n) (b ∷ bs) = (some (b ∷ []), bs)

wire-Dwindles : Dwindles wire length
wire-Dwindles n [] c e = cc
wire-Dwindles zero (b ∷ bs) c e = cc
wire-Dwindles (suc n) (b ∷ bs) c e = omega arith

wire-Fits : Fits wire
wire-Fits n [] c e = cc
wire-Fits zero (b ∷ bs) c e = cc
wire-Fits (suc n) (b ∷ bs) c e =
    let size : length c ≡ 1 = sym (length-some (b ∷ []) c e) in omega arith
  where
    length-some : (c d : List ℕ) → ◌≡◌ {A = Option (List ℕ)} (some c) (some d) → length c ≡ length d
    length-some c d e = cc

abbrev ends_line : List ℕ → Bool
ends_line [] = false
ends_line (b ∷ bs) = b == 10 || ends_line bs

-- The parser is finished by a line feed, and a body of three bytes follows.
abbrev line_driver : Driver Bool
line_driver = record {
  execute = λ bs done. (length bs, ends_line bs);
  has_error = λ done. false;
  is_finished = λ done. done;
  content_length = λ done. 3;
  request = λ done. new_request 0x11 true;
}

recv_request_ends_example :
    recv_request wire line_driver 6 8 (71 ∷ 10 ∷ 1 ∷ 2 ∷ 3 ∷ []) false ≢ stuck
recv_request_ends_example =
    recv_request_ends wire line_driver length 8 (71 ∷ 10 ∷ 1 ∷ 2 ∷ 3 ∷ []) false wire-Dwindles

recv_loop_run :
    recv_loop wire line_driver 3 8 (71 ∷ 10 ∷ 1 ∷ []) false [] ≡ received (true, [], 1 ∷ [])
unfolding recv_loop recv_round
recv_loop_run = refl

recv_loop-fits_example : ◌≤◌ 1 8
recv_loop-fits_example =
    recv_loop-fits wire line_driver 3 8 (71 ∷ 10 ∷ 1 ∷ []) false [] true [] (1 ∷ []) wire-Fits
      (omega arith) recv_loop_run

whole_body_example :
    (r : HttpRequest) × (finish_request wire line_driver true (1 ∷ 2 ∷ 3 ∷ 4 ∷ []) []
      ≡ received (r, []))
    × (r.body ≡ 1 ∷ 2 ∷ 3 ∷ [])
whole_body_example =
    whole_body wire line_driver true (1 ∷ 2 ∷ 3 ∷ 4 ∷ []) [] (omega arith) (omega arith)
      (omega arith)

-- One byte of the body is in the buffer and one comes: the third is a zero.
rest_of_body_example :
    (r : HttpRequest) × (k : ℕ) × (finish_request wire line_driver true (1 ∷ []) (2 ∷ 3 ∷ [])
      ≡ received (r, 3 ∷ []))
    × (r.body ≡ 1 ∷ 2 ∷ replicate k 0)
    × (k ≡ 1)
rest_of_body_example =
    rest_of_body wire line_driver true (1 ∷ []) (2 ∷ []) (2 ∷ 3 ∷ []) (3 ∷ []) (omega arith)
      (omega arith) refl

abbrev events : List Event
events =
    method (codes "GET / ") 3
    ∷ version (codes "HTTP/1.1") 8
    ∷ http_field (codes "Host: a") 4 (codes "a") 1
    ∷ http_field (codes "HOST: bc") 4 (codes "bc") 2
    ∷ []

on_events-error_example :
    ((on_events events new_request_parser).error == 0)
    ≡ (new_request_parser.error == 0 && are_good events)
on_events-error_example = on_events-error events new_request_parser

on_events-header_example :
    get_header (codes "host") [] (on_events events new_request_parser).request
    ≡ last_value (codes "host") (get_header (codes "host") [] new_request_parser.request) events
on_events-header_example = on_events-header (codes "host") [] events new_request_parser

version_of_lem_example : version_of (codes "HTTP/1.0" ++ codes " x") 8 ≡ some 0x10
version_of_lem_example = version_of_lem (codes "HTTP/1.0") (codes " x") refl
