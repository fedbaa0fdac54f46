-- ===== src/Http/Parser.antt =====
-- The callbacks of the parsers (spike/net/http/HttpParser.cpp): what each piece that the generated
-- parser finds does to the message. A piece is the buffer from its first byte on and its length.
-- `boost::lexical_cast` and `atoi` are parameters.
pub mod Events
pub mod Version
use lim_webserver.Base.{
  ℕ, zero, suc, Bool, true, false, ◌==◌, ◌&&◌, ◌||◌, if◌then◌else◌, not, Option, none, some, List,
  [], ◌∷◌, take, codes,
}
use lim_webserver.Http.Method.{HttpMethod, invalid_method, chars_to_http_method, number}
use lim_webserver.Http.Fields.{MapType, find}
use lim_webserver.Http.Request.{HttpRequest, new_request, set_header}
use lim_webserver.Http.Response.{HttpResponse, new_response, set_response_header}

-- `strncmp(s, t, n) == 0`, where a text ends with a NUL.
pub strncmp_eq : ℕ → List ℕ → List ℕ → Bool
strncmp_eq zero s t = true
strncmp_eq (suc n) [] [] = true
strncmp_eq (suc n) [] (d ∷ ds) = d == 0
strncmp_eq (suc n) (c ∷ cs) [] = c == 0
strncmp_eq (suc n) (c ∷ cs) (d ∷ ds) = c == d && (c == 0 || strncmp_eq n cs ds)

-- The tests of `on_request_version` and `on_response_version`.
pub version_of : List ℕ → ℕ → Option ℕ
version_of at length =
    if strncmp_eq length at (codes "HTTP/1.1")
    then some 0x11
    else if strncmp_eq length at (codes "HTTP/1.0")
    then some 0x10
    else none

-- `HttpRequestParser` without the state of the generated parser.
pub record RequestParser : Type 0 where
  pub request : HttpRequest
  pub error : ℕ

-- The message of a new `HttpRequestParser`.
pub new_request_parser : RequestParser
new_request_parser = record { request = new_request 0x11 true; error = 0 }

pub set_error : ℕ → RequestParser → RequestParser
set_error v p = record p { error = v }

abbrev pub is_invalid : HttpMethod → Bool
is_invalid m = number m == number invalid_method

pub on_request_method : List ℕ → ℕ → RequestParser → RequestParser
on_request_method at length p =
    let m = chars_to_http_method at in
    if is_invalid m
    then set_error 1000 p
    else record p { request = record (p.request) { method = m } }

pub on_request_uri : List ℕ → ℕ → RequestParser → RequestParser
on_request_uri at length p = p

pub on_request_fragment : List ℕ → ℕ → RequestParser → RequestParser
on_request_fragment at length p = record p {
  request = record (p.request) { fragment = take length at };
}

pub on_request_path : List ℕ → ℕ → RequestParser → RequestParser
on_request_path at length p = record p { request = record (p.request) { path = take length at } }

pub on_request_query : List ℕ → ℕ → RequestParser → RequestParser
on_request_query at length p = record p { request = record (p.request) { query = take length at } }

pub with_version : Option ℕ → RequestParser → RequestParser
with_version none p = set_error 1001 p
with_version (some v) p = record p { request = record (p.request) { version = v } }

pub on_request_version : List ℕ → ℕ → RequestParser → RequestParser
on_request_version at length p = with_version (version_of at length) p

pub on_request_header_done : List ℕ → ℕ → RequestParser → RequestParser
on_request_header_done at length p = p

pub on_request_http_field : List ℕ → ℕ → List ℕ → ℕ → RequestParser → RequestParser
on_request_http_field field flen value vlen p =
    if flen == 0
    then p
    else record p { request = set_header (take flen field) (take vlen value) p.request }

-- `hasError`, where the last argument is what `http_parser_has_error` returns.
pub has_error : RequestParser → Bool → Bool
has_error p failed = not (p.error == 0) || failed

module _ (lexical_cast : List ℕ → Option ℕ) where
  pub cast_or : ℕ → Option (List ℕ) → ℕ
  cast_or def none = def
  cast_or def (some text) = elim (lexical_cast text) [ none ↦ def | some n ↦ n ]

  -- `getAs` of a number
  pub get_as : MapType → List ℕ → ℕ → ℕ
  get_as m key def = cast_or def (find key m)

  pub get_content_length : RequestParser → ℕ
  get_content_length p = get_as p.request.headers (codes "content-length") 0

pub record ResponseParser : Type 0 where
  pub response : HttpResponse
  pub error : ℕ

pub new_response_parser : ResponseParser
new_response_parser = record { response = new_response 0x11 true; error = 0 }

pub on_response_reason : List ℕ → ℕ → ResponseParser → ResponseParser
on_response_reason at length p = record p {
  response = record (p.response) { reason = take length at };
}

module _ (atoi : List ℕ → ℕ) where
  pub on_response_status : List ℕ → ℕ → ResponseParser → ResponseParser
  on_response_status at length p = record p { response = record (p.response) { status = atoi at } }

pub with_response_version : Option ℕ → ResponseParser → ResponseParser
with_response_version none p = record p { error = 1001 }
with_response_version (some v) p = record p { response = record (p.response) { version = v } }

pub on_response_version : List ℕ → ℕ → ResponseParser → ResponseParser
on_response_version at length p = with_response_version (version_of at length) p

pub on_response_http_field : List ℕ → ℕ → List ℕ → ℕ → ResponseParser → ResponseParser
on_response_http_field field flen value vlen p =
    if flen == 0
    then p
    else record p { response = set_response_header (take flen field) (take vlen value) p.response }
