-- ===== src/Http/Response.antt =====
-- `HttpResponse` (spike/net/http/HttpResponse.h and HttpResponse.cpp). The text of a time
-- (`Time2Str`, `strftime`) is a parameter.
use lim_webserver.Base.{ℕ, ltb, Bool, false, List, [], ◌∷◌, ◌++◌, if◌then◌else◌, codes}
use lim_webserver.Http.Status.{http_status_to_string}
use lim_webserver.Http.Fields.{MapType, find, assign, erase}
use lim_webserver.Http.Request.{HttpRequest, or_default, is_empty, decimal, crlf, version_text}
use lim_webserver.Http.Request.{connection_text, header_lines, body_text}

pub record HttpResponse : Type 0 where
  pub status : ℕ
  pub version : ℕ
  pub close : Bool
  pub websocket : Bool
  pub body : List ℕ
  pub reason : List ℕ
  pub headers : MapType
  pub cookies : List (List ℕ)

pub new_response : ℕ → Bool → HttpResponse
new_response version close = record {
  status = 200;
  version = version;
  close = close;
  websocket = false;
  body = [];
  reason = [];
  headers = [];
  cookies = [];
}

-- `HttpRequest::createResponse`
pub create_response : HttpRequest → HttpResponse
create_response r = new_response r.version r.close

pub response_header : List ℕ → List ℕ → HttpResponse → List ℕ
response_header key def r = or_default def (find key r.headers)

pub set_response_header : List ℕ → List ℕ → HttpResponse → HttpResponse
set_response_header key val r = record r { headers = assign key val r.headers }

pub del_response_header : List ℕ → HttpResponse → HttpResponse
del_response_header key r = record r { headers = erase key r.headers }

pub set_redirect : List ℕ → HttpResponse → HttpResponse
set_redirect uri r = set_response_header (codes "Location") uri (record r { status = 302 })

module _ (time_to_str : ℕ → List ℕ) where
  pub cookie_text : List ℕ → List ℕ → ℕ → List ℕ → List ℕ → Bool → List ℕ
  cookie_text key val expired path domain secure =
      key
      ++ codes "="
      ++ val
      ++ (if ltb 0 expired then codes ";expires=" ++ time_to_str expired ++ codes " GMT" else [])
      ++ (if is_empty domain then [] else codes ";domain=" ++ domain)
      ++ (if is_empty path then [] else codes ";path=" ++ path)
      ++ (if secure then codes ";secure" else [])

  pub add_cookie : List ℕ → List ℕ → ℕ → List ℕ → List ℕ → Bool → HttpResponse → HttpResponse
  add_cookie key val expired path domain secure r = record r {
    cookies = r.cookies ++ (cookie_text key val expired path domain secure ∷ []);
  }

-- The loop over the cookies.
pub cookie_lines : List (List ℕ) → List ℕ
cookie_lines [] = []
cookie_lines (c ∷ cs) = codes "Set-Cookie: " ++ c ++ crlf ++ cookie_lines cs

pub dump_response : HttpResponse → List ℕ
dump_response r =
    version_text r.version
    ++ codes " "
    ++ decimal r.status
    ++ codes " "
    ++ (if is_empty r.reason then http_status_to_string r.status else r.reason)
    ++ crlf
    ++ header_lines r.websocket r.headers
    ++ cookie_lines r.cookies
    ++ (if r.websocket then [] else connection_text r.close)
    ++ body_text r.body
