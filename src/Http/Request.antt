-- ===== src/Http/Request.antt =====
-- `HttpRequest` (spike/net/http/HttpRequest.h and HttpRequest.cpp): its fields, the parsing of
-- parameters and cookies, and its text.
pub mod Params
pub mod Access
use lim_webserver.Base.{
  ℕ, zero, suc, ◌+◌, ◌/◌, ◌%◌, ◌^◌, ◌==◌, Bool, true, false, not, ◌&&◌, ◌||◌, codes,
}
use lim_webserver.Base.{
  Option, none, some, List, [], ◌∷◌, ◌++◌, map, if◌then◌else◌, length, bit_and, bit_or,
}
use lim_webserver.Util.Url.{url_decode}
use lim_webserver.Util.Trim.{trim, blanks}
use lim_webserver.Http.Method.{HttpMethod, get, http_method_to_string, is_prefix, str_eq}
use lim_webserver.Http.Fields.{MapType, folded, find, assign, insert, erase}

pub record HttpRequest : Type 0 where
  pub method : HttpMethod
  pub version : ℕ
  pub close : Bool
  pub websocket : Bool
  pub path : List ℕ
  pub query : List ℕ
  pub fragment : List ℕ
  pub body : List ℕ
  pub headers : MapType
  pub params : MapType
  pub cookies : MapType
  pub parser_param_flag : ℕ

unfoldable pub new_request : ℕ → Bool → HttpRequest
new_request version close = record {
  method = get;
  version = version;
  close = close;
  websocket = false;
  path = codes "/";
  query = [];
  fragment = [];
  body = [];
  headers = [];
  params = [];
  cookies = [];
  parser_param_flag = 0;
}

abbrev pub or_default : List ℕ → Option (List ℕ) → List ℕ
or_default def none = def
or_default def (some val) = val

-- The text up to the first `c`, and the text behind it.
pub split_on : ℕ → List ℕ → Option (List ℕ × List ℕ)
split_on c [] = none
split_on c (x ∷ xs) =
    if x == c
    then some ([], xs)
    else elim (split_on c xs) [ none ↦ none | some p ↦ some (x ∷ p.0, p.1) ]

-- The loop of `PARSE_PARAM` on the text from `pos` on; `none` is out of fuel.
pub parse_loop : ℕ → ℕ → (List ℕ → List ℕ) → List ℕ → MapType → Option MapType
parse_loop zero flag trimmed str m = none
parse_loop (suc fuel) flag trimmed str m = elim (split_on b'=' str) [
  | none ↦ some m
  | some p ↦ elim (split_on flag p.1) [
    | none ↦ some (insert (trimmed p.0) (url_decode p.1 true) m)
    | some q ↦ parse_loop fuel flag trimmed q.1 (insert (trimmed p.0) (url_decode q.0 true) m)
  ]
]

abbrev pub parsed : MapType → Option MapType → MapType
parsed m none = m
parsed m (some m') = m'

-- `PARSE_PARAM(str, m, flag, trim)`
pub parse_param : ℕ → (List ℕ → List ℕ) → List ℕ → MapType → MapType
parse_param flag trimmed str m = parsed m (parse_loop (suc (length str)) flag trimmed str m)

abbrev pub has_flag : ℕ → HttpRequest → Bool
has_flag b r = not (bit_and r.parser_param_flag b == 0)

abbrev pub set_flag : ℕ → HttpRequest → HttpRequest
set_flag b r = record r { parser_param_flag = bit_or r.parser_param_flag b }

abbrev pub same : List ℕ → List ℕ
same s = s

pub init_query_param : HttpRequest → HttpRequest
init_query_param r =
    if has_flag 1 r
    then r
    else set_flag 1 (record r { params = parse_param b'&' same r.query r.params })

unfoldable pub get_header : List ℕ → List ℕ → HttpRequest → List ℕ
get_header key def r = or_default def (find key r.headers)

-- `strcasestr(str, needle) != nullptr`, on folded texts
pub has_infix : List ℕ → List ℕ → Bool
has_infix needle [] = is_prefix needle []
has_infix needle (c ∷ cs) = is_prefix needle (c ∷ cs) || has_infix needle cs

pub init_body_param : HttpRequest → HttpRequest
init_body_param r =
    if has_flag 2 r
    then r
    else if has_infix (folded (codes "application/x-www-form-urlencoded"))
        (folded (get_header (codes "content-type") [] r))
    then set_flag 2 (record r { params = parse_param b'&' same r.body r.params })
    else set_flag 2 r

abbrev pub is_empty : List ℕ → Bool
is_empty [] = true
is_empty (c ∷ cs) = false

pub init_cookies : HttpRequest → HttpRequest
init_cookies r =
    let cookie = get_header (codes "cookie") [] r in
    if has_flag 4 r
    then r
    else if is_empty cookie
    then set_flag 4 r
    else set_flag 4 (record r { cookies = parse_param b';' (λ s. trim s blanks) cookie r.cookies })

pub init_param : HttpRequest → HttpRequest
init_param r = init_cookies (init_body_param (init_query_param r))

-- `init`: the connection header decides whether to close.
unfoldable pub init : HttpRequest → HttpRequest
init r =
    let conn = get_header (codes "connection") [] r in
    if is_empty conn
    then r
    else record r { close = not (str_eq (folded (codes "keep-alive")) (folded conn)) }

pub get_param : List ℕ → List ℕ → HttpRequest → List ℕ × HttpRequest
get_param key def r =
    let r' = init_body_param (init_query_param r) in (or_default def (find key r'.params), r')

pub get_cookie : List ℕ → List ℕ → HttpRequest → List ℕ × HttpRequest
get_cookie key def r = let r' = init_cookies r in (or_default def (find key r'.cookies), r')

pub set_header : List ℕ → List ℕ → HttpRequest → HttpRequest
set_header key val r = record r { headers = assign key val r.headers }

pub set_param : List ℕ → List ℕ → HttpRequest → HttpRequest
set_param key val r = record r { params = assign key val r.params }

pub set_cookie : List ℕ → List ℕ → HttpRequest → HttpRequest
set_cookie key val r = record r { cookies = assign key val r.cookies }

pub del_header : List ℕ → HttpRequest → HttpRequest
del_header key r = record r { headers = erase key r.headers }

pub del_param : List ℕ → HttpRequest → HttpRequest
del_param key r = record r { params = erase key r.params }

pub del_cookie : List ℕ → HttpRequest → HttpRequest
del_cookie key r = record r { cookies = erase key r.cookies }

-- The `has` functions: the value found is what they store through `val`.
pub has_header : List ℕ → HttpRequest → Option (List ℕ)
has_header key r = find key r.headers

pub has_param : List ℕ → HttpRequest → Option (List ℕ) × HttpRequest
has_param key r = let r' = init_body_param (init_query_param r) in (find key r'.params, r')

pub has_cookie : List ℕ → HttpRequest → Option (List ℕ) × HttpRequest
has_cookie key r = let r' = init_cookies r in (find key r'.cookies, r')

-- A number on a stream, in decimal; the number itself is fuel enough.
digits : ℕ → ℕ → List ℕ → List ℕ
digits zero n text = text
digits (suc fuel) n text =
    let longer = digits fuel (n / 10) ((b'0' + n % 10) ∷ text) in
    if n / 10 == 0 then (b'0' + n % 10) ∷ text else longer

pub decimal : ℕ → List ℕ
decimal n = digits (suc n) n []

abbrev pub crlf : List ℕ
crlf = 13 ∷ 10 ∷ []

abbrev pub version_text : ℕ → List ℕ
version_text version =
    codes "HTTP/" ++ decimal (version / 2 ^ 4) ++ codes "." ++ decimal (bit_and version 0x0f)

pub connection_text : Bool → List ℕ
connection_text close =
    codes "connection: " ++ (if close then codes "close" else codes "keep-alive") ++ crlf

-- The loop over the headers.
pub header_lines : Bool → MapType → List ℕ
header_lines websocket [] = []
header_lines websocket ((k, v) ∷ m) =
    let rest = header_lines websocket m in
    if not websocket && str_eq (folded k) (folded (codes "connection"))
    then rest
    else k ++ codes ": " ++ v ++ crlf ++ rest

pub body_text : List ℕ → List ℕ
body_text body =
    if is_empty body
    then crlf
    else codes "content-length: " ++ decimal (length body) ++ crlf ++ crlf ++ body

pub dump : HttpRequest → List ℕ
dump r =
    http_method_to_string r.method
    ++ codes " "
    ++ r.path
    ++ (if is_empty r.query then [] else codes "?")
    ++ r.query
    ++ (if is_empty r.fragment then [] else codes "#")
    ++ r.fragment
    ++ codes " "
    ++ version_text r.version
    ++ crlf
    ++ (if r.websocket then [] else connection_text r.close)
    ++ header_lines r.websocket r.headers
    ++ body_text r.body
