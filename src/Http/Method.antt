-- ===== src/Http/Method.antt =====
-- The methods of spike/net/http/Http.h and their texts (spike/net/http/Http.cpp).
pub mod RoundTrip
use lim_webserver.Base.{
  ℕ, suc, zero, Bool, true, false, ◌&&◌, List, [], ◌∷◌, ◌==◌, if◌then◌else◌, get_or, codes,
}

pub data HttpMethod : Type 0 where
  delete : HttpMethod
  get : HttpMethod
  head : HttpMethod
  post : HttpMethod
  put : HttpMethod
  connect : HttpMethod
  options : HttpMethod
  trace : HttpMethod
  copy : HttpMethod
  lock : HttpMethod
  mkcol : HttpMethod
  move : HttpMethod
  propfind : HttpMethod
  proppatch : HttpMethod
  search : HttpMethod
  unlock : HttpMethod
  bind : HttpMethod
  rebind : HttpMethod
  unbind : HttpMethod
  acl : HttpMethod
  report : HttpMethod
  mkactivity : HttpMethod
  checkout : HttpMethod
  merge : HttpMethod
  msearch : HttpMethod
  notify : HttpMethod
  subscribe : HttpMethod
  unsubscribe : HttpMethod
  patch : HttpMethod
  purge : HttpMethod
  mkcalendar : HttpMethod
  link : HttpMethod
  unlink : HttpMethod
  source : HttpMethod
  invalid_method : HttpMethod

-- The value of the enumerator.
pub number : HttpMethod → ℕ
number delete = 0
number get = 1
number head = 2
number post = 3
number put = 4
number connect = 5
number options = 6
number trace = 7
number copy = 8
number lock = 9
number mkcol = 10
number move = 11
number propfind = 12
number proppatch = 13
number search = 14
number unlock = 15
number bind = 16
number rebind = 17
number unbind = 18
number acl = 19
number report = 20
number mkactivity = 21
number checkout = 22
number merge = 23
number msearch = 24
number notify = 25
number subscribe = 26
number unsubscribe = 27
number patch = 28
number purge = 29
number mkcalendar = 30
number link = 31
number unlink = 32
number source = 33
number invalid_method = 34

-- `HTTP_METHOD_MAP`, with the text that `#string` makes of its third column
abbrev pub http_method_map : List (HttpMethod × List ℕ)
http_method_map =
    (delete, codes "DELETE")
    ∷ (get, codes "GET")
    ∷ (head, codes "HEAD")
    ∷ (post, codes "POST")
    ∷ (put, codes "PUT")
    ∷ (connect, codes "CONNECT")
    ∷ (options, codes "OPTIONS")
    ∷ (trace, codes "TRACE")
    ∷ (copy, codes "COPY")
    ∷ (lock, codes "LOCK")
    ∷ (mkcol, codes "MKCOL")
    ∷ (move, codes "MOVE")
    ∷ (propfind, codes "PROPFIND")
    ∷ (proppatch, codes "PROPPATCH")
    ∷ (search, codes "SEARCH")
    ∷ (unlock, codes "UNLOCK")
    ∷ (bind, codes "BIND")
    ∷ (rebind, codes "REBIND")
    ∷ (unbind, codes "UNBIND")
    ∷ (acl, codes "ACL")
    ∷ (report, codes "REPORT")
    ∷ (mkactivity, codes "MKACTIVITY")
    ∷ (checkout, codes "CHECKOUT")
    ∷ (merge, codes "MERGE")
    ∷ (msearch, codes "M - SEARCH")
    ∷ (notify, codes "NOTIFY")
    ∷ (subscribe, codes "SUBSCRIBE")
    ∷ (unsubscribe, codes "UNSUBSCRIBE")
    ∷ (patch, codes "PATCH")
    ∷ (purge, codes "PURGE")
    ∷ (mkcalendar, codes "MKCALENDAR")
    ∷ (link, codes "LINK")
    ∷ (unlink, codes "UNLINK")
    ∷ (source, codes "SOURCE")
    ∷ []

-- A C string ends at its first NUL.
abbrev pub c_str : List ℕ → List ℕ
c_str [] = []
c_str (c ∷ cs) = if c == 0 then [] else c ∷ c_str cs

-- `strcmp(s, t) == 0`
abbrev pub str_eq : List ℕ → List ℕ → Bool
str_eq [] [] = true
str_eq [] (d ∷ ds) = false
str_eq (c ∷ cs) [] = false
str_eq (c ∷ cs) (d ∷ ds) = c == d && str_eq cs ds

-- `strncmp(s, t, strlen(s)) == 0`
abbrev pub is_prefix : List ℕ → List ℕ → Bool
is_prefix [] ds = true
is_prefix (c ∷ cs) [] = false
is_prefix (c ∷ cs) (d ∷ ds) = c == d && is_prefix cs ds

-- The first method of a map whose text passes a test.
pub first_method : (List ℕ → Bool) → List (HttpMethod × List ℕ) → HttpMethod
first_method test [] = invalid_method
first_method test ((m, s) ∷ rest) =
    let later = first_method test rest in if test s then m else later

pub string_to_http_method : List ℕ → HttpMethod
string_to_http_method m = first_method (λ s. str_eq s (c_str m)) http_method_map

-- `m` is the text before the NUL.
pub chars_to_http_method : List ℕ → HttpMethod
chars_to_http_method m = first_method (λ s. is_prefix s m) http_method_map

abbrev texts : List (HttpMethod × List ℕ) → List (List ℕ)
texts [] = []
texts ((m, s) ∷ rest) = s ∷ texts rest

pub http_method_to_string : HttpMethod → List ℕ
http_method_to_string m = get_or (texts http_method_map) (number m) (codes "<unknown>")
