-- ===== src/Http/Parser/Events.antt =====
-- Sequences of pieces that the generated parser reports to `HttpRequestParser`
-- (spike/net/http/HttpParser.cpp).
use lim_webserver.Base.{
  ℕ, ◌≡◌, refl, sym, ap, ◌∙◌, arith, Bool, true, false, ◌==◌, ◌&&◌, if◌then◌else◌, not, Option,
  none, some, List, [], ◌∷◌, take,
}
use lim_webserver.Http.Method.{HttpMethod, chars_to_http_method}
use lim_webserver.Http.Fields.Lookup.{equivalent}
use lim_webserver.Http.Request.{set_header, get_header}
use lim_webserver.Http.Request.Access.{get_header-set_header}
use lim_webserver.Http.Parser.{
  RequestParser, version_of, set_error, with_version, on_request_method, on_request_uri,
  on_request_fragment, on_request_path, on_request_query, on_request_version,
  on_request_header_done, on_request_http_field, is_invalid,
}

-- A call of a callback.
pub data Event : Type 0 where
  method : List ℕ → ℕ → Event
  uri : List ℕ → ℕ → Event
  fragment : List ℕ → ℕ → Event
  path : List ℕ → ℕ → Event
  query : List ℕ → ℕ → Event
  version : List ℕ → ℕ → Event
  header_done : List ℕ → ℕ → Event
  http_field : List ℕ → ℕ → List ℕ → ℕ → Event

pub on_event : Event → RequestParser → RequestParser
on_event (method t n) p = on_request_method t n p
on_event (uri t n) p = on_request_uri t n p
on_event (fragment t n) p = on_request_fragment t n p
on_event (path t n) p = on_request_path t n p
on_event (query t n) p = on_request_query t n p
on_event (version t n) p = on_request_version t n p
on_event (header_done t n) p = on_request_header_done t n p
on_event (http_field f n v k) p = on_request_http_field f n v k p

pub on_events : List Event → RequestParser → RequestParser
on_events [] p = p
on_events (e ∷ es) p = on_events es (on_event e p)

-- The events that the callbacks accept.
pub is_good : Event → Bool
is_good (method t n) = not (is_invalid (chars_to_http_method t))
is_good (version t n) = elim (version_of t n) [ none ↦ false | some v ↦ true ]
is_good e = true

pub are_good : List Event → Bool
are_good [] = true
are_good (e ∷ es) = is_good e && are_good es

-- The value that the last field with an equivalent name has.
pub last_value : List ℕ → List ℕ → List Event → List ℕ
last_value k d [] = d
last_value k d (http_field f n v m ∷ es) =
    last_value k (if not (n == 0) && equivalent (take n f) k then take m v else d) es
last_value k d (e ∷ es) = last_value k d es

on_event-error :
    (e : Event) (p : RequestParser) → ((on_event e p).error == 0) ≡ (p.error == 0 && is_good e)
unfolding on_event is_good on_request_method on_request_uri on_request_fragment on_request_path
    on_request_query on_request_version on_request_header_done on_request_http_field with_version
    set_error
on_event-error (method t n) p = ground arith
on_event-error (uri t n) p = ground arith
on_event-error (fragment t n) p = ground arith
on_event-error (path t n) p = ground arith
on_event-error (query t n) p = ground arith
on_event-error (version t n) p = ground arith
on_event-error (header_done t n) p = ground arith
on_event-error (http_field f n v m) p = ground arith

-- After any sequence of pieces the parser has no error exactly when it had none and every method
-- and every version among them was accepted.
pub on_events-error :
    (es : List Event) (p : RequestParser)
    → ((on_events es p).error == 0) ≡ (p.error == 0 && are_good es)
unfolding on_events are_good
on_events-error [] p = ground arith
on_events-error (e ∷ es) p = ground (arith, on_events-error es (on_event e p), on_event-error e p)

version_kept :
    (o : Option ℕ) (k d : List ℕ) (es : List Event) (p : RequestParser)
    → last_value k (get_header k d p.request) es
      ≡ last_value k (get_header k d (with_version o p).request) es
unfolding with_version set_error get_header
version_kept none k d es p = refl
version_kept (some v) k d es p = refl

field_kept :
    (b : Bool) (k d : List ℕ) (es : List Event) (p : RequestParser) (m : HttpMethod)
    → last_value k (get_header k d p.request) es
      ≡ last_value k
          (get_header k d
            (if b
              then set_error 1000 p
              else record p { request = record (p.request) { method = m } }).request)
          es
unfolding set_error get_header
field_kept true k d es p m = refl
field_kept false k d es p m = refl

field_set :
    (b : Bool) (k d : List ℕ) (es : List Event) (p : RequestParser) (f v : List ℕ)
    → last_value k (if not b && equivalent f k then v else get_header k d p.request) es
      ≡ last_value k
          (get_header k d
            (if b then p else record p { request = set_header f v p.request }).request)
          es
field_set true k d es p f v = refl
field_set false k d es p f v =
    ap (λ t. last_value k t es) (sym (get_header-set_header f k v d p.request))

on_event-header :
    (k d : List ℕ) (e : Event) (es : List Event) (p : RequestParser)
    → last_value k (get_header k d p.request) (e ∷ es)
      ≡ last_value k (get_header k d (on_event e p).request) es
unfolding on_event last_value get_header on_request_method on_request_uri on_request_fragment
    on_request_path on_request_query on_request_version on_request_header_done on_request_http_field
    with_version set_error
on_event-header k d (method t n) es p =
    field_kept (is_invalid (chars_to_http_method t)) k d es p (chars_to_http_method t)
on_event-header k d (uri t n) es p = refl
on_event-header k d (fragment t n) es p = refl
on_event-header k d (path t n) es p = refl
on_event-header k d (query t n) es p = refl
on_event-header k d (version t n) es p = version_kept (version_of t n) k d es p
on_event-header k d (header_done t n) es p = refl
on_event-header k d (http_field f n v m) es p = field_set (n == 0) k d es p (take n f) (take m v)

-- After any sequence of pieces a header has the value of the last field that has a name equivalent
-- to its own and not empty, or its old value when there is none.
pub on_events-header :
    (k d : List ℕ) (es : List Event) (p : RequestParser)
    → get_header k d (on_events es p).request ≡ last_value k (get_header k d p.request) es
unfolding on_events last_value
on_events-header k d [] p = refl
on_events-header k d (e ∷ es) p =
    on_events-header k d es (on_event e p) ∙ sym (on_event-header k d e es p)
