-- ===== src/Http/Request/Access.antt =====
-- Reading a request (spike/net/http/HttpRequest.cpp): headers after they were set or deleted, and
-- parameters and cookies, which are parsed once.
use lim_webserver.Base.{ℕ, ◌/◌, ◌≡◌, refl, ap, ◌∙◌, arith, Bool, true, false, not, codes}
use lim_webserver.Base.{none, some, List, [], ◌==◌, if◌then◌else◌, inl, inr, Bool-cases}
use lim_webserver.Base.{bit_and, bit_or}
use lim_webserver.Base.Bits.{bit_and-Digitwise, bit_or-Digitwise, bit_and_ones, bit_or_ones}
use lim_webserver.Http.Fields.{find, folded}
use lim_webserver.Http.Fields.Lookup.{equivalent, find-assign, find-erase, IsOrdered}
use lim_webserver.Http.Request.{
  HttpRequest, or_default, has_flag, set_flag, get_header, set_header, del_header,
}
use lim_webserver.Http.Request.{
  init_query_param, init_body_param, init_cookies, get_param, get_cookie,
}
use lim_webserver.Http.Request.{has_infix, parse_param, same, is_empty}
use lim_webserver.Util.Trim.{trim, blanks}

-- After `setHeader(j, v)`, `getHeader(k, d)` is `v` if the keys differ in case only, and else what it
-- was before.
pub get_header-set_header :
    (j k v d : List ℕ) (r : HttpRequest)
    → get_header k d (set_header j v r) ≡ (if equivalent j k then v else get_header k d r)
unfolding get_header set_header
get_header-set_header j k v d r =
    ap (or_default d) (find-assign j k v r.headers) ∙ choose (equivalent j k)
  where
    choose :
        (b : Bool)
        → or_default d (if b then some v else find k r.headers)
          ≡ (if b then v else or_default d (find k r.headers))
    choose true = refl
    choose false = refl

-- If the headers are in order, after `delHeader(j)` `getHeader(k, d)` is the default if the keys
-- differ in case only, and else what it was before.
pub get_header-del_header :
    (j k d : List ℕ) (r : HttpRequest)
    → IsOrdered r.headers
    → get_header k d (del_header j r) ≡ (if equivalent j k then d else get_header k d r)
unfolding get_header del_header
get_header-del_header j k d r o =
    ap (or_default d) (find-erase j k r.headers o) ∙ choose (equivalent j k)
  where
    choose :
        (b : Bool)
        → or_default d (if b then none else find k r.headers)
          ≡ (if b then d else or_default d (find k r.headers))
    choose true = refl
    choose false = refl

one_set : (f : ℕ) → (bit_and (bit_or f 1) 1 == 0) ≡ false
one_set f =
    let e : bit_and (bit_or f 1) 1 ≡ 1 =
      omega (arith, bit_and_ones 1 (bit_or f 1), bit_or_ones 1 f) in
    rw e

two_set : (f : ℕ) → (bit_and (bit_or f 2) 2 == 0) ≡ false
two_set f =
    let e : bit_and (bit_or f 2) 2 ≡ 2 = omega (
      arith,
      bit_and-Digitwise (bit_or f 2) 2,
      bit_or-Digitwise f 2,
      bit_and_ones 1 (bit_or f 2 / 2),
      bit_or_ones 1 (f / 2),
    ) in
    rw e

two_keeps_one : (f : ℕ) → bit_and (bit_or f 2) 1 ≡ bit_and f 1
two_keeps_one f = omega (arith, bit_and_ones 1 (bit_or f 2), bit_or-Digitwise f 2, bit_and_ones 1 f)

four_set : (f : ℕ) → (bit_and (bit_or f 4) 4 == 0) ≡ false
four_set f =
    let e : bit_and (bit_or f 4) 4 ≡ 4 = omega (
      arith,
      bit_and-Digitwise (bit_or f 4) 4,
      bit_or-Digitwise f 4,
      bit_and-Digitwise (bit_or f 4 / 2) 2,
      bit_or-Digitwise (f / 2) 2,
      bit_and_ones 1 (bit_or f 4 / 2 / 2),
      bit_or_ones 1 (f / 2 / 2),
    ) in
    rw e

-- After each parsing its flag is set, and with a flag set nothing is parsed.
query-has_flag : (r : HttpRequest) → has_flag 1 (init_query_param r) ≡ true
unfolding init_query_param
query-has_flag r = elim (Bool-cases (has_flag 1 r)) [
  | inl t ↦ rw t t
  | inr f ↦ rw f (ap not (one_set r.parser_param_flag))
]

query_parsed : (r : HttpRequest) → has_flag 1 r ≡ true → init_query_param r ≡ r
unfolding init_query_param
query_parsed r t = rw t

flag_after :
    (b : ℕ) (c d : Bool) (r x y : HttpRequest)
    → (c ≡ true → has_flag b r ≡ true)
    → has_flag b x ≡ true
    → has_flag b y ≡ true
    → has_flag b (if c then r else if d then x else y) ≡ true
flag_after b true d r x y p q s = p refl
flag_after b false true r x y p q s = q
flag_after b false false r x y p q s = s

abbrev is_form : HttpRequest → Bool
is_form r =
    has_infix (folded (codes "application/x-www-form-urlencoded"))
      (folded (get_header (codes "content-type") [] r))

abbrev with_body : HttpRequest → HttpRequest
with_body r = set_flag 2 (record r { params = parse_param b'&' same r.body r.params })

abbrev cookie_of : HttpRequest → List ℕ
cookie_of r = get_header (codes "cookie") [] r

abbrev with_cookies : HttpRequest → HttpRequest
with_cookies r =
    set_flag 4
      (record r { cookies = parse_param b';' (λ s. trim s blanks) (cookie_of r) r.cookies })

body-has_flag : (r : HttpRequest) → has_flag 2 (init_body_param r) ≡ true
unfolding init_body_param
body-has_flag r =
    let set = ap not (two_set r.parser_param_flag) in
    flag_after 2 (has_flag 2 r) (is_form r) r (with_body r) (set_flag 2 r) (λ t. t) set set

body_parsed : (r : HttpRequest) → has_flag 2 r ≡ true → init_body_param r ≡ r
unfolding init_body_param
body_parsed r t = rw t

body_keeps_query : (r : HttpRequest) → has_flag 1 r ≡ true → has_flag 1 (init_body_param r) ≡ true
unfolding init_body_param
body_keeps_query r h =
    let kept = ap (λ (n : ℕ). not (n == 0)) (two_keeps_one r.parser_param_flag) ∙ h in
    flag_after 1 (has_flag 2 r) (is_form r) r (with_body r) (set_flag 2 r) (λ _. h) kept kept

cookies-has_flag : (r : HttpRequest) → has_flag 4 (init_cookies r) ≡ true
unfolding init_cookies
cookies-has_flag r =
    let set = ap not (four_set r.parser_param_flag) in
    flag_after 4 (has_flag 4 r) (is_empty (cookie_of r)) r (set_flag 4 r) (with_cookies r) (λ t. t)
      set set

cookies_parsed : (r : HttpRequest) → has_flag 4 r ≡ true → init_cookies r ≡ r
unfolding init_cookies
cookies_parsed r t = rw t

-- Query and body are parsed at the first call of `getParam` only: any later call finds its answer in
-- the parameters as they are and leaves the request as it is.
pub get_param_again :
    (k d j e : List ℕ) (r : HttpRequest)
    → get_param j e (get_param k d r).1
      ≡ (or_default e (find j (get_param k d r).1.params), (get_param k d r).1)
unfolding get_param
get_param_again k d j e r =
    ap (λ s. (or_default e (find j s.params), s))
      (ap init_body_param
          (query_parsed r' (body_keeps_query (init_query_param r) (query-has_flag r)))
        ∙ body_parsed r' (body-has_flag (init_query_param r)))
  where
    r' : HttpRequest
    r' = init_body_param (init_query_param r)

-- The cookies are parsed at the first call of `getCookie` only: any later call finds its answer in
-- the cookies as they are and leaves the request as it is.
pub get_cookie_again :
    (k d j e : List ℕ) (r : HttpRequest)
    → get_cookie j e (get_cookie k d r).1
      ≡ (or_default e (find j (get_cookie k d r).1.cookies), (get_cookie k d r).1)
unfolding get_cookie
get_cookie_again k d j e r =
    ap (λ s. (or_default e (find j s.cookies), s))
      (cookies_parsed (init_cookies r) (cookies-has_flag r))
