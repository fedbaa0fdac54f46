-- ===== src/Http/Tests.antt =====
-- Runs of requests and their maps of fields (spike/net/http).
use lim_webserver.Base.{◌≡◌, refl, arith, true, none, some, [], ◌∷◌, ◌++◌, codes}
use lim_webserver.Base.{if◌then◌else◌}
use lim_webserver.Http.Method.{post, invalid_method, http_method_to_string}
use lim_webserver.Http.Method.{string_to_http_method, chars_to_http_method}
use lim_webserver.Http.Method.RoundTrip.{string_to_http_method-http_method_to_string}
use lim_webserver.Http.Method.RoundTrip.{chars_to_http_method-http_method_to_string}
use lim_webserver.Http.Fields.{MapType, find, assign, insert}
use lim_webserver.Http.Fields.Lookup.{equivalent, insert-assign, IsOrdered}
use lim_webserver.Http.Request.{
  HttpRequest, new_request, get_header, set_header, del_header, same, or_default,
}
use lim_webserver.Http.Request.{parse_loop, parse_param, get_param, get_cookie}
use lim_webserver.Http.Request.Params.{query_of, insert_all, parse_param-query, parse_loop_enough}
use lim_webserver.Http.Request.Access.{get_header-set_header, get_header-del_header}
use lim_webserver.Http.Request.Access.{get_param_again, get_cookie_again}

string_to_http_method-http_method_to_string_example :
    string_to_http_method (http_method_to_string post) ≡ post
string_to_http_method-http_method_to_string_example =
    string_to_http_method-http_method_to_string post

post_valid : post ≡ invalid_method → ⊥
post_valid e = cc

chars_to_http_method-http_method_to_string_example :
    chars_to_http_method (http_method_to_string post ++ codes " /x") ≡ post
chars_to_http_method-http_method_to_string_example =
    chars_to_http_method-http_method_to_string post (codes " /x") post_valid

abbrev request : HttpRequest
request = new_request 0x11 true

ordered : IsOrdered request.headers
unfolding new_request
ordered = tt

get_header-set_header_example :
    get_header (codes "host") [] (set_header (codes "Host") (codes "a") request) ≡ (
      if equivalent (codes "Host") (codes "host")
      then codes "a"
      else get_header (codes "host") [] request)
get_header-set_header_example =
    get_header-set_header (codes "Host") (codes "host") (codes "a") [] request

get_header-del_header_example : get_header (codes "host") [] (del_header (codes "Host") request) ≡ (
    if equivalent (codes "Host") (codes "host") then [] else get_header (codes "host") [] request)
get_header-del_header_example =
    get_header-del_header (codes "Host") (codes "host") [] request ordered

get_param_again_example : get_param (codes "b") [] (get_param (codes "a") [] request).1 ≡ (
  or_default [] (find (codes "b") (get_param (codes "a") [] request).1.params),
  (get_param (codes "a") [] request).1,
)
get_param_again_example = get_param_again (codes "a") [] (codes "b") [] request

get_cookie_again_example : get_cookie (codes "b") [] (get_cookie (codes "a") [] request).1 ≡ (
  or_default [] (find (codes "b") (get_cookie (codes "a") [] request).1.cookies),
  (get_cookie (codes "a") [] request).1,
)
get_cookie_again_example = get_cookie_again (codes "a") [] (codes "b") [] request

insert-assign_example :
    insert (codes "A") (codes "2") ((codes "a", codes "1") ∷ [])
    ≡ elim (find (codes "A") ((codes "a", codes "1") ∷ [])) [
      | none ↦ assign (codes "A") (codes "2") ((codes "a", codes "1") ∷ [])
      | some w ↦ (codes "a", codes "1") ∷ []
    ]
insert-assign_example = insert-assign (codes "A") (codes "2") ((codes "a", codes "1") ∷ [])

parse_param-query_example :
    parse_param b'&' same (query_of ((codes "a", codes "1&2") ∷ (codes "b", []) ∷ [])) []
    ≡ insert_all same ((codes "a", codes "1&2") ∷ (codes "b", []) ∷ []) []
parse_param-query_example =
    parse_param-query same ((codes "a", codes "1&2") ∷ (codes "b", []) ∷ []) []
      ((refl, (omega arith, (omega arith, (omega arith, tt)))), ((refl, tt), tt))

parse_loop_enough_example : (m' : MapType) × (parse_loop 4 b'&' same (codes "a=1") [] ≡ some m')
parse_loop_enough_example = parse_loop_enough 4 b'&' same (codes "a=1") [] (omega arith)
