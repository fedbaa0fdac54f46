-- ===== src/Http/Method/RoundTrip.antt =====
-- The texts of the methods (spike/net/http/Http.cpp) there and back.
use lim_webserver.Base.{ℕ, ◌≡◌, refl, List, ◌++◌}
use lim_webserver.Http.Method.{HttpMethod, invalid_method, number, http_method_to_string}
use lim_webserver.Http.Method.{string_to_http_method, chars_to_http_method, first_method}
use lim_webserver.Http.Method.{
  delete, get, head, post, put, connect, options, trace, copy, lock, mkcol, move, propfind,
  proppatch, search, unlock, bind,
}
use lim_webserver.Http.Method.{
  rebind, unbind, acl, report, mkactivity, checkout, merge, msearch, notify, subscribe, unsubscribe,
  patch, purge, mkcalendar, link, unlink, source,
}

-- `StringToHttpMethod` reads the text of every method back as that method, the invalid one
-- included.
pub string_to_http_method-http_method_to_string :
    (m : HttpMethod) → string_to_http_method (http_method_to_string m) ≡ m
unfolding string_to_http_method http_method_to_string number first_method
string_to_http_method-http_method_to_string delete = refl
string_to_http_method-http_method_to_string get = refl
string_to_http_method-http_method_to_string head = refl
string_to_http_method-http_method_to_string post = refl
string_to_http_method-http_method_to_string put = refl
string_to_http_method-http_method_to_string connect = refl
string_to_http_method-http_method_to_string options = refl
string_to_http_method-http_method_to_string trace = refl
string_to_http_method-http_method_to_string copy = refl
string_to_http_method-http_method_to_string lock = refl
string_to_http_method-http_method_to_string mkcol = refl
string_to_http_method-http_method_to_string move = refl
string_to_http_method-http_method_to_string propfind = refl
string_to_http_method-http_method_to_string proppatch = refl
string_to_http_method-http_method_to_string search = refl
string_to_http_method-http_method_to_string unlock = refl
string_to_http_method-http_method_to_string bind = refl
string_to_http_method-http_method_to_string rebind = refl
string_to_http_method-http_method_to_string unbind = refl
string_to_http_method-http_method_to_string acl = refl
string_to_http_method-http_method_to_string report = refl
string_to_http_method-http_method_to_string mkactivity = refl
string_to_http_method-http_method_to_string checkout = refl
string_to_http_method-http_method_to_string merge = refl
string_to_http_method-http_method_to_string msearch = refl
string_to_http_method-http_method_to_string notify = refl
string_to_http_method-http_method_to_string subscribe = refl
string_to_http_method-http_method_to_string unsubscribe = refl
string_to_http_method-http_method_to_string patch = refl
string_to_http_method-http_method_to_string purge = refl
string_to_http_method-http_method_to_string mkcalendar = refl
string_to_http_method-http_method_to_string link = refl
string_to_http_method-http_method_to_string unlink = refl
string_to_http_method-http_method_to_string source = refl
string_to_http_method-http_method_to_string invalid_method = refl

-- The text of every valid method is recognised by `CharsToHttpMethod` with anything behind it.
pub chars_to_http_method-http_method_to_string :
    (m : HttpMethod) (rest : List ℕ)
    → (m ≡ invalid_method → ⊥)
    → chars_to_http_method (http_method_to_string m ++ rest) ≡ m
unfolding chars_to_http_method http_method_to_string number first_method
chars_to_http_method-http_method_to_string delete rest valid = refl
chars_to_http_method-http_method_to_string get rest valid = refl
chars_to_http_method-http_method_to_string head rest valid = refl
chars_to_http_method-http_method_to_string post rest valid = refl
chars_to_http_method-http_method_to_string put rest valid = refl
chars_to_http_method-http_method_to_string connect rest valid = refl
chars_to_http_method-http_method_to_string options rest valid = refl
chars_to_http_method-http_method_to_string trace rest valid = refl
chars_to_http_method-http_method_to_string copy rest valid = refl
chars_to_http_method-http_method_to_string lock rest valid = refl
chars_to_http_method-http_method_to_string mkcol rest valid = refl
chars_to_http_method-http_method_to_string move rest valid = refl
chars_to_http_method-http_method_to_string propfind rest valid = refl
chars_to_http_method-http_method_to_string proppatch rest valid = refl
chars_to_http_method-http_method_to_string search rest valid = refl
chars_to_http_method-http_method_to_string unlock rest valid = refl
chars_to_http_method-http_method_to_string bind rest valid = refl
chars_to_http_method-http_method_to_string rebind rest valid = refl
chars_to_http_method-http_method_to_string unbind rest valid = refl
chars_to_http_method-http_method_to_string acl rest valid = refl
chars_to_http_method-http_method_to_string report rest valid = refl
chars_to_http_method-http_method_to_string mkactivity rest valid = refl
chars_to_http_method-http_method_to_string checkout rest valid = refl
chars_to_http_method-http_method_to_string merge rest valid = refl
chars_to_http_method-http_method_to_string msearch rest valid = refl
chars_to_http_method-http_method_to_string notify rest valid = refl
chars_to_http_method-http_method_to_string subscribe rest valid = refl
chars_to_http_method-http_method_to_string unsubscribe rest valid = refl
chars_to_http_method-http_method_to_string patch rest valid = refl
chars_to_http_method-http_method_to_string purge rest valid = refl
chars_to_http_method-http_method_to_string mkcalendar rest valid = refl
chars_to_http_method-http_method_to_string link rest valid = refl
chars_to_http_method-http_method_to_string unlink rest valid = refl
chars_to_http_method-http_method_to_string source rest valid = refl
chars_to_http_method-http_method_to_string invalid_method rest valid = absurd (valid refl)
