-- ===== src/Util/Tests.antt =====
-- Runs of `StringUtil` (spike/base/Util.cpp).
use lim_webserver.Base.{◌≡◌, refl, arith, true, [], ◌∷◌, ◌++◌, codes}
use lim_webserver.Util.Url.{url_encode, url_decode}
use lim_webserver.Util.Url.RoundTrip.{encoding, url_encode-encoding, url_decode-url_encode}
use lim_webserver.Util.Trim.{trim, trim_right, blanks}
use lim_webserver.Util.Trim.Right.{trim_kept, trim_right-append}

url_encode-encoding_example : url_encode (codes "a b%") true ≡ encoding true (codes "a b%")
url_encode-encoding_example = url_encode-encoding (codes "a b%") true

url_decode-url_encode_example : url_decode (url_encode (codes "a b%") true) true ≡ codes "a b%"
url_decode-url_encode_example =
    url_decode-url_encode (codes "a b%") true
      (omega arith, (omega arith, (omega arith, (omega arith, tt))))

trim_kept_example : trim (97 ∷ (codes " " ++ (98 ∷ []))) blanks ≡ 97 ∷ (codes " " ++ (98 ∷ []))
trim_kept_example = trim_kept blanks (codes " ") 97 98 refl refl

trim_right-append_example : trim_right (codes "a" ++ (98 ∷ [])) blanks ≡ codes "a"
trim_right-append_example = trim_right-append blanks (codes "a") 98 refl
