-- ===== src/Util/Url.antt =====
-- `StringUtil::UrlEncode` and `StringUtil::UrlDecode` (spike/base/Util.cpp). A string is the list of
-- its bytes.
pub mod RoundTrip
use lim_webserver.Base.{ℕ, zero, suc, ◌+◌, ◌-◌, ◌*◌, ◌/◌, ◌%◌, ◌^◌, Bool, true, false, ◌&&◌, ◌||◌}
use lim_webserver.Base.{Option, none, some, List, [], ◌∷◌, ◌++◌}
use lim_webserver.Base.{ltb, leb, ◌==◌, if◌then◌else◌, bit_and, bit_or, not}

abbrev pub between : ℕ → ℕ → ℕ → Bool
between lo hi c = leb lo c && leb c hi

-- The table `uri_chars`: the digits, the letters and - . = _ ~
unfoldable pub is_unreserved : ℕ → Bool
is_unreserved c =
    c == b'-'
    || c == b'.'
    || between b'0' b'9' c
    || c == b'='
    || between b'A' b'Z' c
    || c == b'_'
    || between b'a' b'z' c
    || c == b'~'

-- `isxdigit`
pub is_xdigit : ℕ → Bool
is_xdigit c = between b'0' b'9' c || between b'A' b'F' c || between b'a' b'f' c

-- The table `xdigit_chars`
pub xdigit_chars : ℕ → ℕ
xdigit_chars c =
    if between b'0' b'9' c
    then c - b'0'
    else if between b'A' b'F' c
    then c - b'A' + 10
    else if between b'a' b'f' c
    then c - b'a' + 10
    else 0

-- `hexdigits[d]`, for d below 16
unfoldable pub hexdigits : ℕ → ℕ
hexdigits d = if ltb d 10 then b'0' + d else b'A' + (d - 10)

-- What is appended for a byte that is not unreserved.
unfoldable pub escape : Bool → ℕ → List ℕ
escape space_as_plus c =
    if c == b' ' && space_as_plus
    then b'+' ∷ []
    else b'%' ∷ hexdigits (c / 2 ^ 4) ∷ hexdigits (bit_and c 0xf) ∷ []

-- The text `*ss`: where there is none yet, it starts as what was passed over.
abbrev pub opened : Option (List ℕ) → List ℕ → List ℕ
opened none passed = passed
opened (some out) passed = out

abbrev pub extended : Option (List ℕ) → List ℕ → Option (List ℕ)
extended none bs = none
extended (some out) bs = some (out ++ bs)

-- `passed` is `str` up to the pointer `c`, `ss` the text behind the pointer of that name.
pub encode_loop : Bool → List ℕ → List ℕ → Option (List ℕ) → Option (List ℕ)
encode_loop plus [] passed ss = ss
encode_loop plus (c ∷ rest) passed ss = encode_loop plus rest (passed ++ (c ∷ [])) (
    if not (is_unreserved c)
    then some (opened ss passed ++ escape plus c)
    else extended ss (c ∷ []))

abbrev pub result_or : List ℕ → Option (List ℕ) → List ℕ
result_or str none = str
result_or str (some out) = out

pub url_encode : List ℕ → Bool → List ℕ
url_encode str space_as_plus = result_or str (encode_loop space_as_plus str [] none)

-- The byte of two hexadecimal digits.
pub from_hex : ℕ → ℕ → ℕ
from_hex hi lo = bit_or (xdigit_chars hi * 2 ^ 4) (xdigit_chars lo) % 2 ^ 8

-- One byte of the input that starts no escape sequence.
pub plain : Bool → ℕ → List ℕ → Option (List ℕ) → Option (List ℕ)
plain plus c passed ss =
    if c == b'+' && plus then some (opened ss passed ++ (b' ' ∷ [])) else extended ss (c ∷ [])

pub decode_loop : Bool → List ℕ → List ℕ → Option (List ℕ) → Option (List ℕ)
decode_loop plus [] passed ss = ss
decode_loop plus (c ∷ []) passed ss = plain plus c passed ss
decode_loop plus (c ∷ h ∷ []) passed ss =
    decode_loop plus (h ∷ []) (passed ++ (c ∷ [])) (plain plus c passed ss)
decode_loop plus (c ∷ h ∷ l ∷ rest) passed ss =
    let escaped =
      decode_loop plus rest (passed ++ (c ∷ h ∷ l ∷ []))
        (some (opened ss passed ++ (from_hex h l ∷ []))) in
    let other = decode_loop plus (h ∷ l ∷ rest) (passed ++ (c ∷ [])) (plain plus c passed ss) in
    if c == b'+' && plus
    then other
    else if c == b'%' && is_xdigit h && is_xdigit l
    then escaped
    else other

pub url_decode : List ℕ → Bool → List ℕ
url_decode str space_as_plus = result_or str (decode_loop space_as_plus str [] none)
