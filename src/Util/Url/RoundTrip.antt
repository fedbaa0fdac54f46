-- ===== src/Util/Url/RoundTrip.antt =====
-- Decoding undoes encoding (spike/base/Util.cpp).
use lim_webserver.Base.{ℕ, ◌/◌, ◌^◌, ◌<◌, ◌≡◌, refl, sym, ap, ◌∙◌}
use lim_webserver.Base.{Bool, true, false, ◌&&◌, ◌||◌, not, Option, none, some, inl, inr}
use lim_webserver.Base.{List, [], ◌∷◌, ◌++◌, append_assoc, append-nil}
use lim_webserver.Base.{
  ◌==◌, if◌then◌else◌, bit_and, Bool-cases, checked_below, holds_below, ==_iff,
}
use lim_webserver.Base.Words.{Bytes}
use lim_webserver.Util.Url.{
  is_unreserved, is_xdigit, escape, opened, extended, encode_loop, result_or,
}
use lim_webserver.Util.Url.{
  url_encode, from_hex, plain, decode_loop, url_decode, hexdigits, xdigit_chars,
}

-- What one byte becomes.
unfoldable pub encoded : Bool → ℕ → List ℕ
encoded plus c = if is_unreserved c then c ∷ [] else escape plus c

abbrev pub encoding : Bool → List ℕ → List ℕ
encoding plus [] = []
encoding plus (c ∷ rest) = encoded plus c ++ encoding plus rest

opened_step :
    (u : Bool) (ss : Option (List ℕ)) (passed esc : List ℕ) (c : ℕ)
    → opened
        (if not u then some (opened ss passed ++ esc) else extended ss (c ∷ []))
        (passed ++ (c ∷ []))
      ≡ opened ss passed ++ (if u then c ∷ [] else esc)
opened_step true none passed esc c = refl
opened_step true (some out) passed esc c = refl
opened_step false none passed esc c = refl
opened_step false (some out) passed esc c = refl

-- The loop, with the text so far and the input that it has passed over.
encode_loop_lem :
    (plus : Bool) (rest passed : List ℕ) (ss : Option (List ℕ)) (str : List ℕ)
    → str ≡ passed ++ rest
    → result_or str (encode_loop plus rest passed ss) ≡ opened ss passed ++ encoding plus rest
unfolding encode_loop encoded
encode_loop_lem plus [] passed none str e = e
encode_loop_lem plus [] passed (some out) str e = sym (append-nil out)
encode_loop_lem plus (c ∷ rest) passed ss str e =
    let ss' =
      if not (is_unreserved c)
      then some (opened ss passed ++ escape plus c)
      else extended ss (c ∷ []) in
    encode_loop_lem plus rest (passed ++ (c ∷ [])) ss' str
      (e ∙ sym (append_assoc passed (c ∷ []) rest))
    ∙ ap (λ zs. zs ++ encoding plus rest)
        (opened_step (is_unreserved c) ss passed (escape plus c) c)
    ∙ append_assoc (opened ss passed) (encoded plus c) (encoding plus rest)

-- `UrlEncode`, which creates its output only at the first byte to escape, gives what encoding
-- each byte by itself gives.
pub url_encode-encoding : (str : List ℕ) (plus : Bool) → url_encode str plus ≡ encoding plus str
unfolding url_encode
url_encode-encoding str plus = encode_loop_lem plus str [] none str refl

-- A byte that starts no escape sequence is one step of the decoder.
plain_step :
    (plus : Bool) (c : ℕ) (rest passed : List ℕ) (ss : Option (List ℕ))
    → (c == b'%') ≡ false
    → decode_loop plus (c ∷ rest) passed ss
      ≡ decode_loop plus rest (passed ++ (c ∷ [])) (plain plus c passed ss)
unfolding decode_loop
plain_step plus c [] passed ss h = refl
plain_step plus c (x ∷ []) passed ss h = refl
plain_step plus c (x ∷ y ∷ rest) passed ss h = elim (Bool-cases (c == b'+' && plus)) [
  | inl t ↦ rw t
  | inr f ↦ rw (f, h)
]

percent_step :
    (plus : Bool) (x y : ℕ) (rest passed : List ℕ) (ss : Option (List ℕ))
    → is_xdigit x ≡ true
    → is_xdigit y ≡ true
    → decode_loop plus (b'%' ∷ x ∷ y ∷ rest) passed ss
      ≡ decode_loop plus rest
          (passed ++ (b'%' ∷ x ∷ y ∷ []))
          (some (opened ss passed ++ (from_hex x y ∷ [])))
unfolding decode_loop
percent_step plus x y rest passed ss hx hy = rw (hx, hy)

-- Every byte is the value of its two digits.
hex_byte :
    checked_below
      (λ c.
        is_xdigit (hexdigits (c / 2 ^ 4))
        && (is_xdigit (hexdigits (bit_and c 0xf))
            && (from_hex (hexdigits (c / 2 ^ 4)) (hexdigits (bit_and c 0xf)) == c)))
      256
    ≡ true
unfolding checked_below is_xdigit hexdigits from_hex xdigit_chars
hex_byte = refl

unreserved_plain :
    checked_below (λ c. not (is_unreserved c) || (not (c == b'%') && not (c == b'+'))) 256 ≡ true
unfolding checked_below is_unreserved
unreserved_plain = refl

opened-extended :
    (ss : Option (List ℕ)) (passed : List ℕ) (c : ℕ)
    → opened (extended ss (c ∷ [])) (passed ++ (c ∷ [])) ≡ opened ss passed ++ (c ∷ [])
opened-extended none passed c = refl
opened-extended (some out) passed c = refl

both : (a b : Bool) → (a && b) ≡ true → (a ≡ true) × (b ≡ true)
both true b h = (refl, h)
both false b h = cc

excluded :
    (u p q : Bool) → u ≡ true → (not u || (not p && not q)) ≡ true → (p ≡ false) × (q ≡ false)
excluded true false false u h = (refl, refl)
excluded true true q u h = cc
excluded true false true u h = cc
excluded false p q u h = cc

module _ (c : ℕ) (h : c < 256) where
  hex_digits :
      (is_xdigit (hexdigits (c / 2 ^ 4)) ≡ true)
      × (is_xdigit (hexdigits (bit_and c 0xf)) ≡ true)
      × (from_hex (hexdigits (c / 2 ^ 4)) (hexdigits (bit_and c 0xf)) ≡ c)
  hex_digits =
      let all = holds_below _ 256 c h hex_byte in
      let (p, q) = both (is_xdigit (hexdigits (c / 2 ^ 4))) _ all in
      let (p', q') = both (is_xdigit (hexdigits (bit_and c 0xf))) _ q in (p, p', (==_iff _ c).0 q')

  unreserved_lem : is_unreserved c ≡ true → ((c == b'%') ≡ false) × ((c == b'+') ≡ false)
  unreserved_lem u =
      excluded (is_unreserved c) (c == b'%') (c == b'+') u (holds_below _ 256 c h unreserved_plain)

  -- The decoder takes the encoded form of one byte for that byte.
  byte_step :
      (plus : Bool) (rest passed : List ℕ) (ss : Option (List ℕ))
      → (passed' : List ℕ) × (ss' : Option (List ℕ)) × (decode_loop plus
            (encoded plus c ++ rest)
            passed
            ss
          ≡ decode_loop plus rest passed' ss')
        × (passed' ≡ passed ++ encoded plus c)
        × (opened ss' passed' ≡ opened ss passed ++ (c ∷ []))
  unfolding encoded escape plain
  byte_step plus rest passed ss = elim (Bool-cases (is_unreserved c)) [
    | inl u ↦ rw u (
      passed ++ (c ∷ []),
      extended ss (c ∷ []),
      plain_step plus c rest passed ss (unreserved_lem u).0
          ∙ ap (decode_loop plus rest (passed ++ (c ∷ []))) (rw ((unreserved_lem u).1, plain)),
      refl,
      opened-extended ss passed c,
    )
    | inr r ↦ elim (Bool-cases (c == b' ' && plus)) [
      | inl sp ↦
          let (space, on) = both (c == b' ') plus sp in
          rw (r, sp)
            (
              passed ++ (b'+' ∷ []),
              some (opened ss passed ++ (b' ' ∷ [])),
              plain_step plus b'+' rest passed ss refl
                  ∙ ap (decode_loop plus rest (passed ++ (b'+' ∷ []))) (rw (on, plain)),
              refl,
              ap (λ (k : ℕ). opened ss passed ++ (k ∷ [])) (sym ((==_iff c b' ').0 space)),
            )
      | inr x ↦
          let (dx, dy, value) = hex_digits in
          rw (r, x)
            (
              passed ++ (b'%' ∷ hexdigits (c / 2 ^ 4) ∷ hexdigits (bit_and c 0xf) ∷ []),
              some (
                  opened ss passed
                  ++ (from_hex (hexdigits (c / 2 ^ 4)) (hexdigits (bit_and c 0xf)) ∷ [])),
              percent_step plus (hexdigits (c / 2 ^ 4)) (hexdigits (bit_and c 0xf)) rest passed ss
                  dx dy,
              refl,
              ap (λ (k : ℕ). opened ss passed ++ (k ∷ [])) value,
            )
    ]
  ]

decode_loop_lem :
    (plus : Bool) (bs passed : List ℕ) (ss : Option (List ℕ)) (str : List ℕ)
    → Bytes bs
    → str ≡ passed ++ encoding plus bs
    → result_or str (decode_loop plus (encoding plus bs) passed ss) ≡ opened ss passed ++ bs
unfolding decode_loop
decode_loop_lem plus [] passed none str h e = e
decode_loop_lem plus [] passed (some out) str h e = sym (append-nil out)
decode_loop_lem plus (c ∷ bs) passed ss str (hc, h) e =
    let (passed', ss', step, ep, es) = byte_step c hc plus (encoding plus bs) passed ss in
    ap (result_or str) step
    ∙ decode_loop_lem plus bs passed' ss' str h (
        e
        ∙ sym (append_assoc passed (encoded plus c) (encoding plus bs))
        ∙ ap (λ zs. zs ++ encoding plus bs) (sym ep))
    ∙ ap (λ zs. zs ++ bs) es
    ∙ append_assoc (opened ss passed) (c ∷ []) bs

-- `UrlDecode` gives back every string of bytes that `UrlEncode` encoded, if both take the same
-- flag for spaces.
pub url_decode-url_encode :
    (str : List ℕ) (plus : Bool) → Bytes str → url_decode (url_encode str plus) plus ≡ str
unfolding url_decode
url_decode-url_encode str plus h =
    rw (url_encode-encoding str plus) (decode_loop_lem plus str [] none (encoding plus str) h refl)
