-- ===== src/Http/Request/Params.antt =====
-- The macro `PARSE_PARAM` (spike/net/http/HttpRequest.cpp): its loop comes to an end, and reads back
-- the query that a list of parameters is written as.
use lim_webserver.Base.{
  ℕ, zero, suc, ◌<◌, ◌≤◌, ◌≡◌, refl, ap, ◌∙◌, arith, Bool, true, false, not, ◌&&◌,
}
use lim_webserver.Base.{none, some, List, [], ◌∷◌, ◌++◌, append_assoc, length, length-append, ◌==◌}
use lim_webserver.Base.{inl, inr, ◌⊎◌, Bool-cases, checked_below, holds_below}
use lim_webserver.Base.Words.{Bytes}
use lim_webserver.Util.Url.{url_encode, url_decode, is_unreserved, escape, hexdigits}
use lim_webserver.Util.Url.RoundTrip.{encoded, encoding, url_encode-encoding, url_decode-url_encode}
use lim_webserver.Http.Fields.{MapType, insert}
use lim_webserver.Http.Request.{split_on, parse_loop, parse_param, parsed}

abbrev pub lacks : ℕ → List ℕ → Bool
lacks c [] = true
lacks c (x ∷ xs) = not (x == c) && lacks c xs

both : (b c : Bool) → (not b && c) ≡ true → (b ≡ false) × (c ≡ true)
both false c h = (refl, h)
both true c h = absurd (clash h)
  where
    clash : false ≡ true → ⊥
    clash e = cc

lacks-append :
    (c : ℕ) (xs ys : List ℕ) → lacks c xs ≡ true → lacks c ys ≡ true → lacks c (xs ++ ys) ≡ true
lacks-append c [] ys p q = q
lacks-append c (x ∷ xs) ys p q =
    let (f, l) = both (x == c) (lacks c xs) p in rw f (lacks-append c xs ys l q)

pub split_on_absent : (c : ℕ) (xs : List ℕ) → lacks c xs ≡ true → split_on c xs ≡ none
unfolding split_on
split_on_absent c [] h = refl
split_on_absent c (x ∷ xs) h =
    let (f, l) = both (x == c) (lacks c xs) h in rw (f, split_on_absent c xs l)

pub split_on_first :
    (c : ℕ) (xs ys : List ℕ) → lacks c xs ≡ true → split_on c (xs ++ (c ∷ ys)) ≡ some (xs, ys)
unfolding split_on
split_on_first c [] ys h = let e : (c == c) ≡ true = ground arith in rw e
split_on_first c (x ∷ xs) ys h =
    let (f, l) = both (x == c) (lacks c xs) h in rw (f, split_on_first c xs ys l)

-- What is behind the first `c` is shorter.
split_on-length :
    (c : ℕ) (s : List ℕ)
    → (split_on c s ≡ none)
      ⊎ ((p : List ℕ × List ℕ) × (split_on c s ≡ some p) × (suc (length p.1) ≤ length s))
unfolding split_on
split_on-length c [] = inl refl
split_on-length c (x ∷ xs) = elim (Bool-cases (x == c)) [
  | inl t ↦ inr (([], xs), rw t, omega arith)
  | inr f ↦ elim (split_on-length c xs) [
    | inl n ↦ inl (rw (f, n))
    | inr (p, e, l) ↦ inr ((x ∷ p.0, p.1), rw (f, e), omega arith)
  ]
]

-- The loop of `PARSE_PARAM` comes to an end: on more fuel than the text is long it gives a
-- result.
pub parse_loop_enough :
    (fuel flag : ℕ) (trimmed : List ℕ → List ℕ) (str : List ℕ) (m : MapType)
    → length str < fuel
    → (m' : MapType) × (parse_loop fuel flag trimmed str m ≡ some m')
unfolding parse_loop
parse_loop_enough zero flag trimmed str m h = absurd (omega arith)
parse_loop_enough (suc fuel) flag trimmed str m h = elim (split_on-length b'=' str) [
  | inl n ↦ (m, rw (parse_loop, n))
  | inr (p, e, l) ↦ elim (split_on-length flag p.1) [
    | inl n ↦ (insert (trimmed p.0) (url_decode p.1 true) m, rw (parse_loop, e, n))
    | inr (q, e', l') ↦
        let (m', r) =
          parse_loop_enough fuel flag trimmed q.1 (insert (trimmed p.0) (url_decode q.0 true) m)
            (omega arith) in
        (m', rw (parse_loop, e, e') r)
  ]
]

encoded-lacks : checked_below (λ c. lacks b'&' (encoded true c)) 256 ≡ true
unfolding checked_below encoded is_unreserved escape hexdigits
encoded-lacks = refl

-- An encoded text holds no separator of parameters.
encoding-lacks : (v : List ℕ) → Bytes v → lacks b'&' (encoding true v) ≡ true
encoding-lacks [] h = refl
encoding-lacks (c ∷ cs) (l, h) =
    lacks-append b'&' (encoded true c) (encoding true cs)
      (holds_below (λ c. lacks b'&' (encoded true c)) 256 c l encoded-lacks) (encoding-lacks cs h)

-- A parameter of a query, its value encoded.
abbrev pub param : List ℕ × List ℕ → List ℕ
param (k, v) = k ++ (b'=' ∷ url_encode v true)

-- The parameters joined by `&`
abbrev pub query_of : List (List ℕ × List ℕ) → List ℕ
query_of [] = []
query_of (p ∷ []) = param p
query_of (p ∷ q ∷ ps) = param p ++ (b'&' ∷ query_of (q ∷ ps))

abbrev pub IsParams : List (List ℕ × List ℕ) → Type 0
IsParams [] = Unit {0}
IsParams ((k, v) ∷ ps) = ((lacks b'=' k ≡ true) × Bytes v) × IsParams ps

abbrev pub insert_all : (List ℕ → List ℕ) → List (List ℕ × List ℕ) → MapType → MapType
insert_all trimmed [] m = m
insert_all trimmed ((k, v) ∷ ps) m = insert_all trimmed ps (insert (trimmed k) v m)

encode-lacks : (v : List ℕ) → Bytes v → lacks b'&' (url_encode v true) ≡ true
encode-lacks v h = ap (lacks b'&') (url_encode-encoding v true) ∙ encoding-lacks v h

parse_last :
    (fuel : ℕ) (trimmed : List ℕ → List ℕ) (k v : List ℕ) (m : MapType)
    → lacks b'=' k ≡ true
    → Bytes v
    → parse_loop (suc fuel) b'&' trimmed (param (k, v)) m ≡ some (insert (trimmed k) v m)
unfolding parse_loop
parse_last fuel trimmed k v m h b = rw (
  parse_loop,
  split_on_first b'=' k (url_encode v true) h,
  split_on_absent b'&' (url_encode v true) (encode-lacks v b),
  url_decode-url_encode v true b,
)

parse_next :
    (fuel : ℕ) (trimmed : List ℕ → List ℕ) (k v rest : List ℕ) (m : MapType)
    → lacks b'=' k ≡ true
    → Bytes v
    → parse_loop (suc fuel) b'&' trimmed (param (k, v) ++ (b'&' ∷ rest)) m
      ≡ parse_loop fuel b'&' trimmed rest (insert (trimmed k) v m)
unfolding parse_loop
parse_next fuel trimmed k v rest m h b = rw (
  parse_loop,
  append_assoc k (b'=' ∷ url_encode v true) (b'&' ∷ rest),
  split_on_first b'=' k (url_encode v true ++ (b'&' ∷ rest)) h,
  split_on_first b'&' (url_encode v true) rest (encode-lacks v b),
  url_decode-url_encode v true b,
)

parse_query :
    (fuel : ℕ) (trimmed : List ℕ → List ℕ) (ps : List (List ℕ × List ℕ)) (m : MapType)
    → IsParams ps
    → length ps < fuel
    → parse_loop fuel b'&' trimmed (query_of ps) m ≡ some (insert_all trimmed ps m)
unfolding parse_loop split_on
parse_query zero trimmed ps m h l = absurd (omega arith)
parse_query (suc fuel) trimmed [] m h l = refl
parse_query (suc fuel) trimmed ((k, v) ∷ []) m ((n, b), h) l = parse_last fuel trimmed k v m n b
parse_query (suc fuel) trimmed ((k, v) ∷ p ∷ ps) m ((n, b), h) l =
    parse_next fuel trimmed k v (query_of (p ∷ ps)) m n b
    ∙ parse_query fuel trimmed (p ∷ ps) (insert (trimmed k) v m) h (omega arith)

query_longer : (ps : List (List ℕ × List ℕ)) → length ps ≤ length (query_of ps)
query_longer [] = omega arith
query_longer ((k, v) ∷ []) = omega (arith, length-append k (b'=' ∷ url_encode v true))
query_longer ((k, v) ∷ p ∷ ps) =
    omega (arith, length-append (param (k, v)) (b'&' ∷ query_of (p ∷ ps)), query_longer (p ∷ ps))

-- A query that is written from keys without `=` and from values of bytes, each encoded by
-- `UrlEncode`, joined by `&`, is parsed into insertions of those keys (trimmed) with those
-- values, one after the other.
pub parse_param-query :
    (trimmed : List ℕ → List ℕ) (ps : List (List ℕ × List ℕ)) (m : MapType)
    → IsParams ps
    → parse_param b'&' trimmed (query_of ps) m ≡ insert_all trimmed ps m
unfolding parse_param
parse_param-query trimmed ps m h =
    ap (parsed m)
      (parse_query (suc (length (query_of ps))) trimmed ps m h (omega (arith, query_longer ps)))
