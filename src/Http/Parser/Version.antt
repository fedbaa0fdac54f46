-- ===== src/Http/Parser/Version.antt =====
-- Which versions the callbacks of spike/net/http/HttpParser.cpp accept.
use lim_webserver.Base.{
  ℕ, ◌≡◌, refl, arith, Bool, true, ◌==◌, ◌&&◌, if◌then◌else◌, not, none, some, List, [], ◌∷◌, ◌++◌,
  codes, length,
}
use lim_webserver.Http.Method.{is_prefix}
use lim_webserver.Http.Parser.{strncmp_eq, version_of}

-- No byte of a text is NUL.
abbrev pub has_no_nul : List ℕ → Bool
has_no_nul [] = true
has_no_nul (c ∷ cs) = not (c == 0) && has_no_nul cs

strncmp_eq_lem :
    (v rest t : List ℕ) → has_no_nul v ≡ true → strncmp_eq (length v) (v ++ rest) t ≡ is_prefix v t
unfolding strncmp_eq
strncmp_eq_lem [] rest t h = refl
strncmp_eq_lem (c ∷ cs) rest [] h = ground arith
strncmp_eq_lem (c ∷ cs) rest (d ∷ ds) h =
    let ih = strncmp_eq_lem cs rest ds (ground arith) in ground (arith, ih)

-- A version `v` without NUL, wherever it stands in the buffer, is taken for 1.1 when it is a prefix of
-- that version's text, the empty one included, otherwise for 1.0 when it is a prefix of its text,
-- and refused otherwise.
pub version_of_lem :
    (v rest : List ℕ)
    → has_no_nul v ≡ true
    → version_of (v ++ rest) (length v) ≡ (
        if is_prefix v (codes "HTTP/1.1")
        then some 0x11
        else if is_prefix v (codes "HTTP/1.0")
        then some 0x10
        else none)
unfolding version_of
version_of_lem v rest h =
    rw (strncmp_eq_lem v rest (codes "HTTP/1.1") h, strncmp_eq_lem v rest (codes "HTTP/1.0") h) refl
