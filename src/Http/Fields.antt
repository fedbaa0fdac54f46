-- ===== src/Http/Fields.antt =====
-- `CaseInsensitiveLess` and the `std::map` with that order (spike/net/http/Http.h and Http.cpp): the
-- list of its entries in order. A text is the list of its bytes.
pub mod Order
pub mod Lookup
use lim_webserver.Base.{
  ℕ, ◌+◌, Bool, true, false, ◌&&◌, ◌||◌, Option, none, some, List, [], ◌∷◌, map,
}
use lim_webserver.Base.{ltb, leb, ◌==◌, if◌then◌else◌}
use lim_webserver.Http.Method.{c_str}

-- `tolower` in the C locale
pub lower : ℕ → ℕ
lower c = if leb b'A' c && leb c b'Z' then c + 32 else c

-- What `strcasecmp` sees of a text.
abbrev pub folded : List ℕ → List ℕ
folded s = map lower (c_str s)

unfoldable pub lex_less : List ℕ → List ℕ → Bool
lex_less cs [] = false
lex_less [] (d ∷ ds) = true
lex_less (c ∷ cs) (d ∷ ds) = ltb c d || (c == d && lex_less cs ds)

-- `strcasecmp(lhs, rhs) < 0`
abbrev pub case_insensitive_less : List ℕ → List ℕ → Bool
case_insensitive_less lhs rhs = lex_less (folded lhs) (folded rhs)

abbrev pub MapType : Type 0
MapType = List (List ℕ × List ℕ)

pub find : List ℕ → MapType → Option (List ℕ)
find key [] = none
find key ((k, v) ∷ m) =
    let rest = find key m in
    if case_insensitive_less k key
    then rest
    else if case_insensitive_less key k
    then none
    else some v

-- `m[key] = val`: an entry keeps the key it has.
pub assign : List ℕ → List ℕ → MapType → MapType
assign key val [] = (key, val) ∷ []
assign key val ((k, v) ∷ m) =
    let rest = assign key val m in
    if case_insensitive_less k key
    then (k, v) ∷ rest
    else if case_insensitive_less key k
    then (key, val) ∷ (k, v) ∷ m
    else (k, val) ∷ m

-- `m.insert(make_pair(key, val))`: an entry that is there stays.
pub insert : List ℕ → List ℕ → MapType → MapType
insert key val [] = (key, val) ∷ []
insert key val ((k, v) ∷ m) =
    let rest = insert key val m in
    if case_insensitive_less k key
    then (k, v) ∷ rest
    else if case_insensitive_less key k
    then (key, val) ∷ (k, v) ∷ m
    else (k, v) ∷ m

-- `m.erase(key)`
pub erase : List ℕ → MapType → MapType
erase key [] = []
erase key ((k, v) ∷ m) =
    let rest = erase key m in
    if case_insensitive_less k key
    then (k, v) ∷ rest
    else if case_insensitive_less key k
    then (k, v) ∷ m
    else m
