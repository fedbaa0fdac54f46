-- ===== src/Net/Host.antt =====
-- The part of `Address::Lookup` (spike/net/Address.cpp) that divides a text into a host and a
-- service, before it calls the resolver.
pub mod Forms
use lim_webserver.Base.{ℕ, ◌==◌, if◌then◌else◌, Option, none, some, List, [], ◌∷◌}
use lim_webserver.Http.Request.{split_on, is_empty}

-- The service behind the `]` of an address in brackets.
pub service_behind : List ℕ → Option (List ℕ)
service_behind [] = none
service_behind (c ∷ cs) = if c == b':' then some cs else none

-- The node and the service where a `]` was looked for.
pub behind_bracket : Option (List ℕ × List ℕ) → List ℕ × Option (List ℕ)
behind_bracket none = ([], none)
behind_bracket (some (node, rest)) = (node, service_behind rest)

-- The first `if`: a text that starts with `[`.
pub bracketed : List ℕ → List ℕ × Option (List ℕ)
bracketed [] = ([], none)
bracketed (c ∷ cs) = if c == b'[' then behind_bracket (split_on b']' cs) else ([], none)

-- A second `:` was looked for behind the first one.
pub second_colon : List ℕ → List ℕ → Option (List ℕ × List ℕ) → List ℕ × Option (List ℕ)
second_colon node rest none = (node, some rest)
second_colon node rest (some q) = ([], some (b':' ∷ rest))

-- A `:` was looked for.
pub first_colon : Option (List ℕ × List ℕ) → List ℕ × Option (List ℕ)
first_colon none = ([], none)
first_colon (some (node, rest)) = second_colon node rest (split_on b':' rest)

-- The second `if`: the service points at the first `:`, and behind it where there is no other one.
pub by_colon : List ℕ → List ℕ × Option (List ℕ)
by_colon host = first_colon (split_on b':' host)

pub or_host : List ℕ → List ℕ × Option (List ℕ) → List ℕ × Option (List ℕ)
or_host host r = if is_empty r.0 then (host, r.1) else r

-- The node and the service that the resolver is given.
pub split_host : List ℕ → List ℕ × Option (List ℕ)
split_host host = let r = bracketed host in or_host host (if is_empty r.0 then by_colon host else r)
