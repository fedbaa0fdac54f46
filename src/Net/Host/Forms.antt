-- ===== src/Net/Host/Forms.antt =====
-- The forms of a host that `Address::Lookup` (spike/net/Address.cpp) takes apart.
use lim_webserver.Base.{
  ℕ, ◌≡◌, refl, ap, ◌∙◌, true, false, ◌==◌, if◌then◌else◌, Option, none, some, List, [], ◌∷◌, ◌++◌,
}
use lim_webserver.Http.Request.{is_empty}
use lim_webserver.Http.Request.Params.{lacks, split_on_absent, split_on_first}
use lim_webserver.Net.Host.{
  service_behind, behind_bracket, bracketed, second_colon, first_colon, by_colon, or_host,
  split_host,
}

-- A host that is not empty, given by its first byte and the others, with or without a port, in
-- brackets or not.
pub data Form : Type 0 where
  bare : ℕ → List ℕ → Form
  with_port : ℕ → List ℕ → List ℕ → Form
  address : ℕ → List ℕ → Form
  address_with_port : ℕ → List ℕ → List ℕ → Form

unfoldable pub host_text : Form → List ℕ
host_text (bare c cs) = c ∷ cs
host_text (with_port c cs port) = (c ∷ cs) ++ (b':' ∷ port)
host_text (address c cs) = b'[' ∷ (c ∷ cs) ++ (b']' ∷ [])
host_text (address_with_port c cs port) = b'[' ∷ (c ∷ cs) ++ (b']' ∷ b':' ∷ port)

-- A host outside of brackets does not start with one and has no `:`, nor has its port; one inside of
-- brackets has no `]`.
abbrev pub IsHost : Form → Type 0
IsHost (bare c cs) = ((c == b'[') ≡ false) × (lacks b':' (c ∷ cs) ≡ true)
IsHost (with_port c cs port) =
    ((c == b'[') ≡ false) × (lacks b':' (c ∷ cs) ≡ true) × (lacks b':' port ≡ true)
IsHost (address c cs) = lacks b']' (c ∷ cs) ≡ true
IsHost (address_with_port c cs port) = lacks b']' (c ∷ cs) ≡ true

unfoldable pub node_and_service : Form → List ℕ × Option (List ℕ)
node_and_service (bare c cs) = (c ∷ cs, none)
node_and_service (with_port c cs port) = (c ∷ cs, some port)
node_and_service (address c cs) = (c ∷ cs, none)
node_and_service (address_with_port c cs port) = (c ∷ cs, some port)

unbracketed :
    (c : ℕ) (cs : List ℕ)
    → (c == b'[') ≡ false
    → split_host (c ∷ cs) ≡ or_host (c ∷ cs) (by_colon (c ∷ cs))
unfolding split_host bracketed
unbracketed c cs h = rw h refl

in_brackets :
    (c : ℕ) (cs rest : List ℕ)
    → lacks b']' (c ∷ cs) ≡ true
    → split_host (b'[' ∷ (c ∷ cs) ++ (b']' ∷ rest)) ≡ (c ∷ cs, service_behind rest)
unfolding split_host bracketed or_host behind_bracket
in_brackets c cs rest h =
    ap
      (λ o. or_host (b'[' ∷ (c ∷ cs) ++ (b']' ∷ rest)) (
        if is_empty (behind_bracket o).0
        then by_colon (b'[' ∷ (c ∷ cs) ++ (b']' ∷ rest))
        else behind_bracket o))
      (split_on_first b']' (c ∷ cs) rest h)

-- `Lookup` asks the resolver for the host and, where there is one, the port of every form.
pub split_host-host_text : (f : Form) → IsHost f → split_host (host_text f) ≡ node_and_service f
unfolding host_text node_and_service by_colon first_colon second_colon or_host service_behind
split_host-host_text (bare c cs) (h, l) =
    unbracketed c cs h
    ∙ ap (λ o. or_host (c ∷ cs) (first_colon o)) (split_on_absent b':' (c ∷ cs) l)
split_host-host_text (with_port c cs port) (h, l, m) =
    unbracketed c (cs ++ (b':' ∷ port)) h
    ∙ ap (λ o. or_host (c ∷ (cs ++ (b':' ∷ port))) (first_colon o))
        (split_on_first b':' (c ∷ cs) port l)
    ∙ ap (λ o. or_host (c ∷ (cs ++ (b':' ∷ port))) (second_colon (c ∷ cs) port o))
        (split_on_absent b':' port m)
split_host-host_text (address c cs) l = in_brackets c cs [] l
split_host-host_text (address_with_port c cs port) l = in_brackets c cs (b':' ∷ port) l

-- Of a text outside of brackets with more than one `:`, as an IPv6 address is written, `Lookup` takes
-- the whole for the host and what starts with the first `:` for the service.
pub split_host_several :
    (c : ℕ) (cs rest tail : List ℕ)
    → (c == b'[') ≡ false
    → lacks b':' (c ∷ cs) ≡ true
    → lacks b':' rest ≡ true
    → split_host ((c ∷ cs) ++ (b':' ∷ rest ++ (b':' ∷ tail)))
      ≡ ((c ∷ cs) ++ (b':' ∷ rest ++ (b':' ∷ tail)), some (b':' ∷ rest ++ (b':' ∷ tail)))
unfolding by_colon first_colon second_colon or_host
split_host_several c cs rest tail h l m =
    let behind = rest ++ (b':' ∷ tail) in
    let host = c ∷ (cs ++ (b':' ∷ behind)) in
    unbracketed c (cs ++ (b':' ∷ behind)) h
    ∙ ap (λ o. or_host host (first_colon o)) (split_on_first b':' (c ∷ cs) behind l)
    ∙ ap (λ o. or_host host (second_colon (c ∷ cs) behind o)) (split_on_first b':' rest tail m)
