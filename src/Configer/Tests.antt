-- ===== src/Configer/Tests.antt =====
-- Runs of the configuration (spike/base/Configer.h and Configer.cpp).
use lim_webserver.Base.{ℕ, ◌≡◌, refl, ◌==◌, if◌then◌else◌, true, List, [], ◌∷◌, ◌++◌, codes}
use lim_webserver.Base.Outcome.{ok, thrown, invalid_argument}
use lim_webserver.Base.Dict.{Dict, lookup}
use lim_webserver.Configer.Var.{Callback, ConfigerVar, call_all, notify, store_value}
use lim_webserver.Configer.Var.Change.{set_value_crossed}
use lim_webserver.Configer.Registry.{
  Registry, lookup_or_create, IsLookedUp, lookup_or_create-IsLookedUp,
}
use lim_webserver.Configer.Yaml.{Node, scalar, mapping, no_entries, entry, load_from_yaml}
use lim_webserver.Configer.Yaml.Names.{named, all_valid}
use lim_webserver.Configer.Yaml.Load.{given?, load_from_yaml-given}

-- A callback that keeps the new value.
abbrev listener : Callback ℕ (List ℕ)
listener old new w = (true, w ++ (new ∷ []))

abbrev variable : ConfigerVar ℕ (List ℕ)
variable = record { value = 0; callback_map = (1, listener) ∷ [] }

quiet : (v : ℕ) (w : List ℕ) → (call_all variable.callback_map variable.value v w).0 ≡ true
unfolding call_all
quiet v w = refl

set_value_crossed_example :
    let (_, stored_a, w1) = notify ◌==◌ 1 variable [] in
    let (_, stored_b, w2) = notify ◌==◌ 2 variable w1 in
    ((store_value stored_a (store_value stored_b variable)).value ≡ 1)
    × (w2 ≡ (call_all variable.callback_map 0 2 (call_all variable.callback_map 0 1 []).1).1)
set_value_crossed_example = set_value_crossed ◌==◌ 1 2 variable [] refl refl quiet

abbrev registry : Registry
registry = (codes "port", record { type = 0; object = 7 }) ∷ []

lookup_or_create-IsLookedUp_example :
    IsLookedUp 0 (codes "port") 8 registry (lookup_or_create 0 (codes "port") 8 registry)
lookup_or_create-IsLookedUp_example = lookup_or_create-IsLookedUp 0 (codes "port") 8 registry

abbrev emit : Node → List ℕ
emit node = codes "?"

abbrev keep_text : List ℕ → List ℕ → List ℕ
keep_text text old = text

abbrev document : Node
document = mapping (
    entry (codes "net") (mapping (entry (codes "port") (scalar (codes "80")) no_entries))
      no_entries)

abbrev variables : Dict (List ℕ)
variables = (codes "net.port", codes "8080") ∷ []

load_from_yaml-given_example :
    ((load_from_yaml emit keep_text document variables).0
      ≡ (if all_valid (named [] document) then ok tt else thrown invalid_argument))
    × (lookup (codes "net.port") (load_from_yaml emit keep_text document variables).1 ≡ (
        if all_valid (named [] document)
        then given? emit keep_text
            (codes "net.port")
            (named [] document)
            (lookup (codes "net.port") variables)
        else lookup (codes "net.port") variables))
load_from_yaml-given_example =
    load_from_yaml-given emit keep_text b'n' (codes "et.port") document variables
