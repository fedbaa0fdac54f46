-- ===== src/Configer/Yaml/Load.antt =====
-- What `Configer::LoadFromYaml` does to each variable (spike/base/Configer.cpp).
use mathlib.Core.Path.{subst}
use lim_webserver.Base.{
  ℕ, ◌≡◌, refl, ap, sym, ◌∙◌, if◌then◌else◌, false, Option, none, some, List, [], ◌∷◌, Option-cases,
  inl, inr, Bool-cases,
}
use lim_webserver.Base.Outcome.{ok, thrown, invalid_argument}
use lim_webserver.Base.Dict.{
  Dict, text_eq, text_eq_iff, lookup, lookup-insert, lookup-insert_self, text_eq_refl,
}
use lim_webserver.Configer.Yaml.{
  Node, Listing, text_of, set_at, load_node, load_nodes, load_from_yaml,
}
use lim_webserver.Configer.Yaml.Names.{named, all_valid, analyse-named}

module _ {V : Type 0} (emit : Node → List ℕ) (from_string : List ℕ → V → V) where
  -- A variable behind the nodes of a name, one after the other.
  pub given : List ℕ → Listing → V → V
  given key [] v = v
  given key ((name, node) ∷ l) v =
      given key l (if text_eq name key then from_string (text_of emit from_string node) v else v)

  abbrev pub given? : List ℕ → Listing → Option V → Option V
  given? key l none = none
  given? key l (some v) = some (given key l v)

  -- A node of another name does nothing to a variable.
  given_other :
      (key name : List ℕ) (node : Node) (o : Option V)
      → text_eq name key ≡ false
      → given? key ((name, node) ∷ []) o ≡ o
  unfolding given
  given_other key name node none h = refl
  given_other key name node (some v) h = rw h refl

  set_at_same :
      (key : List ℕ) (node : Node) (vars : Dict V)
      → lookup key (set_at emit from_string key node vars)
        ≡ given? key ((key, node) ∷ []) (lookup key vars)
  unfolding given
  set_at_same key node vars = elim (Option-cases (lookup key vars)) [
    | inl e ↦ rw (e, set_at) e
    | inr (v, e) ↦ rw (e, set_at) (rw (text_eq_refl key) (lookup-insert_self key _ vars))
  ]

  set_at_other :
      (key name : List ℕ) (node : Node) (vars : Dict V)
      → text_eq name key ≡ false
      → lookup key (set_at emit from_string name node vars) ≡ lookup key vars
  set_at_other key name node vars h = elim (Option-cases (lookup name vars)) [
    | inl e ↦ rw (e, set_at) refl
    | inr (v, e) ↦ rw (e, set_at) (lookup-insert key name _ vars ∙ rw h refl)
  ]

  lookup-set_at :
      (key name : List ℕ) (node : Node) (vars : Dict V)
      → lookup key (set_at emit from_string name node vars)
        ≡ given? key ((name, node) ∷ []) (lookup key vars)
  lookup-set_at key name node vars = elim (Bool-cases (text_eq name key)) [
    | inl h ↦
        subst
          (λ (k : List ℕ).
            lookup k (set_at emit from_string name node vars)
            ≡ given? k ((name, node) ∷ []) (lookup k vars))
          ((text_eq_iff name key).0 h) (set_at_same name node vars)
    | inr h ↦
        set_at_other key name node vars h ∙ sym (given_other key name node (lookup key vars) h)
  ]

  lookup-load_node :
      (c : ℕ) (cs name : List ℕ) (node : Node) (vars : Dict V)
      → lookup (c ∷ cs) (load_node emit from_string name node vars)
        ≡ given? (c ∷ cs) ((name, node) ∷ []) (lookup (c ∷ cs) vars)
  unfolding load_node
  lookup-load_node c cs [] node vars =
      sym (given_other (c ∷ cs) [] node (lookup (c ∷ cs) vars) refl)
  lookup-load_node c cs (d ∷ ds) node vars = lookup-set_at (c ∷ cs) (d ∷ ds) node vars

  given?-cons :
      (key name : List ℕ) (node : Node) (l : Listing) (o : Option V)
      → given? key l (given? key ((name, node) ∷ []) o) ≡ given? key ((name, node) ∷ l) o
  unfolding given
  given?-cons key name node l none = refl
  given?-cons key name node l (some v) = refl

  given?_nil : (key : List ℕ) (o : Option V) → o ≡ given? key [] o
  unfolding given
  given?_nil key none = refl
  given?_nil key (some v) = refl

  lookup-load_nodes :
      (c : ℕ) (cs : List ℕ) (l : Listing) (vars : Dict V)
      → lookup (c ∷ cs) (load_nodes emit from_string l vars)
        ≡ given? (c ∷ cs) l (lookup (c ∷ cs) vars)
  unfolding load_nodes
  lookup-load_nodes c cs [] vars = given?_nil (c ∷ cs) (lookup (c ∷ cs) vars)
  lookup-load_nodes c cs ((name, node) ∷ l) vars =
      lookup-load_nodes c cs l (load_node emit from_string name node vars)
      ∙ ap (given? (c ∷ cs) l) (lookup-load_node c cs name node vars)
      ∙ given?-cons (c ∷ cs) name node l (lookup (c ∷ cs) vars)

  -- When a name of the document does not fit the pattern, `LoadFromYaml` throws and has changed no
  -- variable. Otherwise it returns, and each variable with a name that is not empty is given the texts of the nodes of
  -- its name, one after the other in the order of the document, and no variable is created or removed.
  pub load_from_yaml-given :
      (c : ℕ) (cs : List ℕ) (root : Node) (vars : Dict V)
      → ((load_from_yaml emit from_string root vars).0
          ≡ (if all_valid (named [] root) then ok tt else thrown invalid_argument))
        × (lookup (c ∷ cs) (load_from_yaml emit from_string root vars).1 ≡ (
            if all_valid (named [] root)
            then given? (c ∷ cs) (named [] root) (lookup (c ∷ cs) vars)
            else lookup (c ∷ cs) vars))
  unfolding load_from_yaml
  load_from_yaml-given c cs root vars =
      rw (analyse-named [] root, load_from_yaml)
        (elim (Bool-cases (all_valid (named [] root))) [
          | inl h ↦ rw h (refl, lookup-load_nodes c cs (named [] root) vars)
          | inr h ↦ rw h (refl, refl)
        ])
