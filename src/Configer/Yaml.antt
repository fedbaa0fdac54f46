-- ===== src/Configer/Yaml.antt =====
-- `Configer::LoadFromYaml` (spike/base/Configer.cpp): the names of the nodes of a document and what they do to the
-- variables. A document is what the code sees of it; the text of a node that is no scalar is a parameter, and so is
-- `fromString` of a variable.
pub mod Names
pub mod Load
use lim_webserver.Base.{ℕ, if◌then◌else◌, Option, none, some, List, [], ◌∷◌, ◌++◌}
use lim_webserver.Base.Outcome.{Outcome, ok, thrown, fault, stuck, invalid_argument, ◌>>=◌}
use lim_webserver.Base.Dict.{Dict, lookup, insert}
use lim_webserver.Configer.Registry.{is_valid}

-- `plain` is a sequence or null.
mutual
  pub data Node : Type 0 where
    scalar : List ℕ → Node
    plain : ℕ → Node
    mapping : Entries → Node

  pub data Entries : Type 0 where
    no_entries : Entries
    entry : List ℕ → Node → Entries → Entries

-- The name of a node below another.
unfoldable pub joined : List ℕ → List ℕ → List ℕ
joined [] key = key
joined (c ∷ cs) key = (c ∷ cs) ++ b'.' ∷ key

abbrev pub Listing : Type 0
Listing = List (List ℕ × Node)

unfoldable mutual
  -- `recursiveAnalysis`: what it appends to its output.
  pub analyse : List ℕ → Node → Outcome Listing
  analyse prefix (scalar text) =
      if is_valid prefix then ok ((prefix, scalar text) ∷ []) else thrown invalid_argument
  analyse prefix (plain n) =
      if is_valid prefix then ok ((prefix, plain n) ∷ []) else thrown invalid_argument
  analyse prefix (mapping es) =
      let below = analyse_entries prefix es in
      if is_valid prefix
      then below >>= (λ l. ok ((prefix, mapping es) ∷ l))
      else thrown invalid_argument

  -- Its loop.
  pub analyse_entries : List ℕ → Entries → Outcome Listing
  analyse_entries prefix no_entries = ok []
  analyse_entries prefix (entry key node es) = do
    l ← analyse (joined prefix key) node
    rest ← analyse_entries prefix es
    ok (l ++ rest)

module _ {V : Type 0} (emit : Node → List ℕ) (from_string : List ℕ → V → V) where
  unfoldable pub text_of : Node → List ℕ
  text_of (scalar text) = text
  text_of (plain n) = emit (plain n)
  text_of (mapping es) = emit (mapping es)

  abbrev pub set_at : List ℕ → Node → Dict V → Dict V
  set_at key node vars = elim (lookup key vars) [
    | none ↦ vars
    | some v ↦ insert key (from_string (text_of node) v) vars
  ]

  -- One round of the loop of `LoadFromYaml`.
  unfoldable pub load_node : List ℕ → Node → Dict V → Dict V
  load_node [] node vars = vars
  load_node (c ∷ key) node vars = set_at (c ∷ key) node vars

  pub load_nodes : Listing → Dict V → Dict V
  load_nodes [] vars = vars
  load_nodes ((key, node) ∷ l) vars = load_nodes l (load_node key node vars)

  -- `LoadFromYaml`: how it ends, and the variables then, also when it throws.
  pub load_from_yaml : Node → Dict V → Outcome (Unit {0}) × Dict V
  load_from_yaml root vars = elim (analyse [] root) [
    | ok l ↦ (ok tt, load_nodes l vars)
    | thrown e ↦ (thrown e, vars)
    | fault ↦ (fault, vars)
    | stuck ↦ (stuck, vars)
  ]
