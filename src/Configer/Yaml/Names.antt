-- ===== src/Configer/Yaml/Names.antt =====
-- The names that `recursiveAnalysis` gives to the nodes of a document, and when it refuses one
-- (spike/base/Configer.cpp).
use lim_webserver.Base.{
  ℕ, ◌≡◌, refl, ◌∙◌, arith, if◌then◌else◌, Bool, true, false, ◌&&◌, List, [], ◌∷◌, ◌++◌, Bool-cases,
  inl, inr,
}
use lim_webserver.Base.Outcome.{Outcome, ok, thrown, invalid_argument, ◌>>=◌}
use lim_webserver.Configer.Registry.{is_valid, no_break}
use lim_webserver.Configer.Yaml.{
  Node, Entries, scalar, plain, mapping, no_entries, entry, joined, Listing, analyse,
  analyse_entries,
}

-- Every node with its name, a node before those below it.
mutual
  pub named : List ℕ → Node → Listing
  named prefix (scalar text) = (prefix, scalar text) ∷ []
  named prefix (plain n) = (prefix, plain n) ∷ []
  named prefix (mapping es) = (prefix, mapping es) ∷ named_entries prefix es

  pub named_entries : List ℕ → Entries → Listing
  named_entries prefix no_entries = []
  named_entries prefix (entry key node es) =
      named (joined prefix key) node ++ named_entries prefix es

pub all_valid : Listing → Bool
all_valid [] = true
all_valid ((name, node) ∷ l) = is_valid name && all_valid l

abbrev checked : Listing → Outcome Listing
checked l = if all_valid l then ok l else thrown invalid_argument

abbrev both : Outcome Listing → Outcome Listing → Outcome Listing
both r s = do x ← r; y ← s; ok (x ++ y)

all_valid-append : (l l' : Listing) → all_valid (l ++ l') ≡ (all_valid l && all_valid l')
unfolding all_valid
all_valid-append [] l' = refl
all_valid-append ((name, node) ∷ l) l' = ground (arith, all_valid-append l l')

checked-append : (l l' : Listing) → both (checked l) (checked l') ≡ checked (l ++ l')
checked-append l l' = rw (all_valid-append l l') (elim (Bool-cases (all_valid l)) [
  | inl e ↦ elim (Bool-cases (all_valid l')) [ inl e' ↦ rw (e, e') refl | inr e' ↦ rw (e, e') refl ]
  | inr e ↦ rw e refl
])

one :
    (prefix : List ℕ) (node : Node)
    → (if is_valid prefix then ok ((prefix, node) ∷ []) else thrown invalid_argument)
      ≡ checked ((prefix, node) ∷ [])
unfolding all_valid
one prefix node = ground arith

above :
    (prefix : List ℕ) (node : Node) (l : Listing)
    → (if is_valid prefix
        then checked l >>= (λ l. ok ((prefix, node) ∷ l))
        else thrown invalid_argument)
      ≡ checked ((prefix, node) ∷ l)
unfolding all_valid
above prefix node l = elim (Bool-cases (is_valid prefix)) [
  | inl e ↦ elim (Bool-cases (all_valid l)) [ inl e' ↦ rw (e, e') refl | inr e' ↦ rw (e, e') refl ]
  | inr e ↦ rw e refl
]

mutual
  unfolding analyse analyse_entries named named_entries all_valid

  analyse-checked :
      (prefix : List ℕ) (node : Node) → analyse prefix node ≡ checked (named prefix node)
  analyse-checked prefix (scalar text) = one prefix (scalar text)
  analyse-checked prefix (plain n) = one prefix (plain n)
  analyse-checked prefix (mapping es) =
      rw (analyse_entries-checked prefix es) (above prefix (mapping es) (named_entries prefix es))

  analyse_entries-checked :
      (prefix : List ℕ) (es : Entries)
      → analyse_entries prefix es ≡ checked (named_entries prefix es)
  analyse_entries-checked prefix no_entries = refl
  analyse_entries-checked prefix (entry key node es) =
      rw (analyse-checked (joined prefix key) node, analyse_entries-checked prefix es)
        (checked-append (named (joined prefix key) node) (named_entries prefix es))

-- `recursiveAnalysis` lists every node under its name, the keys on the way to it joined by points, each node before
-- those below it, if all these names fit the pattern, and throws otherwise.
pub analyse-named :
    (prefix : List ℕ) (node : Node)
    → analyse prefix node
      ≡ (if all_valid (named prefix node) then ok (named prefix node) else thrown invalid_argument)
analyse-named prefix node = analyse-checked prefix node

-- No key holds the end of a line.
mutual
  pub one_line : Node → Bool
  one_line (scalar text) = true
  one_line (plain n) = true
  one_line (mapping es) = one_line_entries es

  pub one_line_entries : Entries → Bool
  one_line_entries no_entries = true
  one_line_entries (entry key node es) = no_break key && (one_line node && one_line_entries es)

no_break-append :
    (cs key : List ℕ)
    → no_break cs ≡ true
    → no_break key ≡ true
    → no_break (cs ++ b'.' ∷ key) ≡ true
unfolding no_break
no_break-append [] key h k = k
no_break-append (c ∷ cs) key h k = ground (arith, no_break-append cs key)

joined-valid :
    (c : ℕ) (cs key : List ℕ)
    → is_valid (c ∷ cs) ≡ true
    → no_break key ≡ true
    → is_valid (joined (c ∷ cs) key) ≡ true
unfolding is_valid joined
joined-valid c cs key h k = ground (arith, no_break-append cs key)

and_true : (a b : Bool) → (a && b) ≡ true → (a ≡ true) × (b ≡ true)
and_true true b h = (refl, h)
and_true false b h = absurd (cc h)

mutual
  unfolding one_line one_line_entries named named_entries all_valid joined

  named-all_valid :
      (c : ℕ) (cs : List ℕ) (node : Node)
      → is_valid (c ∷ cs) ≡ true
      → one_line node ≡ true
      → all_valid (named (c ∷ cs) node) ≡ true
  named-all_valid c cs (scalar text) v h = ground arith
  named-all_valid c cs (plain n) v h = ground arith
  named-all_valid c cs (mapping es) v h = rw v (entries_all_valid c cs es v h)

  entries_all_valid :
      (c : ℕ) (cs : List ℕ) (es : Entries)
      → is_valid (c ∷ cs) ≡ true
      → one_line_entries es ≡ true
      → all_valid (named_entries (c ∷ cs) es) ≡ true
  entries_all_valid c cs no_entries v h = refl
  entries_all_valid c cs (entry key node es) v h =
      let (k, rest) = and_true (no_break key) (one_line node && one_line_entries es) h in
      let (n, others) = and_true (one_line node) (one_line_entries es) rest in
      all_valid-append (named (joined (c ∷ cs) key) node) (named_entries (c ∷ cs) es)
      ∙ rw (named-all_valid c (cs ++ b'.' ∷ key) node (joined-valid c cs key v k) n)
          (entries_all_valid c cs es v others)

-- Below a name that fits the pattern and is not empty every key is accepted, whatever characters it has, but for ends of
-- lines: only the first character of the name is looked at.
pub analyse-accepts :
    (c : ℕ) (cs : List ℕ) (node : Node)
    → is_valid (c ∷ cs) ≡ true
    → one_line node ≡ true
    → analyse (c ∷ cs) node ≡ ok (named (c ∷ cs) node)
analyse-accepts c cs node v h =
    analyse-checked (c ∷ cs) node ∙ rw (named-all_valid c cs node v h) refl
