-- ===== src/ByteArray/Chain/Blocks.antt =====
-- The chain of equal nodes as one run of bytes: where an offset lies, and what a copy into or out
-- of one node does to the run.
use lim_webserver.Base.{ℕ, zero, suc, ◌+◌, ◌-◌, ◌*◌, ◌%◌, ◌≤◌, ◌<◌, ◌≡◌, refl, ap, ◌∙◌, arith}
use lim_webserver.Base.{Option, none, some, List, [], ◌∷◌, ◌++◌, append_assoc}
use lim_webserver.Base.{length, get_or, set, take, drop, replicate, flatten}
use lim_webserver.Base.{
  length-append, length-replicate, take_append, drop_append, take_past, drop_past,
}
use lim_webserver.Base.{length-drop}
use lim_webserver.Base.Outcome.{ok}
use lim_webserver.ByteArray.Chain.{Node, deref, overwrite}
use native.Mathlib.Nat.{add-mul-mod_self_right, mod-eq_of_lt}

-- Every node has `b` bytes.
abbrev pub Uniform : ℕ → List Node → Type 0
Uniform b [] = Unit {0}
Uniform b (n ∷ nodes) = (length n ≡ b) × Uniform b nodes

-- The pointer at `pos` is the node that holds `pos`, and null at the end of the chain.
abbrev pub PointsAt : ℕ → ℕ → ℕ → Option ℕ → Type 0
PointsAt b count pos none = pos ≡ count * b
PointsAt b count pos (some i) = (i < count) × (i * b ≤ pos) × (pos < i * b + b)

pub length-flatten :
    (b : ℕ) (nodes : List Node) → Uniform b nodes → length (flatten nodes) ≡ length nodes * b
length-flatten b [] u = omega arith
length-flatten b (n ∷ nodes) (e, u) =
    omega (arith, length-append n (flatten nodes), length-flatten b nodes u)

pub Uniform-replicate : (b c junk : ℕ) → Uniform b (replicate c (replicate b junk))
Uniform-replicate b zero junk = tt
Uniform-replicate b (suc c) junk = (length-replicate b junk, Uniform-replicate b c junk)

pub Uniform-append :
    (b : ℕ) (ms ns : List Node) → Uniform b ms → Uniform b ns → Uniform b (ms ++ ns)
Uniform-append b [] ns u v = v
Uniform-append b (m ∷ ms) ns (e, u) v = (e, Uniform-append b ms ns u v)

pub flatten-append : (ms ns : List Node) → flatten (ms ++ ns) ≡ flatten ms ++ flatten ns
flatten-append [] ns = refl
flatten-append (m ∷ ms) ns = rw (flatten-append ms ns, append_assoc)

pub Uniform-set :
    (b : ℕ) (nodes : List Node) (i : ℕ) (n : Node)
    → Uniform b nodes
    → length n ≡ b
    → Uniform b (set nodes i n)
Uniform-set b [] i n u e = tt
Uniform-set b (m ∷ nodes) zero n (_, u) e = (e, u)
Uniform-set b (m ∷ nodes) (suc i) n (d, u) e = (d, Uniform-set b nodes i n u e)

pub length-get_or :
    (b : ℕ) (nodes : List Node) (i : ℕ)
    → Uniform b nodes
    → i < length nodes
    → length (get_or nodes i []) ≡ b
length-get_or b [] i u h = absurd (omega arith)
length-get_or b (n ∷ nodes) zero (e, u) h = e
length-get_or b (n ∷ nodes) (suc i) (e, u) h = length-get_or b nodes i u (omega arith)

pub deref_lem :
    (nodes : List Node) (i : ℕ) → i < length nodes → deref nodes (some i) ≡ ok (get_or nodes i [])
unfolding deref
deref_lem [] i h = absurd (omega arith)
deref_lem (n ∷ nodes) zero h = refl
deref_lem (n ∷ nodes) (suc i) h = deref_lem nodes i (omega arith)

-- The offset of a position in its node.
pub mod_block : (b i pos : ℕ) → i * b ≤ pos → pos < i * b + b → pos % b ≡ pos - i * b
mod_block b i pos lo hi =
    ap (λ (k : ℕ). k % b) split
    ∙ add-mul-mod_self_right (pos - i * b) i b
    ∙ mod-eq_of_lt (omega arith)
  where
    split : pos ≡ pos - i * b + i * b
    split = omega arith

pub length-overwrite : (npos : ℕ) (src n : List ℕ) → length (overwrite npos src n) ≡ length n
unfolding overwrite
length-overwrite zero [] n = refl
length-overwrite zero (b ∷ src) [] = refl
length-overwrite zero (b ∷ src) (x ∷ n) = ap suc (length-overwrite zero src n)
length-overwrite (suc k) src [] = refl
length-overwrite (suc k) src (x ∷ n) = ap suc (length-overwrite k src n)

take-overwrite :
    (npos m : ℕ) (src n : List ℕ)
    → m ≡ npos + length src
    → m ≤ length n
    → take m (overwrite npos src n) ≡ take npos n ++ src
unfolding overwrite
take-overwrite zero zero [] n e h = refl
take-overwrite zero (suc m) [] n e h = absurd (omega arith)
take-overwrite zero m (b ∷ src) [] e h = absurd (omega arith)
take-overwrite zero zero (b ∷ src) (x ∷ n) e h = absurd (omega arith)
take-overwrite zero (suc m) (b ∷ src) (x ∷ n) e h =
    ap (λ zs. b ∷ zs) (take-overwrite zero m src n (omega arith) (omega arith))
take-overwrite (suc k) m src [] e h = absurd (omega arith)
take-overwrite (suc k) zero src (x ∷ n) e h = absurd (omega arith)
take-overwrite (suc k) (suc m) src (x ∷ n) e h =
    ap (λ zs. x ∷ zs) (take-overwrite k m src n (omega arith) (omega arith))

-- A copy into node `i` ends the run of bytes up to its end.
pub take_store :
    (b : ℕ) (nodes : List Node) (i npos : ℕ) (src : List ℕ)
    → Uniform b nodes
    → i < length nodes
    → npos + length src ≤ b
    → take
        (i * b + npos + length src)
        (flatten (set nodes i (overwrite npos src (get_or nodes i []))))
      ≡ take (i * b + npos) (flatten nodes) ++ src
take_store b [] i npos src u h fits = absurd (omega arith)
take_store b (n ∷ nodes) zero npos src (e, u) h fits =
    take_append (overwrite npos src n) (flatten nodes) (zero * b + npos + length src)
      (omega (arith, length-overwrite npos src n))
    ∙ take-overwrite npos (zero * b + npos + length src) src n (omega arith) (omega arith)
    ∙ ap (λ zs. zs ++ src) (ap (λ (k : ℕ). take k n) at_start ∙ back)
  where
    at_start : npos ≡ zero * b + npos
    at_start = omega arith

    back : take (zero * b + npos) n ≡ take (zero * b + npos) (n ++ flatten nodes)
    back = cc (take_append n (flatten nodes) (zero * b + npos) (omega arith))
take_store b (n ∷ nodes) (suc i) npos src (e, u) h fits =
    take_past n _ (suc i * b + npos + length src) (i * b + npos + length src) (omega arith)
    ∙ ap (λ zs. n ++ zs) (take_store b nodes i npos src u (omega arith) fits)
    ∙ cc (append_assoc n (take (i * b + npos) (flatten nodes)) src, past)
  where
    past : take (suc i * b + npos) (n ++ flatten nodes) ≡ n ++ take (i * b + npos) (flatten nodes)
    past = take_past n _ (suc i * b + npos) (i * b + npos) (omega arith)

-- What lies in node `i` from `npos` on is the run of bytes from there on.
pub drop_node :
    (b : ℕ) (nodes : List Node) (i npos k : ℕ)
    → Uniform b nodes
    → i < length nodes
    → npos + k ≤ b
    → take k (drop npos (get_or nodes i [])) ≡ take k (drop (i * b + npos) (flatten nodes))
drop_node b [] i npos k u h fits = absurd (omega arith)
drop_node b (n ∷ nodes) zero npos k (e, u) h fits = rw zero_mul (
    rw (drop_append n (flatten nodes) npos (omega arith))
      (cc (take_append (drop npos n) (flatten nodes) k (omega (arith, length-drop npos n)))))
  where
    zero_mul : zero * b + npos ≡ npos
    zero_mul = omega arith
drop_node b (n ∷ nodes) (suc i) npos k (e, u) h fits = cc (
  drop_node b nodes i npos k u (omega arith) fits,
  drop_past n (flatten nodes) (suc i * b + npos) (i * b + npos) (omega arith),
)
