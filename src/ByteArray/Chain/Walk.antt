-- ===== src/ByteArray/Chain/Walk.antt =====
-- What the loops that walk the chain do, for a chain of equal nodes and a pointer inside it.
use lim_webserver.Base.{ℕ, zero, suc, ◌+◌, ◌-◌, ◌*◌, ◌≤◌, ◌<◌, ◌≡◌, refl, ap, ◌∙◌, arith}
use lim_webserver.Base.{some, List, [], ◌∷◌, ◌++◌, append_assoc, inl, inr}
use lim_webserver.Base.{
  length, get_or, set, take, drop, flatten, ltb, ltb→lt, lt→ltb, le→leb, gt→leb, ◌==◌, ==_iff,
  Bool-cases,
}
use lim_webserver.Base.{length-set, length-append, length-take, length-drop, take-append-drop}
use lim_webserver.Base.Outcome.{ok}
use lim_webserver.ByteArray.Chain.{Node, Pointer, next, overwrite, store, finish}
use lim_webserver.ByteArray.Chain.{write_loop}
use lim_webserver.ByteArray.Chain.Blocks.{Uniform, PointsAt, length-get_or, deref_lem, Uniform-set}
use lim_webserver.ByteArray.Chain.Blocks.{length-overwrite, take_store}
use mathlib.Core.Path.{subst}
use native.Mathlib.Decide.{dec_le}
use native.Mathlib.Nat.{lt_of_mul-lt-mul_right}

-- The node behind node `i`, at the first position past node `i`.
pub next_PointsAt :
    (b : ℕ) (nodes : List Node) (i pos : ℕ)
    → 0 < b
    → i < length nodes
    → pos ≡ suc i * b
    → PointsAt b (length nodes) pos (next nodes (some i))
unfolding next
next_PointsAt b nodes i pos hb h e = elim (Bool-cases (ltb (suc i) (length nodes))) [
  | inl t ↦ rw t (ltb→lt _ _ t, omega arith, omega arith)
  | inr f ↦ rw f (e ∙ ap (λ (k : ℕ). k * b) (ground arith))
]

pub finish_PointsAt :
    (b : ℕ) (nodes : List Node) (p : Pointer) (n : Node) (i npos size : ℕ)
    → 0 < b
    → 0 < size
    → i < length nodes
    → p.cur ≡ some i
    → p.pos ≡ i * b + npos
    → length n ≡ b
    → npos + size ≤ b
    → PointsAt b (length nodes) (p.pos + size) (finish nodes p n npos size).cur
unfolding finish
finish_PointsAt b nodes p n i npos size hb hs h ec ep en fits =
    elim (Bool-cases (length n == npos + size)) [
      | inl t ↦
          rw (t, ec) (next_PointsAt b nodes i (p.pos + size) hb h (omega (arith, (==_iff _ _).0 t)))
      | inr f ↦ rw (f, ec) (h, omega arith, ground arith)
    ]

-- A position past node `i` and inside the chain has a node behind node `i`.
pub inside_next : (b : ℕ) (count i pos : ℕ) → suc i * b < pos → pos ≤ count * b → suc i < count
inside_next b count i pos h k = lt_of_mul-lt-mul_right b (omega arith)

pub next-some :
    (nodes : List Node) (i : ℕ) → suc i < length nodes → next nodes (some i) ≡ some (suc i)
unfolding next
next-some nodes i h = rw (lt→ltb _ _ h)

-- A pointer at node `i`.
abbrev pub at : ℕ → ℕ → Pointer
at pos i = record { pos = pos; cur = some i }

module _ (b : ℕ) (nodes : List Node) (i npos : ℕ) (u : Uniform b nodes) where
  -- The node under the pointer, and the chain with `src` copied into it.
  abbrev pub here : Node
  here = get_or nodes i []

  abbrev pub stored : List ℕ → List Node
  stored src = set nodes i (overwrite npos src here)

  pub stored-Uniform : (src : List ℕ) → i < length nodes → Uniform b (stored src)
  stored-Uniform src h =
      Uniform-set b nodes i _ u (length-overwrite npos src here ∙ length-get_or b nodes i u h)

  pub stored_bytes :
      (src : List ℕ) (pos m : ℕ)
      → i < length nodes
      → pos ≡ i * b + npos
      → m ≡ pos + length src
      → npos + length src ≤ b
      → take m (flatten (stored src)) ≡ take pos (flatten nodes) ++ src
  stored_bytes src pos m h ep em fits = rw (em, ep) (take_store b nodes i npos src u h fits)

  pub write_loop_last :
      (ncap pos fuel x : ℕ) (xs : List ℕ)
      → i < length nodes
      → length (x ∷ xs) ≤ ncap
      → write_loop (suc fuel) nodes (at pos i) (x ∷ xs) npos ncap
        ≡ ok (stored (x ∷ xs), finish nodes (at pos i) here npos (length (x ∷ xs)))
  unfolding write_loop store
  write_loop_last ncap pos fuel x xs h fits = rw (le→leb _ _ fits, deref_lem nodes i h)

  pub write_loop_more :
      (ncap pos fuel x : ℕ) (xs : List ℕ)
      → suc i < length nodes
      → ncap < length (x ∷ xs)
      → write_loop (suc fuel) nodes (at pos i) (x ∷ xs) npos ncap
        ≡ write_loop fuel
            (stored (take ncap (x ∷ xs)))
            (at (pos + ncap) (suc i))
            (drop ncap (x ∷ xs))
            0
            b
  unfolding write_loop store
  write_loop_more ncap pos fuel x xs h over =
      rw
        (
          gt→leb _ _ over,
          deref_lem nodes i (omega arith),
          next-some nodes i h,
          deref_lem _ (suc i) h',
        )
        (ap
          (λ (k : ℕ).
            write_loop fuel (stored src) (at (pos + ncap) (suc i)) (drop ncap (x ∷ xs)) 0 k)
          (length-get_or b (stored src) (suc i) (stored-Uniform src (omega arith)) h'))
    where
      src : List ℕ
      src = take ncap (x ∷ xs)

      h' : suc i < length (stored src)
      h' = omega (arith, length-set nodes i (overwrite npos src here))

-- What a copy of `src` into the chain leaves: the bytes up to the pointer have `src` behind them.
pub record Written (b : ℕ) (nodes : List Node) (pos : ℕ) (src : List ℕ) (nodes' : List Node)
    (p' : Pointer) : Type 0 where
  pub uniform : Uniform b nodes'
  pub count : length nodes' ≡ length nodes
  pub moved : p'.pos ≡ pos + length src
  pub points : PointsAt b (length nodes') p'.pos p'.cur
  pub bytes : take p'.pos (flatten nodes') ≡ take pos (flatten nodes) ++ src

module _ (b : ℕ) (hb : 0 < b) where
  stored-Written :
      (nodes : List Node) (i npos pos : ℕ) (src : List ℕ) (u : Uniform b nodes)
      → i < length nodes
      → pos ≡ i * b + npos
      → npos + length src ≤ b
      → 0 < length src
      → Written b nodes pos src
          (stored b nodes i npos u src)
          (finish nodes (at pos i) (get_or nodes i []) npos (length src))
  unfolding finish
  stored-Written nodes i npos pos src u h ep fits hs = record {
    uniform = stored-Uniform b nodes i npos u src h;
    count = length-set nodes i _;
    moved = refl;
    points = rw (length-set nodes i (overwrite npos src (get_or nodes i []))) (
        finish_PointsAt b nodes (at pos i) _ i npos (length src) hb hs h refl ep
          (length-get_or b nodes i u h) fits);
    bytes = stored_bytes b nodes i npos u src pos _ h ep refl fits;
  }

  Written-trans :
      {nodes nodes' nodes'' : List Node} {p'' : Pointer} (pos pos' : ℕ) (src src' : List ℕ)
      → Uniform b nodes'
      → length nodes' ≡ length nodes
      → pos' ≡ pos + length src
      → take pos' (flatten nodes') ≡ take pos (flatten nodes) ++ src
      → Written b nodes' pos' src' nodes'' p''
      → Written b nodes pos (src ++ src') nodes'' p''
  Written-trans {nodes = nodes} pos pos' src src' u c e t w = record {
    uniform = w.uniform;
    count = w.count ∙ c;
    moved = omega (arith, w.moved, length-append src src');
    points = w.points;
    bytes = w.bytes ∙ cc (t, append_assoc (take pos (flatten nodes)) src src');
  }

  -- A copy of `src` at a pointer into the chain succeeds if the chain has room for it.
  pub write_loop-Written :
      (fuel : ℕ) (nodes : List Node) (src : List ℕ) (i npos ncap pos : ℕ)
      → Uniform b nodes
      → i < length nodes
      → pos ≡ i * b + npos
      → npos + ncap ≡ b
      → 0 < ncap
      → pos + length src ≤ length nodes * b
      → length src ≤ fuel
      → 0 < length src
      → (nodes' : List Node) × (p' : Pointer) × (write_loop fuel nodes (at pos i) src npos ncap
          ≡ ok (nodes', p'))
        × Written b nodes pos src nodes' p'
  write_loop-Written fuel nodes [] i npos ncap pos u h ep hn hc room hf hs = absurd (omega arith)
  write_loop-Written zero nodes (x ∷ xs) i npos ncap pos u h ep hn hc room hf hs =
      absurd (omega arith)
  write_loop-Written (suc fuel) nodes (x ∷ xs) i npos ncap pos u h ep hn hc room hf hs =
      elim (dec_le (length (x ∷ xs)) ncap) [
        | yes t ↦ (
          _,
          _,
          write_loop_last b nodes i npos u ncap pos fuel x xs h t,
          stored-Written nodes i npos pos (x ∷ xs) u h ep (omega arith) hs,
        )
        | no f ↦
            let src = take ncap (x ∷ xs) in
            let rest = drop ncap (x ∷ xs) in
            let len_src : length src ≡ ncap = omega (arith, length-take ncap (x ∷ xs)) in
            let len_rest : length rest ≡ length (x ∷ xs) - ncap = length-drop ncap (x ∷ xs) in
            let count : length (stored b nodes i npos u src) ≡ length nodes =
              length-set nodes i _ in
            let h' : suc i < length nodes =
              inside_next b (length nodes) i (pos + length (x ∷ xs)) (omega arith) room in
            let (nodes', p', e, w) =
              write_loop-Written fuel (stored b nodes i npos u src) rest (suc i) 0 b (pos + ncap)
                (stored-Uniform b nodes i npos u src h) (omega arith) (omega arith) (omega arith) hb
                (rw count (omega arith)) (omega arith) (omega arith) in
            (
              nodes',
              p',
              write_loop_more b nodes i npos u ncap pos fuel x xs h' (omega arith) ∙ e,
              subst (λ zs. Written b nodes pos zs nodes' p') (take-append-drop ncap (x ∷ xs))
                  (Written-trans pos (pos + ncap) src rest (stored-Uniform b nodes i npos u src h)
                    count (omega arith)
                    (stored_bytes b nodes i npos u src pos (pos + ncap) h ep (omega arith)
                      (omega arith))
                    w),
            )
      ]
