-- ===== src/ByteArray/Chain/Scan.antt =====
-- The loops that walk the chain without changing it: they read, describe or step over the bytes
-- from the pointer on.
use lim_webserver.Base.{ℕ, zero, suc, ◌+◌, ◌-◌, ◌*◌, ◌≤◌, ◌<◌, ◌≡◌, refl, ap, ◌∙◌, arith}
use lim_webserver.Base.{none, some, List, [], ◌∷◌, ◌++◌, append-nil}
use lim_webserver.Base.{length, get_or, take, drop, flatten, le→leb, gt→leb, take_add, drop-drop}
use lim_webserver.Base.Outcome.{ok}
use lim_webserver.ByteArray.Chain.{Node, Pointer, Iovec, read_loop, buffers_loop, advance_loop}
use lim_webserver.ByteArray.Chain.{finish}
use lim_webserver.ByteArray.Chain.Blocks.{Uniform, PointsAt, length-get_or, deref_lem, drop_node}
use lim_webserver.ByteArray.Chain.Walk.{at, next-some, finish_PointsAt, inside_next}
use native.Mathlib.Decide.{dec_le}

-- Where a walk of `size` bytes from `pos` ends.
pub record Moved (b : ℕ) (nodes : List Node) (pos size : ℕ) (p' : Pointer) : Type 0 where
  pub moved : p'.pos ≡ pos + size
  pub points : PointsAt b (length nodes) p'.pos p'.cur

-- The bytes that an `iovec` describes.
pub gather : List Node → Iovec → List ℕ
gather nodes v = elim v.node [ none ↦ [] | some i ↦ take v.len (drop v.offset (get_or nodes i [])) ]

abbrev pub gather_all : List Node → List Iovec → List ℕ
gather_all nodes [] = []
gather_all nodes (v ∷ vs) = gather nodes v ++ gather_all nodes vs

module _ (b : ℕ) (hb : 0 < b) (nodes : List Node) (u : Uniform b nodes) where
  -- The first part of a block of `k + 1` bytes lies in the node, the rest behind it.
  two_parts :
      (i npos ncap pos k : ℕ)
      → i < length nodes
      → pos ≡ i * b + npos
      → npos + ncap ≡ b
      → ncap ≤ suc k
      → take ncap (drop npos (get_or nodes i []))
          ++ take (suc k - ncap) (drop (pos + ncap) (flatten nodes))
        ≡ take (suc k) (drop pos (flatten nodes))
  two_parts i npos ncap pos k h ep hn le = cc (
    ep,
    drop_node b nodes i npos ncap u h (omega arith),
    take_add ncap (suc k - ncap) (suc k) (drop pos (flatten nodes)) (omega arith),
    drop-drop ncap pos (flatten nodes),
  )

  one_part :
      (i npos ncap pos k : ℕ)
      → i < length nodes
      → pos ≡ i * b + npos
      → npos + ncap ≡ b
      → k ≤ ncap
      → take k (drop npos (get_or nodes i [])) ≡ take k (drop pos (flatten nodes))
  one_part i npos ncap pos k h ep hn le = cc (ep, drop_node b nodes i npos k u h (omega arith))

  finish-Moved :
      (i npos ncap pos k : ℕ)
      → i < length nodes
      → pos ≡ i * b + npos
      → npos + ncap ≡ b
      → suc k ≤ ncap
      → Moved b nodes pos (suc k) (finish nodes (at pos i) (get_or nodes i []) npos (suc k))
  unfolding finish
  finish-Moved i npos ncap pos k h ep hn fits = record {
    moved = refl;
    points =
        finish_PointsAt b nodes (at pos i) _ i npos (suc k) hb (omega arith) h refl ep
          (length-get_or b nodes i u h) (omega arith);
  }

  Moved-trans :
      {pos ncap k : ℕ} {p' : Pointer}
      → ncap ≤ suc k
      → Moved b nodes (pos + ncap) (suc k - ncap) p'
      → Moved b nodes pos (suc k) p'
  Moved-trans h m = record { moved = omega (arith, m.moved); points = m.points }

  -- The read loop copies the bytes from the pointer on, and moves the pointer past them.
  pub read_loop_lem :
      (fuel size i npos ncap pos : ℕ)
      → i < length nodes
      → pos ≡ i * b + npos
      → npos + ncap ≡ b
      → 0 < ncap
      → pos + size ≤ length nodes * b
      → size ≤ fuel
      → (p' : Pointer) × (read_loop fuel nodes (at pos i) size npos ncap
          ≡ ok (take size (drop pos (flatten nodes)), p'))
        × Moved b nodes pos size p'
  unfolding read_loop
  read_loop_lem fuel zero i npos ncap pos h ep hn hc room hf =
      (at pos i, refl, record { moved = omega arith; points = omega arith })
  read_loop_lem zero (suc k) i npos ncap pos h ep hn hc room hf = absurd (omega arith)
  read_loop_lem (suc fuel) (suc k) i npos ncap pos h ep hn hc room hf = elim (dec_le (suc k) ncap) [
    | yes t ↦ (
      finish nodes (at pos i) (get_or nodes i []) npos (suc k),
      rw (le→leb _ _ t, deref_lem nodes i h) (rw (one_part i npos ncap pos (suc k) h ep hn t)),
      finish-Moved i npos ncap pos k h ep hn t,
    )
    | no f ↦
        let h' : suc i < length nodes =
          inside_next b (length nodes) i (pos + suc k) (omega arith) room in
        let (p', e, m) =
          read_loop_lem fuel (suc k - ncap) (suc i) 0 b (pos + ncap) h' (omega arith) (omega arith)
            hb (omega arith) (omega arith) in
        (
          p',
          rw
              (
                gt→leb (suc k) ncap (omega arith),
                deref_lem nodes i h,
                next-some nodes i h',
                deref_lem nodes (suc i) h',
              )
              (rw (length-get_or b nodes (suc i) u h', read_loop, e)
                (rw (two_parts i npos ncap pos k h ep hn (omega arith)))),
          Moved-trans (omega arith) m,
        )
  ]

  -- `addWritePosition` and `addReadPosition` step over `len` bytes of the chain.
  pub advance_loop_lem :
      (fuel len i npos ncap pos : ℕ)
      → i < length nodes
      → pos ≡ i * b + npos
      → npos + ncap ≡ b
      → 0 < ncap
      → pos + len ≤ length nodes * b
      → len ≤ fuel
      → (p' : Pointer) × (advance_loop fuel nodes (at pos i) len npos ncap ≡ ok p')
        × Moved b nodes pos len p'
  unfolding advance_loop
  advance_loop_lem fuel zero i npos ncap pos h ep hn hc room hf =
      (at pos i, refl, record { moved = omega arith; points = omega arith })
  advance_loop_lem zero (suc k) i npos ncap pos h ep hn hc room hf = absurd (omega arith)
  advance_loop_lem (suc fuel) (suc k) i npos ncap pos h ep hn hc room hf =
      elim (dec_le (suc k) ncap) [
        | yes t ↦ (
          finish nodes (at pos i) (get_or nodes i []) npos (suc k),
          rw (le→leb _ _ t, deref_lem nodes i h),
          finish-Moved i npos ncap pos k h ep hn t,
        )
        | no f ↦
            let h' : suc i < length nodes =
              inside_next b (length nodes) i (pos + suc k) (omega arith) room in
            let (p', e, m) =
              advance_loop_lem fuel (suc k - ncap) (suc i) 0 b (pos + ncap) h' (omega arith)
                (omega arith) hb (omega arith) (omega arith) in
            (
              p',
              rw
                  (
                    gt→leb (suc k) ncap (omega arith),
                    next-some nodes i h',
                    deref_lem nodes (suc i) h',
                  )
                  (ap
                      (λ (c : ℕ).
                        advance_loop fuel nodes (at (pos + ncap) (suc i)) (suc k - ncap) 0 c)
                      (length-get_or b nodes (suc i) u h')
                    ∙ e),
              Moved-trans (omega arith) m,
            )
      ]

  -- The buffers describe the bytes from the pointer on.
  pub buffers_loop_lem :
      (fuel len i npos ncap pos : ℕ)
      → i < length nodes
      → pos ≡ i * b + npos
      → npos + ncap ≡ b
      → 0 < ncap
      → pos + len ≤ length nodes * b
      → len ≤ fuel
      → (vs : List Iovec) × (buffers_loop fuel nodes (some i) len npos ncap ≡ ok vs)
        × (gather_all nodes vs ≡ take len (drop pos (flatten nodes)))
  unfolding buffers_loop gather
  buffers_loop_lem fuel zero i npos ncap pos h ep hn hc room hf = ([], refl, refl)
  buffers_loop_lem zero (suc k) i npos ncap pos h ep hn hc room hf = absurd (omega arith)
  buffers_loop_lem (suc fuel) (suc k) i npos ncap pos h ep hn hc room hf =
      elim (dec_le (suc k) ncap) [
        | yes t ↦ (
          record { node = some i; offset = npos; len = suc k } ∷ [],
          rw (le→leb _ _ t),
          append-nil _ ∙ one_part i npos ncap pos (suc k) h ep hn t,
        )
        | no f ↦
            let h' : suc i < length nodes =
              inside_next b (length nodes) i (pos + suc k) (omega arith) room in
            let (vs, e, g) =
              buffers_loop_lem fuel (suc k - ncap) (suc i) 0 b (pos + ncap) h' (omega arith)
                (omega arith) hb (omega arith) (omega arith) in
            (
              record { node = some i; offset = npos; len = ncap } ∷ vs,
              rw
                  (
                    gt→leb (suc k) ncap (omega arith),
                    next-some nodes i h',
                    deref_lem nodes (suc i) h',
                  )
                  (rw (length-get_or b nodes (suc i) u h', buffers_loop, e)),
              rw g (two_parts i npos ncap pos k h ep hn (omega arith)),
            )
      ]
