-- ===== src/Net/Fd/Table.antt =====
-- The buckets of `FdManager` (spike/coroutine/FdInfo.cpp) stand for one map from descriptors.
use lim_webserver.Base.{
  ℕ, ◌≡◌, refl, sym, ap, ◌∙◌, arith, true, ◌==◌, if◌then◌else◌, inl, inr, Bool-cases,
}
use lim_webserver.Base.{Option, none, some, Option-cases}
use lim_webserver.Net.Fd.{
  FdManager, bucket_idx, get_slot, get_info, data_of, put, closing, insert_info, del_info,
}

put-slot :
    (fd k : ℕ) (info : Option ℕ) (m : FdManager)
    → data_of (put fd info m (bucket_idx k) k) ≡ (if k == fd then info else get_info k m)
unfolding get_info get_slot
put-slot fd k info m = elim (Bool-cases (k == fd)) [
  | inl t ↦
      let e : bucket_idx k ≡ bucket_idx fd = ap bucket_idx (same t) in
      let b : (bucket_idx k == bucket_idx fd) ≡ true = equal (bucket_idx k) (bucket_idx fd) e in
      rw (t, b)
  | inr f ↦ elim (Bool-cases (bucket_idx k == bucket_idx fd)) [
    | inl b ↦ rw (b, f)
    | inr b ↦ rw (b, f)
  ]
]
  where
    same : (k == fd) ≡ true → k ≡ fd
    same t = ground arith

    equal : (a b : ℕ) → a ≡ b → (a == b) ≡ true
    equal a b e = ground arith

-- After `insert(fd, info)` the descriptor `fd` has `info`, every other descriptor has what it had,
-- and what `fd` had is closed.
pub get_info-insert_info :
    (fd k info : ℕ) (m : FdManager)
    → (get_info k (insert_info fd info m) ≡ (if k == fd then some info else get_info k m))
      × ((insert_info fd info m).closed ≡ closing (get_info fd m) m.closed)
unfolding insert_info get_info get_slot
get_info-insert_info fd k info m = (put-slot fd k (some info) m, refl)

del_missing : (fd : ℕ) (m : FdManager) → get_slot fd m ≡ none → del_info fd m ≡ m
unfolding del_info
del_missing fd m n =
    ap
      (λ (o : Option (Option ℕ)). elim o as (λ _. FdManager) [
        | none ↦ m
        | some info ↦ record { buckets = put fd none m; closed = closing info m.closed }
      ])
      n

del_found :
    (fd : ℕ) (info : Option ℕ) (m : FdManager)
    → get_slot fd m ≡ some info
    → del_info fd m ≡ record { buckets = put fd none m; closed = closing info m.closed }
unfolding del_info
del_found fd info m e =
    ap
      (λ (o : Option (Option ℕ)). elim o as (λ _. FdManager) [
        | none ↦ m
        | some info ↦ record { buckets = put fd none m; closed = closing info m.closed }
      ])
      e

missing :
    (fd k : ℕ) (m : FdManager)
    → get_slot fd m ≡ none
    → get_info k m ≡ (if k == fd then none else get_info k m)
unfolding get_info
missing fd k m n = elim (Bool-cases (k == fd)) [
  | inl t ↦ rw t (ap (λ (x : ℕ). data_of (get_slot x m)) (same t) ∙ ap data_of n)
  | inr f ↦ rw f
]
  where
    same : (k == fd) ≡ true → k ≡ fd
    same t = ground arith

closed_by :
    (fd : ℕ) (m : FdManager)
    → closing (data_of (get_slot fd m)) m.closed ≡ closing (get_info fd m) m.closed
unfolding get_info
closed_by fd m = refl

emptied :
    (fd k : ℕ) (info : Option ℕ) (m : FdManager)
    → get_info k (record { buckets = put fd none m; closed = closing info m.closed })
      ≡ (if k == fd then none else get_info k m)
unfolding get_info get_slot
emptied fd k info m = put-slot fd k none m

-- After `del(fd)` the descriptor `fd` has nothing, every other descriptor has what it had, and what
-- `fd` had is closed.
pub get_info-del_info :
    (fd k : ℕ) (m : FdManager)
    → (get_info k (del_info fd m) ≡ (if k == fd then none else get_info k m))
      × ((del_info fd m).closed ≡ closing (get_info fd m) m.closed)
get_info-del_info fd k m = elim (Option-cases (get_slot fd m)) [
  | inl n ↦ (
    ap (get_info k) (del_missing fd m n) ∙ missing fd k m n,
    ap (λ (x : FdManager). x.closed) (del_missing fd m n)
        ∙ sym (ap (λ (o : Option (Option ℕ)). closing (data_of o) m.closed) n)
        ∙ closed_by fd m,
  )
  | inr (info, e) ↦ (
    ap (get_info k) (del_found fd info m e) ∙ emptied fd k info m,
    ap (λ (x : FdManager). x.closed) (del_found fd info m e)
        ∙ sym (ap (λ (o : Option (Option ℕ)). closing (data_of o) m.closed) e)
        ∙ closed_by fd m,
  )
]
