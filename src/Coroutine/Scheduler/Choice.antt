-- ===== src/Coroutine/Scheduler/Choice.antt =====
-- Which processor `Scheduler::addTask` (spike/coroutine/Scheduler.cpp) chooses.
use lim_webserver.Base.{
  ℕ, zero, suc, ◌+◌, ◌-◌, ◌%◌, ◌<◌, ◌≡◌, sym, ap, ◌∙◌, arith, Bool, true, false, if◌then◌else◌,
  Option, none, some, List, length, get_elem?,
}
use native.Mathlib.Decide.{dec_le}
use native.Mathlib.Nat.{mod-add-mod, mod-eq_of_lt, add-mod_right, mod-lt}
use lim_webserver.Coroutine.Scheduler.{Candidate, is_active, is_own, scan, choose_processor}

either :
    (heap : ℕ → Candidate) (found rest : Option ℕ)
    → is_active heap rest ≡ true
    → is_active heap (if is_active heap found then found else rest) ≡ true
either heap found rest h = ground arith

-- A processor that is active comes up within as many rounds as it is ahead.
scan-finds :
    (heap : ℕ → Candidate) (processors : List ℕ) (n idx j : ℕ) (processor : Option ℕ)
    → j < n
    → is_active heap (get_elem? processors ((idx + j) % length processors)) ≡ true
    → is_active heap (scan heap processors n idx processor) ≡ true
unfolding scan
scan-finds heap processors zero idx j processor h a = absurd (omega arith)
scan-finds heap processors (suc n) idx zero processor h a = ground (arith, a)
scan-finds heap processors (suc n) idx (suc j) processor h a =
    let l = length processors in
    let e : (suc (idx % l) + j) % l ≡ (idx + suc j) % l =
      ground (arith, mod-add-mod idx l (suc j)) in
    let a' = ap (λ k. is_active heap (get_elem? processors k)) e ∙ a in
    let found = get_elem? processors (idx % l) in
    let ih = scan-finds heap processors n (suc (idx % l)) j found (omega arith) a' in
    either heap found (scan heap processors n (suc (idx % l)) found) ih

-- Every place of a ring is ahead of every other one.
ahead : (n idx k : ℕ) → k < n → (j : ℕ) × (j < n) × ((idx + j) % n ≡ k)
ahead n idx k h =
    let low : idx % n < n = mod-lt idx (omega arith) in
    elim (dec_le (idx % n) k) [
      | yes le ↦ (
        k - idx % n,
        omega arith,
        sym (mod-add-mod idx n (k - idx % n))
            ∙ ap (λ (x : ℕ). x % n) (omega arith)
            ∙ mod-eq_of_lt h,
      )
      | no gt ↦ (
        k + n - idx % n,
        omega arith,
        sym (mod-add-mod idx n (k + n - idx % n))
            ∙ ap (λ (x : ℕ). x % n) (omega arith)
            ∙ add-mod_right k n
            ∙ mod-eq_of_lt h,
      )
    ]

module _ (heap : ℕ → Candidate) (self : ℕ) where
  -- A processor, if there is one, belongs to the scheduler `self`.
  abbrev pub Belongs : Option ℕ → Type 0
  Belongs none = Unit {0}
  Belongs (some p) = (heap p).scheduler ≡ self

  Belongs-if : (b : Bool) (o o' : Option ℕ) → Belongs o → Belongs o' → Belongs (if b then o else o')
  Belongs-if true o o' h h' = h
  Belongs-if false o o' h h' = h'

  scan-Belongs :
      (processors : List ℕ) (n idx : ℕ) (processor : Option ℕ)
      → ((i : ℕ) → Belongs (get_elem? processors i))
      → Belongs processor
      → Belongs (scan heap processors n idx processor)
  unfolding scan
  scan-Belongs processors zero idx processor s h = h
  scan-Belongs processors (suc n) idx processor s h =
      let i = idx % length processors in
      Belongs-if (is_active heap (get_elem? processors i)) _ _ (s i)
        (scan-Belongs processors n (suc i) (get_elem? processors i) s (s i))

  first_scan-Belongs :
      (processors : List ℕ) (n idx : ℕ) (processor : Option ℕ)
      → ((i : ℕ) → Belongs (get_elem? processors i))
      → 0 < n
      → Belongs (scan heap processors n idx processor)
  unfolding scan
  first_scan-Belongs processors zero idx processor s h = absurd (omega arith)
  first_scan-Belongs processors (suc n) idx processor s h =
      let i = idx % length processors in
      Belongs-if (is_active heap (get_elem? processors i)) _ _ (s i)
        (scan-Belongs processors n (suc i) (get_elem? processors i) s (s i))

  Belongs-is_own : (o : Option ℕ) → Belongs o → is_active heap o ≡ true → is_own heap self o ≡ true
  unfolding is_active is_own
  Belongs-is_own none b h = h
  Belongs-is_own (some p) b h = ground arith

  is_own-is_active : (o : Option ℕ) → is_own heap self o ≡ true → is_active heap o ≡ true
  unfolding is_active is_own
  is_own-is_active none h = h
  is_own-is_active (some p) h = ground arith

-- When the processors of the pool belong to the scheduler and one of them is active, the processor that
-- `addTask` chooses is active.
pub choose_processor-active :
    (heap : ℕ → Candidate) (self : ℕ) (processors : List ℕ) (last_active_idx main : ℕ)
    (own current : Option ℕ) (k : ℕ)
    → k < length processors
    → is_active heap (get_elem? processors k) ≡ true
    → ((i : ℕ) → Belongs heap self (get_elem? processors i))
    → is_active heap (choose_processor heap self processors last_active_idx main own current) ≡ true
unfolding choose_processor
choose_processor-active heap self processors idx main own current k h a s =
    let (j, jn, e) = ahead (length processors) idx k h in
    let scanned = scan heap processors (length processors) idx current in
    let found =
      scan-finds heap processors (length processors) idx j current jn
        (ap (λ i. is_active heap (get_elem? processors i)) e ∙ a) in
    let mine =
      Belongs-is_own heap self scanned
        (first_scan-Belongs heap self processors (length processors) idx current s (omega arith))
        found in
    one_of own current scanned mine found
  where
    one_of :
        (o c r : Option ℕ)
        → is_own heap self r ≡ true
        → is_active heap r ≡ true
        → is_active heap (
            if is_active heap o
            then o
            else if is_own heap self c
            then c
            else if is_own heap self r
            then r
            else some main)
          ≡ true
    one_of o c r m f = ground (arith, is_own-is_active heap self c)
