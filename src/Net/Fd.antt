-- ===== src/Net/Fd.antt =====
-- `FdManager` and the timeouts of `FdInfo` (spike/coroutine/FdInfo.h and FdInfo.cpp). An `FdInfo` is a
-- name; `closed` lists those whose `close` was called. A descriptor is not negative.
pub mod Table
use lim_webserver.Base.{
  ℕ, ◌-◌, ◌*◌, ◌^◌, ◌==◌, if◌then◌else◌, bit_and, Option, none, some, List, [], ◌∷◌, ◌++◌,
}

-- A bucket maps a descriptor to its slot (`none` where there is none) with the data of the slot.
pub record FdManager : Type 0 where
  pub buckets : ℕ → ℕ → Option (Option ℕ)
  pub closed : List ℕ

pub new_fd_manager : FdManager
new_fd_manager = record { buckets = λ b fd. none; closed = [] }

-- `fd & kBucketCount`
pub bucket_idx : ℕ → ℕ
bucket_idx fd = bit_and fd (2 ^ 10 - 1)

pub get_slot : ℕ → FdManager → Option (Option ℕ)
get_slot fd m = m.buckets (bucket_idx fd) fd

abbrev pub data_of : Option (Option ℕ) → Option ℕ
data_of none = none
data_of (some info) = info

pub get_info : ℕ → FdManager → Option ℕ
get_info fd m = data_of (get_slot fd m)

abbrev pub put : ℕ → Option ℕ → FdManager → ℕ → ℕ → Option (Option ℕ)
put fd info m b k =
    if b == bucket_idx fd then (if k == fd then some info else m.buckets b k) else m.buckets b k

-- `if (info) info->close()`
abbrev pub closing : Option ℕ → List ℕ → List ℕ
closing none closed = closed
closing (some info) closed = closed ++ (info ∷ [])

pub insert_info : ℕ → ℕ → FdManager → FdManager
insert_info fd info m = record {
  buckets = put fd (some info) m;
  closed = closing (get_info fd m) m.closed;
}

pub del_info : ℕ → FdManager → FdManager
del_info fd m = elim (get_slot fd m) [
  | none ↦ m
  | some info ↦ record { buckets = put fd none m; closed = closing info m.closed }
]
