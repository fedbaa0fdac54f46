-- ===== src/Net/Mask/Prefix.antt =====
-- What the masks of `IPv4Address` (spike/net/Address.cpp) make of an address and a prefix length.
use lim_webserver.Base.{
  ℕ, ◌+◌, ◌-◌, ◌*◌, ◌/◌, ◌%◌, ◌^◌, ◌≤◌, ◌<◌, ◌≡◌, refl, sym, ap, ◌∙◌, arith, ltb, ◌==◌,
}
use lim_webserver.Base.{
  Bool, true, false, Option, none, some, ge→ltb, ==_iff, checked_below, holds_below, if◌then◌else◌,
}
use lim_webserver.Base.Bits.{bit_and_ones, bit_or_ones}
use lim_webserver.Base.Outcome.{ok}
use lim_webserver.Net.Mask.{
  create_mask, count_loop, count_bytes, broadcast_address, network_address, subnet_mask,
}

create_mask_lem : (p : ℕ) → 1 < p → p ≤ 32 → create_mask p ≡ ok (2 ^ (32 - p) - 1)
unfolding create_mask
create_mask_lem p l h = rw (ge→ltb p 2 l, ge→ltb 32 p h)

-- For a prefix of 2 to 32 bits the broadcast address keeps the prefix and sets every bit behind it.
pub broadcast_address_lem :
    (addr p : ℕ)
    → 1 < p
    → p ≤ 32
    → broadcast_address addr p ≡ ok (some (addr / 2 ^ (32 - p) * 2 ^ (32 - p) + (2 ^ (32 - p) - 1)))
unfolding broadcast_address
broadcast_address_lem addr p l h =
    rw (ge→ltb 32 p h, create_mask_lem p l h)
      (ap (λ (n : ℕ). ok (some n)) (bit_or_ones (32 - p) addr))

-- For a prefix of 2 to 32 bits the network address holds the bits behind the prefix and clears the
-- prefix, the opposite of a network's address.
pub network_address_lem :
    (addr p : ℕ) → 1 < p → p ≤ 32 → network_address addr p ≡ ok (some (addr % 2 ^ (32 - p)))
unfolding network_address
network_address_lem addr p l h =
    rw (ge→ltb 32 p h, create_mask_lem p l h)
      (ap (λ (n : ℕ). ok (some n)) (bit_and_ones (32 - p) addr))

abbrev counts : ℕ → Bool
counts p = elim (count_bytes (2 ^ 32 - 1 - (2 ^ (32 - p) - 1))) [ none ↦ false | some n ↦ n == p ]

abbrev counted : ℕ → Bool
counted p = if ltb p 2 then true else counts p

all_counted : checked_below counted 33 ≡ true
unfolding checked_below count_bytes count_loop
all_counted = refl

counted_sound :
    (p : ℕ) (o : Option ℕ)
    → elim o as (λ _. Bool) [ none ↦ false | some n ↦ n == p ] ≡ true
    → o ≡ some p
counted_sound p none e = absurd (clash e)
  where
    clash : false ≡ true → ⊥
    clash e = cc
counted_sound p (some n) e = ap some ((==_iff n p).0 e)

-- `CountBytes` of the subnet mask of a prefix of 2 to 32 bits is the length of the prefix, and its loop
-- comes to an end.
pub count_bytes-subnet_mask :
    (p : ℕ) → 1 < p → p ≤ 32 → (m : ℕ) × (subnet_mask p ≡ ok m) × (count_bytes m ≡ some p)
unfolding subnet_mask
count_bytes-subnet_mask p l h =
    let small : p < 33 = omega arith in
    let all : counted p ≡ true = holds_below counted 33 p small all_counted in
    (
      2 ^ 32 - 1 - (2 ^ (32 - p) - 1),
      rw (create_mask_lem p l h),
      counted_sound p (count_bytes (2 ^ 32 - 1 - (2 ^ (32 - p) - 1)))
          (sym (ap (λ b. if b then true else counts p) (ge→ltb p 2 l)) ∙ all),
    )
