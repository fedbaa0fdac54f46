-- ===== src/Net/Mask.antt =====
-- `CreateMask`, `CountBytes` and the masks of `IPv4Address` (spike/net/Address.cpp). An address is its
-- 32-bit number in host order: `htonl` permutes bytes, so `|`, `&` and `~` commute with it.
pub mod Prefix
use lim_webserver.Base.{
  ℕ, zero, suc, ◌+◌, ◌-◌, ◌^◌, ◌==◌, ltb, Bool, ◌||◌, if◌then◌else◌, bit_and, bit_or,
}
use lim_webserver.Base.{Option, none, some}
use lim_webserver.Base.Outcome.{Outcome, ok, fault, ◌>>=◌}

-- `CreateMask<uint32_t>(bits)`: `1 << (32 - bits)` is shifted as an `int`. A shift by 32 or more is
-- undefined, and so is the subtraction from `1 << 31`, the least `int`.
pub create_mask : ℕ → Outcome ℕ
create_mask bits = if ltb bits 2 || ltb 32 bits then fault else ok (2 ^ (32 - bits) - 1)

-- The loop of `CountBytes<uint32_t>`, which clears the lowest bit; `none` is out of fuel.
pub count_loop : ℕ → ℕ → ℕ → Option ℕ
count_loop zero value result = none
count_loop (suc fuel) value result =
    let rest = count_loop fuel (bit_and value (value - 1)) (result + 1) in
    if value == 0 then some result else rest

pub count_bytes : ℕ → Option ℕ
count_bytes value = count_loop 33 value 0

pub broadcast_address : ℕ → ℕ → Outcome (Option ℕ)
broadcast_address addr prefix_len =
    if ltb 32 prefix_len then ok none else create_mask prefix_len >>= λ m. ok (some (bit_or addr m))

pub network_address : ℕ → ℕ → Outcome (Option ℕ)
network_address addr prefix_len =
    if ltb 32 prefix_len
    then ok none
    else create_mask prefix_len >>= λ m. ok (some (bit_and addr m))

pub subnet_mask : ℕ → Outcome ℕ
subnet_mask prefix_len = create_mask prefix_len >>= λ m. ok (2 ^ 32 - 1 - m)
