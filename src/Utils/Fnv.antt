-- ===== src/Utils/Fnv.antt =====
-- `FNVHash64` and `Hash` of core/utils.h.
pub mod Collisions
use Prim.Native.Nat.{bit_and, bit_xor}
use ycsb_lsm.Base.{ℕ, zero, suc, ◌*◌, ◌/◌, ◌%◌, ◌^◌}

-- `kFNVOffsetBasis64`
abbrev pub k_fnv_offset_basis64 : ℕ
k_fnv_offset_basis64 = 0xCBF29CE484222325

-- `kFNVPrime64`
abbrev pub k_fnv_prime64 : ℕ
k_fnv_prime64 = 1099511628211

-- `hash = hash ^ octet; hash = hash * kFNVPrime64`
unfoldable pub fnv_mix : ℕ → ℕ → ℕ
fnv_mix hash octet = bit_xor hash octet * k_fnv_prime64 % 2 ^ 64

-- The loop, with the rounds that are left.
unfoldable pub fnv_loop : ℕ → ℕ → ℕ → ℕ
fnv_loop zero val hash = hash
fnv_loop (suc left) val hash = fnv_loop left (val / 2 ^ 8) (fnv_mix hash (bit_and val 0x00ff))

-- `FNVHash64`
unfoldable pub fnv_hash64 : ℕ → ℕ
fnv_hash64 val = fnv_loop 8 val k_fnv_offset_basis64

-- `Hash`
unfoldable pub hash : ℕ → ℕ
hash val = fnv_hash64 val
