-- ===== src/Table/Hash.antt =====
-- src/common/xio_hash.h: the hash functions of the keys.
use Prim.Native.Nat.{bit_xor}
use accelio.Prelude.{ℕ, ◌+◌, ◌-◌, ◌*◌, ◌/◌, ◌%◌, ◌^◌}

-- `key += ~(key << k)` on words of `w` bits
abbrev add_not_shl : ℕ → ℕ → ℕ → ℕ
add_not_shl w k key = (key + (2 ^ w - 1 - key * 2 ^ k % 2 ^ w)) % 2 ^ w

-- `key += key << k`
abbrev add_shl : ℕ → ℕ → ℕ → ℕ
add_shl w k key = (key + key * 2 ^ k) % 2 ^ w

-- `key ^= key >> k`
abbrev xor_shr : ℕ → ℕ → ℕ
xor_shr k key = bit_xor key (key / 2 ^ k)

unfoldable pub int32_hash : ℕ → ℕ
int32_hash k =
    let k1 = add_not_shl 32 15 k in
    let k2 = xor_shr 10 k1 in
    let k3 = add_shl 32 3 k2 in
    let k4 = xor_shr 6 k3 in let k5 = add_not_shl 32 11 k4 in xor_shr 16 k5

unfoldable pub int64_hash : ℕ → ℕ
int64_hash k =
    let k1 = add_not_shl 64 32 k in
    let k2 = xor_shr 22 k1 in
    let k3 = add_not_shl 64 13 k2 in
    let k4 = xor_shr 8 k3 in
    let k5 = add_shl 64 3 k4 in
    let k6 = xor_shr 15 k5 in let k7 = add_not_shl 64 27 k6 in xor_shr 31 k7 % 2 ^ 32
