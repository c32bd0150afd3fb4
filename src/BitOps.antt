-- ===== src/BitOps.antt =====
-- src/operations/bit_ops.c: the number of one bits of a `uint32_t`. Sums, differences and products
-- wrap at 32 bits.
pub mod Fields
pub mod Weight
mod Tests
use Prim.Native.Nat.{bit_and}
use c_embedded_utils.Common.{ℕ, ◌+◌, ◌-◌, ◌*◌, ◌/◌, ◌%◌, ◌^◌}

-- `uint32_t` has 32 bits.
abbrev pub word : ℕ
word = 2 ^ 32

unfoldable pub hamming_weight_u32 : ℕ → ℕ
hamming_weight_u32 i =
    let pairs = (i + word - bit_and (i / 2 ^ 1) 0x55555555) % word in
    let quads = (bit_and pairs 0x33333333 + bit_and (pairs / 2 ^ 2) 0x33333333) % word in
    let groups = bit_and ((quads + quads / 2 ^ 4) % word) 0x0F0F0F0F in
    groups * 0x01010101 % word / 2 ^ 24
