-- ===== src/NumericOps.antt =====
-- src/operations/numeric_ops.c: the test for a power of two.
mod Tests
use Prim.Native.Nat.{bit_and}
use c_embedded_utils.Common.{
  ℕ, ◌+◌, ◌-◌, ◌^◌, ◌≤◌, ◌<◌, ◌≡◌, ◌↔◌, refl, Bool, true, false, not, ◌&&◌, ◌==◌, ==_iff, arith,
  sub_size, size_mod, ap, ◌≢◌,
}
use c_embedded_utils.Common.Bits.{bit_and-two_pow, two_pow_of_bit_and, zero-bit_and}
use native.Mathlib.Nat.{one-le-pow}

-- `i - 1` wraps at 0.
unfoldable pub is_power_2_sz : ℕ → Bool
is_power_2_sz i = bit_and i (sub_size i 1) == 0 && not (i == 0)

-- `numeric_ops_is_power_2_sz` accepts exactly the powers of two, of all values of `size_t`.
pub is_power_2_sz_iff : (i : ℕ) → i < size_mod → (is_power_2_sz i ≡ true) ↔ ((k : ℕ) × (i ≡ 2 ^ k))
unfolding is_power_2_sz
is_power_2_sz_iff i h = (there, back)
  where
    pred_lem : 0 < i → sub_size i 1 ≡ i - 1
    pred_lem pos = omega arith

    there : is_power_2_sz i ≡ true → (k : ℕ) × (i ≡ 2 ^ k)
    there e = two_pow_of_bit_and i (ground arith) (ground (arith, pred_lem (ground arith)))

    back : (k : ℕ) × (i ≡ 2 ^ k) → is_power_2_sz i ≡ true
    back (k, e) =
        let pos : 0 < i = omega (arith, one-le-pow k 2 (omega arith)) in
        ground (arith, pred_lem pos, bit_and-two_pow k)
