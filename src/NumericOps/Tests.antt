-- ===== src/NumericOps/Tests.antt =====
-- The test for a power of two at concrete values.
use c_embedded_utils.Common.{ℕ, ◌≡◌, refl, ◌^◌, ◌↔◌, true, false, arith}
use c_embedded_utils.NumericOps.{is_power_2_sz, is_power_2_sz_iff}

small_values :
    (is_power_2_sz 0 ≡ false)
    × (is_power_2_sz 1 ≡ true)
    × (is_power_2_sz 48 ≡ false)
    × (is_power_2_sz (2 ^ 63) ≡ true)
unfolding is_power_2_sz
small_values = (refl, refl, refl, refl)

is_power_2_sz_iff_example : (is_power_2_sz 64 ≡ true) ↔ ((k : ℕ) × (64 ≡ 2 ^ k))
is_power_2_sz_iff_example = is_power_2_sz_iff 64 (omega arith)
