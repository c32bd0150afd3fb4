-- ===== src/Pack/Tests.antt =====
-- The fit test at its limits.
use c_embedded_utils.Common.{◌≡◌, ◌↔◌, ◌+◌, ◌-◌, ◌^◌, ◌≤◌, refl, true, false, arith}
use c_embedded_utils.Pack.{is_within_buffer, is_within_buffer_iff}

limits :
    (is_within_buffer 4 4 8 ≡ true)
    × (is_within_buffer 5 4 8 ≡ false)
    × (is_within_buffer (2 ^ 64 - 1) 4 8 ≡ false)
unfolding is_within_buffer
limits = (refl, refl, refl)

is_within_buffer_iff_example : (is_within_buffer (2 ^ 64 - 1) 4 8 ≡ true) ↔ (2 ^ 64 - 1 + 4 ≤ 8)
is_within_buffer_iff_example =
    is_within_buffer_iff (2 ^ 64 - 1) 4 8 (omega arith) (omega arith) (omega arith)
