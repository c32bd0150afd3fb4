-- ===== src/BitOps/Tests.antt =====
-- Weights of some words.
use c_embedded_utils.Common.{◌≡◌, refl, arith}
use c_embedded_utils.BitOps.{hamming_weight_u32}
use c_embedded_utils.BitOps.Weight.{ones, hamming_weight_u32_lem}

weight_of_all : hamming_weight_u32 0xffffffff ≡ 32
unfolding hamming_weight_u32
weight_of_all = refl

weight_of_high : hamming_weight_u32 0x8000001c ≡ 4
unfolding hamming_weight_u32
weight_of_high = refl

hamming_weight_u32_lem_example : hamming_weight_u32 0xdeadbeef ≡ ones 32 0xdeadbeef
hamming_weight_u32_lem_example = hamming_weight_u32_lem 0xdeadbeef (omega arith)
