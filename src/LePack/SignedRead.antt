-- ===== src/LePack/SignedRead.antt =====
-- Unpacking of the signed types where their bytes stand.
use c_embedded_utils.Common.{
  ℕ, ◌+◌, ◌*◌, ◌^◌, ◌≤◌, ◌<◌, ◌≡◌, ap, some, List, [], ◌∷◌, size_mod, arith,
}
use c_embedded_utils.Common.Copy.{StandsAt}
use c_embedded_utils.Common.Int.{ℤ, pos, negsuc}
use c_embedded_utils.LePack.Signed.{
  signed_byte_of, signed_byte_of-pos, signed_byte_of-negsuc, to_signed, InRange, unpack_s8,
  unpack_s16, unpack_s32, unpack_s64,
}
use c_embedded_utils.Pack.{is_within_buffer_lem}

-- The digits of a value make it up.
join_s8 : (x : ℤ) → InRange 8 x → to_signed 8 (signed_byte_of x 0 * 2 ^ 0) ≡ x
join_s8 (pos n) h = ground (arith, signed_byte_of-pos n 0)
join_s8 (negsuc n) h = ground (arith, signed_byte_of-negsuc n 0)

join_s16 :
    (x : ℤ)
    → InRange 16 x
    → to_signed 16 (signed_byte_of x 0 * 2 ^ 0 + signed_byte_of x 8 * 2 ^ 8) ≡ x
join_s16 (pos n) h = ground (arith, signed_byte_of-pos n 0, signed_byte_of-pos n 8)
join_s16 (negsuc n) h = ground (arith, signed_byte_of-negsuc n 0, signed_byte_of-negsuc n 8)

join_s32 :
    (x : ℤ)
    → InRange 32 x
    → to_signed 32 (
        signed_byte_of x 0 * 2 ^ 0
        + signed_byte_of x 8 * 2 ^ 8
        + signed_byte_of x 16 * 2 ^ 16
        + signed_byte_of x 24 * 2 ^ 24)
      ≡ x
join_s32 (pos n) h = ground (
  arith,
  signed_byte_of-pos n 0,
  signed_byte_of-pos n 8,
  signed_byte_of-pos n 16,
  signed_byte_of-pos n 24,
)
join_s32 (negsuc n) h = ground (
  arith,
  signed_byte_of-negsuc n 0,
  signed_byte_of-negsuc n 8,
  signed_byte_of-negsuc n 16,
  signed_byte_of-negsuc n 24,
)

join_s64 :
    (x : ℤ)
    → InRange 64 x
    → to_signed 64 (
        signed_byte_of x 0 * 2 ^ 0
        + signed_byte_of x 8 * 2 ^ 8
        + signed_byte_of x 16 * 2 ^ 16
        + signed_byte_of x 24 * 2 ^ 24
        + signed_byte_of x 32 * 2 ^ 32
        + signed_byte_of x 40 * 2 ^ 40
        + signed_byte_of x 48 * 2 ^ 48
        + signed_byte_of x 56 * 2 ^ 56)
      ≡ x
join_s64 (pos n) h = ground (
  arith,
  signed_byte_of-pos n 0,
  signed_byte_of-pos n 8,
  signed_byte_of-pos n 16,
  signed_byte_of-pos n 24,
  signed_byte_of-pos n 32,
  signed_byte_of-pos n 40,
  signed_byte_of-pos n 48,
  signed_byte_of-pos n 56,
)
join_s64 (negsuc n) h = ground (
  arith,
  signed_byte_of-negsuc n 0,
  signed_byte_of-negsuc n 8,
  signed_byte_of-negsuc n 16,
  signed_byte_of-negsuc n 24,
  signed_byte_of-negsuc n 32,
  signed_byte_of-negsuc n 40,
  signed_byte_of-negsuc n 48,
  signed_byte_of-negsuc n 56,
)

module _ (offset : ℕ) (buf : List ℕ) (data_len : ℕ) (sized : data_len < size_mod) where
  pub unpack_s8_lem :
      (x : ℤ)
      → InRange 8 x
      → offset + 1 ≤ data_len
      → StandsAt offset (signed_byte_of x 0 ∷ []) buf
      → unpack_s8 offset buf data_len ≡ some (1, some x)
  unfolding unpack_s8
  unpack_s8_lem x small h at =
      rw (is_within_buffer_lem offset 1 data_len h sized, at 0 (omega arith))
        (ap (λ t. some (1, some t)) (join_s8 x small))

  pub unpack_s16_lem :
      (x : ℤ)
      → InRange 16 x
      → offset + 2 ≤ data_len
      → StandsAt offset (signed_byte_of x 0 ∷ signed_byte_of x 8 ∷ []) buf
      → unpack_s16 offset buf data_len ≡ some (2, some x)
  unfolding unpack_s16
  unpack_s16_lem x small h at =
      rw (is_within_buffer_lem offset 2 data_len h sized, at 0 (omega arith), at 1 (omega arith))
        (ap (λ t. some (2, some t)) (join_s16 x small))

  pub unpack_s32_lem :
      (x : ℤ)
      → InRange 32 x
      → offset + 4 ≤ data_len
      → StandsAt offset
          (signed_byte_of x 0 ∷ signed_byte_of x 8 ∷ signed_byte_of x 16 ∷ signed_byte_of x 24 ∷ [])
          buf
      → unpack_s32 offset buf data_len ≡ some (4, some x)
  unfolding unpack_s32
  unpack_s32_lem x small h at =
      rw
        (
          is_within_buffer_lem offset 4 data_len h sized,
          at 0 (omega arith),
          at 1 (omega arith),
          at 2 (omega arith),
          at 3 (omega arith),
        )
        (ap (λ t. some (4, some t)) (join_s32 x small))

  pub unpack_s64_lem :
      (x : ℤ)
      → InRange 64 x
      → offset + 8 ≤ data_len
      → StandsAt offset
          (signed_byte_of x 0
            ∷ signed_byte_of x 8
            ∷ signed_byte_of x 16
            ∷ signed_byte_of x 24
            ∷ signed_byte_of x 32
            ∷ signed_byte_of x 40
            ∷ signed_byte_of x 48
            ∷ signed_byte_of x 56
            ∷ [])
          buf
      → unpack_s64 offset buf data_len ≡ some (8, some x)
  unfolding unpack_s64
  unpack_s64_lem x small h at =
      rw
        (
          is_within_buffer_lem offset 8 data_len h sized,
          at 0 (omega arith),
          at 1 (omega arith),
          at 2 (omega arith),
          at 3 (omega arith),
          at 4 (omega arith),
          at 5 (omega arith),
          at 6 (omega arith),
          at 7 (omega arith),
        )
        (ap (λ t. some (8, some t)) (join_s64 x small))
