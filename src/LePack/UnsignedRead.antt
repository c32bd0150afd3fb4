-- ===== src/LePack/UnsignedRead.antt =====
-- Unpacking of the unsigned types and of `bool` where their bytes stand.
use c_embedded_utils.Common.{
  ℕ, ◌+◌, ◌*◌, ◌%◌, ◌^◌, ◌≤◌, ◌<◌, ◌≡◌, ap, Bool, true, false, some, List, [], ◌∷◌, size_mod, arith,
  if◌then◌else◌, ◌==◌,
}
use c_embedded_utils.Common.Copy.{StandsAt}
use c_embedded_utils.LePack.Bytes.{byte_of, byte_of_lem}
use c_embedded_utils.LePack.Unsigned.{unpack_bool, unpack_u8, unpack_u16, unpack_u32, unpack_u64}
use c_embedded_utils.Pack.{is_within_buffer_lem}

-- The digits of a value make it up.
join_u8 : (x : ℕ) → x < 2 ^ 8 → (byte_of x 0 * 2 ^ 0) % 2 ^ 8 ≡ x
join_u8 x h = omega (arith, byte_of_lem x 0)

join_u16 : (x : ℕ) → x < 2 ^ 16 → (byte_of x 0 * 2 ^ 0 + byte_of x 8 * 2 ^ 8) % 2 ^ 16 ≡ x
join_u16 x h = omega (arith, byte_of_lem x 0, byte_of_lem x 8)

join_u32 :
    (x : ℕ)
    → x < 2 ^ 32
    → (byte_of x 0 * 2 ^ 0 + byte_of x 8 * 2 ^ 8 + byte_of x 16 * 2 ^ 16 + byte_of x 24 * 2 ^ 24)
        % 2 ^ 32
      ≡ x
join_u32 x h = omega (arith, byte_of_lem x 0, byte_of_lem x 8, byte_of_lem x 16, byte_of_lem x 24)

join_u64 :
    (x : ℕ)
    → x < 2 ^ 64
    → (byte_of x 0 * 2 ^ 0
          + byte_of x 8 * 2 ^ 8
          + byte_of x 16 * 2 ^ 16
          + byte_of x 24 * 2 ^ 24
          + byte_of x 32 * 2 ^ 32
          + byte_of x 40 * 2 ^ 40
          + byte_of x 48 * 2 ^ 48
          + byte_of x 56 * 2 ^ 56)
        % 2 ^ 64
      ≡ x
join_u64 x h = omega (
  arith,
  byte_of_lem x 0,
  byte_of_lem x 8,
  byte_of_lem x 16,
  byte_of_lem x 24,
  byte_of_lem x 32,
  byte_of_lem x 40,
  byte_of_lem x 48,
  byte_of_lem x 56,
)

join_bool : (x : Bool) → ((byte_of (if x then 1 else 0) 0 * 2 ^ 0) % 2 ^ 8 == 1) ≡ x
join_bool true = ground (arith, byte_of_lem 1 0)
join_bool false = ground (arith, byte_of_lem 0 0)

module _ (offset : ℕ) (buf : List ℕ) (data_len : ℕ) (sized : data_len < size_mod) where
  pub unpack_u8_lem :
      (x : ℕ)
      → x < 2 ^ 8
      → offset + 1 ≤ data_len
      → StandsAt offset (byte_of x 0 ∷ []) buf
      → unpack_u8 offset buf data_len ≡ some (1, some x)
  unfolding unpack_u8
  unpack_u8_lem x small h at =
      rw (is_within_buffer_lem offset 1 data_len h sized, at 0 (omega arith))
        (ap (λ t. some (1, some t)) (join_u8 x small))

  pub unpack_u16_lem :
      (x : ℕ)
      → x < 2 ^ 16
      → offset + 2 ≤ data_len
      → StandsAt offset (byte_of x 0 ∷ byte_of x 8 ∷ []) buf
      → unpack_u16 offset buf data_len ≡ some (2, some x)
  unfolding unpack_u16
  unpack_u16_lem x small h at =
      rw (is_within_buffer_lem offset 2 data_len h sized, at 0 (omega arith), at 1 (omega arith))
        (ap (λ t. some (2, some t)) (join_u16 x small))

  pub unpack_u32_lem :
      (x : ℕ)
      → x < 2 ^ 32
      → offset + 4 ≤ data_len
      → StandsAt offset (byte_of x 0 ∷ byte_of x 8 ∷ byte_of x 16 ∷ byte_of x 24 ∷ []) buf
      → unpack_u32 offset buf data_len ≡ some (4, some x)
  unfolding unpack_u32
  unpack_u32_lem x small h at =
      rw
        (
          is_within_buffer_lem offset 4 data_len h sized,
          at 0 (omega arith),
          at 1 (omega arith),
          at 2 (omega arith),
          at 3 (omega arith),
        )
        (ap (λ t. some (4, some t)) (join_u32 x small))

  pub unpack_u64_lem :
      (x : ℕ)
      → x < 2 ^ 64
      → offset + 8 ≤ data_len
      → StandsAt offset
          (byte_of x 0
            ∷ byte_of x 8
            ∷ byte_of x 16
            ∷ byte_of x 24
            ∷ byte_of x 32
            ∷ byte_of x 40
            ∷ byte_of x 48
            ∷ byte_of x 56
            ∷ [])
          buf
      → unpack_u64 offset buf data_len ≡ some (8, some x)
  unfolding unpack_u64
  unpack_u64_lem x small h at =
      rw
        (
          is_within_buffer_lem offset 8 data_len h sized,
          at 0 (omega arith),
          at 1 (omega arith),
          at 2 (omega arith),
          at 3 (omega arith),
          at 4 (omega arith),
          at 5 (omega arith),
          at 6 (omega arith),
          at 7 (omega arith),
        )
        (ap (λ t. some (8, some t)) (join_u64 x small))

  pub unpack_bool_lem :
      (x : Bool)
      → offset + 1 ≤ data_len
      → StandsAt offset (byte_of (if x then 1 else 0) 0 ∷ []) buf
      → unpack_bool offset buf data_len ≡ some (1, some x)
  unfolding unpack_bool
  unpack_bool_lem x h at =
      rw (is_within_buffer_lem offset 1 data_len h sized, at 0 (omega arith))
        (ap (λ t. some (1, some t)) (join_bool x))
