-- ===== src/LePack/Signed.antt =====
-- The functions for the signed types. A value is an integer in the range of its type. The unpacking
-- shifts sign bits into place in signed arithmetic, which wraps to the two's complement here, as the
-- compilers for which the library is written have it.
use Prim.Native.Nat.{bit_and}
use c_embedded_utils.Common.{
  ℕ, ◌+◌, ◌-◌, ◌*◌, ◌/◌, ◌%◌, ◌^◌, ◌<◌, ◌≡◌, Option, none, some, List, [], ◌∷◌, if◌then◌else◌,
  ◌>>=◌, load, ltb, arith,
}
use c_embedded_utils.Common.Bits.{bit_and_mask}
use c_embedded_utils.Common.Int.{ℤ, pos, negsuc}
use c_embedded_utils.LePack.Bytes.{put}
use c_embedded_utils.Pack.{
  is_within_buffer, pack_size_int8_t, pack_size_int16_t, pack_size_int32_t, pack_size_int64_t,
}

-- `x >> k` rounds down.
abbrev pub shr_ℤ : ℤ → ℕ → ℤ
shr_ℤ (pos n) k = pos (n / 2 ^ k)
shr_ℤ (negsuc n) k = negsuc (n / 2 ^ k)

-- `x & 0xFF` on the two's complement of `x`; -(n + 1) has the bits of `n` inverted.
abbrev pub and_ff : ℤ → ℕ
and_ff (pos n) = bit_and n 0xff
and_ff (negsuc n) = 0xff - bit_and n 0xff

-- `(uint8_t)((x >> k) & 0xFF)`
unfoldable pub signed_byte_of : ℤ → ℕ → ℕ
signed_byte_of x k = and_ff (shr_ℤ x k) % 2 ^ 8

pub signed_byte_of-pos : (n k : ℕ) → signed_byte_of (pos n) k ≡ n / 2 ^ k % 256
unfolding signed_byte_of
signed_byte_of-pos n k = omega (arith, bit_and_mask 8 (n / 2 ^ k))

pub signed_byte_of-negsuc : (n k : ℕ) → signed_byte_of (negsuc n) k ≡ 255 - n / 2 ^ k % 256
unfolding signed_byte_of
signed_byte_of-negsuc n k = omega (arith, bit_and_mask 8 (n / 2 ^ k))

-- The integer of `w` bits that a bit pattern stands for.
abbrev pub to_signed : ℕ → ℕ → ℤ
to_signed w v =
    if ltb (v % 2 ^ w) (2 ^ (w - 1)) then pos (v % 2 ^ w) else negsuc (2 ^ w - v % 2 ^ w - 1)

-- The integers of `w` bits.
abbrev pub InRange : ℕ → ℤ → Type 0
InRange w (pos n) = n < 2 ^ (w - 1)
InRange w (negsuc n) = n < 2 ^ (w - 1)

module _ (offset : ℕ) (buf : List ℕ) (data_len : ℕ) where
  unfoldable pub pack_s8 : ℤ → Option (ℕ × List ℕ)
  unfolding put signed_byte_of
  pack_s8 x = put (signed_byte_of x 0 ∷ []) pack_size_int8_t offset buf data_len

  unfoldable pub unpack_s8 : Option (ℕ × Option ℤ)
  unfolding is_within_buffer
  unpack_s8 =
      if is_within_buffer offset pack_size_int8_t data_len
      then (do d0 ← load buf (offset + 0); some (pack_size_int8_t, some (to_signed 8 (d0 * 2 ^ 0))))
      else some (0, none)

  unfoldable pub pack_s16 : ℤ → Option (ℕ × List ℕ)
  unfolding put signed_byte_of
  pack_s16 x =
      put (signed_byte_of x 0 ∷ signed_byte_of x 8 ∷ []) pack_size_int16_t offset buf data_len

  unfoldable pub unpack_s16 : Option (ℕ × Option ℤ)
  unfolding is_within_buffer
  unpack_s16 =
      if is_within_buffer offset pack_size_int16_t data_len
      then (do
        d0 ← load buf (offset + 0)
        d1 ← load buf (offset + 1)
        some (pack_size_int16_t, some (to_signed 16 (d0 * 2 ^ 0 + d1 * 2 ^ 8))))
      else some (0, none)

  unfoldable pub pack_s32 : ℤ → Option (ℕ × List ℕ)
  unfolding put signed_byte_of
  pack_s32 x =
      put (signed_byte_of x 0 ∷ signed_byte_of x 8 ∷ signed_byte_of x 16 ∷ signed_byte_of x 24 ∷ [])
        pack_size_int32_t offset buf data_len

  unfoldable pub unpack_s32 : Option (ℕ × Option ℤ)
  unfolding is_within_buffer
  unpack_s32 =
      if is_within_buffer offset pack_size_int32_t data_len
      then (do
        d0 ← load buf (offset + 0)
        d1 ← load buf (offset + 1)
        d2 ← load buf (offset + 2)
        d3 ← load buf (offset + 3)
        some (
          pack_size_int32_t,
          some (to_signed 32 (d0 * 2 ^ 0 + d1 * 2 ^ 8 + d2 * 2 ^ 16 + d3 * 2 ^ 24)),
        ))
      else some (0, none)

  unfoldable pub pack_s64 : ℤ → Option (ℕ × List ℕ)
  unfolding put signed_byte_of
  pack_s64 x =
      put
        (signed_byte_of x 0
          ∷ signed_byte_of x 8
          ∷ signed_byte_of x 16
          ∷ signed_byte_of x 24
          ∷ signed_byte_of x 32
          ∷ signed_byte_of x 40
          ∷ signed_byte_of x 48
          ∷ signed_byte_of x 56
          ∷ [])
        pack_size_int64_t offset buf data_len

  unfoldable pub unpack_s64 : Option (ℕ × Option ℤ)
  unfolding is_within_buffer
  unpack_s64 =
      if is_within_buffer offset pack_size_int64_t data_len
      then (do
        d0 ← load buf (offset + 0)
        d1 ← load buf (offset + 1)
        d2 ← load buf (offset + 2)
        d3 ← load buf (offset + 3)
        d4 ← load buf (offset + 4)
        d5 ← load buf (offset + 5)
        d6 ← load buf (offset + 6)
        d7 ← load buf (offset + 7)
        some (
          pack_size_int64_t,
          some (
              to_signed 64 (
                d0 * 2 ^ 0
                + d1 * 2 ^ 8
                + d2 * 2 ^ 16
                + d3 * 2 ^ 24
                + d4 * 2 ^ 32
                + d5 * 2 ^ 40
                + d6 * 2 ^ 48
                + d7 * 2 ^ 56)),
        ))
      else some (0, none)
