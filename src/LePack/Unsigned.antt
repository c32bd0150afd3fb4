-- ===== src/LePack/Unsigned.antt =====
-- The functions for the unsigned types and for `bool`.
use c_embedded_utils.Common.{
  ℕ, ◌+◌, ◌*◌, ◌%◌, ◌^◌, Bool, Option, none, some, List, [], ◌∷◌, if◌then◌else◌, ◌==◌, ◌>>=◌, load,
}
use c_embedded_utils.LePack.Bytes.{byte_of, put}
use c_embedded_utils.Pack.{
  is_within_buffer, pack_size_bool, pack_size_uint8_t, pack_size_uint16_t, pack_size_uint32_t,
  pack_size_uint64_t,
}

module _ (offset : ℕ) (buf : List ℕ) (data_len : ℕ) where
  unfoldable pub pack_bool : Bool → Option (ℕ × List ℕ)
  unfolding put byte_of
  pack_bool element =
      let value = if element then 1 else 0 in
      put (byte_of value 0 ∷ []) pack_size_bool offset buf data_len

  -- Only the byte 1 is `true`.
  unfoldable pub unpack_bool : Option (ℕ × Option Bool)
  unfolding is_within_buffer
  unpack_bool =
      if is_within_buffer offset pack_size_bool data_len
      then (do d0 ← load buf (offset + 0); some (pack_size_bool, some (d0 * 2 ^ 0 % 2 ^ 8 == 1)))
      else some (0, none)

  unfoldable pub pack_u8 : ℕ → Option (ℕ × List ℕ)
  unfolding put byte_of
  pack_u8 x = put (byte_of x 0 ∷ []) pack_size_uint8_t offset buf data_len

  unfoldable pub unpack_u8 : Option (ℕ × Option ℕ)
  unfolding is_within_buffer
  unpack_u8 =
      if is_within_buffer offset pack_size_uint8_t data_len
      then (do d0 ← load buf (offset + 0); some (pack_size_uint8_t, some (d0 * 2 ^ 0 % 2 ^ 8)))
      else some (0, none)

  unfoldable pub pack_u16 : ℕ → Option (ℕ × List ℕ)
  unfolding put byte_of
  pack_u16 x = put (byte_of x 0 ∷ byte_of x 8 ∷ []) pack_size_uint16_t offset buf data_len

  unfoldable pub unpack_u16 : Option (ℕ × Option ℕ)
  unfolding is_within_buffer
  unpack_u16 =
      if is_within_buffer offset pack_size_uint16_t data_len
      then (do
        d0 ← load buf (offset + 0)
        d1 ← load buf (offset + 1)
        some (pack_size_uint16_t, some ((d0 * 2 ^ 0 + d1 * 2 ^ 8) % 2 ^ 16)))
      else some (0, none)

  unfoldable pub pack_u32 : ℕ → Option (ℕ × List ℕ)
  unfolding put byte_of
  pack_u32 x =
      put (byte_of x 0 ∷ byte_of x 8 ∷ byte_of x 16 ∷ byte_of x 24 ∷ []) pack_size_uint32_t offset
        buf data_len

  unfoldable pub unpack_u32 : Option (ℕ × Option ℕ)
  unfolding is_within_buffer
  unpack_u32 =
      if is_within_buffer offset pack_size_uint32_t data_len
      then (do
        d0 ← load buf (offset + 0)
        d1 ← load buf (offset + 1)
        d2 ← load buf (offset + 2)
        d3 ← load buf (offset + 3)
        some (
          pack_size_uint32_t,
          some ((d0 * 2 ^ 0 + d1 * 2 ^ 8 + d2 * 2 ^ 16 + d3 * 2 ^ 24) % 2 ^ 32),
        ))
      else some (0, none)

  unfoldable pub pack_u64 : ℕ → Option (ℕ × List ℕ)
  unfolding put byte_of
  pack_u64 x =
      put
        (byte_of x 0
          ∷ byte_of x 8
          ∷ byte_of x 16
          ∷ byte_of x 24
          ∷ byte_of x 32
          ∷ byte_of x 40
          ∷ byte_of x 48
          ∷ byte_of x 56
          ∷ [])
        pack_size_uint64_t offset buf data_len

  unfoldable pub unpack_u64 : Option (ℕ × Option ℕ)
  unfolding is_within_buffer
  unpack_u64 =
      if is_within_buffer offset pack_size_uint64_t data_len
      then (do
        d0 ← load buf (offset + 0)
        d1 ← load buf (offset + 1)
        d2 ← load buf (offset + 2)
        d3 ← load buf (offset + 3)
        d4 ← load buf (offset + 4)
        d5 ← load buf (offset + 5)
        d6 ← load buf (offset + 6)
        d7 ← load buf (offset + 7)
        some (
          pack_size_uint64_t,
          some (
              (d0 * 2 ^ 0
                + d1 * 2 ^ 8
                + d2 * 2 ^ 16
                + d3 * 2 ^ 24
                + d4 * 2 ^ 32
                + d5 * 2 ^ 40
                + d6 * 2 ^ 48
                + d7 * 2 ^ 56)
              % 2 ^ 64),
        ))
      else some (0, none)
