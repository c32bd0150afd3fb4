-- ===== src/LePack/UnsignedTrip.antt =====
-- Round trips of the unsigned types and of `bool`.
use c_embedded_utils.Common.{
  ℕ, ◌+◌, ◌^◌, ◌≤◌, ◌<◌, ◌≡◌, Bool, some, List, [], ◌∷◌, length, size_mod, if◌then◌else◌,
}
use c_embedded_utils.Common.Copy.{IsWritten}
use c_embedded_utils.LePack.Bytes.{byte_of, put_lem}
use c_embedded_utils.LePack.Unsigned.{
  pack_bool, unpack_bool, pack_u8, unpack_u8, pack_u16, unpack_u16, pack_u32, unpack_u32, pack_u64,
  unpack_u64,
}
use c_embedded_utils.LePack.UnsignedRead.{
  unpack_bool_lem, unpack_u8_lem, unpack_u16_lem, unpack_u32_lem, unpack_u64_lem,
}

module _ (offset : ℕ) (buf : List ℕ) (data_len : ℕ) (fits : data_len ≤ length buf)
    (sized : data_len < size_mod) where
  -- A `uint8_t` that fits is packed into its one byte with no other change to the buffer, and
  -- unpacking gives it back; both return its size.
  pub unpack-pack_u8 :
      (x : ℕ)
      → x < 2 ^ 8
      → offset + 1 ≤ data_len
      → (after : List ℕ) × (pack_u8 offset buf data_len x ≡ some (1, after))
        × IsWritten offset (byte_of x 0 ∷ []) buf after
        × (unpack_u8 offset after data_len ≡ some (1, some x))
  unfolding pack_u8
  unpack-pack_u8 x small h =
      let (after, packed, w) = put_lem (byte_of x 0 ∷ []) offset buf data_len h fits sized in
      (after, packed, w, unpack_u8_lem offset after data_len sized x small h w.inside)

  -- A `uint16_t` that fits is packed into its two bytes, the low one first, with no other change to the buffer, and
  -- unpacking gives it back; both return its size.
  pub unpack-pack_u16 :
      (x : ℕ)
      → x < 2 ^ 16
      → offset + 2 ≤ data_len
      → (after : List ℕ) × (pack_u16 offset buf data_len x ≡ some (2, after))
        × IsWritten offset (byte_of x 0 ∷ byte_of x 8 ∷ []) buf after
        × (unpack_u16 offset after data_len ≡ some (2, some x))
  unfolding pack_u16
  unpack-pack_u16 x small h =
      let (after, packed, w) =
        put_lem (byte_of x 0 ∷ byte_of x 8 ∷ []) offset buf data_len h fits sized in
      (after, packed, w, unpack_u16_lem offset after data_len sized x small h w.inside)

  -- A `uint32_t` that fits is packed into its four bytes, the low one first, with no other change to the buffer, and
  -- unpacking gives it back; both return its size.
  pub unpack-pack_u32 :
      (x : ℕ)
      → x < 2 ^ 32
      → offset + 4 ≤ data_len
      → (after : List ℕ) × (pack_u32 offset buf data_len x ≡ some (4, after))
        × IsWritten offset (byte_of x 0 ∷ byte_of x 8 ∷ byte_of x 16 ∷ byte_of x 24 ∷ []) buf after
        × (unpack_u32 offset after data_len ≡ some (4, some x))
  unfolding pack_u32
  unpack-pack_u32 x small h =
      let (after, packed, w) =
        put_lem (byte_of x 0 ∷ byte_of x 8 ∷ byte_of x 16 ∷ byte_of x 24 ∷ []) offset buf data_len h
          fits sized in
      (after, packed, w, unpack_u32_lem offset after data_len sized x small h w.inside)

  -- A `uint64_t` that fits is packed into its eight bytes, the low one first, with no other change to the buffer, and
  -- unpacking gives it back; both return its size.
  pub unpack-pack_u64 :
      (x : ℕ)
      → x < 2 ^ 64
      → offset + 8 ≤ data_len
      → (after : List ℕ) × (pack_u64 offset buf data_len x ≡ some (8, after))
        × IsWritten offset
            (byte_of x 0
              ∷ byte_of x 8
              ∷ byte_of x 16
              ∷ byte_of x 24
              ∷ byte_of x 32
              ∷ byte_of x 40
              ∷ byte_of x 48
              ∷ byte_of x 56
              ∷ [])
            buf
            after
        × (unpack_u64 offset after data_len ≡ some (8, some x))
  unfolding pack_u64
  unpack-pack_u64 x small h =
      let (after, packed, w) =
        put_lem
          (byte_of x 0
            ∷ byte_of x 8
            ∷ byte_of x 16
            ∷ byte_of x 24
            ∷ byte_of x 32
            ∷ byte_of x 40
            ∷ byte_of x 48
            ∷ byte_of x 56
            ∷ [])
          offset buf data_len h fits sized in
      (after, packed, w, unpack_u64_lem offset after data_len sized x small h w.inside)

  -- A `bool` that fits is packed into one byte with no other change to the buffer, and unpacking gives
  -- it back; both return its size.
  pub unpack-pack_bool :
      (x : Bool)
      → offset + 1 ≤ data_len
      → (after : List ℕ) × (pack_bool offset buf data_len x ≡ some (1, after))
        × IsWritten offset (byte_of (if x then 1 else 0) 0 ∷ []) buf after
        × (unpack_bool offset after data_len ≡ some (1, some x))
  unfolding pack_bool
  unpack-pack_bool x h =
      let (after, packed, w) =
        put_lem (byte_of (if x then 1 else 0) 0 ∷ []) offset buf data_len h fits sized in
      (after, packed, w, unpack_bool_lem offset after data_len sized x h w.inside)
