-- ===== src/LePack/SignedTrip.antt =====
-- Round trips of the signed types.
use c_embedded_utils.Common.{ℕ, ◌+◌, ◌≤◌, ◌<◌, ◌≡◌, some, List, [], ◌∷◌, length, size_mod}
use c_embedded_utils.Common.Copy.{IsWritten}
use c_embedded_utils.Common.Int.{ℤ}
use c_embedded_utils.LePack.Bytes.{put_lem}
use c_embedded_utils.LePack.Signed.{
  signed_byte_of, InRange, pack_s8, unpack_s8, pack_s16, unpack_s16, pack_s32, unpack_s32, pack_s64,
  unpack_s64,
}
use c_embedded_utils.LePack.SignedRead.{
  unpack_s8_lem, unpack_s16_lem, unpack_s32_lem, unpack_s64_lem,
}

module _ (offset : ℕ) (buf : List ℕ) (data_len : ℕ) (fits : data_len ≤ length buf)
    (sized : data_len < size_mod) where
  -- An `int8_t` that fits is packed into its one byte with no other change to the buffer, and
  -- unpacking gives it back; both return its size.
  pub unpack-pack_s8 :
      (x : ℤ)
      → InRange 8 x
      → offset + 1 ≤ data_len
      → (after : List ℕ) × (pack_s8 offset buf data_len x ≡ some (1, after))
        × IsWritten offset (signed_byte_of x 0 ∷ []) buf after
        × (unpack_s8 offset after data_len ≡ some (1, some x))
  unfolding pack_s8
  unpack-pack_s8 x small h =
      let (after, packed, w) = put_lem (signed_byte_of x 0 ∷ []) offset buf data_len h fits sized in
      (after, packed, w, unpack_s8_lem offset after data_len sized x small h w.inside)

  -- An `int16_t` that fits is packed into its two bytes, the low one first, with no other change to the buffer, and
  -- unpacking gives it back; both return its size.
  pub unpack-pack_s16 :
      (x : ℤ)
      → InRange 16 x
      → offset + 2 ≤ data_len
      → (after : List ℕ) × (pack_s16 offset buf data_len x ≡ some (2, after))
        × IsWritten offset (signed_byte_of x 0 ∷ signed_byte_of x 8 ∷ []) buf after
        × (unpack_s16 offset after data_len ≡ some (2, some x))
  unfolding pack_s16
  unpack-pack_s16 x small h =
      let (after, packed, w) =
        put_lem (signed_byte_of x 0 ∷ signed_byte_of x 8 ∷ []) offset buf data_len h fits sized in
      (after, packed, w, unpack_s16_lem offset after data_len sized x small h w.inside)

  -- An `int32_t` that fits is packed into its four bytes, the low one first, with no other change to the buffer, and
  -- unpacking gives it back; both return its size.
  pub unpack-pack_s32 :
      (x : ℤ)
      → InRange 32 x
      → offset + 4 ≤ data_len
      → (after : List ℕ) × (pack_s32 offset buf data_len x ≡ some (4, after))
        × IsWritten offset
            (signed_byte_of x 0
              ∷ signed_byte_of x 8
              ∷ signed_byte_of x 16
              ∷ signed_byte_of x 24
              ∷ [])
            buf
            after
        × (unpack_s32 offset after data_len ≡ some (4, some x))
  unfolding pack_s32
  unpack-pack_s32 x small h =
      let (after, packed, w) =
        put_lem
          (signed_byte_of x 0 ∷ signed_byte_of x 8 ∷ signed_byte_of x 16 ∷ signed_byte_of x 24 ∷ [])
          offset buf data_len h fits sized in
      (after, packed, w, unpack_s32_lem offset after data_len sized x small h w.inside)

  -- An `int64_t` that fits is packed into its eight bytes, the low one first, with no other change to the buffer, and
  -- unpacking gives it back; both return its size.
  pub unpack-pack_s64 :
      (x : ℤ)
      → InRange 64 x
      → offset + 8 ≤ data_len
      → (after : List ℕ) × (pack_s64 offset buf data_len x ≡ some (8, after))
        × IsWritten offset
            (signed_byte_of x 0
              ∷ signed_byte_of x 8
              ∷ signed_byte_of x 16
              ∷ signed_byte_of x 24
              ∷ signed_byte_of x 32
              ∷ signed_byte_of x 40
              ∷ signed_byte_of x 48
              ∷ signed_byte_of x 56
              ∷ [])
            buf
            after
        × (unpack_s64 offset after data_len ≡ some (8, some x))
  unfolding pack_s64
  unpack-pack_s64 x small h =
      let (after, packed, w) =
        put_lem
          (signed_byte_of x 0
            ∷ signed_byte_of x 8
            ∷ signed_byte_of x 16
            ∷ signed_byte_of x 24
            ∷ signed_byte_of x 32
            ∷ signed_byte_of x 40
            ∷ signed_byte_of x 48
            ∷ signed_byte_of x 56
            ∷ [])
          offset buf data_len h fits sized in
      (after, packed, w, unpack_s64_lem offset after data_len sized x small h w.inside)
