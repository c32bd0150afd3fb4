-- ===== src/LePack/Outside.antt =====
-- What every packing function does where the value does not fit the buffer.
use c_embedded_utils.Common.{ℕ, ◌+◌, ◌<◌, ◌≡◌, Bool, none, some, List, size_mod, arith}
use c_embedded_utils.Common.Int.{ℤ}
use c_embedded_utils.LePack.Unsigned.{
  pack_bool, unpack_bool, pack_u8, unpack_u8, pack_u16, unpack_u16, pack_u32, unpack_u32, pack_u64,
  unpack_u64,
}
use c_embedded_utils.LePack.Signed.{
  pack_s8, unpack_s8, pack_s16, unpack_s16, pack_s32, unpack_s32, pack_s64, unpack_s64,
}
use c_embedded_utils.LePack.Raw.{pack_raw, unpack_raw}
use c_embedded_utils.Pack.{not_is_within_buffer}

module _ (offset : ℕ) (buf : List ℕ) (data_len : ℕ) (in_size_t : offset < size_mod) where
  pack_bool_outside :
      (x : Bool) → data_len < offset + 1 → pack_bool offset buf data_len x ≡ some (0, buf)
  unfolding pack_bool
  pack_bool_outside x h = rw (not_is_within_buffer offset 1 data_len in_size_t (omega arith) h)

  unpack_bool_outside : data_len < offset + 1 → unpack_bool offset buf data_len ≡ some (0, none)
  unfolding unpack_bool
  unpack_bool_outside h = rw (not_is_within_buffer offset 1 data_len in_size_t (omega arith) h)

  pack_u8_outside : (x : ℕ) → data_len < offset + 1 → pack_u8 offset buf data_len x ≡ some (0, buf)
  unfolding pack_u8
  pack_u8_outside x h = rw (not_is_within_buffer offset 1 data_len in_size_t (omega arith) h)

  unpack_u8_outside : data_len < offset + 1 → unpack_u8 offset buf data_len ≡ some (0, none)
  unfolding unpack_u8
  unpack_u8_outside h = rw (not_is_within_buffer offset 1 data_len in_size_t (omega arith) h)

  pack_u16_outside :
      (x : ℕ) → data_len < offset + 2 → pack_u16 offset buf data_len x ≡ some (0, buf)
  unfolding pack_u16
  pack_u16_outside x h = rw (not_is_within_buffer offset 2 data_len in_size_t (omega arith) h)

  unpack_u16_outside : data_len < offset + 2 → unpack_u16 offset buf data_len ≡ some (0, none)
  unfolding unpack_u16
  unpack_u16_outside h = rw (not_is_within_buffer offset 2 data_len in_size_t (omega arith) h)

  pack_u32_outside :
      (x : ℕ) → data_len < offset + 4 → pack_u32 offset buf data_len x ≡ some (0, buf)
  unfolding pack_u32
  pack_u32_outside x h = rw (not_is_within_buffer offset 4 data_len in_size_t (omega arith) h)

  unpack_u32_outside : data_len < offset + 4 → unpack_u32 offset buf data_len ≡ some (0, none)
  unfolding unpack_u32
  unpack_u32_outside h = rw (not_is_within_buffer offset 4 data_len in_size_t (omega arith) h)

  pack_u64_outside :
      (x : ℕ) → data_len < offset + 8 → pack_u64 offset buf data_len x ≡ some (0, buf)
  unfolding pack_u64
  pack_u64_outside x h = rw (not_is_within_buffer offset 8 data_len in_size_t (omega arith) h)

  unpack_u64_outside : data_len < offset + 8 → unpack_u64 offset buf data_len ≡ some (0, none)
  unfolding unpack_u64
  unpack_u64_outside h = rw (not_is_within_buffer offset 8 data_len in_size_t (omega arith) h)

  pack_s8_outside : (x : ℤ) → data_len < offset + 1 → pack_s8 offset buf data_len x ≡ some (0, buf)
  unfolding pack_s8
  pack_s8_outside x h = rw (not_is_within_buffer offset 1 data_len in_size_t (omega arith) h)

  unpack_s8_outside : data_len < offset + 1 → unpack_s8 offset buf data_len ≡ some (0, none)
  unfolding unpack_s8
  unpack_s8_outside h = rw (not_is_within_buffer offset 1 data_len in_size_t (omega arith) h)

  pack_s16_outside :
      (x : ℤ) → data_len < offset + 2 → pack_s16 offset buf data_len x ≡ some (0, buf)
  unfolding pack_s16
  pack_s16_outside x h = rw (not_is_within_buffer offset 2 data_len in_size_t (omega arith) h)

  unpack_s16_outside : data_len < offset + 2 → unpack_s16 offset buf data_len ≡ some (0, none)
  unfolding unpack_s16
  unpack_s16_outside h = rw (not_is_within_buffer offset 2 data_len in_size_t (omega arith) h)

  pack_s32_outside :
      (x : ℤ) → data_len < offset + 4 → pack_s32 offset buf data_len x ≡ some (0, buf)
  unfolding pack_s32
  pack_s32_outside x h = rw (not_is_within_buffer offset 4 data_len in_size_t (omega arith) h)

  unpack_s32_outside : data_len < offset + 4 → unpack_s32 offset buf data_len ≡ some (0, none)
  unfolding unpack_s32
  unpack_s32_outside h = rw (not_is_within_buffer offset 4 data_len in_size_t (omega arith) h)

  pack_s64_outside :
      (x : ℤ) → data_len < offset + 8 → pack_s64 offset buf data_len x ≡ some (0, buf)
  unfolding pack_s64
  pack_s64_outside x h = rw (not_is_within_buffer offset 8 data_len in_size_t (omega arith) h)

  unpack_s64_outside : data_len < offset + 8 → unpack_s64 offset buf data_len ≡ some (0, none)
  unfolding unpack_s64
  unpack_s64_outside h = rw (not_is_within_buffer offset 8 data_len in_size_t (omega arith) h)

  -- Raw bytes that do not fit the buffer, also where offset and size overflow `size_t`, are neither
  -- packed nor unpacked: both functions return 0 and change nothing.
  pub raw_outside :
      (raw : List ℕ) (size : ℕ)
      → size < size_mod
      → data_len < offset + size
      → (pack_raw raw size offset buf data_len ≡ some (0, buf))
        × (unpack_raw raw size offset buf data_len ≡ some (0, raw))
  unfolding pack_raw unpack_raw
  raw_outside raw size h k =
      let refused = not_is_within_buffer offset size data_len in_size_t h k in
      (rw refused, rw refused)

  -- Where the one byte of a 8-bit value or a `bool` would end behind the stated length, also where the
  -- offset is near the end of `size_t`, no function packs or unpacks it: each returns 0, and neither the
  -- buffer nor the out-parameter is written.
  pub outside_8 :
      (b : Bool) (u : ℕ) (s : ℤ)
      → data_len < offset + 1
      → (pack_bool offset buf data_len b ≡ some (0, buf))
        × (unpack_bool offset buf data_len ≡ some (0, none))
        × (pack_u8 offset buf data_len u ≡ some (0, buf))
        × (unpack_u8 offset buf data_len ≡ some (0, none))
        × (pack_s8 offset buf data_len s ≡ some (0, buf))
        × (unpack_s8 offset buf data_len ≡ some (0, none))
  outside_8 b u s h = (
    pack_bool_outside b h,
    unpack_bool_outside h,
    pack_u8_outside u h,
    unpack_u8_outside h,
    pack_s8_outside s h,
    unpack_s8_outside h,
  )

  -- Where the two bytes of a 16-bit value would end behind the stated length, also where the
  -- offset is near the end of `size_t`, no function packs or unpacks it: each returns 0, and neither the
  -- buffer nor the out-parameter is written.
  pub outside_16 :
      (u : ℕ) (s : ℤ)
      → data_len < offset + 2
      → (pack_u16 offset buf data_len u ≡ some (0, buf))
        × (unpack_u16 offset buf data_len ≡ some (0, none))
        × (pack_s16 offset buf data_len s ≡ some (0, buf))
        × (unpack_s16 offset buf data_len ≡ some (0, none))
  outside_16 u s h =
      (pack_u16_outside u h, unpack_u16_outside h, pack_s16_outside s h, unpack_s16_outside h)

  -- Where the four bytes of a 32-bit value would end behind the stated length, also where the
  -- offset is near the end of `size_t`, no function packs or unpacks it: each returns 0, and neither the
  -- buffer nor the out-parameter is written.
  pub outside_32 :
      (u : ℕ) (s : ℤ)
      → data_len < offset + 4
      → (pack_u32 offset buf data_len u ≡ some (0, buf))
        × (unpack_u32 offset buf data_len ≡ some (0, none))
        × (pack_s32 offset buf data_len s ≡ some (0, buf))
        × (unpack_s32 offset buf data_len ≡ some (0, none))
  outside_32 u s h =
      (pack_u32_outside u h, unpack_u32_outside h, pack_s32_outside s h, unpack_s32_outside h)

  -- Where the eight bytes of a 64-bit value would end behind the stated length, also where the
  -- offset is near the end of `size_t`, no function packs or unpacks it: each returns 0, and neither the
  -- buffer nor the out-parameter is written.
  pub outside_64 :
      (u : ℕ) (s : ℤ)
      → data_len < offset + 8
      → (pack_u64 offset buf data_len u ≡ some (0, buf))
        × (unpack_u64 offset buf data_len ≡ some (0, none))
        × (pack_s64 offset buf data_len s ≡ some (0, buf))
        × (unpack_s64 offset buf data_len ≡ some (0, none))
  outside_64 u s h =
      (pack_u64_outside u h, unpack_u64_outside h, pack_s64_outside s h, unpack_s64_outside h)
