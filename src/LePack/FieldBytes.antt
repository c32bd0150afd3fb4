-- ===== src/LePack/FieldBytes.antt =====
-- One field: its bytes, and what unpacking makes of them.
use c_embedded_utils.Common.{ℕ, ◌+◌, ◌≤◌, ◌<◌, ◌≡◌, refl, none, some, List, length, size_mod, arith}
use c_embedded_utils.Common.Copy.{StandsAt}
use c_embedded_utils.LePack.Bytes.{put}
use c_embedded_utils.LePack.Fields.{
  Field, bool, u8, u16, u32, u64, s8, s16, s32, s64, type_of, FieldInRange, bytes_of, pack_field,
  unpack_field,
}
use c_embedded_utils.LePack.SignedRead.{
  unpack_s8_lem, unpack_s16_lem, unpack_s32_lem, unpack_s64_lem,
}
use c_embedded_utils.LePack.UnsignedRead.{
  unpack_bool_lem, unpack_u8_lem, unpack_u16_lem, unpack_u32_lem, unpack_u64_lem,
}
use c_embedded_utils.Pack.{not_is_within_buffer}

-- Every packing function stores the bytes of its value.
pub pack_field-put :
    (f : Field) (offset : ℕ) (buf : List ℕ) (data_len : ℕ)
    → pack_field offset buf data_len f ≡ put (bytes_of f) (length (bytes_of f)) offset buf data_len
unfolding pack_field
pack_field-put (bool x) offset buf data_len = refl
pack_field-put (u8 x) offset buf data_len = refl
pack_field-put (u16 x) offset buf data_len = refl
pack_field-put (u32 x) offset buf data_len = refl
pack_field-put (u64 x) offset buf data_len = refl
pack_field-put (s8 x) offset buf data_len = refl
pack_field-put (s16 x) offset buf data_len = refl
pack_field-put (s32 x) offset buf data_len = refl
pack_field-put (s64 x) offset buf data_len = refl

-- A field whose bytes stand in the buffer is read.
pub unpack_field_lem :
    (f : Field) (offset : ℕ) (buf : List ℕ) (data_len : ℕ)
    → FieldInRange f
    → data_len < size_mod
    → offset + length (bytes_of f) ≤ data_len
    → StandsAt offset (bytes_of f) buf
    → unpack_field offset buf data_len (type_of f) ≡ some (length (bytes_of f), some f)
unfolding unpack_field
unpack_field_lem (bool x) offset buf data_len r s h at =
    rw (unpack_bool_lem offset buf data_len s x h at)
unpack_field_lem (u8 x) offset buf data_len r s h at =
    rw (unpack_u8_lem offset buf data_len s x r h at)
unpack_field_lem (u16 x) offset buf data_len r s h at =
    rw (unpack_u16_lem offset buf data_len s x r h at)
unpack_field_lem (u32 x) offset buf data_len r s h at =
    rw (unpack_u32_lem offset buf data_len s x r h at)
unpack_field_lem (u64 x) offset buf data_len r s h at =
    rw (unpack_u64_lem offset buf data_len s x r h at)
unpack_field_lem (s8 x) offset buf data_len r s h at =
    rw (unpack_s8_lem offset buf data_len s x r h at)
unpack_field_lem (s16 x) offset buf data_len r s h at =
    rw (unpack_s16_lem offset buf data_len s x r h at)
unpack_field_lem (s32 x) offset buf data_len r s h at =
    rw (unpack_s32_lem offset buf data_len s x r h at)
unpack_field_lem (s64 x) offset buf data_len r s h at =
    rw (unpack_s64_lem offset buf data_len s x r h at)

-- A field that has no room is not read.
pub unpack_field_outside :
    (f : Field) (offset : ℕ) (buf : List ℕ) (data_len : ℕ)
    → offset < size_mod
    → data_len < offset + length (bytes_of f)
    → unpack_field offset buf data_len (type_of f) ≡ some (0, none)
unfolding unpack_field
unpack_field_outside (bool x) offset buf data_len s h =
    rw (not_is_within_buffer offset 1 data_len s (omega arith) h)
unpack_field_outside (u8 x) offset buf data_len s h =
    rw (not_is_within_buffer offset 1 data_len s (omega arith) h)
unpack_field_outside (u16 x) offset buf data_len s h =
    rw (not_is_within_buffer offset 2 data_len s (omega arith) h)
unpack_field_outside (u32 x) offset buf data_len s h =
    rw (not_is_within_buffer offset 4 data_len s (omega arith) h)
unpack_field_outside (u64 x) offset buf data_len s h =
    rw (not_is_within_buffer offset 8 data_len s (omega arith) h)
unpack_field_outside (s8 x) offset buf data_len s h =
    rw (not_is_within_buffer offset 1 data_len s (omega arith) h)
unpack_field_outside (s16 x) offset buf data_len s h =
    rw (not_is_within_buffer offset 2 data_len s (omega arith) h)
unpack_field_outside (s32 x) offset buf data_len s h =
    rw (not_is_within_buffer offset 4 data_len s (omega arith) h)
unpack_field_outside (s64 x) offset buf data_len s h =
    rw (not_is_within_buffer offset 8 data_len s (omega arith) h)

pub bytes_of_positive : (f : Field) → 0 < length (bytes_of f)
bytes_of_positive (bool x) = omega arith
bytes_of_positive (u8 x) = omega arith
bytes_of_positive (u16 x) = omega arith
bytes_of_positive (u32 x) = omega arith
bytes_of_positive (u64 x) = omega arith
bytes_of_positive (s8 x) = omega arith
bytes_of_positive (s16 x) = omega arith
bytes_of_positive (s32 x) = omega arith
bytes_of_positive (s64 x) = omega arith

pub bytes_of_small : (f : Field) → length (bytes_of f) < size_mod
bytes_of_small (bool x) = omega arith
bytes_of_small (u8 x) = omega arith
bytes_of_small (u16 x) = omega arith
bytes_of_small (u32 x) = omega arith
bytes_of_small (u64 x) = omega arith
bytes_of_small (s8 x) = omega arith
bytes_of_small (s16 x) = omega arith
bytes_of_small (s32 x) = omega arith
bytes_of_small (s64 x) = omega arith
