-- ===== src/Pack.antt =====
-- src/struct_pack/pack.c and include/cemb/pack.h: the sizes of the packed types, and the test that a
-- value fits a buffer.
mod Tests
use c_embedded_utils.Common.{
  ℕ, ◌+◌, ◌≤◌, ◌<◌, ◌≡◌, ◌↔◌, Bool, true, false, ltb, leb, if◌then◌else◌, arith, add_size, size_mod,
}

abbrev pub pack_size_uint64_t : ℕ
pack_size_uint64_t = 8

abbrev pub pack_size_uint32_t : ℕ
pack_size_uint32_t = 4

abbrev pub pack_size_uint16_t : ℕ
pack_size_uint16_t = 2

abbrev pub pack_size_uint8_t : ℕ
pack_size_uint8_t = 1

abbrev pub pack_size_int32_t : ℕ
pack_size_int32_t = 4

abbrev pub pack_size_int64_t : ℕ
pack_size_int64_t = 8

abbrev pub pack_size_int16_t : ℕ
pack_size_int16_t = 2

abbrev pub pack_size_int8_t : ℕ
pack_size_int8_t = 1

abbrev pub pack_size_bool : ℕ
pack_size_bool = 1

-- The sum wraps; a sum below the offset means that it did.
unfoldable pub is_within_buffer : ℕ → ℕ → ℕ → Bool
is_within_buffer offset req_size data_len =
    let required_index = add_size offset req_size in
    if ltb required_index offset then false else leb required_index data_len

-- `pack_is_within_buffer` accepts a value exactly if it ends inside the buffer, also where the sum of
-- offset and size does not fit a `size_t`.
pub is_within_buffer_iff :
    (offset req_size data_len : ℕ)
    → offset < size_mod
    → req_size < size_mod
    → data_len < size_mod
    → (is_within_buffer offset req_size data_len ≡ true) ↔ (offset + req_size ≤ data_len)
unfolding is_within_buffer
is_within_buffer_iff offset req_size data_len a b c = ground arith

pub is_within_buffer_lem :
    (offset req_size data_len : ℕ)
    → offset + req_size ≤ data_len
    → data_len < size_mod
    → is_within_buffer offset req_size data_len ≡ true
unfolding is_within_buffer
is_within_buffer_lem offset req_size data_len h k = ground arith

pub not_is_within_buffer :
    (offset req_size data_len : ℕ)
    → offset < size_mod
    → req_size < size_mod
    → data_len < offset + req_size
    → is_within_buffer offset req_size data_len ≡ false
unfolding is_within_buffer
not_is_within_buffer offset req_size data_len h k l = ground arith
