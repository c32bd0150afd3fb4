-- ===== src/FastCircularBuffer.antt =====
-- src/collections/fast_circular_buffer.c: the byte queue over an array whose size is a power of two.
-- The indices run on and wrap only with `size_t`; a mask takes them into the array.
pub mod Count
pub mod Refine
pub mod Run
pub mod Alike
mod Tests
use Prim.Native.Nat.{bit_and}
use c_embedded_utils.Common.{
  ℕ, ◌+◌, ◌-◌, ◌^◌, ◌≤◌, ◌<◌, ◌≡◌, Option, none, some, List, ◌==◌, ltb, not, if◌then◌else◌,
  add_size, sub_size, size_mod, length, load, store, ◌>>=◌,
}
use c_embedded_utils.ErrorCode.{ErrorCode, err_none, err_invalid_arg, err_no_mem, err_empty}
use c_embedded_utils.NumericOps.{is_power_2_sz}

pub record FastCircularBufferConfig : Type 0 where
  pub buffer : List ℕ
  pub buffer_size : ℕ

pub record FastCircularBuffer : Type 0 where
  pub buffer : List ℕ
  pub read_index : ℕ
  pub write_index : ℕ
  pub size_mask : ℕ

unfoldable pub validate_config : FastCircularBufferConfig → ErrorCode
validate_config c =
    if ltb c.buffer_size 2
    then err_invalid_arg
    else if not (is_power_2_sz c.buffer_size)
    then err_invalid_arg
    else err_none

unfoldable pub init : FastCircularBuffer → FastCircularBufferConfig → ErrorCode × FastCircularBuffer
unfolding validate_config
init b c = elim (validate_config c) [
  | err_none ↦ (
    err_none,
    record {
      buffer = c.buffer;
      read_index = 0;
      write_index = 0;
      size_mask = sub_size c.buffer_size 1;
    },
  )
  | code ↦ (code, b)
]

unfoldable pub deinit : FastCircularBuffer → FastCircularBuffer
deinit b = record b { size_mask = 0; read_index = 0; write_index = 0 }

unfoldable pub get_count : FastCircularBuffer → ℕ
get_count b = sub_size b.write_index b.read_index

unfoldable pub push_byte : FastCircularBuffer → ℕ → Option (ErrorCode × FastCircularBuffer)
unfolding get_count
push_byte b byte = if b.size_mask == 0 then some (err_no_mem, b) else do
  buf ← store b.buffer (bit_and b.write_index b.size_mask) byte
  some (
    err_none,
    record b {
      buffer = buf;
      read_index =
          if ltb b.size_mask (get_count b)
          then sub_size b.write_index b.size_mask
          else b.read_index;
      write_index = add_size b.write_index 1;
    },
  )

unfoldable pub pop_byte : FastCircularBuffer → Option (ErrorCode × Option ℕ × FastCircularBuffer)
unfolding get_count
pop_byte b = if get_count b == 0 then some (err_empty, none, b) else do
  byte ← load b.buffer (bit_and b.read_index b.size_mask)
  some (err_none, some byte, record b { read_index = add_size b.read_index 1 })

-- The representation invariant of a buffer in use, of size `2 ^ k`.
pub record IsValid (k : ℕ) (b : FastCircularBuffer) : Type 0 where
  pub more_than_one : 0 < k
  pub below_size_t : k < 64
  pub mask : b.size_mask + 1 ≡ 2 ^ k
  pub fits : 2 ^ k ≤ length b.buffer
  pub read_in : b.read_index < size_mod
  pub write_in : b.write_index < size_mod
  pub held : sub_size b.write_index b.read_index ≤ 2 ^ k
