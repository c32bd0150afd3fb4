-- ===== src/CircularBuffer.antt =====
-- src/collections/circular_buffer.c: a byte queue over a caller's array that overwrites its oldest
-- byte. A result `none` is an access outside the array; the out-parameter of the pop is an option,
-- `none` where it is not written.
pub mod Count
pub mod Refine
pub mod Run
mod Tests
use c_embedded_utils.Common.{
  ℕ, ◌+◌, ◌-◌, ◌%◌, ◌≤◌, ◌<◌, ◌≡◌, Bool, true, false, not, ◌&&◌, Option, none, some, List, ◌==◌,
  ltb, if◌then◌else◌, add_size, sub_size, size_mod, length, load, store, ◌>>=◌,
}
use c_embedded_utils.ErrorCode.{ErrorCode, err_none, err_invalid_arg, err_no_mem, err_empty}

pub record CircularBufferConfig : Type 0 where
  pub buffer : List ℕ
  pub buffer_size : ℕ

pub record CircularBuffer : Type 0 where
  pub buffer : List ℕ
  pub buffer_max_size : ℕ
  pub read_index : ℕ
  pub write_index : ℕ
  pub buffer_is_empty : Bool

unfoldable pub validate_config : CircularBufferConfig → ErrorCode
validate_config c = if c.buffer_size == 0 then err_invalid_arg else err_none

unfoldable pub init : CircularBuffer → CircularBufferConfig → ErrorCode × CircularBuffer
unfolding validate_config
init b c = elim (validate_config c) [
  | err_none ↦ (
    err_none,
    record {
      buffer = c.buffer;
      buffer_max_size = c.buffer_size;
      read_index = 0;
      write_index = 0;
      buffer_is_empty = true;
    },
  )
  | code ↦ (code, b)
]

unfoldable pub deinit : CircularBuffer → CircularBuffer
deinit b = record b { buffer_max_size = 0; read_index = 0; write_index = 0; buffer_is_empty = true }

-- `(index + 1) % buffer_max_size`
abbrev pub next : CircularBuffer → ℕ → ℕ
next b index = add_size index 1 % b.buffer_max_size

unfoldable pub push_byte : CircularBuffer → ℕ → Option (ErrorCode × CircularBuffer)
push_byte b byte = if b.buffer_max_size == 0 then some (err_no_mem, b) else do
  buf ← store b.buffer b.write_index byte
  let overwrites = (b.write_index == b.read_index) && not b.buffer_is_empty
  some (
    err_none,
    record b {
      buffer = buf;
      read_index = if overwrites then next b b.read_index else b.read_index;
      write_index = next b b.write_index;
      buffer_is_empty = false;
    },
  )

unfoldable pub get_count : CircularBuffer → ℕ
get_count b =
    if ltb b.read_index b.write_index
    then sub_size b.write_index b.read_index
    else if ltb b.write_index b.read_index
    then add_size (sub_size b.buffer_max_size b.read_index) b.write_index
    else if b.buffer_is_empty
    then 0
    else b.buffer_max_size

unfoldable pub pop_byte : CircularBuffer → Option (ErrorCode × Option ℕ × CircularBuffer)
unfolding get_count
pop_byte b = if get_count b == 0 then some (err_empty, none, b) else do
  byte ← load b.buffer b.read_index
  let r = next b b.read_index
  some (err_none, some byte, record b { read_index = r; buffer_is_empty = r == b.write_index })

-- The representation invariant of a buffer in use.
pub record IsValid (b : CircularBuffer) : Type 0 where
  pub fits : b.buffer_max_size ≤ length b.buffer
  pub sized : b.buffer_max_size < size_mod
  pub read_in : b.read_index < b.buffer_max_size
  pub write_in : b.write_index < b.buffer_max_size
  pub empty_at_start : b.buffer_is_empty ≡ true → b.read_index ≡ b.write_index
