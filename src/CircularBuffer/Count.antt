-- ===== src/CircularBuffer/Count.antt =====
-- How the number of bytes in a circular buffer moves, and that the indices stay inside the array.
use c_embedded_utils.Common.{
  ℕ, ◌+◌, ◌%◌, ◌≤◌, ◌<◌, ◌≡◌, false, some, ◌==◌, if◌then◌else◌, arith, length-set, set, store-lt,
}
use c_embedded_utils.Common.Ring.{mod-of_two_rounds, byte_at, get_elem?-byte_at}
use c_embedded_utils.ErrorCode.{err_none}
use c_embedded_utils.CircularBuffer.{CircularBuffer, IsValid, next, push_byte, pop_byte, get_count}

pub next_lem :
    (b : CircularBuffer) (i : ℕ)
    → IsValid b
    → i < b.buffer_max_size
    → next b i ≡ (if i + 1 == b.buffer_max_size then 0 else i + 1)
next_lem b i v h = ground (arith, mod-of_two_rounds (i + 1) b.buffer_max_size)

pub get_count-le : (b : CircularBuffer) → IsValid b → get_count b ≤ b.buffer_max_size
unfolding get_count
get_count-le b v = ground arith

-- The write index is the read index moved on by the number of bytes.
pub write_index_lem :
    (b : CircularBuffer)
    → IsValid b
    → (b.read_index + get_count b) % b.buffer_max_size ≡ b.write_index
unfolding get_count
write_index_lem b v =
    ground (arith, mod-of_two_rounds (b.read_index + get_count b) b.buffer_max_size)

-- The buffer after a push: its oldest byte goes if it is full.
abbrev pub pushed : CircularBuffer → ℕ → CircularBuffer
pushed b byte = record b {
  buffer = set b.buffer b.write_index byte;
  read_index = if get_count b == b.buffer_max_size then next b b.read_index else b.read_index;
  write_index = next b b.write_index;
  buffer_is_empty = false;
}

pub push_byte-eq-pushed :
    (b : CircularBuffer) (byte : ℕ) → IsValid b → push_byte b byte ≡ some (err_none, pushed b byte)
unfolding push_byte get_count
push_byte-eq-pushed b byte v = ground (arith, store-lt b.buffer b.write_index byte (omega arith))

pub pushed-IsValid : (b : CircularBuffer) (byte : ℕ) → IsValid b → IsValid (pushed b byte)
pushed-IsValid b byte v = ground (
  arith,
  length-set b.buffer b.write_index byte,
  next_lem b b.read_index v,
  next_lem b b.write_index v,
)

pub get_count-pushed :
    (b : CircularBuffer) (byte : ℕ)
    → IsValid b
    → get_count (pushed b byte)
      ≡ (if get_count b == b.buffer_max_size then get_count b else get_count b + 1)
unfolding get_count
get_count-pushed b byte v = ground (arith, next_lem b b.read_index v, next_lem b b.write_index v)

-- The buffer after a pop that finds a byte.
abbrev pub popped : CircularBuffer → CircularBuffer
popped b = record b {
  read_index = next b b.read_index;
  buffer_is_empty = next b b.read_index == b.write_index;
}

pub pop_byte-eq-popped :
    (b : CircularBuffer)
    → IsValid b
    → 0 < get_count b
    → pop_byte b ≡ some (err_none, some (byte_at b.buffer b.read_index), popped b)
unfolding pop_byte
pop_byte-eq-popped b v h = ground (arith, get_elem?-byte_at b.buffer b.read_index (omega arith))

pub popped-IsValid : (b : CircularBuffer) → IsValid b → 0 < get_count b → IsValid (popped b)
popped-IsValid b v h = ground (arith, next_lem b b.read_index v)

pub get_count-popped :
    (b : CircularBuffer) → IsValid b → 0 < get_count b → get_count (popped b) + 1 ≡ get_count b
unfolding get_count
get_count-popped b v h = ground (arith, next_lem b b.read_index v)
