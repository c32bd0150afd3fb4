-- ===== src/LePack/Bytes.antt =====
-- What the packing functions share. The buffer is a list of bytes and `data_len` the length that the
-- caller states; a result `none` is an access outside the array. The first part of a result is the
-- returned size; an out-parameter that is not written is `none`.
use Prim.Native.Nat.{bit_and}
use native.Mathlib.Omega.{arith}
use c_embedded_utils.Common.{
  ℕ, ◌+◌, ◌/◌, ◌%◌, ◌^◌, ◌≤◌, ◌<◌, ◌≡◌, Option, some, List, if◌then◌else◌, ◌>>=◌, length, size_mod,
}
use c_embedded_utils.Common.Bits.{bit_and_mask}
use c_embedded_utils.Common.Copy.{store_all, store_all_lem, IsWritten}
use c_embedded_utils.Pack.{is_within_buffer, is_within_buffer_lem, not_is_within_buffer}

-- `(uint8_t)((x >> k) & 0xFF)`
unfoldable pub byte_of : ℕ → ℕ → ℕ
byte_of x k = bit_and (x / 2 ^ k) 0xff % 2 ^ 8

pub byte_of_lem : (x k : ℕ) → byte_of x k ≡ x / 2 ^ k % 256
unfolding byte_of
byte_of_lem x k = omega (arith, bit_and_mask 8 (x / 2 ^ k))

-- The shape of each packing function: the bytes are stored one by one if they fit.
unfoldable pub put : List ℕ → ℕ → ℕ → List ℕ → ℕ → Option (ℕ × List ℕ)
unfolding is_within_buffer store_all
put bytes size offset buf data_len =
    if is_within_buffer offset size data_len
    then (do after ← store_all buf offset bytes; some (size, after))
    else some (0, buf)

-- A value that fits is written at its offset, and nothing else changes.
pub put_lem :
    (bytes : List ℕ) (offset : ℕ) (buf : List ℕ) (data_len : ℕ)
    → offset + length bytes ≤ data_len
    → data_len ≤ length buf
    → data_len < size_mod
    → (after : List ℕ) × (put bytes (length bytes) offset buf data_len ≡ some (length bytes, after))
      × IsWritten offset bytes buf after
unfolding put
put_lem bytes offset buf data_len h k l =
    let (after, stored, w) = store_all_lem buf offset bytes (omega arith) in
    (after, rw (is_within_buffer_lem offset (length bytes) data_len h l, stored), w)

pub put_outside :
    (bytes : List ℕ) (offset : ℕ) (buf : List ℕ) (data_len : ℕ)
    → offset < size_mod
    → length bytes < size_mod
    → data_len < offset + length bytes
    → put bytes (length bytes) offset buf data_len ≡ some (0, buf)
unfolding put
put_outside bytes offset buf data_len h k l =
    rw (not_is_within_buffer offset (length bytes) data_len h k l)
