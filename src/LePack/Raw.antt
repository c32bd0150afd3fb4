-- ===== src/LePack/Raw.antt =====
-- The functions for raw bytes, and their round trip.
use c_embedded_utils.Common.{
  ℕ, ◌+◌, ◌≤◌, ◌<◌, ◌≡◌, ◌&&◌, Option, some, List, if◌then◌else◌, ltb, ◌>>=◌, length, size_mod,
  arith, ap, get_elem?,
}
use c_embedded_utils.Common.Copy.{
  memcpy, store_all_lem, load_all-store_all, load_all_of_inside, IsWritten,
}
use c_embedded_utils.Pack.{is_within_buffer, is_within_buffer_lem}

module _ (raw_data : List ℕ) (raw_data_size offset : ℕ) (buf : List ℕ) (data_len : ℕ) where
  -- Returns the size and the buffer.
  unfoldable pub pack_raw : Option (ℕ × List ℕ)
  unfolding memcpy is_within_buffer
  pack_raw =
      if is_within_buffer offset raw_data_size data_len && ltb 0 raw_data_size
      then (do after ← memcpy buf offset raw_data 0 raw_data_size; some (raw_data_size, after))
      else some (0, buf)

  -- Returns the size and the raw data.
  unfoldable pub unpack_raw : Option (ℕ × List ℕ)
  unfolding memcpy is_within_buffer
  unpack_raw =
      if is_within_buffer offset raw_data_size data_len && ltb 0 raw_data_size
      then (do after ← memcpy raw_data 0 buf offset raw_data_size; some (raw_data_size, after))
      else some (0, raw_data)

-- Raw bytes that fit are packed at the offset with no other change to the buffer, and unpacking puts
-- them at the start of any array that has room for them; both return their number.
pub unpack-pack_raw :
    (raw : List ℕ) (offset : ℕ) (buf : List ℕ) (data_len : ℕ) (out : List ℕ)
    → 0 < length raw
    → length raw ≤ length out
    → offset + length raw ≤ data_len
    → data_len ≤ length buf
    → data_len < size_mod
    → (after : List ℕ) × (out' : List ℕ) × (pack_raw raw (length raw) offset buf data_len
        ≡ some (length raw, after))
      × IsWritten offset raw buf after
      × (unpack_raw out (length raw) offset after data_len ≡ some (length raw, out'))
      × IsWritten 0 raw out out'
unfolding pack_raw unpack_raw memcpy
unpack-pack_raw raw offset buf data_len out some_bytes room h fits sized =
    let (after, stored, w) = store_all_lem buf offset raw (omega arith) in
    let (out', copied, w') = store_all_lem out 0 raw (omega arith) in
    let within = is_within_buffer_lem offset (length raw) data_len h sized in
    (
      after,
      out',
      ground (
        arith,
        within,
        stored,
        load_all_of_inside raw 0 raw (λ i lt. ap (get_elem? raw) (omega arith)),
      ),
      w,
      ground (arith, within, copied, load_all-store_all offset raw buf after w),
      w',
    )
