-- ===== src/FastCircularBuffer/Count.antt =====
-- The masked indices, and how the number of bytes moves.
use Prim.Native.Nat.{bit_and}
use c_embedded_utils.Common.{
  ℕ, ◌+◌, ◌-◌, ◌%◌, ◌^◌, ◌≤◌, ◌<◌, ◌≡◌, ap, some, ◌==◌, if◌then◌else◌, arith, length, length-set,
  set, store-lt, add_size, sub_size, ◌∙◌, sym,
}
use native.Mathlib.Nat.{mod-lt, one-le-pow}
use c_embedded_utils.Common.Ring.{byte_at, get_elem?-byte_at}
use c_embedded_utils.Common.Bits.{bit_and_mask, mod-size_mod, two_pow_le}
use c_embedded_utils.ErrorCode.{err_none}
use c_embedded_utils.FastCircularBuffer.{
  FastCircularBuffer, IsValid, push_byte, pop_byte, get_count,
}

module _ (k : ℕ) (b : FastCircularBuffer) (v : IsValid k b) where
  -- A masked index is the remainder by the size, and lies in the array.
  pub masked : (i : ℕ) → bit_and i b.size_mask ≡ i % 2 ^ k
  masked i =
      let ones : b.size_mask ≡ 2 ^ k - 1 = omega (arith, v.mask) in
      ap (bit_and i) ones ∙ bit_and_mask k i

  pub masked-lt : (i : ℕ) → i % 2 ^ k < length b.buffer
  masked-lt i = omega (arith, v.fits, mod-lt i (one-le-pow k 2 (omega arith)))

  -- The size is at least 2 and at most half of what `size_t` counts.
  pub size_bounds : (2 ≤ 2 ^ k) × (2 ^ k ≤ 2 ^ 63)
  size_bounds = (two_pow_le 1 k v.more_than_one, two_pow_le k 63 (omega (arith, v.below_size_t)))

  -- The write index is the read index moved on by the number of bytes, up to wraps.
  pub write_index_lem : (b.read_index + get_count b) % 2 ^ k ≡ b.write_index % 2 ^ k
  unfolding get_count
  write_index_lem =
      let wrapped : (b.read_index + sub_size b.write_index b.read_index) % 2 ^ 64 ≡ b.write_index =
        omega (arith, v.read_in, v.write_in) in
      sym (
        mod-size_mod k (b.read_index + sub_size b.write_index b.read_index)
          (omega (arith, v.below_size_t)))
      ∙ ap (λ t. t % 2 ^ k) wrapped

  -- The buffer after a push: its oldest byte goes if it is full.
  abbrev pub pushed : ℕ → FastCircularBuffer
  pushed byte = record b {
    buffer = set b.buffer (b.write_index % 2 ^ k) byte;
    read_index = if get_count b == 2 ^ k then add_size b.read_index 1 else b.read_index;
    write_index = add_size b.write_index 1;
  }

  pub push_byte-eq-pushed : (byte : ℕ) → push_byte b byte ≡ some (err_none, pushed byte)
  unfolding push_byte get_count
  push_byte-eq-pushed byte = ground (
    arith,
    size_bounds,
    masked b.write_index,
    store-lt b.buffer (b.write_index % 2 ^ k) byte (masked-lt b.write_index),
  )

  pub get_count-pushed :
      (byte : ℕ)
      → get_count (pushed byte) ≡ (if get_count b == 2 ^ k then get_count b else get_count b + 1)
  unfolding get_count
  get_count-pushed byte = ground (arith, size_bounds)

  pub pushed-IsValid : (byte : ℕ) → IsValid k (pushed byte)
  unfolding get_count
  pushed-IsValid byte =
      ground (arith, size_bounds, length-set b.buffer (b.write_index % 2 ^ k) byte)

  -- The buffer after a pop that finds a byte.
  abbrev pub popped : FastCircularBuffer
  popped = record b { read_index = add_size b.read_index 1 }

  module _ (h : 0 < get_count b) where
    pub pop_byte-eq-popped :
        pop_byte b ≡ some (err_none, some (byte_at b.buffer (b.read_index % 2 ^ k)), popped)
    unfolding pop_byte
    pop_byte-eq-popped = ground (
      arith,
      masked b.read_index,
      get_elem?-byte_at b.buffer (b.read_index % 2 ^ k) (masked-lt b.read_index),
    )

    pub popped-IsValid : IsValid k popped
    unfolding get_count
    popped-IsValid = ground (arith, size_bounds)

    pub get_count-popped : get_count popped + 1 ≡ get_count b
    unfolding get_count
    get_count-popped = ground arith
