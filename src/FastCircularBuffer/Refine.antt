-- ===== src/FastCircularBuffer/Refine.antt =====
-- A valid fast circular buffer behaves as the same queue as the plain circular buffer: the queue of at
-- most `2 ^ k` bytes that loses its oldest byte when it is full.
use native.Mathlib.Nat.{one-le-pow}
use c_embedded_utils.Common.{
  ℕ, ◌+◌, ◌-◌, ◌%◌, ◌^◌, ◌<◌, ◌≡◌, sym, ap, ◌∙◌, false, some, List, ◌∷◌, ◌==◌, arith, length, set,
  Bool-cases, inl, inr, add_size,
}
use c_embedded_utils.Common.Bits.{mod-size_mod}
use c_embedded_utils.Common.Ring.{byte_at, ring, length-ring, ring-congr, ring-set, ring_of_ne_zero}
use c_embedded_utils.ErrorCode.{err_none}
use c_embedded_utils.CircularBuffer.Refine.{spec_push, spec_pop}
use c_embedded_utils.FastCircularBuffer.{
  FastCircularBuffer, IsValid, push_byte, pop_byte, get_count,
}
use c_embedded_utils.FastCircularBuffer.Count.{
  write_index_lem, pushed, push_byte-eq-pushed, pushed-IsValid, get_count-pushed, popped,
  pop_byte-eq-popped, popped-IsValid, get_count-popped,
}

-- The bytes in a buffer of size `2 ^ k`, the oldest first.
abbrev pub contents : ℕ → FastCircularBuffer → List ℕ
contents k b = ring b.buffer (2 ^ k) b.read_index (get_count b)

pub get_count-contents : (k : ℕ) (b : FastCircularBuffer) → length (contents k b) ≡ get_count b
get_count-contents k b = length-ring b.buffer (2 ^ k) b.read_index (get_count b)

module _ (k : ℕ) (b : FastCircularBuffer) (v : IsValid k b) where
  -- A read index that moved on by one, wrapped or not, shows the bytes from the next position.
  ring-next :
      (buf : List ℕ) (n : ℕ)
      → ring buf (2 ^ k) (add_size b.read_index 1) n ≡ ring buf (2 ^ k) (b.read_index + 1) n
  ring-next buf n =
      ring-congr buf (2 ^ k) (add_size b.read_index 1) (b.read_index + 1) n
        (mod-size_mod k (b.read_index + 1) (omega (arith, v.below_size_t)))

  contents-pushed :
      (byte : ℕ) → contents k (pushed k b v byte) ≡ spec_push (2 ^ k) (contents k b) byte
  unfolding spec_push
  contents-pushed byte = elim (Bool-cases (get_count b == 2 ^ k)) [
    | inl full ↦
        let pos : 0 < 2 ^ k = one-le-pow k 2 (omega arith) in
        let behind : b.write_index % 2 ^ k ≡ (b.read_index + 1 + (get_count b - 1)) % 2 ^ k =
          sym (write_index_lem k b v) ∙ ap (λ t. t % 2 ^ k) (ground arith) in
        ground (
          arith,
          get_count-pushed k b v byte,
          get_count-contents k b,
          ring-next (set b.buffer (b.write_index % 2 ^ k) byte) (get_count b),
          ring_of_ne_zero b.buffer (2 ^ k) b.read_index (get_count b),
          ring-set b.buffer (2 ^ k) byte (get_count b - 1) (b.read_index + 1)
              (b.write_index % 2 ^ k) v.fits (ground arith) behind,
        )
    | inr room ↦ ground (
      arith,
      get_count-pushed k b v byte,
      get_count-contents k b,
      ring-set b.buffer (2 ^ k) byte (get_count b) b.read_index (b.write_index % 2 ^ k) v.fits
          (ground (arith, below room)) (sym (write_index_lem k b v)),
    )
  ]
    where
      below : (get_count b == 2 ^ k) ≡ false → get_count b < 2 ^ k
      below room = unfold get_count in ground (arith, v.held)

  contents-popped :
      (h : 0 < get_count b)
      → contents k b ≡ byte_at b.buffer (b.read_index % 2 ^ k) ∷ contents k (popped k b v)
  contents-popped h = ground (
    arith,
    get_count-popped k b v h,
    ring-next b.buffer (get_count b - 1),
    ring_of_ne_zero b.buffer (2 ^ k) b.read_index (get_count b) h,
  )

  -- `fast_circular_buffer_push_byte` never faults on a valid buffer, also where the indices wrap,
  -- always succeeds, adds the byte behind the others, and drops the oldest byte exactly if the buffer
  -- is full.
  pub fast_push_refines :
      (byte : ℕ)
      → (b' : FastCircularBuffer) × (push_byte b byte ≡ some (err_none, b'))
        × (contents k b' ≡ spec_push (2 ^ k) (contents k b) byte)
        × IsValid k b'
  fast_push_refines byte = (
    pushed k b v byte,
    push_byte-eq-pushed k b v byte,
    contents-pushed byte,
    pushed-IsValid k b v byte,
  )

  -- `fast_circular_buffer_pop_byte` never faults on a valid buffer, and returns the code, the byte and
  -- the rest of the abstract pop.
  pub fast_pop_refines :
      (b' : FastCircularBuffer) × (pop_byte b
        ≡ some ((spec_pop (contents k b)).0, (spec_pop (contents k b)).1, b'))
      × (contents k b' ≡ (spec_pop (contents k b)).2)
      × IsValid k b'
  unfolding spec_pop pop_byte
  fast_pop_refines = elim (Bool-cases (get_count b == 0)) [
    | inl empty ↦ (b, ground arith, ground arith, v)
    | inr more ↦
        let h : 0 < get_count b = ground arith in
        (
          popped k b v,
          rw (contents-popped h) (pop_byte-eq-popped k b v h),
          rw (contents-popped h),
          popped-IsValid k b v h,
        )
  ]
