-- ===== src/CircularBuffer/Refine.antt =====
-- A valid circular buffer behaves as a bounded queue that loses its oldest byte when it is full.
use native.Mathlib.Nat.{mod-eq_of_lt}
use c_embedded_utils.Common.{
  ℕ, ◌+◌, ◌-◌, ◌%◌, ◌<◌, ◌≡◌, refl, sym, ap, ◌∙◌, Option, none, some, List, [], ◌∷◌, ◌++◌, ◌==◌,
  if◌then◌else◌, arith, length, set, Bool-cases, inl, inr, drop,
}
use c_embedded_utils.Common.Ring.{
  mod-of_two_rounds, byte_at, ring, length-ring, ring-congr, ring-set, ring_of_ne_zero,
}
use c_embedded_utils.ErrorCode.{ErrorCode, err_none, err_empty}
use c_embedded_utils.CircularBuffer.{CircularBuffer, IsValid, next, push_byte, pop_byte, get_count}
use c_embedded_utils.CircularBuffer.Count.{
  next_lem, get_count-le, write_index_lem, pushed, push_byte-eq-pushed, pushed-IsValid,
  get_count-pushed, popped, pop_byte-eq-popped, popped-IsValid, get_count-popped,
}

-- The bytes in the buffer, the oldest first.
abbrev pub contents : CircularBuffer → List ℕ
contents b = ring b.buffer b.buffer_max_size b.read_index (get_count b)

-- The abstract queue of at most `cap` bytes.
unfoldable pub spec_push : ℕ → List ℕ → ℕ → List ℕ
spec_push cap xs byte = (if length xs == cap then drop 1 xs else xs) ++ (byte ∷ [])

unfoldable pub spec_pop : List ℕ → ErrorCode × Option ℕ × List ℕ
spec_pop [] = (err_empty, none, [])
spec_pop (x ∷ xs) = (err_none, some x, xs)

-- `circular_buffer_get_count` is the number of bytes held.
pub get_count-contents : (b : CircularBuffer) → length (contents b) ≡ get_count b
get_count-contents b = length-ring b.buffer b.buffer_max_size b.read_index (get_count b)

module _ (b : CircularBuffer) (v : IsValid b) where
  -- A read index that moved on by one shows the bytes from the next position.
  ring-next :
      (buf : List ℕ) (n : ℕ)
      → ring buf b.buffer_max_size (next b b.read_index) n
        ≡ ring buf b.buffer_max_size (b.read_index + 1) n
  ring-next buf n = ring-congr buf b.buffer_max_size (next b b.read_index) (b.read_index + 1) n (
      ground (
        arith,
        next_lem b b.read_index v,
        mod-of_two_rounds (b.read_index + 1) b.buffer_max_size,
        mod-eq_of_lt {n = next b b.read_index} {m = b.buffer_max_size},
      ))

  contents-pushed :
      (byte : ℕ) → contents (pushed b byte) ≡ spec_push b.buffer_max_size (contents b) byte
  unfolding spec_push
  contents-pushed byte = elim (Bool-cases (get_count b == b.buffer_max_size)) [
    | inl full ↦
        let behind : b.write_index ≡ (b.read_index + 1 + (get_count b - 1)) % b.buffer_max_size =
          sym (write_index_lem b v) ∙ ap (λ k. k % b.buffer_max_size) (ground arith) in
        ground (
          arith,
          get_count-pushed b byte v,
          get_count-contents b,
          ring-next (set b.buffer b.write_index byte) (get_count b),
          ring_of_ne_zero b.buffer b.buffer_max_size b.read_index (get_count b),
          ring-set b.buffer b.buffer_max_size byte (get_count b - 1) (b.read_index + 1)
              b.write_index v.fits (ground arith) behind,
        )
    | inr room ↦ ground (
      arith,
      get_count-pushed b byte v,
      get_count-contents b,
      ring-set b.buffer b.buffer_max_size byte (get_count b) b.read_index b.write_index v.fits
          (ground (arith, get_count-le b v)) (sym (write_index_lem b v)),
    )
  ]

  contents-popped :
      0 < get_count b → contents b ≡ byte_at b.buffer b.read_index ∷ contents (popped b)
  contents-popped h = ground (
    arith,
    get_count-popped b v h,
    ring-next b.buffer (get_count b - 1),
    ring_of_ne_zero b.buffer b.buffer_max_size b.read_index (get_count b) h,
    mod-eq_of_lt v.read_in,
  )

  -- `circular_buffer_push_byte` never faults on a valid buffer, always succeeds, adds the byte behind
  -- the others, and drops the oldest byte exactly if the buffer is full.
  pub circular_push_refines :
      (byte : ℕ)
      → (b' : CircularBuffer) × (push_byte b byte ≡ some (err_none, b'))
        × (contents b' ≡ spec_push b.buffer_max_size (contents b) byte)
        × IsValid b'
        × (b'.buffer_max_size ≡ b.buffer_max_size)
  circular_push_refines byte = (
    pushed b byte,
    push_byte-eq-pushed b byte v,
    contents-pushed byte,
    pushed-IsValid b byte v,
    refl,
  )

  -- `circular_buffer_pop_byte` never faults on a valid buffer, and returns the code, the byte and the
  -- rest of the abstract pop.
  pub circular_pop_refines :
      (b' : CircularBuffer) × (pop_byte b
        ≡ some ((spec_pop (contents b)).0, (spec_pop (contents b)).1, b'))
      × (contents b' ≡ (spec_pop (contents b)).2)
      × IsValid b'
      × (b'.buffer_max_size ≡ b.buffer_max_size)
  unfolding spec_pop pop_byte
  circular_pop_refines = elim (Bool-cases (get_count b == 0)) [
    | inl empty ↦ (b, ground arith, ground arith, v, refl)
    | inr more ↦
        let h : 0 < get_count b = ground arith in
        (
          popped b,
          rw (contents-popped h) (pop_byte-eq-popped b v h),
          rw (contents-popped h),
          popped-IsValid b v h,
          refl,
        )
  ]
