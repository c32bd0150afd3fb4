-- ===== src/FastCircularBuffer/Run.antt =====
-- Whole lives of a fast circular buffer: from `fast_circular_buffer_init` through any calls.
use native.Mathlib.Decide.{ℕ_discrete, dec_lt}
use c_embedded_utils.Common.{
  ℕ, true, zero, suc, ◌↔◌, ◌⊎◌, ◌^◌, ◌≤◌, ◌<◌, ◌≡◌, ◌≢◌, refl, ap, Option, none, some, List, [],
  ◌∷◌, arith, length, ◌>>=◌, size_mod, Bool-cases, inl, inr, sub_size,
}
use c_embedded_utils.Common.Bits.{two_pow_le}
use c_embedded_utils.ErrorCode.{ErrorCode, err_none, err_invalid_arg, err_no_mem, err_empty}
use c_embedded_utils.NumericOps.{is_power_2_sz, is_power_2_sz_iff}
use c_embedded_utils.CircularBuffer.Run.{Op, put, get, spec_run}
use c_embedded_utils.FastCircularBuffer.{
  FastCircularBuffer, FastCircularBufferConfig, IsValid, init, deinit, push_byte, pop_byte,
  get_count, validate_config,
}
use c_embedded_utils.FastCircularBuffer.Refine.{contents, fast_push_refines, fast_pop_refines}

-- What a client sees of its calls.
unfoldable pub run : FastCircularBuffer → List Op → Option (List (ErrorCode × Option ℕ))
run b [] = some []
run b (put x ∷ ops) = do
  (code, b') ← push_byte b x
  replies ← run b' ops
  some ((code, none) ∷ replies)
run b (get ∷ ops) = do
  (code, out, b') ← pop_byte b
  replies ← run b' ops
  some ((code, out) ∷ replies)

-- No sequence of calls on a valid buffer faults, and each call returns what the overwriting queue of
-- its contents returns.
pub fast_run_refines :
    (k : ℕ) (ops : List Op) (b : FastCircularBuffer)
    → IsValid k b
    → run b ops ≡ some (spec_run (2 ^ k) (contents k b) ops)
unfolding run spec_run
fast_run_refines k [] b v = refl
fast_run_refines k (put x ∷ ops) b v =
    let (b', returned, holds, v') = fast_push_refines k b v x in
    ground (arith, returned, holds, fast_run_refines k ops b' v')
fast_run_refines k (get ∷ ops) b v =
    let (b', returned, holds, v') = fast_pop_refines k b v in
    ground (arith, returned, holds, fast_run_refines k ops b' v')

-- `fast_circular_buffer_init` refuses every size that is no power of two above 1, and then changes
-- nothing.
pub fast_init_invalid :
    (b : FastCircularBuffer) (c : FastCircularBufferConfig)
    → c.buffer_size < size_mod
    → ((k : ℕ) → 0 < k → c.buffer_size ≢ 2 ^ k)
    → init b c ≡ (err_invalid_arg, b)
unfolding init validate_config
fast_init_invalid b c h no_power = elim (Bool-cases (is_power_2_sz c.buffer_size)) [
  | inl power ↦
      let (k, e) = (is_power_2_sz_iff c.buffer_size h).0 power in
      elim (ℕ_discrete k 0) [
        | yes zero_exponent ↦ ground (arith, e, ap (λ j. 2 ^ j) zero_exponent)
        | no positive ↦ absurd (no_power k (omega arith) e)
      ]
  | inr other ↦ ground arith
]

-- `fast_circular_buffer_init` accepts every power of two above 1 that the array has, and gives a valid
-- buffer of that size that holds no byte.
pub fast_init_lem :
    (b : FastCircularBuffer) (c : FastCircularBufferConfig) (k : ℕ)
    → 0 < k
    → k < 64
    → c.buffer_size ≡ 2 ^ k
    → c.buffer_size ≤ length c.buffer
    → (b' : FastCircularBuffer) × (init b c ≡ (err_none, b')) × IsValid k b' × (contents k b' ≡ [])
unfolding init validate_config get_count
fast_init_lem b c k pos h e fits =
    let low : 2 ≤ 2 ^ k = two_pow_le 1 k pos in
    let high : 2 ^ k ≤ 2 ^ 63 = two_pow_le k 63 (omega arith) in
    let power = (is_power_2_sz_iff c.buffer_size (omega arith)).1 (k, e) in
    (
      record {
        buffer = c.buffer;
        read_index = 0;
        write_index = 0;
        size_mask = sub_size c.buffer_size 1;
      },
      ground arith,
      ground arith,
      refl,
    )

positive : (k size : ℕ) → size ≡ 2 ^ k → 2 ≤ size → 0 < k
positive zero size e h = absurd (omega arith)
positive (suc k) size e h = omega arith

below_64 : (k : ℕ) → 2 ^ k < 2 ^ 64 → k < 64
below_64 k h = elim (dec_lt k 64) [
  | yes small ↦ small
  | no large ↦ absurd (omega (arith, two_pow_le 64 k (omega arith)))
]

init_accepted :
    (b : FastCircularBuffer) (c : FastCircularBufferConfig)
    → (init b c).0 ≡ err_none
    → (2 ≤ c.buffer_size) × (is_power_2_sz c.buffer_size ≡ true)
unfolding init validate_config
init_accepted b c e = ground arith

-- `fast_circular_buffer_init` accepts exactly the sizes that are powers of two above 1, of those that
-- the array has; any other leaves the buffer unchanged.
pub fast_init_iff :
    (b : FastCircularBuffer) (c : FastCircularBufferConfig)
    → c.buffer_size < size_mod
    → c.buffer_size ≤ length c.buffer
    → (((init b c).0 ≡ err_none) ↔ ((k : ℕ) × (0 < k) × (c.buffer_size ≡ 2 ^ k)))
      × (((init b c).0 ≡ err_none) ⊎ (init b c ≡ (err_invalid_arg, b)))
fast_init_iff b c h fits = (
  (
    λ e.
        let (two, power) = init_accepted b c e in
        let (k, same) = (is_power_2_sz_iff c.buffer_size h).0 power in
        (k, positive k c.buffer_size same two, same),
    λ t.
        let small : t.0 < 64 = below_64 t.0 (omega (arith, t.2)) in
        let (b', made, valid, empty) = fast_init_lem b c t.0 t.1 small t.2 fits in
        ap (λ r. r.0) made,
  ),
  unfold init validate_config in ground arith,
)

-- After `fast_circular_buffer_deinit` every push is refused and every pop finds nothing, and neither
-- changes the buffer.
pub fast_deinit_lem :
    (b : FastCircularBuffer) (x : ℕ)
    → (push_byte (deinit b) x ≡ some (err_no_mem, deinit b))
      × (pop_byte (deinit b) ≡ some (err_empty, none, deinit b))
unfolding deinit push_byte pop_byte get_count
fast_deinit_lem b x = (refl, refl)
