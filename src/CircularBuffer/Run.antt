-- ===== src/CircularBuffer/Run.antt =====
-- Whole lives of a circular buffer: from `circular_buffer_init` through any calls.
use c_embedded_utils.Common.{
  ℕ, ◌≤◌, ◌<◌, ◌≡◌, ◌≢◌, refl, Option, none, some, List, [], ◌∷◌, arith, length, ◌>>=◌, size_mod,
}
use c_embedded_utils.ErrorCode.{ErrorCode, err_none, err_invalid_arg, err_no_mem, err_empty}
use c_embedded_utils.CircularBuffer.{
  CircularBuffer, CircularBufferConfig, IsValid, init, deinit, validate_config, push_byte, pop_byte,
  get_count,
}
use c_embedded_utils.CircularBuffer.Refine.{
  contents, spec_push, spec_pop, circular_push_refines, circular_pop_refines,
}

pub data Op : Type 0 where
  put : ℕ → Op
  get : Op

-- What a client sees of its calls.
unfoldable pub run : CircularBuffer → List Op → Option (List (ErrorCode × Option ℕ))
run b [] = some []
run b (put x ∷ ops) = do
  (code, b') ← push_byte b x
  replies ← run b' ops
  some ((code, none) ∷ replies)
run b (get ∷ ops) = do
  (code, out, b') ← pop_byte b
  replies ← run b' ops
  some ((code, out) ∷ replies)

-- The same calls on the abstract queue of at most `cap` bytes.
unfoldable pub spec_run : ℕ → List ℕ → List Op → List (ErrorCode × Option ℕ)
unfolding spec_push spec_pop
spec_run cap xs [] = []
spec_run cap xs (put x ∷ ops) = (err_none, none) ∷ spec_run cap (spec_push cap xs x) ops
spec_run cap xs (get ∷ ops) =
    let (code, out, xs') = spec_pop xs in (code, out) ∷ spec_run cap xs' ops

-- No sequence of calls on a valid buffer faults, and each call returns what the overwriting queue of
-- its contents returns.
pub circular_run_refines :
    (ops : List Op) (b : CircularBuffer)
    → IsValid b
    → run b ops ≡ some (spec_run b.buffer_max_size (contents b) ops)
unfolding run spec_run
circular_run_refines [] b v = refl
circular_run_refines (put x ∷ ops) b v =
    let (b', returned, holds, v', size) = circular_push_refines b v x in
    ground (arith, returned, holds, size, circular_run_refines ops b' v')
circular_run_refines (get ∷ ops) b v =
    let (b', returned, holds, v', size) = circular_pop_refines b v in
    ground (arith, returned, holds, size, circular_run_refines ops b' v')

-- `circular_buffer_init` refuses an empty array, and then changes nothing.
pub init_zero :
    (b : CircularBuffer) (c : CircularBufferConfig)
    → c.buffer_size ≡ 0
    → init b c ≡ (err_invalid_arg, b)
unfolding init validate_config
init_zero b c e = ground arith

-- `circular_buffer_init` accepts a size other than 0 that its array has, and gives a valid buffer of
-- that size that holds no byte.
pub circular_init_lem :
    (b : CircularBuffer) (c : CircularBufferConfig)
    → c.buffer_size ≤ length c.buffer
    → c.buffer_size < size_mod
    → c.buffer_size ≢ 0
    → (b' : CircularBuffer) × (init b c ≡ (err_none, b'))
      × IsValid b'
      × (contents b' ≡ [])
      × (b'.buffer_max_size ≡ c.buffer_size)
unfolding init validate_config get_count
circular_init_lem b c h k e = ((init b c).1, ground arith, ground arith, ground arith, ground arith)

-- After `circular_buffer_deinit` every push is refused and every pop finds nothing, and neither
-- changes the buffer.
pub circular_deinit_lem :
    (b : CircularBuffer) (x : ℕ)
    → (push_byte (deinit b) x ≡ some (err_no_mem, deinit b))
      × (pop_byte (deinit b) ≡ some (err_empty, none, deinit b))
unfolding deinit push_byte pop_byte get_count
circular_deinit_lem b x = (refl, refl)
