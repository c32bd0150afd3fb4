-- ===== src/FastCircularBuffer/Alike.antt =====
-- The fast circular buffer beside the plain one.
use c_embedded_utils.Common.{ℕ, ◌^◌, ◌≤◌, ◌<◌, ◌≡◌, sym, ap, ◌∙◌, some, List, [], arith, length}
use c_embedded_utils.Common.Bits.{two_pow_le}
use c_embedded_utils.ErrorCode.{err_none}
use c_embedded_utils.CircularBuffer
use c_embedded_utils.CircularBuffer.{CircularBuffer, CircularBufferConfig}
use c_embedded_utils.CircularBuffer.Run.{Op, spec_run, circular_run_refines, circular_init_lem}
use c_embedded_utils.CircularBuffer.Run
use c_embedded_utils.CircularBuffer.Refine.{contents}
use c_embedded_utils.FastCircularBuffer.{FastCircularBuffer, FastCircularBufferConfig, init}
use c_embedded_utils.FastCircularBuffer.Run.{run, fast_run_refines, fast_init_lem}

-- A plain and a fast buffer, initialised with arrays of the same size, a power of two above 1: the same
-- calls return the same codes and the same bytes, and none faults.
pub buffers_alike :
    (k : ℕ) (b : CircularBuffer) (c : CircularBufferConfig) (f : FastCircularBuffer)
    (d : FastCircularBufferConfig) (ops : List Op)
    → 0 < k
    → k < 64
    → c.buffer_size ≡ 2 ^ k
    → d.buffer_size ≡ 2 ^ k
    → c.buffer_size ≤ length c.buffer
    → d.buffer_size ≤ length d.buffer
    → (b' : CircularBuffer) × (f' : FastCircularBuffer) × (CircularBuffer.init b c ≡ (err_none, b'))
      × (init f d ≡ (err_none, f'))
      × (run f' ops ≡ Run.run b' ops)
      × (run f' ops ≡ some (spec_run (2 ^ k) [] ops))
buffers_alike k b c f d ops pos h same same' fits fits' =
    let low : 2 ≤ 2 ^ k = two_pow_le 1 k pos in
    let high : 2 ^ k ≤ 2 ^ 63 = two_pow_le k 63 (omega arith) in
    let (b', made, valid, empty, size) =
      circular_init_lem b c fits (omega (arith, same, high)) (λ e. omega (arith, same, low, e)) in
    let (f', made', valid', empty') = fast_init_lem f d k pos h same' fits' in
    let plain : Run.run b' ops ≡ some (spec_run (2 ^ k) [] ops) =
      circular_run_refines ops b' valid
      ∙ ap (λ n. some (spec_run n (contents b') ops)) (size ∙ same)
      ∙ ap (λ xs. some (spec_run (2 ^ k) xs ops)) empty in
    let fast : run f' ops ≡ some (spec_run (2 ^ k) [] ops) =
      fast_run_refines k ops f' valid' ∙ ap (λ xs. some (spec_run (2 ^ k) xs ops)) empty' in
    (b', f', made, made', fast ∙ sym plain, fast)
