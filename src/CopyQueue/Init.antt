-- ===== src/CopyQueue/Init.antt =====
-- `copy_queue_init`: which configurations it accepts, and the queue that it makes.
use native.Mathlib.Nat.{mod-eq_of_lt}
use native.Mathlib.Decide.{dec_lt}
use c_embedded_utils.Common.{
  ◌*◌, ◌≤◌, ◌<◌, ◌≡◌, refl, ◌⊎◌, inl, inr, [], arith, length, size_mod, ◌%◌,
}
use c_embedded_utils.ErrorCode.{err_none, err_invalid_arg}
use c_embedded_utils.CopyQueue.{CopyQueue, CopyQueueConfig, init, validate_config}
use c_embedded_utils.CopyQueue.Elements.{elements}
use c_embedded_utils.CopyQueue.Refine.{IsHolding}

-- What `copy_queue_init` demands: none of the sizes is 0, and the elements all fit the array.
pub record FitsArray (c : CopyQueueConfig) : Type 0 where
  pub element_sized : 0 < c.element_size
  pub queue_sized : 0 < c.queue_size
  pub counted : 0 < c.element_count
  pub fits : c.element_count * c.element_size ≤ c.queue_size

-- The queue is as an accepted configuration makes it.
pub record IsFresh (c : CopyQueueConfig) (q : CopyQueue) : Type 0 where
  pub holding : IsHolding q []
  pub max_size : q.max_size ≡ c.element_count
  pub element_size : q.element_size ≡ c.element_size
  pub tail_idx : q.tail_idx ≡ 0
  pub buffer : q.buffer ≡ c.queue_buffer

fresh : CopyQueueConfig → CopyQueue
fresh c = record {
  count = 0;
  max_size = c.element_count;
  element_size = c.element_size;
  buffer = c.queue_buffer;
  tail_idx = 0;
  head_idx = 0;
}

fresh-IsFresh :
    (c : CopyQueueConfig)
    → length c.queue_buffer < size_mod
    → c.element_count < size_mod
    → IsFresh c (fresh c)
unfolding fresh elements
fresh-IsFresh c sized counted = record {
  holding = record {
    stored = refl;
    tail = omega arith;
    tail_in = omega arith;
    bounded = omega arith;
    sized = counted;
    buffer_sized = sized;
  };
  max_size = refl;
  element_size = refl;
  tail_idx = refl;
  buffer = refl;
}

-- The configuration is accepted exactly if it fits the array, and else nothing is written.
init_replies :
    (q : CopyQueue) (c : CopyQueueConfig)
    → c.element_count * c.element_size % size_mod ≡ c.element_count * c.element_size
    → ((init q c ≡ (err_none, fresh c)) × FitsArray c)
      ⊎ ((init q c ≡ (err_invalid_arg, q)) × ¬ FitsArray c)
unfolding init validate_config fresh
init_replies q c whole = elim (dec_lt 0 c.element_size) [
  | no small ↦ inr (ground arith, λ f. omega (arith, f.element_sized))
  | yes element_sized ↦ elim (dec_lt 0 c.queue_size) [
    | no small ↦ inr (ground arith, λ f. omega (arith, f.queue_sized))
    | yes queue_sized ↦ elim (dec_lt 0 c.element_count) [
      | no small ↦ inr (ground arith, λ f. omega (arith, f.counted))
      | yes counted ↦ elim (dec_lt c.queue_size (c.element_count * c.element_size)) [
        | yes over ↦ inr (ground (arith, whole), λ f. omega (arith, f.fits))
        | no inside ↦ inl (
          ground (arith, whole),
          record {
            element_sized = element_sized;
            queue_sized = queue_sized;
            counted = counted;
            fits = omega arith;
          },
        )
      ]
    ]
  ]
]

-- A configuration whose element count and total size of the elements do not overflow size_t, with
-- an array of at least the stated size and below 2 ^ 64 bytes: the initialisation either accepts
-- it, none of the sizes is 0 and the elements all fit the stated size, and the queue holds
-- nothing, has the sizes of the configuration and begins at the start of the array; or it returns
-- ERR_INVALID_ARG and leaves the queue unchanged, and one of the sizes is 0 or the elements do
-- not fit.
pub copy_init_cases :
    (q : CopyQueue) (c : CopyQueueConfig)
    → c.element_count * c.element_size < size_mod
    → c.queue_size ≤ length c.queue_buffer
    → length c.queue_buffer < size_mod
    → c.element_count < size_mod
    → ((q' : CopyQueue) × (init q c ≡ (err_none, q')) × FitsArray c × IsFresh c q')
      ⊎ ((init q c ≡ (err_invalid_arg, q)) × ¬ FitsArray c)
copy_init_cases q c product inside sized counted = elim (init_replies q c (mod-eq_of_lt product)) [
  | inl (made, fits) ↦ inl (fresh c, made, fits, fresh-IsFresh c sized counted)
  | inr refused ↦ inr refused
]
