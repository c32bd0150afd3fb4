-- ===== src/CopyQueue.antt =====
-- src/collections/copy_queue.c: a queue that copies elements of equal size into an array of bytes.
-- The indices only grow: the source never takes them back to the start of the array.
-- A result `none` is an access outside an array. An element to read is a list of bytes; one to write
-- is the caller's array, which is returned as the call leaves it.
pub mod Elements
pub mod Refine
pub mod Run
pub mod Init
mod Tests
use c_embedded_utils.Common.{
  ℕ, ◌+◌, ◌*◌, ◌≤◌, ◌<◌, ◌≡◌, Option, some, List, [], ◌==◌, ltb, if◌then◌else◌, add_size, sub_size,
  mul_size, ◌>>=◌, size_mod, length,
}
use c_embedded_utils.Common.Copy.{memcpy}
use c_embedded_utils.ErrorCode.{ErrorCode, err_none, err_invalid_arg, err_no_mem, err_empty}

pub record CopyQueueConfig : Type 0 where
  pub queue_buffer : List ℕ
  pub queue_size : ℕ
  pub element_count : ℕ
  pub element_size : ℕ

pub record CopyQueue : Type 0 where
  pub count : ℕ
  pub max_size : ℕ
  pub element_size : ℕ
  pub buffer : List ℕ
  pub tail_idx : ℕ
  pub head_idx : ℕ

unfoldable pub validate_config : CopyQueueConfig → ErrorCode
validate_config c =
    if c.element_size == 0
    then err_invalid_arg
    else if c.queue_size == 0
    then err_invalid_arg
    else if c.element_count == 0
    then err_invalid_arg
    else if ltb c.queue_size (mul_size c.element_count c.element_size)
    then err_invalid_arg
    else err_none

unfoldable pub init : CopyQueue → CopyQueueConfig → ErrorCode × CopyQueue
unfolding validate_config
init q c = elim (validate_config c) [
  | err_none ↦ (
    err_none,
    record {
      count = 0;
      max_size = c.element_count;
      element_size = c.element_size;
      buffer = c.queue_buffer;
      tail_idx = 0;
      head_idx = 0;
    },
  )
  | code ↦ (code, q)
]

-- A NULL buffer is the empty array.
unfoldable pub deinit : CopyQueue → CopyQueue
deinit q = record {
  count = 0;
  max_size = 0;
  element_size = 0;
  buffer = [];
  tail_idx = 0;
  head_idx = 0;
}

unfoldable pub get_remaining : CopyQueue → ℕ
get_remaining q = sub_size q.max_size q.count

unfoldable pub get_size : CopyQueue → ℕ
get_size q = q.count

unfoldable pub enqueue : CopyQueue → List ℕ → Option (ErrorCode × CopyQueue)
unfolding get_remaining
enqueue q element = if get_remaining q == 0 then some (err_no_mem, q) else do
  buf ← memcpy q.buffer q.tail_idx element 0 q.element_size
  some (
    err_none,
    record q {
      buffer = buf;
      tail_idx = add_size q.tail_idx q.element_size;
      count = add_size q.count 1;
    },
  )

unfoldable pub dequeue : CopyQueue → List ℕ → Option (ErrorCode × List ℕ × CopyQueue)
unfolding get_size
dequeue q element = if get_size q == 0 then some (err_empty, element, q) else do
  element' ← memcpy element 0 q.buffer q.head_idx q.element_size
  some (
    err_none,
    element',
    record q { head_idx = add_size q.head_idx q.element_size; count = sub_size q.count 1 },
  )

unfoldable pub peek : CopyQueue → List ℕ → Option (ErrorCode × List ℕ)
unfolding get_size
peek q element = if get_size q == 0 then some (err_empty, element) else do
  element' ← memcpy element 0 q.buffer q.head_idx q.element_size
  some (err_none, element')
