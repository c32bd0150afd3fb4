-- ===== src/PtrStack/Calls.antt =====
-- The calls of a pointer stack by what it holds, for clients that keep the stack shut.
use c_embedded_utils.Common.{◌≡◌, ◌<◌, ◌-◌, none, some, List, [], ◌∷◌, arith, length}
use c_embedded_utils.ErrorCode.{err_none, err_empty}
use c_embedded_utils.PtrStack.{PtrStack, IsValid, push, pop, get_remaining_count}
use c_embedded_utils.PtrStack.Refine.{
  contents, length-cells, spec_push, spec_pop, stack_push_refines, stack_pop_refines,
}

module _ {A : Type 0} (s : PtrStack A) (v : IsValid s) where
  pub length-contents : length (contents s) ≡ s.stack_top
  length-contents = length-cells s.stack s.stack_top (omega arith)

  pub get_remaining_count-contents : get_remaining_count s ≡ s.max_item_count - length (contents s)
  unfolding get_remaining_count
  get_remaining_count-contents = omega (arith, length-contents)

  pub push_room :
      (x : A)
      → length (contents s) < s.max_item_count
      → (s' : PtrStack A) × (push s x ≡ some (err_none, s'))
        × (contents s' ≡ x ∷ contents s)
        × IsValid s'
        × (s'.max_item_count ≡ s.max_item_count)
  unfolding spec_push
  push_room x room =
      let (s', returned, holds, v', size) = stack_push_refines s x v in
      (s', ground arith, ground arith, v', size)

  pub pop_cons :
      (x : A) (xs : List A)
      → contents s ≡ x ∷ xs
      → (s' : PtrStack A) × (pop s ≡ some (err_none, some x, s'))
        × (contents s' ≡ xs)
        × IsValid s'
        × (s'.max_item_count ≡ s.max_item_count)
  unfolding spec_pop
  pop_cons x xs e =
      let (s', returned, holds, v', size) = stack_pop_refines s v in
      (s', ground arith, ground arith, v', size)

  pub pop_nil : contents s ≡ [] → pop s ≡ some (err_empty, none, s)
  unfolding pop get_remaining_count
  pop_nil e = ground (arith, length-contents)

-- A stack that is out of use refuses every call.
pub pop_unused :
    {A : Type 0} (s : PtrStack A)
    → s.max_item_count ≡ 0
    → s.stack_top ≡ 0
    → pop s ≡ some (err_empty, none, s)
unfolding pop get_remaining_count
pop_unused s e f = ground arith
