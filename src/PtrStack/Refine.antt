-- ===== src/PtrStack/Refine.antt =====
-- A valid pointer stack behaves as the bounded stack of the items it holds.
use c_embedded_utils.Common.{
  ◌≢◌, size_mod, ◌>>=◌, Bool-cases, inl, inr, ℕ, zero, suc, ◌-◌, ◌≤◌, ◌<◌, ◌≡◌, refl, Option, none,
  some, List, [], ◌∷◌, ◌==◌, arith, if◌then◌else◌, store-lt, get_elem?, get_elem?-lt, get_elem?-set,
  set, length-set, length, ◌>>=◌, size_mod,
}
use c_embedded_utils.ErrorCode.{
  err_invalid_arg, ErrorCode, err_none, err_invalid_arg, err_no_mem, err_empty,
}
use c_embedded_utils.PtrStack.{PtrStack, IsValid, init, push, pop, get_remaining_count}

-- A client's calls.
pub data Op (A : Type 0) : Type 0 where
  put : A → Op A
  get : Op A

module _ {A : Type 0} where
  -- The first `n` cells of an array, the last one first.
  abbrev pub cells : List A → ℕ → List A
  cells buf zero = []
  cells buf (suc n) = elim (get_elem? buf n) [ none ↦ cells buf n | some x ↦ x ∷ cells buf n ]

  -- What the stack holds, the top first.
  abbrev pub contents : PtrStack A → List A
  contents s = cells s.stack s.stack_top

  -- The abstract stack of at most `cap` items.
  unfoldable pub spec_push : ℕ → List A → A → ErrorCode × List A
  spec_push cap xs v = if length xs == cap then (err_no_mem, xs) else (err_none, v ∷ xs)

  unfoldable pub spec_pop : List A → ErrorCode × Option A × List A
  spec_pop [] = (err_empty, none, [])
  spec_pop (x ∷ xs) = (err_none, some x, xs)

  pub length-cells : (buf : List A) (n : ℕ) → n ≤ length buf → length (cells buf n) ≡ n
  length-cells buf zero h = refl
  length-cells buf (suc n) h =
      ground (arith, get_elem?-lt buf n (omega arith), length-cells buf n (omega arith))

  cells-set :
      (buf : List A) (n i : ℕ) (v : A)
      → n ≤ i
      → i < length buf
      → cells (set buf i v) n ≡ cells buf n
  cells-set buf zero i v h k = refl
  cells-set buf (suc n) i v h k =
      ground (arith, get_elem?-set buf i n v k, cells-set buf n i v (omega arith) k)

  -- `cells` matches on `suc`, the code tests the number of items.
  cells_of_ne_zero :
      (buf : List A) (n : ℕ) (x : A)
      → 0 < n
      → get_elem? buf (n - 1) ≡ some x
      → cells buf n ≡ x ∷ cells buf (n - 1)
  cells_of_ne_zero buf zero x h e = absurd (omega arith)
  cells_of_ne_zero buf (suc n) x h e =
      let back : suc n - 1 ≡ n = omega arith in rw (back, rw back at e, cells) refl

  get_remaining_count_lem :
      (s : PtrStack A) → IsValid s → get_remaining_count s ≡ s.max_item_count - s.stack_top
  unfolding get_remaining_count
  get_remaining_count_lem s v = omega arith

  -- `ptr_stack_push` never faults on a valid stack, returns the code of the abstract push, holds its
  -- items, and keeps the stack valid.
  pub stack_push_refines :
      (s : PtrStack A) (x : A)
      → IsValid s
      → (s' : PtrStack A) × (push s x ≡ some ((spec_push s.max_item_count (contents s) x).0, s'))
        × (contents s' ≡ (spec_push s.max_item_count (contents s) x).1)
        × IsValid s'
        × (s'.max_item_count ≡ s.max_item_count)
  unfolding push spec_push
  stack_push_refines s x v = elim (Bool-cases (s.stack_top == s.max_item_count)) [
    | inl full ↦ (s, ground (arith, len), ground (arith, len), v, refl)
    | inr room ↦ (
      record s { stack = set s.stack s.stack_top x; stack_top = suc s.stack_top },
      ground (arith, len, store-lt s.stack s.stack_top x (ground arith)),
      ground (
        arith,
        len,
        get_elem?-set s.stack s.stack_top s.stack_top x,
        cells-set s.stack s.stack_top s.stack_top x,
      ),
      ground (arith, length-set s.stack s.stack_top x),
      refl,
    )
  ]
    where
      len : length (contents s) ≡ s.stack_top
      len = length-cells s.stack s.stack_top (omega arith)

  -- `ptr_stack_pop` never faults on a valid stack, and returns the code, the item and the rest of the
  -- abstract pop.
  pub stack_pop_refines :
      (s : PtrStack A)
      → IsValid s
      → (s' : PtrStack A) × (pop s
          ≡ some ((spec_pop (contents s)).0, (spec_pop (contents s)).1, s'))
        × (contents s' ≡ (spec_pop (contents s)).2)
        × IsValid s'
        × (s'.max_item_count ≡ s.max_item_count)
  unfolding pop spec_pop
  stack_pop_refines s v = elim (Bool-cases (s.stack_top == 0)) [
    | inl none_left ↦ (s, ground arith, ground arith, v, refl)
    | inr some_left ↦
        let (x, at_top) = get_elem?-lt s.stack (s.stack_top - 1) (ground arith) in
        let split = cells_of_ne_zero s.stack s.stack_top x (ground arith) at_top in
        (
          record s { stack_top = s.stack_top - 1 },
          rw (split, pop) (ground (arith, at_top)),
          rw split (ground arith),
          ground arith,
          refl,
        )
  ]

  -- After `ptr_stack_init` with a count and storage that holds it, the stack is valid and empty, and
  -- `ptr_stack_init` refuses the count 0 and then changes nothing.
  pub stack_init_lem :
      (s : PtrStack A) (buf : List A) (n : ℕ)
      → n ≤ length buf
      → n < size_mod
      → ((n ≡ 0) → init s buf n ≡ (err_invalid_arg, s))
        × ((n ≢ 0)
            → (s' : PtrStack A) × (init s buf n ≡ (err_none, s'))
              × IsValid s'
              × (contents s' ≡ [])
              × (s'.max_item_count ≡ n))
  unfolding init
  stack_init_lem s buf n h k = (
    λ e. ground arith,
    λ e. (
      record { stack = buf; max_item_count = n; stack_top = 0 },
      ground arith,
      ground arith,
      refl,
      refl,
    ),
  )

  -- What a client sees of its calls.
  unfoldable pub run : PtrStack A → List (Op A) → Option (List (ErrorCode × Option A))
  unfolding push pop
  run s [] = some []
  run s (put x ∷ ops) = do
    (code, s') ← push s x
    replies ← run s' ops
    some ((code, none) ∷ replies)
  run s (get ∷ ops) = do (code, out, s') ← pop s; replies ← run s' ops; some ((code, out) ∷ replies)

  unfoldable pub spec_run : ℕ → List A → List (Op A) → List (ErrorCode × Option A)
  unfolding spec_push spec_pop
  spec_run cap xs [] = []
  spec_run cap xs (put x ∷ ops) =
      let (code, xs') = spec_push cap xs x in (code, none) ∷ spec_run cap xs' ops
  spec_run cap xs (get ∷ ops) =
      let (code, out, xs') = spec_pop xs in (code, out) ∷ spec_run cap xs' ops

  -- No sequence of calls on a valid stack faults, and each call returns what the bounded stack of
  -- its contents returns.
  pub stack_run_refines :
      (ops : List (Op A)) (s : PtrStack A)
      → IsValid s
      → run s ops ≡ some (spec_run s.max_item_count (contents s) ops)
  unfolding run spec_run
  stack_run_refines [] s v = refl
  stack_run_refines (put x ∷ ops) s v =
      let (s', returned, holds, v', size) = stack_push_refines s x v in
      ground (arith, returned, holds, size, stack_run_refines ops s' v')
  stack_run_refines (get ∷ ops) s v =
      let (s', returned, holds, v', size) = stack_pop_refines s v in
      ground (arith, returned, holds, size, stack_run_refines ops s' v')
