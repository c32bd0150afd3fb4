-- ===== src/CopyQueue/Run.antt =====
-- Any calls on a copy queue in sequence.
use c_embedded_utils.Common.{
  ℕ, suc, ◌+◌, ◌≤◌, ◌≡◌, refl, Bool, true, ◌&&◌, Option, some, List, [], ◌∷◌, ◌++◌, ◌==◌,
  if◌then◌else◌, arith, length, ◌>>=◌, List-cases, inl, inr, ap, sym, ◌∙◌, ◌-◌,
}
use native.Mathlib.Decide.{ℕ_discrete}
use c_embedded_utils.ErrorCode.{ErrorCode, err_none, err_no_mem, err_empty}
use c_embedded_utils.CopyQueue.{CopyQueue, enqueue, dequeue, peek}
use c_embedded_utils.CopyQueue.Elements.{elements-length}
use c_embedded_utils.CopyQueue.Refine.{
  IsHolding, enqueue_full, enqueue_lem, dequeue_empty, dequeue_lem,
}

pub data Op : Type 0 where
  put : List ℕ → Op
  get : Op
  look : Op

-- What a client sees of its calls: the code, and the array that it passes to each read.
unfoldable pub run : CopyQueue → List ℕ → List Op → Option (List (ErrorCode × List ℕ))
run q out [] = some []
run q out (put x ∷ ops) = do
  (code, q') ← enqueue q x
  replies ← run q' out ops
  some ((code, x) ∷ replies)
run q out (get ∷ ops) = do
  (code, read, q') ← dequeue q out
  replies ← run q' out ops
  some ((code, read) ∷ replies)
run q out (look ∷ ops) = do
  (code, read) ← peek q out
  replies ← run q out ops
  some ((code, read) ∷ replies)

-- The same calls on a first-in first-out queue of at most `cap` elements.
unfoldable pub spec_run : ℕ → List (List ℕ) → List ℕ → List Op → List (ErrorCode × List ℕ)
spec_run cap xs out [] = []
spec_run cap xs out (put x ∷ ops) =
    let refused = spec_run cap xs out ops in
    let taken = spec_run cap (xs ++ x ∷ []) out ops in
    if length xs == cap then (err_no_mem, x) ∷ refused else (err_none, x) ∷ taken
spec_run cap [] out (get ∷ ops) = (err_empty, out) ∷ spec_run cap [] out ops
spec_run cap (x ∷ xs) out (get ∷ ops) = (err_none, x) ∷ spec_run cap xs out ops
spec_run cap [] out (look ∷ ops) = (err_empty, out) ∷ spec_run cap [] out ops
spec_run cap (x ∷ xs) out (look ∷ ops) = (err_none, x) ∷ spec_run cap (x ∷ xs) out ops

-- How many bytes the puts of a script may need, refused ones included.
unfoldable pub needed : ℕ → List Op → ℕ
needed size [] = 0
needed size (put x ∷ ops) = size + needed size ops
needed size (get ∷ ops) = needed size ops
needed size (look ∷ ops) = needed size ops

-- Each element that the script puts has the size that the queue was given.
unfoldable pub fits_size : ℕ → List Op → Bool
fits_size size [] = true
fits_size size (put x ∷ ops) = length x == size && fits_size size ops
fits_size size (get ∷ ops) = fits_size size ops
fits_size size (look ∷ ops) = fits_size size ops

get_held :
    (cap : ℕ) (xs : List (List ℕ)) (out : List ℕ) (ops : List Op) (y : List ℕ) (ys : List (List ℕ))
    → xs ≡ y ∷ ys
    → spec_run cap xs out (get ∷ ops) ≡ (err_none, y) ∷ spec_run cap ys out ops
unfolding spec_run
get_held cap xs out ops y ys e = rw e refl

look_held :
    (cap : ℕ) (xs : List (List ℕ)) (out : List ℕ) (ops : List Op) (y : List ℕ) (ys : List (List ℕ))
    → xs ≡ y ∷ ys
    → spec_run cap xs out (look ∷ ops) ≡ (err_none, y) ∷ spec_run cap xs out ops
unfolding spec_run
look_held cap xs out ops y ys e = rw e refl

-- While the array has room behind the tail for every put, no sequence of calls with elements of the
-- queue's size faults, and each call returns what the first-in first-out queue of the same elements
-- returns.
pub copy_run_refines :
    (ops : List Op) (q : CopyQueue) (xs : List (List ℕ)) (out : List ℕ)
    → IsHolding q xs
    → length out ≡ q.element_size
    → fits_size q.element_size ops ≡ true
    → q.tail_idx + needed q.element_size ops ≤ length q.buffer
    → run q out ops ≡ some (spec_run q.max_size xs out ops)
unfolding run spec_run needed fits_size
copy_run_refines [] q xs out v size fit room = refl
copy_run_refines (put x ∷ ops) q xs out v size fit room =
    let counted = elements-length q.buffer q.head_idx q.element_size q.count xs v.stored in
    elim (ℕ_discrete q.count q.max_size) [
      | yes e ↦
          let rest = copy_run_refines ops q xs out v size (ground arith) (omega arith) in
          ground (arith, enqueue_full q x v.sized e, rest)
      | no more ↦
          let (q', returned, v', max', size', count', tail', length') =
            enqueue_lem q xs x v (ground arith) (omega (arith, v.bounded)) (omega arith) in
          let same = ap (λ s. needed s ops) size' in
          let rest =
            copy_run_refines ops q' (xs ++ x ∷ []) out v' (omega arith)
              (ap (λ s. fits_size s ops) size' ∙ ground arith) (omega (arith, same)) in
          ground (arith, returned, rest, max')
    ]
copy_run_refines (get ∷ ops) q xs out v size fit room =
    let counted = elements-length q.buffer q.head_idx q.element_size q.count xs v.stored in
    elim (ℕ_discrete q.count 0) [
      | yes e ↦
          let (empty, _) = dequeue_empty q out e in
          let rest = copy_run_refines ops q xs out v size fit room in
          elim (List-cases xs) [
            | inl nil ↦ rw (empty, rest, nil) refl
            | inr (y, ys, cons) ↦ absurd (ground (arith, counted))
          ]
      | no more ↦
          let pred : q.count ≡ suc (q.count - 1) = omega arith in
          let (x, ys, q', split, returned, peeked, v', max', size', count', tail', buffer') =
            dequeue_lem q xs (q.count - 1) out v size pred in
          let rest =
            copy_run_refines ops q' ys out v' (omega arith) (ap (λ s. fits_size s ops) size' ∙ fit)
              (omega (arith, ap (λ s. needed s ops) size', ap length buffer')) in
          let rest' = rest ∙ ap (λ m. some (spec_run m ys out ops)) max' in
          let ran : run q out (get ∷ ops) ≡ some ((err_none, x) ∷ spec_run q.max_size ys out ops) =
            rw (returned, rest') refl in
          ran ∙ ap some (sym (get_held q.max_size xs out ops x ys split))
    ]
copy_run_refines (look ∷ ops) q xs out v size fit room =
    let counted = elements-length q.buffer q.head_idx q.element_size q.count xs v.stored in
    let rest = copy_run_refines ops q xs out v size fit room in
    elim (ℕ_discrete q.count 0) [
      | yes e ↦
          let (_, empty) = dequeue_empty q out e in
          elim (List-cases xs) [
            | inl nil ↦ rw (empty, rest, nil) refl
            | inr (y, ys, cons) ↦ absurd (ground (arith, counted))
          ]
      | no more ↦
          let pred : q.count ≡ suc (q.count - 1) = omega arith in
          let (x, ys, q', split, returned, peeked, v', max', size', count', tail', buffer') =
            dequeue_lem q xs (q.count - 1) out v size pred in
          let ran : run q out (look ∷ ops) ≡ some ((err_none, x) ∷ spec_run q.max_size xs out ops) =
            rw (peeked, rest) refl in
          ran ∙ ap some (sym (look_held q.max_size xs out ops x ys split))
    ]
