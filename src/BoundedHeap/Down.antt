-- ===== src/BoundedHeap/Down.antt =====
-- The loop of `bounded_heap_pop`, and what each of its swaps does.
use mathlib.Core.List.Perm
use c_embedded_utils.Common.{
  ℕ, zero, suc, ◌+◌, ◌*◌, ◌≤◌, ◌<◌, ◌≡◌, ◌⊎◌, refl, Bool, true, false, some, List, arith, length,
  get_elem?, get_elem?-lt, Bool-cases, inl, inr, size_mod,
}
use native.Mathlib.Decide.{ℕ_discrete, dec_lt}
use c_embedded_utils.BoundedHeap.{
  sift_down, get_index_of_left_child, get_index_of_right_child, left_child_swap, right_child_swap,
}
use c_embedded_utils.BoundedHeap.Order.{parent, in_order, in_order_kept}
use c_embedded_utils.BoundedHeap.Swap.{IsSwapped, swap_lem}
use c_embedded_utils.BoundedHeap.Up.{IsReordered, IsReordered-swap}

module _ {A : Type 0} (compare : A → A → Bool) where
  -- The loop swaps index `i` with its child `j`, whose sibling is `k`.
  pub record IsStep (storage : List A) (i j k : ℕ) : Type 0 where
    pub parent_value : A
    pub child_value : A
    pub sibling_value : A
    pub at_parent : get_elem? storage i ≡ some parent_value
    pub at_child : get_elem? storage j ≡ some child_value
    pub at_sibling : get_elem? storage k ≡ some sibling_value
    pub children : ((j ≡ 2 * i + 1) × (k ≡ 2 * i + 2)) ⊎ ((j ≡ 2 * i + 2) × (k ≡ 2 * i + 1))
    pub chosen : compare parent_value child_value ≡ true
    pub best :
        (compare parent_value sibling_value ≡ false)
        ⊎ (compare child_value sibling_value ≡ false)
        ⊎ (compare sibling_value child_value ≡ true)

  module _ (storage : List A) (i : ℕ) (p l r : A) (ep : get_elem? storage i ≡ some p)
      (el : get_elem? storage (2 * i + 1) ≡ some l)
      (er : get_elem? storage (2 * i + 2) ≡ some r) where
    left-IsStep : left_child_swap compare p l r ≡ true → IsStep storage i (2 * i + 1) (2 * i + 2)
    left-IsStep e = record {
      parent_value = p;
      child_value = l;
      sibling_value = r;
      at_parent = ep;
      at_child = el;
      at_sibling = er;
      children = inl (refl, refl);
      chosen = ground arith;
      best = elim (Bool-cases (compare p r)) [
        | inl both ↦ inr (inl (ground arith))
        | inr one ↦ inl one
      ];
    }

    right-IsStep :
        left_child_swap compare p l r ≡ false
        → right_child_swap compare p l r ≡ true
        → IsStep storage i (2 * i + 2) (2 * i + 1)
    right-IsStep e f = record {
      parent_value = p;
      child_value = r;
      sibling_value = l;
      at_parent = ep;
      at_child = er;
      at_sibling = el;
      children = inr (refl, refl);
      chosen = ground arith;
      best = elim (Bool-cases (compare p l)) [
        | inl both ↦ inr (inr (ground arith))
        | inr one ↦ inl one
      ];
    }

    settled_lem :
        left_child_swap compare p l r ≡ false
        → right_child_swap compare p l r ≡ false
        → (c : ℕ) → (c ≡ 2 * i + 1) ⊎ (c ≡ 2 * i + 2)
        → in_order compare (get_elem? storage i) (get_elem? storage c) ≡ true
    settled_lem e f c (inl first) = rw (first, ep, el) (in_order_kept compare p l (ground arith))
    settled_lem e f c (inr second) = rw (second, ep, er) (in_order_kept compare p r (ground arith))

  child_cases : (c i : ℕ) → 0 < c → parent c ≡ i → (c ≡ 2 * i + 1) ⊎ (c ≡ 2 * i + 2)
  child_cases c i pos e = elim (ℕ_discrete c (2 * i + 1)) [
    | yes first ↦ inl first
    | no other ↦ inr (omega arith)
  ]

  -- The loop ends, faults nowhere and loses nothing. What each swap carries to the child holds at the
  -- end, where an element with two children is in order with both.
  pub sift_down_rule :
      (n : ℕ)
      → 2 * n + 2 ≤ size_mod
      → (Inv : List A → ℕ → Type 0)
      → ((before after : List A) (i j k : ℕ)
          → Inv before i
          → IsStep before i j k
          → IsSwapped i j before after
          → 2 * i + 2 < n
          → Inv after j)
      → (fuel : ℕ) (storage : List A) (i : ℕ) → n < fuel + i
      → i ≤ n
      → n ≤ length storage
      → Inv storage i
      → (after : List A) × (last : ℕ) × (sift_down fuel compare n storage i ≡ some after)
        × Inv after last
        × ((c : ℕ)
            → 0 < c
            → parent c ≡ last
            → 2 * last + 2 < n
            → in_order compare (get_elem? after last) (get_elem? after c) ≡ true)
        × IsReordered n storage after
  unfolding sift_down
  sift_down_rule n sized Inv step zero storage i f low inside v = absurd (omega arith)
  sift_down_rule n sized Inv step (suc fuel) storage i f low inside v =
      elim (dec_lt (2 * i + 2) n) [
        | no leaf ↦ (
          storage,
          i,
          ground arith,
          v,
          λ c pos e two. absurd (omega arith),
          record { same_length = refl; conserves = Perm.rfl },
        )
        | yes two ↦
            let left : get_index_of_left_child i ≡ 2 * i + 1 = omega arith in
            let right : get_index_of_right_child i ≡ 2 * i + 2 = omega arith in
            let (p, ep) = get_elem?-lt storage i (omega arith) in
            let (l, el) = get_elem?-lt storage (2 * i + 1) (omega arith) in
            let (r, er) = get_elem?-lt storage (2 * i + 2) (omega arith) in
            elim (Bool-cases (left_child_swap compare p l r)) [
              | inl goes_left ↦
                  let (mid, swapped, s) =
                    swap_lem storage i (2 * i + 1) p l (omega arith) (omega arith) ep el in
                  let chosen = left-IsStep storage i p l r ep el er goes_left in
                  let (after, last, done, v', settled, o) =
                    sift_down_rule n sized Inv step fuel mid (2 * i + 1) (omega arith) (omega arith)
                      (omega (arith, s.same_length))
                      (step storage mid i (2 * i + 1) (2 * i + 2) v chosen s two) in
                  (
                    after,
                    last,
                    ground (arith, left, right, ep, el, er, goes_left, swapped, done),
                    v',
                    settled,
                    IsReordered-swap n i (2 * i + 1) storage mid after s (omega arith) (omega arith)
                        inside o,
                  )
              | inr not_left ↦ elim (Bool-cases (right_child_swap compare p l r)) [
                | inl goes_right ↦
                    let (mid, swapped, s) =
                      swap_lem storage i (2 * i + 2) p r (omega arith) (omega arith) ep er in
                    let chosen = right-IsStep storage i p l r ep el er not_left goes_right in
                    let (after, last, done, v', settled, o) =
                      sift_down_rule n sized Inv step fuel mid (2 * i + 2) (omega arith)
                        (omega arith) (omega (arith, s.same_length))
                        (step storage mid i (2 * i + 2) (2 * i + 1) v chosen s two) in
                    (
                      after,
                      last,
                      ground (arith, left, right, ep, el, er, not_left, goes_right, swapped, done),
                      v',
                      settled,
                      IsReordered-swap n i (2 * i + 2) storage mid after s (omega arith)
                          (omega arith) inside o,
                    )
                | inr not_right ↦ (
                  storage,
                  i,
                  ground (arith, left, right, ep, el, er, not_left, not_right),
                  v,
                  λ c pos e _.
                      settled_lem storage i p l r ep el er not_left not_right c
                        (child_cases c i pos e),
                  record { same_length = refl; conserves = Perm.rfl },
                )
              ]
            ]
      ]
