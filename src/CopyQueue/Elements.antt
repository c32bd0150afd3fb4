-- ===== src/CopyQueue/Elements.antt =====
-- The elements that stand one behind the other in the array of a copy queue.
use c_embedded_utils.Common.{
  ℕ, zero, suc, ◌+◌, ◌*◌, ◌≤◌, ◌<◌, ◌≡◌, refl, ap, sym, ◌∙◌, Option, none, some, List, [], ◌∷◌,
  ◌++◌, arith, length, get_elem?, ◌>>=◌, store-lt, store-ge, set, length-set, Option-cases,
  get_elem?-ge, inl, inr, ◌⊎◌,
}
use c_embedded_utils.Common.Copy.{
  load_all, store_all, memcpy, store_all_lem, load_all_of_inside, IsWritten,
}
use native.Mathlib.Decide.{dec_lt}

-- `n` elements of `size` bytes each, from index `at` on.
unfoldable pub elements : List ℕ → ℕ → ℕ → ℕ → Option (List (List ℕ))
unfolding load_all
elements buf at size zero = some []
elements buf at size (suc n) = do
  x ← load_all buf at size
  xs ← elements buf (at + size) size n
  some (x ∷ xs)

lt_or_ge : (a b : ℕ) → (a < b) ⊎ (b ≤ a)
lt_or_ge a b = elim (dec_lt a b) [ yes lt ↦ inl lt | no ge ↦ inr (omega arith) ]

list_ext : (xs ys : List ℕ) → ((i : ℕ) → get_elem? xs i ≡ get_elem? ys i) → xs ≡ ys
list_ext [] [] h = refl
list_ext [] (y ∷ ys) h = let e = h 0 in cc
list_ext (x ∷ xs) [] h = let e = h 0 in cc
list_ext (x ∷ xs) (y ∷ ys) h =
    let e = h 0 in let rest = list_ext xs ys (λ i. h (suc i)) in ground arith

pub load_all-length :
    (buf : List ℕ) (at n : ℕ) (bs : List ℕ) → load_all buf at n ≡ some bs → length bs ≡ n
unfolding load_all
load_all-length buf at zero bs e = ground arith
load_all-length buf at (suc n) bs e = elim (Option-cases (get_elem? buf at)) [
  | inl missing ↦ ground arith
  | inr (b, found) ↦ elim (Option-cases (load_all buf (at + 1) n)) [
    | inl missing ↦ ground arith
    | inr (bs', found') ↦ ground (arith, load_all-length buf (at + 1) n bs' found')
  ]
]

-- A read does not see a change behind it.
load_all_of_agree :
    (before after : List ℕ) (at n : ℕ)
    → ((j : ℕ) → j < at + n → get_elem? after j ≡ get_elem? before j)
    → load_all after at n ≡ load_all before at n
unfolding load_all
load_all_of_agree before after at zero h = refl
load_all_of_agree before after at (suc n) h =
    rw (h at (omega arith), load_all_of_agree before after (at + 1) n (λ j lt. h j (omega arith)))
      refl

suc_mul : (n size : ℕ) → suc n * size ≡ size + n * size
suc_mul n size = omega arith

pub elements_of_agree :
    (before after : List ℕ) (at size n : ℕ)
    → ((j : ℕ) → j < at + n * size → get_elem? after j ≡ get_elem? before j)
    → elements after at size n ≡ elements before at size n
unfolding elements
elements_of_agree before after at size zero h = refl
elements_of_agree before after at size (suc n) h =
    let first =
      load_all_of_agree before after at size (λ j lt. h j (omega (arith, suc_mul n size))) in
    let rest =
      elements_of_agree before after (at + size) size n
        (λ j lt. h j (omega (arith, suc_mul n size))) in
    rw (first, rest) refl

-- One more element behind the others.
pub elements_snoc :
    (buf : List ℕ) (at size n : ℕ) (xs : List (List ℕ)) (x : List ℕ)
    → elements buf at size n ≡ some xs
    → load_all buf (at + n * size) size ≡ some x
    → elements buf at size (suc n) ≡ some (xs ++ x ∷ [])
unfolding elements
elements_snoc buf at size zero xs x e f =
    let here : at + 0 * size ≡ at = omega arith in
    let found : load_all buf at size ≡ some x = ap (λ i. load_all buf i size) (sym here) ∙ f in
    ground arith
elements_snoc buf at size (suc n) xs x e f = elim (Option-cases (load_all buf at size)) [
  | inl missing ↦ ground arith
  | inr (y, found) ↦ elim (Option-cases (elements buf (at + size) size n)) [
    | inl missing ↦ ground arith
    | inr (ys, found') ↦
        let shift : at + suc n * size ≡ at + size + n * size = omega (arith, suc_mul n size) in
        let last = ap (λ i. load_all buf i size) (sym shift) ∙ f in
        let rest = elements_snoc buf (at + size) size n ys x found' last in
        let whole : some (y ∷ ys) ≡ some xs = rw (sym e, found, found') refl in
        rw (found, rest) (ground arith)
  ]
]

-- The first element, and the others.
pub elements_uncons :
    (buf : List ℕ) (at size n : ℕ) (xs : List (List ℕ))
    → elements buf at size (suc n) ≡ some xs
    → (x : List ℕ) × (ys : List (List ℕ)) × (xs ≡ x ∷ ys)
      × (load_all buf at size ≡ some x)
      × (elements buf (at + size) size n ≡ some ys)
unfolding elements
elements_uncons buf at size n xs e = elim (Option-cases (load_all buf at size)) [
  | inl missing ↦ absurd (ground arith)
  | inr (y, found) ↦ elim (Option-cases (elements buf (at + size) size n)) [
    | inl missing ↦ absurd (ground arith)
    | inr (ys, found') ↦ (y, ys, ground arith, found, found')
  ]
]

pub elements-length :
    (buf : List ℕ) (at size n : ℕ) (xs : List (List ℕ))
    → elements buf at size n ≡ some xs
    → length xs ≡ n
unfolding elements
elements-length buf at size zero xs e = ground arith
elements-length buf at size (suc n) xs e =
    let (x, ys, split, first, rest) = elements_uncons buf at size n xs e in
    let behind = elements-length buf (at + size) size n ys rest in ground arith

-- A copy of all of an element.
pub memcpy_in :
    (buf : List ℕ) (at : ℕ) (x : List ℕ)
    → at + length x ≤ length buf
    → (after : List ℕ) × (memcpy buf at x 0 (length x) ≡ some after) × IsWritten at x buf after
unfolding memcpy
memcpy_in buf at x h =
    let (after, stored, w) = store_all_lem buf at x h in
    (after, rw (load_all_of_inside x 0 x (λ i lt. ap (get_elem? x) (omega arith))) stored, w)

-- A copy into an array of the same size is the element.
pub memcpy_out :
    (out buf : List ℕ) (at : ℕ) (x : List ℕ)
    → load_all buf at (length out) ≡ some x
    → memcpy out 0 buf at (length out) ≡ some x
unfolding memcpy
memcpy_out out buf at x e =
    let size = load_all-length buf at (length out) x e in
    let (after, stored, w) = store_all_lem out 0 x (omega arith) in
    let same : after ≡ x = list_ext after x (pointwise after w size) in rw (e, stored, same) refl
  where
    pointwise :
        (after : List ℕ)
        → IsWritten 0 x out after
        → length x ≡ length out
        → (i : ℕ) → get_elem? after i ≡ get_elem? x i
    pointwise after w size i = elim (lt_or_ge i (length x)) [
      | inl lt ↦ ap (get_elem? after) (omega arith) ∙ w.inside i lt
      | inr ge ↦ ground (
        arith,
        w.same_length,
        get_elem?-ge after i (omega (arith, w.same_length)),
        get_elem?-ge x i (omega arith),
      )
    ]

-- A write that does not fit faults.
pub store_all-outside :
    (buf : List ℕ) (at b : ℕ) (bs : List ℕ)
    → length buf < at + length (b ∷ bs)
    → store_all buf at (b ∷ bs) ≡ none
unfolding store_all
store_all-outside buf at b [] h = rw (store-ge buf at b (omega arith)) refl
store_all-outside buf at b (c ∷ cs) h = elim (lt_or_ge at (length buf)) [
  | inl lt ↦
      rw (store-lt buf at b lt)
        (store_all-outside (set buf at b) (at + 1) c cs (omega (arith, length-set buf at b)))
  | inr ge ↦ rw (store-ge buf at b ge) refl
]
