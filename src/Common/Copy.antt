-- ===== src/Common/Copy.antt =====
-- Runs of neighbouring bytes: reading them, writing them one after the other, and `memcpy`.
use c_embedded_utils.Common.Lists.{
  length, get_elem?, set, length-set, get_elem?-set, length-append, get_elem?-append_left,
  get_elem?-append_right,
}
use c_embedded_utils.Common.Memory.{load, store, store-lt, ◌>>=◌}
use Prim.Native.Nat.{ℕ, zero, suc, ◌+◌, ◌-◌, ◌≤◌, ◌<◌}
use mathlib.Core.Path.{◌≡◌, refl, ap, ap₂, ◌∙◌, sym}
use mathlib.Core.Option.{Option, some}
use mathlib.Core.List.{List, [], ◌∷◌, ◌++◌}
use native.Mathlib.Omega.{arith}
use native.Mathlib.Decide.{dec_lt}

-- `buf[at]`, …, `buf[at + n - 1]`
unfoldable pub load_all : List ℕ → ℕ → ℕ → Option (List ℕ)
load_all buf at zero = some []
load_all buf at (suc n) = do b ← load buf at; bs ← load_all buf (at + 1) n; some (b ∷ bs)

-- `buf[at] = …; buf[at + 1] = …`, in this order
unfoldable pub store_all : List ℕ → ℕ → List ℕ → Option (List ℕ)
unfolding store
store_all buf at [] = some buf
store_all buf at (b ∷ bs) = do buf' ← store buf at b; store_all buf' (at + 1) bs

-- `memcpy(&to[to_at], &from[from_at], n)` between arrays that do not overlap
unfoldable pub memcpy : List ℕ → ℕ → List ℕ → ℕ → ℕ → Option (List ℕ)
unfolding load_all store_all
memcpy to to_at from from_at n = do bs ← load_all from from_at n; store_all to to_at bs

-- The bytes `bs` stand in `buf` from index `at` on.
abbrev pub StandsAt : ℕ → List ℕ → List ℕ → Type 0
StandsAt at bs buf = (i : ℕ) → i < length bs → get_elem? buf (at + i) ≡ get_elem? bs i

-- `after` is `before` with the bytes `bs` from index `at` on, and the same everywhere else.
pub record IsWritten (at : ℕ) (bs before after : List ℕ) : Type 0 where
  pub same_length : length after ≡ length before
  pub inside : StandsAt at bs after
  pub below : (j : ℕ) → j < at → get_elem? after j ≡ get_elem? before j
  pub above : (j : ℕ) → at + length bs ≤ j → get_elem? after j ≡ get_elem? before j

pub IsWritten-nil : (at : ℕ) (buf : List ℕ) → IsWritten at [] buf buf
IsWritten-nil at buf = record {
  same_length = refl;
  inside = λ i lt. absurd (omega arith);
  below = λ j lt. refl;
  above = λ j le. refl;
}

IsWritten-cons :
    (buf : List ℕ) (at b : ℕ) (bs after : List ℕ)
    → IsWritten (at + 1) bs (set buf at b) after
    → at < length buf
    → StandsAt at (b ∷ bs) after
IsWritten-cons buf at b bs after w h zero lt =
    let here : at + 0 ≡ at = omega arith in
    rw here (ground (arith, w.below at, get_elem?-set buf at at b h))
IsWritten-cons buf at b bs after w h (suc i) lt =
    let shift : at + suc i ≡ at + 1 + i = omega arith in rw shift (w.inside i (omega arith))

pub store_all_lem :
    (buf : List ℕ) (at : ℕ) (bs : List ℕ)
    → at + length bs ≤ length buf
    → (after : List ℕ) × (store_all buf at bs ≡ some after) × IsWritten at bs buf after
unfolding store_all
store_all_lem buf at [] h = (buf, refl, IsWritten-nil at buf)
store_all_lem buf at (b ∷ bs) h =
    let (after, stored, w) =
      store_all_lem (set buf at b) (at + 1) bs (omega (arith, length-set buf at b)) in
    let here = get_elem?-set buf at in
    (
      after,
      rw (store-lt buf at b (omega arith)) stored,
      record {
        same_length = w.same_length ∙ length-set buf at b;
        inside = IsWritten-cons buf at b bs after w (omega arith);
        below = λ j lt. ground (arith, w.below j, here j b (omega arith));
        above = λ j le. ground (arith, w.above j, here j b (omega arith));
      },
    )

-- Two runs, the second right behind the first.
module _ (at : ℕ) (bs cs before middle after : List ℕ) (first : IsWritten at bs before middle)
    (second : IsWritten (at + length bs) cs middle after) where
  -- The second run leaves the first where it stands.
  pub StandsAt-second : StandsAt at bs after
  StandsAt-second i lt = second.below (at + i) (omega arith) ∙ first.inside i lt

  StandsAt-append : StandsAt at (bs ++ cs) after
  StandsAt-append i lt = elim (dec_lt i (length bs)) [
    | yes h ↦ StandsAt-second i h ∙ sym (get_elem?-append_left bs cs i h)
    | no h ↦
        let shift : at + i ≡ at + length bs + (i - length bs) = omega arith in
        ap (get_elem? after) shift
        ∙ second.inside (i - length bs) (omega (arith, length-append bs cs))
        ∙ sym (get_elem?-append_right bs cs i (omega arith))
  ]

  pub IsWritten-append : IsWritten at (bs ++ cs) before after
  IsWritten-append = record {
    same_length = second.same_length ∙ first.same_length;
    inside = StandsAt-append;
    below = λ j lt. second.below j (omega arith) ∙ first.below j lt;
    above = λ j le.
        let ends = length-append bs cs in
        second.above j (omega (arith, ends)) ∙ first.above j (omega (arith, ends));
  }

-- Bytes that stand in an array are read.
pub load_all_of_inside :
    (buf : List ℕ) (at : ℕ) (bs : List ℕ)
    → StandsAt at bs buf
    → load_all buf at (length bs) ≡ some bs
unfolding load_all
load_all_of_inside buf at [] h = refl
load_all_of_inside buf at (b ∷ bs) h =
    let here : at + 0 ≡ at = omega arith in
    let first : get_elem? buf at ≡ some b = ap (get_elem? buf) (sym here) ∙ h 0 (omega arith) in
    rw (
      first,
      load_all_of_inside buf (at + 1) bs (λ i lt.
          let shift : at + 1 + i ≡ at + suc i = omega arith in
          ap (get_elem? buf) shift ∙ h (suc i) (omega arith)),
    )

-- Reading back what was written.
pub load_all-store_all :
    (at : ℕ) (bs before after : List ℕ)
    → IsWritten at bs before after
    → load_all after at (length bs) ≡ some bs
load_all-store_all at bs before after w = load_all_of_inside after at bs w.inside

same_elems : (xs ys : List ℕ) → ((i : ℕ) → get_elem? xs i ≡ get_elem? ys i) → xs ≡ ys
same_elems [] [] h = refl
same_elems [] (y ∷ ys) h = absurd (let e = h 0 in cc)
same_elems (x ∷ xs) [] h = absurd (let e = h 0 in cc)
same_elems (x ∷ xs) (y ∷ ys) h =
    let first : x ≡ y = let e = h 0 in cc in ap₂ ◌∷◌ first (same_elems xs ys (λ i. h (suc i)))

-- Bytes that are written where they stand change nothing.
pub IsWritten-same :
    (at : ℕ) (bs before after : List ℕ)
    → StandsAt at bs before
    → IsWritten at bs before after
    → after ≡ before
IsWritten-same at bs before after stands w = same_elems after before (λ j. elim (dec_lt j at) [
  | yes h ↦ w.below j h
  | no h ↦ elim (dec_lt j (at + length bs)) [
    | no k ↦ w.above j (omega arith)
    | yes k ↦
        let shift : j ≡ at + (j - at) = omega arith in
        let inside : j - at < length bs = omega arith in
        ap (get_elem? after) shift
        ∙ w.inside (j - at) inside
        ∙ sym (stands (j - at) inside)
        ∙ ap (get_elem? before) (sym shift)
  ]
])
