-- ===== src/Common/Ring.antt =====
-- The bytes of an array read round and round: the view that the two circular buffers share.
use native.Mathlib.Nat.{mod-add-mod, mod-eq_of_lt, mod-eq-sub-mod, mod-lt}
use native.Mathlib.Decide.{dec_lt}
use Prim.Native.Nat.{ℕ, zero, suc, ◌+◌, ◌-◌, ◌%◌, ◌≤◌, ◌<◌}
use mathlib.Core.Path.{◌≡◌, refl, ap, ap₂, ◌∙◌, sym}
use mathlib.Core.Logic.{◌≢◌}
use mathlib.Core.Option.{none, some}
use mathlib.Core.List.{List, [], ◌∷◌, ◌++◌}
use native.Mathlib.Omega.{arith}
use c_embedded_utils.Common.Tests.{ltb, if◌then◌else◌}
use c_embedded_utils.Common.Lists.{length, get_elem?, get_elem?-lt, get_elem?-set, set}

-- A byte of the array; 0 past its end, where no statement reads it.
abbrev pub byte_at : List ℕ → ℕ → ℕ
byte_at buf i = elim (get_elem? buf i) [ none ↦ 0 | some b ↦ b ]

pub get_elem?-byte_at :
    (buf : List ℕ) (i : ℕ) → i < length buf → get_elem? buf i ≡ some (byte_at buf i)
get_elem?-byte_at buf i h = ground (arith, get_elem?-lt buf i h)

module _ (buf : List ℕ) (cap : ℕ) where
  -- The `n` bytes from position `s` on; position `s` is at index `s % cap`.
  abbrev pub ring : ℕ → ℕ → List ℕ
  ring s zero = []
  ring s (suc n) = byte_at buf (s % cap) ∷ ring (s + 1) n

  pub length-ring : (s n : ℕ) → length (ring s n) ≡ n
  length-ring s zero = refl
  length-ring s (suc n) = ap suc (length-ring (s + 1) n)

  -- The code tests the number of bytes, `ring` matches on it.
  pub ring_of_ne_zero : (s n : ℕ) → 0 < n → ring s n ≡ byte_at buf (s % cap) ∷ ring (s + 1) (n - 1)
  ring_of_ne_zero s zero h = absurd (omega arith)
  ring_of_ne_zero s (suc n) h = ap (λ k. byte_at buf (s % cap) ∷ ring (s + 1) k) (omega arith)

  -- Positions with the same index show the same bytes.
  pub ring-congr : (s t n : ℕ) → s % cap ≡ t % cap → ring s n ≡ ring t n
  ring-congr s t zero e = refl
  ring-congr s t (suc n) e = ap₂ ◌∷◌ (ap (byte_at buf) e) (ring-congr (s + 1) (t + 1) n next)
    where
      next : (s + 1) % cap ≡ (t + 1) % cap
      next = omega (arith, mod-add-mod s cap 1, mod-add-mod t cap 1, ap (λ k. (k + 1) % cap) e)

-- Within two rounds the remainder is one subtraction.
pub mod-of_two_rounds : (x m : ℕ) → x < m + m → x % m ≡ (if ltb x m then x else x - m)
mod-of_two_rounds x m h = elim (dec_lt x m) [
  | yes p ↦ ground (arith, mod-eq_of_lt {n = x} {m = m} p)
  | no p ↦ ground (
    arith,
    mod-eq-sub-mod {n = x} {m = m} (omega arith),
    mod-eq_of_lt {n = x - m} {m = m} (omega arith),
  )
]

-- Positions less than a round apart have different indices.
pub mod-ne_of_near : (cap s k : ℕ) → suc k < cap → s % cap ≢ (s + suc k) % cap
mod-ne_of_near cap s k h e =
    let u = s % cap in
    let inside : u < cap = omega (arith, mod-lt s {m = cap} (omega arith)) in
    let shift : (u + suc k) % cap ≡ u = mod-add-mod s cap (suc k) ∙ sym e in
    elim (dec_lt (u + suc k) cap) [
      | yes p ↦ omega (arith, shift, mod-eq_of_lt {n = u + suc k} {m = cap} p)
      | no p ↦ omega (
        arith,
        shift,
        mod-eq-sub-mod {n = u + suc k} {m = cap} (omega arith),
        mod-eq_of_lt {n = u + suc k - cap} {m = cap} (omega arith),
      )
    ]

-- A byte written at the position behind the view extends it.
pub ring-set :
    (buf : List ℕ) (cap x n s i : ℕ)
    → cap ≤ length buf
    → n < cap
    → i ≡ (s + n) % cap
    → ring (set buf i x) cap s (suc n) ≡ ring buf cap s n ++ (x ∷ [])
ring-set buf cap x zero s i fits h e =
    let e' : i ≡ s % cap = e ∙ ap (λ k. k % cap) (omega arith) in
    let b : i < length buf = omega (arith, mod-lt s {m = cap} h) in
    ground (arith, e', get_elem?-set buf i i x b)
ring-set buf cap x (suc n) s i fits h e =
    let b : i < length buf = omega (arith, mod-lt (s + suc n) {m = cap} (omega arith)) in
    ap₂ ◌∷◌ (ground (arith, get_elem?-set buf i (s % cap) x b, mod-ne_of_near cap s n h))
      (ring-set buf cap x n (s + 1) i fits (omega arith) (e ∙ ap (λ k. k % cap) (omega arith)))
