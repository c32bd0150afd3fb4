-- ===== src/BitOps/Fields.antt =====
-- A word as its four bytes, and what the masks keep of a byte.
use Prim.Native.Nat.{bit_and}
use c_embedded_utils.Common.{
  ℕ, zero, suc, ◌+◌, ◌*◌, ◌/◌, ◌%◌, ◌^◌, ◌≤◌, ◌<◌, ◌≡◌, refl, Bool, true, ◌&&◌, arith, leb, ◌==◌,
}
use native.Mathlib.Decide.{ℕ_discrete}
use c_embedded_utils.Common.Bits.{bit_and_split}

abbrev pub join : ℕ → ℕ → ℕ → ℕ → ℕ
join a b c d = ((a * 2 ^ 8 + b) * 2 ^ 8 + c) * 2 ^ 8 + d

pub bit_and-join :
    (a b c d m : ℕ)
    → b < 256
    → c < 256
    → d < 256
    → m < 256
    → bit_and (join a b c d) (join m m m m)
      ≡ join (bit_and a m) (bit_and b m) (bit_and c m) (bit_and d m)
bit_and-join a b c d m p q r s = rw (
  bit_and_split 8 ((a * 2 ^ 8 + b) * 2 ^ 8 + c) d ((m * 2 ^ 8 + m) * 2 ^ 8 + m) m r s,
  bit_and_split 8 (a * 2 ^ 8 + b) c (m * 2 ^ 8 + m) m q s,
  bit_and_split 8 a b m m p s,
)

-- A test at every number below a bound.
abbrev pub all_below : (ℕ → Bool) → ℕ → Bool
all_below test zero = true
all_below test (suc n) = test n && all_below test n

pub all_below_lem :
    (test : ℕ → Bool) (n : ℕ) → all_below test n ≡ true → (k : ℕ) → k < n → test k ≡ true
all_below_lem test zero h k p = absurd (omega arith)
all_below_lem test (suc n) h k p = elim (ℕ_discrete k n) [
  | yes e ↦ rw e (ground arith)
  | no other ↦ all_below_lem test n (ground arith) k (omega arith)
]

-- The mask takes away the digit that comes from the byte above.
pub mask_55 : (x : ℕ) → x < 512 → bit_and (x / 2) 0x55 ≡ bit_and (x % 256 / 2) 0x55
mask_55 x h =
    let t =
      all_below_lem (λ x'. bit_and (x' / 2) 0x55 == bit_and (x' % 256 / 2) 0x55) 512 refl x h in
    ground arith

-- The mask takes away the two digits that come from the byte above.
pub mask_33 : (x : ℕ) → x < 1024 → bit_and (x / 4) 0x33 ≡ bit_and (x % 256 / 4) 0x33
mask_33 x h =
    let t =
      all_below_lem (λ x'. bit_and (x' / 4) 0x33 == bit_and (x' % 256 / 4) 0x33) 1024 refl x h in
    ground arith

pub mask_55-le : (x : ℕ) → x < 256 → bit_and (x / 2) 0x55 ≤ x
mask_55-le x h =
    let t = all_below_lem (λ x'. leb (bit_and (x' / 2) 0x55) x') 256 refl x h in ground arith

pub mask_33-le : (x : ℕ) → x < 256 → bit_and x 0x33 ≤ 0x33
mask_33-le x h =
    let t = all_below_lem (λ x'. leb (bit_and x' 0x33) 0x33) 256 refl x h in ground arith

-- A shift to the right takes the lowest digits of a byte into the one below.
pub join-half :
    (a b c d : ℕ)
    → join a b c d / 2
      ≡ join (a / 2) ((b + 256 * (a % 2)) / 2) ((c + 256 * (b % 2)) / 2) ((d + 256 * (c % 2)) / 2)
join-half a b c d = omega arith

pub join-quarter :
    (a b c d : ℕ)
    → join a b c d / 4
      ≡ join (a / 4) ((b + 256 * (a % 4)) / 4) ((c + 256 * (b % 4)) / 4) ((d + 256 * (c % 4)) / 4)
join-quarter a b c d = omega arith
