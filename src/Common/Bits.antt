-- ===== src/Common/Bits.antt =====
-- `&` on the native numbers, as arithmetic: its lowest digit, low masks, and fields.
mod Step
pub use Step.{bit_and_step}
use Prim.Native.Nat.{
  ℕ, zero, suc, ◌+◌, ◌-◌, ◌*◌, ◌/◌, ◌%◌, ◌^◌, ◌≤◌, ◌<◌, ◌∣◌, min, bit_and, bit_and-bitwise,
}
use mathlib.Core.Path.{◌≡◌, refl, ap, subst, sym, ◌∙◌}
use mathlib.Core.WellFounded
use native.Mathlib.Nat.{
  pow-suc, one-le-pow, mod-lt, mod_self, add-zero, mod-mod_of_dvd, pow-le-pow_right, dvd-mul_right,
}
use native.Mathlib.Decide.{ℕ_discrete}
use native.Mathlib.Omega.{arith}
use c_embedded_utils.Common.Order.{lt_wf}

-- Induction from the half of a number to the number.
halving {ℓ} : (P : ℕ → Type ℓ) → P 0 → ((m : ℕ) → P (suc m / 2) → P (suc m)) → (n : ℕ) → P n
halving P base up n = WellFounded.induction lt_wf {C = P} n go
  where
    go : (k : ℕ) → ((j : ℕ) → j < k → P j) → P k
    go zero below = base
    go (suc m) below = up m (below (suc m / 2) (omega arith))

pub bit_and-zero : (a : ℕ) → bit_and a 0 ≡ 0
bit_and-zero = halving (λ n. bit_and n 0 ≡ 0) refl (λ m half. omega (arith, bit_and_step (suc m) 0))

pub zero-bit_and : (b : ℕ) → bit_and 0 b ≡ 0
zero-bit_and b = bit_and-bitwise 0 b

pub bit_and_self : (a : ℕ) → bit_and a a ≡ a
bit_and_self =
    halving (λ n. bit_and n n ≡ n) refl (λ m half. omega (arith, bit_and_step (suc m) (suc m)))

-- A power one higher doubles a multiple of it.
double_pow : (k q : ℕ) → q * 2 ^ suc k ≡ 2 * (q * 2 ^ k)
double_pow k q = let twice = ap (λ (p : ℕ). q * p) (pow-suc 2 k) in omega arith

-- `&` works on the low `k` bits and on the others apart.
pub bit_and_split :
    (k a b c d : ℕ)
    → b < 2 ^ k
    → d < 2 ^ k
    → bit_and (a * 2 ^ k + b) (c * 2 ^ k + d) ≡ bit_and a c * 2 ^ k + bit_and b d
bit_and_split zero a b c d p q =
    let b0 : b ≡ 0 = omega arith in
    let d0 : d ≡ 0 = omega arith in
    let a1 : a * 1 + b ≡ a = omega arith in
    let c1 : c * 1 + d ≡ c = omega arith in rw (a1, c1, b0) (omega (arith, zero-bit_and d))
bit_and_split (suc k) a b c d p q = ground (
  arith,
  bit_and_step (a * 2 ^ suc k + b) (c * 2 ^ suc k + d),
  bit_and_step b d,
  bit_and_split k a (b / 2) c (d / 2) (omega (arith, pow-suc 2 k)) (omega (arith, pow-suc 2 k)),
  double_pow k a,
  double_pow k c,
  double_pow k (bit_and a c),
)

bit_and_ones : (k r : ℕ) → r < 2 ^ k → bit_and r (2 ^ k - 1) ≡ r
bit_and_ones zero r h = omega (arith, bit_and-zero r)
bit_and_ones (suc k) r h = ground (
  arith,
  bit_and_step r (2 ^ suc k - 1),
  pow-suc 2 k,
  one-le-pow k 2,
  bit_and_ones k (r / 2) (omega (arith, pow-suc 2 k)),
)

-- A mask of `k` ones takes the remainder by `2 ^ k`.
pub bit_and_mask : (k a : ℕ) → bit_and a (2 ^ k - 1) ≡ a % 2 ^ k
bit_and_mask k a =
    let pos : 0 < 2 ^ k = one-le-pow k 2 (omega arith) in
    let low : a % 2 ^ k < 2 ^ k = mod-lt a pos in
    ground (
      arith,
      bit_and_split k (a / 2 ^ k) (a % 2 ^ k) 0 (2 ^ k - 1) low (omega arith),
      bit_and_ones k (a % 2 ^ k) low,
      bit_and-zero (a / 2 ^ k),
    )

-- A power of two has no digit in common with its predecessor.
pub bit_and-two_pow : (k : ℕ) → bit_and (2 ^ k) (2 ^ k - 1) ≡ 0
bit_and-two_pow k =
    let pos : 0 < 2 ^ k = one-le-pow k 2 (omega arith) in
    ground (arith, bit_and_mask k (2 ^ k), mod_self (2 ^ k))

-- Only a power of two has that.
pub two_pow_of_bit_and : (n : ℕ) → 0 < n → bit_and n (n - 1) ≡ 0 → (k : ℕ) × (n ≡ 2 ^ k)
two_pow_of_bit_and n = WellFounded.induction lt_wf {C = IsTwoPow} n step
  where
    IsTwoPow : ℕ → Type 0
    IsTwoPow m = 0 < m → bit_and m (m - 1) ≡ 0 → (k : ℕ) × (m ≡ 2 ^ k)

    step : (m : ℕ) → ((j : ℕ) → j < m → IsTwoPow j) → IsTwoPow m
    step m ih pos e = elim (ℕ_discrete (m % 2) 0) [
      | yes even ↦
          let (k, half) = ih (m / 2) (omega arith) (omega arith) (ground (arith, even_case even)) in
          (suc k, omega (arith, pow-suc 2 k))
      | no odd ↦ (0, ground (arith, bit_and_step m (m - 1), bit_and_self (m / 2)))
    ]
      where
        even_case : m % 2 ≡ 0 → bit_and (m / 2) (m / 2 - 1) ≡ 0
        even_case even =
            let pred_half : (m - 1) / 2 ≡ m / 2 - 1 = omega arith in
            omega (arith, bit_and_step m (m - 1), ap (bit_and (m / 2)) pred_half)

pub two_pow_add : (k m : ℕ) → 2 ^ (k + m) ≡ 2 ^ k * 2 ^ m
two_pow_add k zero = rw add-zero (omega arith)
two_pow_add k (suc m) =
    let shift : k + suc m ≡ suc (k + m) = omega arith in
    rw shift
      (omega (arith, pow-suc 2 (k + m), two_pow_add k m, ap (λ (t : ℕ). 2 ^ k * t) (pow-suc 2 m)))

-- The wrap of a `size_t` does not disturb the remainder by a smaller power of two.
pub mod-size_mod : (k x : ℕ) → k ≤ 64 → x % 2 ^ 64 % 2 ^ k ≡ x % 2 ^ k
mod-size_mod k x h = mod-mod_of_dvd (2 ^ k) x divides
  where
    divides : 2 ^ k ∣ 2 ^ 64
    divides =
        let whole : 64 ≡ k + (64 - k) = omega arith in
        subst (λ t. 2 ^ k ∣ t) (sym (ap (λ e. 2 ^ e) whole ∙ two_pow_add k (64 - k)))
          (dvd-mul_right (2 ^ k) (2 ^ (64 - k)))

pub two_pow_le : (j k : ℕ) → j ≤ k → 2 ^ j ≤ 2 ^ k
two_pow_le j k h = pow-le-pow_right (omega arith) h
