-- ===== src/LePack/Digits.antt =====
-- Bytes as the digits of a value.
use native.Mathlib.Nat.{div-div-eq-div-mul}
use native.Mathlib.Decide.{dec_lt}
use c_embedded_utils.Common.{
  ℕ, zero, suc, ◌+◌, ◌-◌, ◌*◌, ◌/◌, ◌%◌, ◌^◌, ◌≤◌, ◌<◌, ◌≡◌, refl, sym, ap, ap₂, List, [], ◌∷◌,
  arith, ◌∙◌,
}
use c_embedded_utils.Common.Bits.{two_pow_add}
use c_embedded_utils.Common.Int.{ℤ, pos, negsuc}
use c_embedded_utils.LePack.Bytes.{byte_of, byte_of_lem}
use c_embedded_utils.LePack.Signed.{
  signed_byte_of, signed_byte_of-pos, signed_byte_of-negsuc, InRange,
}

-- The first `n` bytes of a sequence, and the value whose bytes these are, the low one first.
abbrev pub first_bytes : ℕ → (ℕ → ℕ) → List ℕ
first_bytes zero g = []
first_bytes (suc n) g = g 0 ∷ first_bytes n (λ i. g (suc i))

abbrev pub value_of : ℕ → (ℕ → ℕ) → ℕ
value_of zero g = 0
value_of (suc n) g = g 0 + 256 * value_of n (λ i. g (suc i))

-- The `n` bytes of a value from bit `k` on.
abbrev pub low_bytes : ℕ → ℕ → ℕ → List ℕ
low_bytes zero k v = []
low_bytes (suc n) k v = byte_of v k ∷ low_bytes n (k + 8) v

abbrev pub signed_low_bytes : ℕ → ℕ → ℤ → List ℕ
signed_low_bytes zero k x = []
signed_low_bytes (suc n) k x = signed_byte_of x k ∷ signed_low_bytes n (k + 8) x

div_next : (b v k : ℕ) → b < 256 → (b + 256 * v) / 2 ^ (k + 8) ≡ v / 2 ^ k
div_next b v k h =
    let order : 2 ^ (k + 8) ≡ 2 ^ 8 * 2 ^ k = omega (arith, two_pow_add k 8) in
    let upper : (b + 256 * v) / 2 ^ 8 ≡ v = omega arith in
    ap (λ m. (b + 256 * v) / m) order
    ∙ sym (div-div-eq-div-mul (b + 256 * v) (2 ^ 8) (2 ^ k))
    ∙ ap (λ m. m / 2 ^ k) upper

byte_next : (b v k : ℕ) → b < 256 → byte_of (b + 256 * v) (k + 8) ≡ byte_of v k
byte_next b v k h =
    byte_of_lem (b + 256 * v) (k + 8) ∙ ap (λ m. m % 256) (div_next b v k h) ∙ sym (byte_of_lem v k)

low_bytes-next : (n b v k : ℕ) → b < 256 → low_bytes n (k + 8) (b + 256 * v) ≡ low_bytes n k v
low_bytes-next zero b v k h = refl
low_bytes-next (suc n) b v k h = ap₂ ◌∷◌ (byte_next b v k h) (low_bytes-next n b v (k + 8) h)

pub low_bytes-value_of :
    (n : ℕ) (g : ℕ → ℕ) → ((i : ℕ) → g i < 256) → low_bytes n 0 (value_of n g) ≡ first_bytes n g
low_bytes-value_of zero g h = refl
low_bytes-value_of (suc n) g h =
    let v = value_of n (λ i. g (suc i)) in
    let here : byte_of (g 0 + 256 * v) 0 ≡ g 0 =
      omega (arith, byte_of_lem (g 0 + 256 * v) 0, h 0) in
    ap₂ ◌∷◌ here
      (low_bytes-next n (g 0) v 0 (h 0) ∙ low_bytes-value_of n (λ i. g (suc i)) (λ i. h (suc i)))

signed_low_bytes-pos : (n k v : ℕ) → signed_low_bytes n k (pos v) ≡ low_bytes n k v
signed_low_bytes-pos zero k v = refl
signed_low_bytes-pos (suc n) k v =
    ap₂ ◌∷◌ (signed_byte_of-pos v k ∙ sym (byte_of_lem v k)) (signed_low_bytes-pos n (k + 8) v)

-- A negative value has the inverted bytes of the one that it stands for.
signed_low_bytes-negsuc :
    (n k v : ℕ) (g : ℕ → ℕ)
    → ((i : ℕ) → g i < 256)
    → low_bytes n k v ≡ first_bytes n (λ i. 255 - g i)
    → signed_low_bytes n k (negsuc v) ≡ first_bytes n g
signed_low_bytes-negsuc zero k v g h e = refl
signed_low_bytes-negsuc (suc n) k v g h e =
    let here : byte_of v k ≡ 255 - g 0 = cc in
    let behind : low_bytes n (k + 8) v ≡ first_bytes n (λ i. 255 - g (suc i)) = cc in
    ap₂ ◌∷◌ (omega (arith, signed_byte_of-negsuc v k, byte_of_lem v k, here, h 0))
      (signed_low_bytes-negsuc n (k + 8) v (λ i. g (suc i)) (λ i. h (suc i)) behind)

-- The signed value of `w` bits whose bytes these are; `n` is the last of them.
pub signed_of :
    (w n : ℕ) (g : ℕ → ℕ)
    → ((i : ℕ) → g i < 256)
    → (g n < 128 → value_of (suc n) g < 2 ^ (w - 1))
    → (128 ≤ g n → value_of (suc n) (λ i. 255 - g i) < 2 ^ (w - 1))
    → (x : ℤ) × InRange w x × (signed_low_bytes (suc n) 0 x ≡ first_bytes (suc n) g)
signed_of w n g h low high = elim (dec_lt (g n) 128) [
  | yes positive ↦
      let v = value_of (suc n) g in
      (pos v, low positive, signed_low_bytes-pos (suc n) 0 v ∙ low_bytes-value_of (suc n) g h)
  | no negative ↦
      let v = value_of (suc n) (λ i. 255 - g i) in
      (
        negsuc v,
        high (omega arith),
        signed_low_bytes-negsuc (suc n) 0 v g h
            (low_bytes-value_of (suc n) (λ i. 255 - g i) (λ i. omega arith)),
      )
]
