-- ===== src/BitOps/Weight.antt =====
-- The number of one bits, counted digit by digit, against the sums of `bit_ops_hamming_weight_u32`.
use Prim.Native.Nat.{bit_and}
use c_embedded_utils.Common.{
  ℕ, zero, suc, ◌+◌, ◌-◌, ◌*◌, ◌/◌, ◌%◌, ◌^◌, ◌≤◌, ◌<◌, ◌≡◌, refl, arith, leb, ◌==◌, ap, subst,
}
use native.Mathlib.Nat.{pow-suc}
use c_embedded_utils.Common.Bits.{bit_and_mask}
use c_embedded_utils.BitOps.{hamming_weight_u32, word}
use c_embedded_utils.BitOps.Fields.{
  join, bit_and-join, all_below_lem, mask_55, mask_33, mask_55-le, mask_33-le, join-half,
  join-quarter,
}

-- The ones among the lowest `digits` binary digits.
unfoldable pub ones : ℕ → ℕ → ℕ
ones zero i = 0
ones (suc digits) i = i % 2 + ones digits (i / 2)

-- What the first two lines make of a byte.
abbrev pair_sums : ℕ → ℕ
pair_sums b = b - bit_and (b / 2) 0x55

abbrev quad_sums : ℕ → ℕ
quad_sums b = bit_and (pair_sums b) 0x33 + bit_and (pair_sums b / 4) 0x33

-- Both nibbles of that are at most 4, and they sum up to the ones of the byte.
record IsCounted (b : ℕ) : Type 0 where
  low : quad_sums b % 16 ≤ 4
  high : quad_sums b / 16 ≤ 4
  total : quad_sums b % 16 + quad_sums b / 16 ≡ ones 8 b

counted : (b : ℕ) → b < 256 → IsCounted b
unfolding ones
counted b h = record {
  low = let t = all_below_lem (λ x. leb (quad_sums x % 16) 4) 256 refl b h in ground arith;
  high = let t = all_below_lem (λ x. leb (quad_sums x / 16) 4) 256 refl b h in ground arith;
  total =
      let t = all_below_lem (λ x. quad_sums x % 16 + quad_sums x / 16 == ones 8 x) 256 refl b h in
      ground arith;
}

ones_split : (j k a b : ℕ) → b < 2 ^ j → ones (j + k) (a * 2 ^ j + b) ≡ ones k a + ones j b
unfolding ones
ones_split zero k a b h =
    let whole : a * 1 + b ≡ a = omega arith in
    let none_more : 0 + k ≡ k = omega arith in rw (whole, none_more) (omega arith)
ones_split (suc j) k a b h =
    let shift : suc j + k ≡ suc (j + k) = omega arith in
    let twice : a * 2 ^ suc j ≡ 2 * (a * 2 ^ j) =
      let power = ap (λ (t : ℕ). a * t) (pow-suc 2 j) in omega arith in
    let low : (a * 2 ^ suc j + b) % 2 ≡ b % 2 = omega arith in
    let rest : (a * 2 ^ suc j + b) / 2 ≡ a * 2 ^ j + b / 2 = omega arith in
    rw (shift, ones, low, rest)
      (omega (arith, ones_split j k a (b / 2) (omega (arith, pow-suc 2 j))))

module _ (a b c d : ℕ) (pa : a < 256) (pb : b < 256) (pc : c < 256) (pd : d < 256) where
  ones-join : ones 32 (join a b c d) ≡ ones 8 a + ones 8 b + ones 8 c + ones 8 d
  ones-join = omega (
    arith,
    ones_split 8 24 ((a * 2 ^ 8 + b) * 2 ^ 8 + c) d pd,
    ones_split 8 16 (a * 2 ^ 8 + b) c pc,
    ones_split 8 8 a b pb,
  )

  pairs_lem :
      (join a b c d + word - bit_and (join a b c d / 2) 0x55555555) % word
      ≡ join (pair_sums a) (pair_sums b) (pair_sums c) (pair_sums d)
  pairs_lem =
      let split =
        bit_and-join (a / 2) ((b + 256 * (a % 2)) / 2) ((c + 256 * (b % 2)) / 2)
          ((d + 256 * (c % 2)) / 2) 0x55 (omega arith) (omega arith) (omega arith) (omega arith) in
      let mb = mask_55 (b + 256 * (a % 2)) (omega arith) in
      let mc = mask_55 (c + 256 * (b % 2)) (omega arith) in
      let md = mask_55 (d + 256 * (c % 2)) (omega arith) in
      let wb : (b + 256 * (a % 2)) % 256 ≡ b = omega arith in
      let wc : (c + 256 * (b % 2)) % 256 ≡ c = omega arith in
      let wd : (d + 256 * (c % 2)) % 256 ≡ d = omega arith in
      rw (join-half a b c d, split, mb, mc, md, wb, wc, wd)
        (omega (arith, mask_55-le a pa, mask_55-le b pb, mask_55-le c pc, mask_55-le d pd))

  quads_lem :
      (bit_and (join a b c d) 0x33333333 + bit_and (join a b c d / 4) 0x33333333) % word
      ≡ join
          (bit_and a 0x33 + bit_and (a / 4) 0x33)
          (bit_and b 0x33 + bit_and (b / 4) 0x33)
          (bit_and c 0x33 + bit_and (c / 4) 0x33)
          (bit_and d 0x33 + bit_and (d / 4) 0x33)
  quads_lem =
      let whole = bit_and-join a b c d 0x33 pb pc pd (omega arith) in
      let split =
        bit_and-join (a / 4) ((b + 256 * (a % 4)) / 4) ((c + 256 * (b % 4)) / 4)
          ((d + 256 * (c % 4)) / 4) 0x33 (omega arith) (omega arith) (omega arith) (omega arith) in
      let mb = mask_33 (b + 256 * (a % 4)) (omega arith) in
      let mc = mask_33 (c + 256 * (b % 4)) (omega arith) in
      let md = mask_33 (d + 256 * (c % 4)) (omega arith) in
      let wb : (b + 256 * (a % 4)) % 256 ≡ b = omega arith in
      let wc : (c + 256 * (b % 4)) % 256 ≡ c = omega arith in
      let wd : (d + 256 * (c % 4)) % 256 ≡ d = omega arith in
      rw (join-quarter a b c d, whole, split, mb, mc, md, wb, wc, wd)
        (omega (
          arith,
          mask_33-le a pa,
          mask_33-le b pb,
          mask_33-le c pc,
          mask_33-le d pd,
          mask_33-le (a / 4) (omega arith),
          mask_33-le (b / 4) (omega arith),
          mask_33-le (c / 4) (omega arith),
          mask_33-le (d / 4) (omega arith),
        ))

module _ (a b c d : ℕ) (la : a % 16 ≤ 4) (lb : b % 16 ≤ 4) (lc : c % 16 ≤ 4) (ld : d % 16 ≤ 4)
    (ha : a / 16 ≤ 4) (hb : b / 16 ≤ 4) (hc : c / 16 ≤ 4) (hd : d / 16 ≤ 4) where
  groups_lem :
      bit_and ((join a b c d + join a b c d / 16) % word) 0x0F0F0F0F
      ≡ join (a % 16 + a / 16) (b % 16 + b / 16) (c % 16 + c / 16) (d % 16 + d / 16)
  groups_lem =
      let sums : (join a b c d + join a b c d / 16) % word
          ≡ join (a + a / 16) (b + b / 16 + 16 * (a % 16)) (c + c / 16 + 16 * (b % 16))
              (d + d / 16 + 16 * (c % 16)) =
        omega arith in
      let split =
        bit_and-join (a + a / 16) (b + b / 16 + 16 * (a % 16)) (c + c / 16 + 16 * (b % 16))
          (d + d / 16 + 16 * (c % 16)) 0x0F (omega arith) (omega arith) (omega arith)
          (omega arith) in
      rw (sums, split)
        (omega (
          arith,
          bit_and_mask 4 (a + a / 16),
          bit_and_mask 4 (b + b / 16 + 16 * (a % 16)),
          bit_and_mask 4 (c + c / 16 + 16 * (b % 16)),
          bit_and_mask 4 (d + d / 16 + 16 * (c % 16)),
        ))

product_lem :
    (a b c d : ℕ)
    → a ≤ 8
    → b ≤ 8
    → c ≤ 8
    → d ≤ 8
    → join a b c d * 0x01010101 % word / 2 ^ 24 ≡ a + b + c + d
product_lem a b c d p q r s = omega arith

hamming_weight_u32-join :
    (a b c d : ℕ)
    → a < 256
    → b < 256
    → c < 256
    → d < 256
    → hamming_weight_u32 (join a b c d) ≡ ones 32 (join a b c d)
unfolding hamming_weight_u32
hamming_weight_u32-join a b c d p q r s =
    let ca = counted a p in
    let cb = counted b q in
    let cc' = counted c r in
    let cd = counted d s in
    rw
      (
        pairs_lem a b c d p q r s,
        quads_lem (pair_sums a) (pair_sums b) (pair_sums c) (pair_sums d) (omega arith)
            (omega arith) (omega arith) (omega arith),
        groups_lem (quad_sums a) (quad_sums b) (quad_sums c) (quad_sums d) ca.low cb.low cc'.low
            cd.low ca.high cb.high cc'.high cd.high,
        product_lem (quad_sums a % 16 + quad_sums a / 16) (quad_sums b % 16 + quad_sums b / 16)
            (quad_sums c % 16 + quad_sums c / 16) (quad_sums d % 16 + quad_sums d / 16)
            (omega (arith, ca.low, ca.high)) (omega (arith, cb.low, cb.high))
            (omega (arith, cc'.low, cc'.high)) (omega (arith, cd.low, cd.high)),
      )
      (omega (arith, ca.total, cb.total, cc'.total, cd.total, ones-join a b c d p q r s))

-- `bit_ops_hamming_weight_u32` returns the number of one bits of every `uint32_t`.
pub hamming_weight_u32_lem : (i : ℕ) → i < word → hamming_weight_u32 i ≡ ones 32 i
hamming_weight_u32_lem i h =
    let whole : join (i / 2 ^ 24) (i / 2 ^ 16 % 256) (i / 2 ^ 8 % 256) (i % 256) ≡ i =
      omega arith in
    subst (λ t. hamming_weight_u32 t ≡ ones 32 t) whole
      (hamming_weight_u32-join (i / 2 ^ 24) (i / 2 ^ 16 % 256) (i / 2 ^ 8 % 256) (i % 256)
        (omega arith) (omega arith) (omega arith) (omega arith))
