-- ===== src/Common/Bits/Step.antt =====
-- The native `&` stands for a recursion on binary digits with fuel; without the fuel it is one
-- equation for the lowest digit.
use Prim.Native.Nat.{
  ℕ, zero, suc, ◌+◌, ◌-◌, ◌*◌, ◌/◌, ◌%◌, ◌≤◌, min, bit_and, digits, bit_and-bitwise,
}
use mathlib.Core.Path.{◌≡◌, refl, ap, ◌∙◌}
use native.Mathlib.Omega.{arith}

abbrev conjunction : (fuel x y : ℕ) → ℕ
conjunction = digits (λ _. 0) min

-- Fuel past the number itself changes nothing, by one,
one_more : (x y fuel : ℕ) → x ≤ fuel → conjunction (suc fuel) x y ≡ conjunction fuel x y
one_more zero y zero enough = refl
one_more zero y (suc fuel) enough = refl
one_more (suc x) y zero enough = absurd (omega arith)
one_more (suc x) y (suc fuel) enough =
    let rest = one_more (suc x / 2) (y / 2) fuel (omega arith) in
    ap (λ high. high * 2 + min (suc x % 2) (y % 2)) rest

-- and by any amount.
any_more :
    (extra x y base fuel : ℕ)
    → x ≤ base
    → fuel ≡ base + extra
    → conjunction fuel x y ≡ conjunction base x y
any_more zero x y base fuel enough e = ap (λ f. conjunction f x y) (omega arith)
any_more (suc extra) x y base fuel enough e =
    let above : fuel ≡ suc (base + extra) = omega arith in
    ap (λ f. conjunction f x y) above
    ∙ one_more x y (base + extra) (omega arith)
    ∙ any_more extra x y base (base + extra) enough refl

-- The lowest digit, and the digits above it.
pub bit_and_step : (x y : ℕ) → bit_and x y ≡ bit_and (x / 2) (y / 2) * 2 + min (x % 2) (y % 2)
bit_and_step zero y =
    let whole = bit_and-bitwise 0 y in let half = bit_and-bitwise 0 (y / 2) in omega arith
bit_and_step (suc x) y =
    let h = suc x / 2 in
    let fuelled = any_more (x - h) h (y / 2) h x (omega arith) (omega arith) in
    let half = bit_and-bitwise h (y / 2) in let whole = bit_and-bitwise (suc x) y in omega arith
