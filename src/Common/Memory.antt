-- ===== src/Common/Memory.antt =====
-- Accesses to a C array, and `size_t` arithmetic.
-- An access outside the array is undefined behaviour in C: here it is `none`, and so is a run that
-- makes one.
use Prim.Native.Nat.{ℕ, ◌+◌, ◌-◌, ◌*◌, ◌%◌, ◌^◌, ◌<◌, ◌≤◌}
use mathlib.Core.Path.{◌≡◌}
use mathlib.Core.Option.{Option, none, some}
use mathlib.Core.List.{List}
use native.Mathlib.Omega.{arith}
use c_embedded_utils.Common.Tests.{ltb, if◌then◌else◌}
use c_embedded_utils.Common.Lists.{length, get_elem?, set}

-- `size_t` has 64 bits.
abbrev pub size_mod : ℕ
size_mod = 2 ^ 64

abbrev pub add_size : ℕ → ℕ → ℕ
add_size a b = (a + b) % size_mod

-- `-` on ℕ stops at 0, so the modulus is added first; `b` is below it.
abbrev pub sub_size : ℕ → ℕ → ℕ
sub_size a b = (a + size_mod - b) % size_mod

abbrev pub mul_size : ℕ → ℕ → ℕ
mul_size a b = a * b % size_mod

infixl 5 ◌>>=◌
abbrev pub ◌>>=◌ {ℓ κ} : {A : Type ℓ} {B : Type κ} → Option A → (A → Option B) → Option B
none >>= f = none
some a >>= f = f a

module _ {ℓ} {A : Type ℓ} where
  -- `buf[i]`
  abbrev pub load : List A → ℕ → Option A
  load buf i = get_elem? buf i

  -- `buf[i] = v`
  unfoldable pub store : List A → ℕ → A → Option (List A)
  store buf i v = if ltb i (length buf) then some (set buf i v) else none

  pub store-lt :
      (buf : List A) (i : ℕ) (v : A) → i < length buf → store buf i v ≡ some (set buf i v)
  unfolding store
  store-lt buf i v h = ground arith

  pub store-ge : (buf : List A) (i : ℕ) (v : A) → length buf ≤ i → store buf i v ≡ none
  unfolding store
  store-ge buf i v h = ground arith
