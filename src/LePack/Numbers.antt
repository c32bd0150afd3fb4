-- ===== src/LePack/Numbers.antt =====
-- The number of a type that stands in any bytes.
use c_embedded_utils.Common.{ℕ, ◌<◌, ◌≡◌, refl, Bool, true, false, arith}
use c_embedded_utils.LePack.Digits.{first_bytes, value_of, low_bytes-value_of, signed_of}
use c_embedded_utils.LePack.Fields.{
  Field, FieldType, u8, u16, u32, u64, s8, s16, s32, s64, type_bool, type_u8, type_u16, type_u32,
  type_u64, type_s8, type_s16, type_s32, type_s64, type_of, FieldInRange, bytes_of,
}

abbrev pub size_of : FieldType → ℕ
size_of type_bool = 1
size_of type_u8 = 1
size_of type_u16 = 2
size_of type_u32 = 4
size_of type_u64 = 8
size_of type_s8 = 1
size_of type_s16 = 2
size_of type_s32 = 4
size_of type_s64 = 8

abbrev pub is_number : FieldType → Bool
is_number type_bool = false
is_number t = true

-- The number of a type whose bytes these are.
pub record NumberOf (t : FieldType) (g : ℕ → ℕ) : Type 0 where
  pub field : Field
  pub same_type : type_of field ≡ t
  pub in_range : FieldInRange field
  pub same_bytes : bytes_of field ≡ first_bytes (size_of t) g

pub number_of :
    (t : FieldType) (g : ℕ → ℕ) → ((i : ℕ) → g i < 256) → is_number t ≡ true → NumberOf t g
number_of type_bool g h e = absurd cc
number_of type_u8 g h e = record {
  field = u8 (value_of 1 g);
  same_type = refl;
  in_range = omega (arith, h 0);
  same_bytes = low_bytes-value_of 1 g h;
}
number_of type_u16 g h e = record {
  field = u16 (value_of 2 g);
  same_type = refl;
  in_range = omega (arith, h 0, h 1);
  same_bytes = low_bytes-value_of 2 g h;
}
number_of type_u32 g h e = record {
  field = u32 (value_of 4 g);
  same_type = refl;
  in_range = omega (arith, h 0, h 1, h 2, h 3);
  same_bytes = low_bytes-value_of 4 g h;
}
number_of type_u64 g h e = record {
  field = u64 (value_of 8 g);
  same_type = refl;
  in_range = omega (arith, h 0, h 1, h 2, h 3, h 4, h 5, h 6, h 7);
  same_bytes = low_bytes-value_of 8 g h;
}
number_of type_s8 g h e =
    let (x, r, b) = signed_of 8 0 g h (λ k. omega arith) (λ k. omega arith) in
    record { field = s8 x; same_type = refl; in_range = r; same_bytes = b }
number_of type_s16 g h e =
    let (x, r, b) = signed_of 16 1 g h (λ k. omega (arith, h 0)) (λ k. omega arith) in
    record { field = s16 x; same_type = refl {a = type_s16}; in_range = r; same_bytes = b }
number_of type_s32 g h e =
    let (x, r, b) = signed_of 32 3 g h (λ k. omega (arith, h 0, h 1, h 2)) (λ k. omega arith) in
    record { field = s32 x; same_type = refl {a = type_s32}; in_range = r; same_bytes = b }
number_of type_s64 g h e =
    let (x, r, b) =
      signed_of 64 7 g h (λ k. omega (arith, h 0, h 1, h 2, h 3, h 4, h 5, h 6))
        (λ k. omega arith) in
    record { field = s64 x; same_type = refl {a = type_s64}; in_range = r; same_bytes = b }
