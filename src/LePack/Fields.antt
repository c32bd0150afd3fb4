-- ===== src/LePack/Fields.antt =====
-- A client that packs several values one behind the other, and unpacks them again: it moves the offset
-- by what each function of le_pack.c returns, and stops where one returns 0.
use c_embedded_utils.Common.{
  ℕ, ◌-◌, ◌^◌, ◌<◌, Bool, Option, none, some, List, [], ◌∷◌, ◌++◌, if◌then◌else◌, ◌==◌, leb, ◌>>=◌,
  length, add_size,
}
use c_embedded_utils.Common.Int.{ℤ}
use c_embedded_utils.LePack.Bytes.{byte_of}
use c_embedded_utils.LePack.Signed.{
  signed_byte_of, InRange, pack_s8, unpack_s8, pack_s16, unpack_s16, pack_s32, unpack_s32, pack_s64,
  unpack_s64,
}
use c_embedded_utils.LePack.Unsigned.{
  pack_bool, unpack_bool, pack_u8, unpack_u8, pack_u16, unpack_u16, pack_u32, unpack_u32, pack_u64,
  unpack_u64,
}

-- A value of one of the packed types.
pub data Field : Type 0 where
  bool : Bool → Field
  u8 u16 u32 u64 : ℕ → Field
  s8 s16 s32 s64 : ℤ → Field

pub data FieldType : Type 0 where
  type_bool type_u8 type_u16 type_u32 type_u64 type_s8 type_s16 type_s32 type_s64 : FieldType

abbrev pub type_of : Field → FieldType
type_of (bool x) = type_bool
type_of (u8 x) = type_u8
type_of (u16 x) = type_u16
type_of (u32 x) = type_u32
type_of (u64 x) = type_u64
type_of (s8 x) = type_s8
type_of (s16 x) = type_s16
type_of (s32 x) = type_s32
type_of (s64 x) = type_s64

-- The value is one of its C type.
abbrev pub FieldInRange : Field → Type 0
FieldInRange (bool x) = Unit {0}
FieldInRange (u8 x) = x < 2 ^ 8
FieldInRange (u16 x) = x < 2 ^ 16
FieldInRange (u32 x) = x < 2 ^ 32
FieldInRange (u64 x) = x < 2 ^ 64
FieldInRange (s8 x) = InRange 8 x
FieldInRange (s16 x) = InRange 16 x
FieldInRange (s32 x) = InRange 32 x
FieldInRange (s64 x) = InRange 64 x

abbrev pub AllInRange : List Field → Type 0
AllInRange [] = Unit {0}
AllInRange (f ∷ fs) = FieldInRange f × AllInRange fs

-- The bytes of a field, the low one first.
abbrev pub bytes_of : Field → List ℕ
bytes_of (bool x) = byte_of (if x then 1 else 0) 0 ∷ []
bytes_of (u8 x) = byte_of x 0 ∷ []
bytes_of (u16 x) = byte_of x 0 ∷ byte_of x 8 ∷ []
bytes_of (u32 x) = byte_of x 0 ∷ byte_of x 8 ∷ byte_of x 16 ∷ byte_of x 24 ∷ []
bytes_of (u64 x) =
    byte_of x 0
    ∷ byte_of x 8
    ∷ byte_of x 16
    ∷ byte_of x 24
    ∷ byte_of x 32
    ∷ byte_of x 40
    ∷ byte_of x 48
    ∷ byte_of x 56
    ∷ []
bytes_of (s8 x) = signed_byte_of x 0 ∷ []
bytes_of (s16 x) = signed_byte_of x 0 ∷ signed_byte_of x 8 ∷ []
bytes_of (s32 x) =
    signed_byte_of x 0 ∷ signed_byte_of x 8 ∷ signed_byte_of x 16 ∷ signed_byte_of x 24 ∷ []
bytes_of (s64 x) =
    signed_byte_of x 0
    ∷ signed_byte_of x 8
    ∷ signed_byte_of x 16
    ∷ signed_byte_of x 24
    ∷ signed_byte_of x 32
    ∷ signed_byte_of x 40
    ∷ signed_byte_of x 48
    ∷ signed_byte_of x 56
    ∷ []

-- The bytes of a message.
abbrev pub message : List Field → List ℕ
message [] = []
message (f ∷ fs) = bytes_of f ++ message fs

-- The first fields, up to the one that has no room.
abbrev pub fitting : ℕ → List Field → List Field
fitting room [] = []
fitting room (f ∷ fs) =
    if leb (length (bytes_of f)) room then f ∷ fitting (room - length (bytes_of f)) fs else []

unfoldable pub pack_field : ℕ → List ℕ → ℕ → Field → Option (ℕ × List ℕ)
unfolding pack_bool pack_u8 pack_u16 pack_u32 pack_u64 pack_s8 pack_s16 pack_s32 pack_s64
pack_field offset buf data_len (bool x) = pack_bool offset buf data_len x
pack_field offset buf data_len (u8 x) = pack_u8 offset buf data_len x
pack_field offset buf data_len (u16 x) = pack_u16 offset buf data_len x
pack_field offset buf data_len (u32 x) = pack_u32 offset buf data_len x
pack_field offset buf data_len (u64 x) = pack_u64 offset buf data_len x
pack_field offset buf data_len (s8 x) = pack_s8 offset buf data_len x
pack_field offset buf data_len (s16 x) = pack_s16 offset buf data_len x
pack_field offset buf data_len (s32 x) = pack_s32 offset buf data_len x
pack_field offset buf data_len (s64 x) = pack_s64 offset buf data_len x

-- The out-parameter as a field.
abbrev pub as_field : {A : Type 0} → (A → Field) → Option (ℕ × Option A) → Option (ℕ × Option Field)
as_field make none = none
as_field make (some (size, none)) = some (size, none)
as_field make (some (size, some x)) = some (size, some (make x))

unfoldable pub unpack_field : ℕ → List ℕ → ℕ → FieldType → Option (ℕ × Option Field)
unfolding unpack_bool unpack_u8 unpack_u16 unpack_u32 unpack_u64 unpack_s8 unpack_s16 unpack_s32
    unpack_s64
unpack_field offset buf data_len type_bool = as_field bool (unpack_bool offset buf data_len)
unpack_field offset buf data_len type_u8 = as_field u8 (unpack_u8 offset buf data_len)
unpack_field offset buf data_len type_u16 = as_field u16 (unpack_u16 offset buf data_len)
unpack_field offset buf data_len type_u32 = as_field u32 (unpack_u32 offset buf data_len)
unpack_field offset buf data_len type_u64 = as_field u64 (unpack_u64 offset buf data_len)
unpack_field offset buf data_len type_s8 = as_field s8 (unpack_s8 offset buf data_len)
unpack_field offset buf data_len type_s16 = as_field s16 (unpack_s16 offset buf data_len)
unpack_field offset buf data_len type_s32 = as_field s32 (unpack_s32 offset buf data_len)
unpack_field offset buf data_len type_s64 = as_field s64 (unpack_s64 offset buf data_len)

-- Returns the offset behind the packed fields, and the buffer.
unfoldable pub pack_all : ℕ → List ℕ → ℕ → List Field → Option (ℕ × List ℕ)
unfolding pack_field
pack_all offset buf data_len [] = some (offset, buf)
pack_all offset buf data_len (f ∷ fs) = do
  packed ← pack_field offset buf data_len f
  let rest = pack_all (add_size offset packed.0) packed.1 data_len fs
  if packed.0 == 0 then some (offset, packed.1) else rest

-- A field that is read, and those behind it.
abbrev pub with_field : Field → Option (ℕ × List Field) → Option (ℕ × List Field)
with_field f none = none
with_field f (some (offset, fs)) = some (offset, f ∷ fs)

-- Returns the offset behind the fields that are read, and these.
unfoldable pub unpack_all : ℕ → List ℕ → ℕ → List FieldType → Option (ℕ × List Field)
unfolding unpack_field
unpack_all offset buf data_len [] = some (offset, [])
unpack_all offset buf data_len (t ∷ ts) = do
  read ← unpack_field offset buf data_len t
  let rest = unpack_all (add_size offset read.0) buf data_len ts
  elim read.1 [ none ↦ some (offset, []) | some f ↦ with_field f rest ]
