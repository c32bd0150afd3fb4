-- ===== src/LePack/Tests.antt =====
-- Runs of the packing functions, and their theorems at concrete values.
use c_embedded_utils.Common.{
  ℕ, zero, suc, ◌-◌, ◌^◌, ◌<◌, ◌≡◌, refl, true, false, none, some, List, [], ◌∷◌, arith, store,
}
use c_embedded_utils.Common.Copy.{IsWritten}
use c_embedded_utils.Common.Int.{negsuc}
use c_embedded_utils.LePack.Bytes.{byte_of}
use c_embedded_utils.LePack.Unsigned.{unpack_bool, pack_u32, pack_u64, unpack_u64}
use c_embedded_utils.LePack.Signed.{signed_byte_of, pack_s16, unpack_s16, pack_s64, unpack_s64}
use c_embedded_utils.LePack.Raw.{pack_raw, unpack_raw, unpack-pack_raw}
use c_embedded_utils.LePack.UnsignedTrip.{unpack-pack_u64}
use c_embedded_utils.LePack.SignedTrip.{unpack-pack_s64}
use c_embedded_utils.LePack.Fields.{
  Field, bool, u8, u16, u64, s16, s32, FieldType, type_u16, type_s16, type_u32, fitting, pack_all,
  unpack_all,
}
use c_embedded_utils.Common.Ring.{byte_at}
use c_embedded_utils.LePack.FieldsBack.{Reads, pack_all-unpack_all}
use c_embedded_utils.LePack.FieldsTrip.{Trips, unpack_all-pack_all}
use c_embedded_utils.LePack.Outside.{outside_64}

abbrev buffer : List ℕ
buffer = 9 ∷ 9 ∷ 9 ∷ 9 ∷ 9 ∷ 9 ∷ 9 ∷ 9 ∷ 9 ∷ 9 ∷ []

layout :
    pack_u32 2 buffer 10 0x12345678
    ≡ some (4, 9 ∷ 9 ∷ 0x78 ∷ 0x56 ∷ 0x34 ∷ 0x12 ∷ 9 ∷ 9 ∷ 9 ∷ 9 ∷ [])
unfolding pack_u32 store
layout = refl

minus_two :
    (pack_s16 0 buffer 10 (negsuc 1) ≡ some (2, 0xfe ∷ 0xff ∷ 9 ∷ 9 ∷ 9 ∷ 9 ∷ 9 ∷ 9 ∷ 9 ∷ 9 ∷ []))
    × (unpack_s16 0 (0xfe ∷ 0xff ∷ []) 2 ≡ some (2, some (negsuc 1)))
unfolding pack_s16 unpack_s16 store
minus_two = (refl, refl)

-- A byte other than 0 and 1 is read as `false`.
odd_bool : unpack_bool 0 (2 ∷ []) 1 ≡ some (1, some false)
unfolding unpack_bool
odd_bool = refl

unpack-pack_u64_example :
    (after : List ℕ) × (pack_u64 2 buffer 10 0x1122334455667788 ≡ some (8, after))
    × IsWritten 2
        (byte_of 0x1122334455667788 0
          ∷ byte_of 0x1122334455667788 8
          ∷ byte_of 0x1122334455667788 16
          ∷ byte_of 0x1122334455667788 24
          ∷ byte_of 0x1122334455667788 32
          ∷ byte_of 0x1122334455667788 40
          ∷ byte_of 0x1122334455667788 48
          ∷ byte_of 0x1122334455667788 56
          ∷ [])
        buffer
        after
    × (unpack_u64 2 after 10 ≡ some (8, some 0x1122334455667788))
unpack-pack_u64_example =
    unpack-pack_u64 2 buffer 10 (omega arith) (omega arith) 0x1122334455667788 (omega arith)
      (omega arith)

unpack-pack_s64_example :
    (after : List ℕ) × (pack_s64 2 buffer 10 (negsuc 0x123456789) ≡ some (8, after))
    × IsWritten 2
        (signed_byte_of (negsuc 0x123456789) 0
          ∷ signed_byte_of (negsuc 0x123456789) 8
          ∷ signed_byte_of (negsuc 0x123456789) 16
          ∷ signed_byte_of (negsuc 0x123456789) 24
          ∷ signed_byte_of (negsuc 0x123456789) 32
          ∷ signed_byte_of (negsuc 0x123456789) 40
          ∷ signed_byte_of (negsuc 0x123456789) 48
          ∷ signed_byte_of (negsuc 0x123456789) 56
          ∷ [])
        buffer
        after
    × (unpack_s64 2 after 10 ≡ some (8, some (negsuc 0x123456789)))
unpack-pack_s64_example =
    unpack-pack_s64 2 buffer 10 (omega arith) (omega arith) (negsuc 0x123456789) (omega arith)
      (omega arith)

unpack-pack_raw_example :
    (after : List ℕ) × (out : List ℕ) × (pack_raw (5 ∷ 6 ∷ []) 2 1 buffer 10 ≡ some (2, after))
    × IsWritten 1 (5 ∷ 6 ∷ []) buffer after
    × (unpack_raw (0 ∷ 0 ∷ 0 ∷ []) 2 1 after 10 ≡ some (2, out))
    × IsWritten 0 (5 ∷ 6 ∷ []) (0 ∷ 0 ∷ 0 ∷ []) out
unpack-pack_raw_example =
    unpack-pack_raw (5 ∷ 6 ∷ []) 1 buffer 10 (0 ∷ 0 ∷ 0 ∷ []) (omega arith) (omega arith)
      (omega arith) (omega arith) (omega arith)

outside_64_example :
    (pack_u64 (2 ^ 64 - 1) buffer 10 7 ≡ some (0, buffer))
    × (unpack_u64 (2 ^ 64 - 1) buffer 10 ≡ some (0, none))
    × (pack_s64 (2 ^ 64 - 1) buffer 10 (negsuc 7) ≡ some (0, buffer))
    × (unpack_s64 (2 ^ 64 - 1) buffer 10 ≡ some (0, none))
outside_64_example = outside_64 (2 ^ 64 - 1) buffer 10 (omega arith) 7 (negsuc 7) (omega arith)

abbrev fields : List Field
fields = u16 0x1234 ∷ bool true ∷ s32 (negsuc 70000) ∷ u64 5 ∷ u8 7 ∷ []

-- Nine bytes behind index 1 take the first three fields, and not the fourth.
three_fit : fitting 9 fields ≡ u16 0x1234 ∷ bool true ∷ s32 (negsuc 70000) ∷ []
three_fit = refl

fields-packed :
    pack_all 1 buffer 10 fields
    ≡ some (8, 9 ∷ 0x34 ∷ 0x12 ∷ 1 ∷ 0x8f ∷ 0xee ∷ 0xfe ∷ 0xff ∷ 9 ∷ 9 ∷ [])
unfolding pack_all store
fields-packed = refl

unpack_all-pack_all_example : Trips 10 (omega arith) fields 1 buffer (fitting 9 fields)
unpack_all-pack_all_example =
    unpack_all-pack_all 10 (omega arith) fields 1 buffer (omega arith) (omega arith) (omega arith)

abbrev received : List ℕ
received = 0xff ∷ 0x80 ∷ 3 ∷ 0xfe ∷ 7 ∷ []

received_bytes : (i : ℕ) → byte_at received i < 256
received_bytes zero = omega arith
received_bytes (suc zero) = omega arith
received_bytes (suc (suc zero)) = omega arith
received_bytes (suc (suc (suc zero))) = omega arith
received_bytes (suc (suc (suc (suc zero)))) = omega arith
received_bytes (suc (suc (suc (suc (suc i))))) = omega arith

abbrev expected_types : List FieldType
expected_types = type_u16 ∷ type_s16 ∷ type_u32 ∷ []

reads_received :
    unpack_all 0 received 5 expected_types ≡ some (4, u16 0x80ff ∷ s16 (negsuc 508) ∷ [])
unfolding unpack_all
reads_received = refl

pack_all-unpack_all_example :
    (fs : List Field) × Reads received 5 received_bytes
      (omega arith)
      (omega arith)
      expected_types
      0
      fs
pack_all-unpack_all_example =
    pack_all-unpack_all received 5 received_bytes (omega arith) (omega arith) expected_types 0 refl
      (omega arith)
