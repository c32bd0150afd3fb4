-- ===== src/LePack/FieldsBack.antt =====
-- A client that reads numbers from any bytes, and writes them again.
use mathlib.Core.List.{map}
use native.Mathlib.Decide.{dec_le}
use c_embedded_utils.Common.{
  ℕ, zero, suc, ◌+◌, ◌-◌, ◌≤◌, ◌<◌, ◌≡◌, refl, sym, ap, ap₂, ◌∙◌, subst, Bool, true, ◌&&◌, some,
  List, [], ◌∷◌, length, size_mod, arith, length-append, get_elem?, leb, if◌then◌else◌,
}
use c_embedded_utils.Common.Ring.{byte_at, get_elem?-byte_at}
use c_embedded_utils.Common.Copy.{IsWritten-same, StandsAt}
use c_embedded_utils.LePack.Digits.{first_bytes}
use c_embedded_utils.LePack.Fields.{
  Field, FieldType, type_of, FieldInRange, AllInRange, bytes_of, message, pack_all, unpack_all,
  with_field,
}
use c_embedded_utils.LePack.FieldsTrip.{pack_all_step, all_stop, unpack_all_step}
use c_embedded_utils.LePack.Numbers.{size_of, is_number, number_of}

abbrev pub all_numbers : List FieldType → Bool
all_numbers [] = true
all_numbers (t ∷ ts) = is_number t && all_numbers ts

-- The first types, up to the one that has no room.
abbrev pub fitting_types : ℕ → List FieldType → List FieldType
fitting_types room [] = []
fitting_types room (t ∷ ts) =
    if leb (size_of t) room then t ∷ fitting_types (room - size_of t) ts else []

length-first_bytes : (n : ℕ) (g : ℕ → ℕ) → length (first_bytes n g) ≡ n
length-first_bytes zero g = refl
length-first_bytes (suc n) g = omega (arith, length-first_bytes n (λ i. g (suc i)))

get_elem?-first_bytes :
    (n : ℕ) (g : ℕ → ℕ) (i : ℕ) → i < n → get_elem? (first_bytes n g) i ≡ some (g i)
get_elem?-first_bytes zero g i h = absurd (omega arith)
get_elem?-first_bytes (suc n) g zero h = refl
get_elem?-first_bytes (suc n) g (suc i) h = get_elem?-first_bytes n (λ k. g (suc k)) i (omega arith)

-- The bytes from an offset on stand there.
first_bytes-StandsAt :
    (buf : List ℕ) (offset n : ℕ)
    → offset + n ≤ length buf
    → StandsAt offset (first_bytes n (λ i. byte_at buf (offset + i))) buf
first_bytes-StandsAt buf offset n h i lt =
    let g : ℕ → ℕ = λ i. byte_at buf (offset + i) in
    let below : i < n = omega (arith, length-first_bytes n g) in
    get_elem?-byte_at buf (offset + i) (omega arith) ∙ sym (get_elem?-first_bytes n g i below)

module _ (buf : List ℕ) (data_len : ℕ) (bytes : (i : ℕ) → byte_at buf i < 256)
    (sized : data_len < size_mod) (fits : data_len ≤ length buf) where
  -- The fields that are read are of the types that have room, in range, and packing them again changes
  -- nothing.
  abbrev pub Reads : List FieldType → ℕ → List Field → Type 0
  Reads ts offset fs =
      (unpack_all offset buf data_len ts ≡ some (offset + length (message fs), fs))
      × (map type_of fs ≡ fitting_types (data_len - offset) ts)
      × AllInRange fs
      × (pack_all offset buf data_len fs ≡ some (offset + length (message fs), buf))

  -- The number that stands at an offset.
  record Stands (t : FieldType) (offset : ℕ) : Type 0 where
    field : Field
    same_type : type_of field ≡ t
    in_range : FieldInRange field
    same_size : length (bytes_of field) ≡ size_of t
    stands : offset + size_of t ≤ data_len → StandsAt offset (bytes_of field) buf

  number_at : (t : FieldType) (offset : ℕ) → is_number t ≡ true → Stands t offset
  number_at t offset e =
      let g : ℕ → ℕ = λ i. byte_at buf (offset + i) in
      let n = number_of t g (λ i. bytes (offset + i)) e in
      record {
        field = n.field;
        same_type = n.same_type;
        in_range = n.in_range;
        same_size = ap length n.same_bytes ∙ length-first_bytes (size_of t) g;
        stands = λ h.
            subst (λ bs. StandsAt offset bs buf) (sym n.same_bytes)
              (first_bytes-StandsAt buf offset (size_of t) (omega arith));
      }

  fitting_types_short :
      (t : FieldType) (ts : List FieldType) (room : ℕ)
      → room < size_of t
      → fitting_types room (t ∷ ts) ≡ []
  fitting_types_short t ts room h = ground arith

  fitting_types_room :
      (t : FieldType) (ts : List FieldType) (room : ℕ)
      → size_of t ≤ room
      → fitting_types room (t ∷ ts) ≡ t ∷ fitting_types (room - size_of t) ts
  fitting_types_room t ts room h = ground arith

  Reads-cons :
      (t : FieldType) (ts : List FieldType) (offset : ℕ) (s : Stands t offset) (fs : List Field)
      → offset + size_of t ≤ data_len
      → Reads ts (offset + length (bytes_of s.field)) fs
      → Reads (t ∷ ts) offset (s.field ∷ fs)
  unfolding pack_all unpack_all
  Reads-cons t ts offset s fs room (read, types, ranges, packed) =
      let f = s.field in
      let inside : offset + length (bytes_of f) ≤ data_len = omega (arith, s.same_size) in
      let (after, step, w) = pack_all_step f fs offset buf data_len inside fits sized in
      let same = IsWritten-same offset (bytes_of f) buf after (s.stands room) w in
      let ends : offset + length (bytes_of f) + length (message fs)
          ≡ offset + length (message (f ∷ fs)) =
        omega (arith, length-append (bytes_of f) (message fs)) in
      let reads =
        unpack_all_step f ts offset buf data_len s.in_range sized inside (s.stands room) in
      let left : data_len - (offset + length (bytes_of f)) ≡ data_len - offset - size_of t =
        omega (arith, s.same_size) in
      (
        ap (λ k. unpack_all offset buf data_len (k ∷ ts)) (sym s.same_type)
            ∙ reads
            ∙ ap (with_field f) read
            ∙ ap (λ n. some (n, f ∷ fs)) ends,
        ap₂ ◌∷◌ s.same_type (types ∙ ap (λ n. fitting_types n ts) left)
            ∙ sym (fitting_types_room t ts (data_len - offset) (omega arith)),
        (s.in_range, ranges),
        step
            ∙ ap (λ b. pack_all (offset + length (bytes_of f)) b data_len fs) same
            ∙ packed
            ∙ ap (λ n. some (n, buf)) ends,
      )

  -- Numbers read one behind the other from a buffer of any bytes, from an offset that is not behind the
  -- stated length, which the array has: those of the types that the room behind the offset takes, up to
  -- the first that it does not, are read, each in the range of its type, and packing them again at the
  -- same offset ends at the same place and leaves the buffer as it was.
  pub pack_all-unpack_all :
      (ts : List FieldType) (offset : ℕ)
      → all_numbers ts ≡ true
      → offset ≤ data_len
      → (fs : List Field) × Reads ts offset fs
  unfolding pack_all unpack_all
  pack_all-unpack_all [] offset e h = ([], (ground arith, refl, _, ground arith))
  pack_all-unpack_all (t ∷ ts) offset e h =
      let s = number_at t offset (ground arith) in
      elim (dec_le (size_of t) (data_len - offset)) [
        | no short ↦
            let stops =
              all_stop s.field [] ts offset buf data_len (omega arith)
                (omega (arith, s.same_size)) in
            let none_fits = fitting_types_short t ts (data_len - offset) (omega arith) in
            (
              [],
              (
                ap (λ k. unpack_all offset buf data_len (k ∷ ts)) (sym s.same_type)
                    ∙ stops.1
                    ∙ ground arith,
                sym none_fits,
                _,
                ground arith,
              ),
            )
        | yes room ↦
            let (fs, rest) =
              pack_all-unpack_all ts (offset + length (bytes_of s.field)) (ground arith)
                (omega (arith, s.same_size)) in
            (s.field ∷ fs, Reads-cons t ts offset s fs (omega arith) rest)
      ]
