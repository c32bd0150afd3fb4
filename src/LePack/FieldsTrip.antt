-- ===== src/LePack/FieldsTrip.antt =====
-- What a client that packs several values gets back.
use mathlib.Core.List.{map}
use native.Mathlib.Decide.{dec_le}
use c_embedded_utils.Common.{
  ℕ, ◌+◌, ◌-◌, ◌≤◌, ◌<◌, ◌≡◌, sym, ap, ◌∙◌, subst, some, List, [], ◌∷◌, length, size_mod, arith,
  length-append, add_size,
}
use c_embedded_utils.Common.Copy.{
  IsWritten, IsWritten-nil, IsWritten-append, StandsAt-second, StandsAt,
}
use c_embedded_utils.LePack.Bytes.{put_lem, put_outside}
use c_embedded_utils.LePack.Fields.{
  Field, FieldType, type_of, FieldInRange, AllInRange, bytes_of, message, fitting, pack_all,
  unpack_all, with_field,
}
use c_embedded_utils.LePack.FieldBytes.{
  pack_field-put, unpack_field_lem, unpack_field_outside, bytes_of_positive, bytes_of_small,
}

-- One round of the client, where the field has room.
pub pack_all_step :
    (f : Field) (fs : List Field) (offset : ℕ) (buf : List ℕ) (data_len : ℕ)
    → offset + length (bytes_of f) ≤ data_len
    → data_len ≤ length buf
    → data_len < size_mod
    → (after : List ℕ) × (pack_all offset buf data_len (f ∷ fs)
        ≡ pack_all (offset + length (bytes_of f)) after data_len fs)
      × IsWritten offset (bytes_of f) buf after
unfolding pack_all
pack_all_step f fs offset buf data_len h fits sized =
    let (after, stored, w) = put_lem (bytes_of f) offset buf data_len h fits sized in
    let some_bytes = bytes_of_positive f in
    let no_wrap : add_size offset (length (bytes_of f)) ≡ offset + length (bytes_of f) =
      omega arith in
    (after, ground (arith, pack_field-put f offset buf data_len, stored, no_wrap), w)

-- Where the field has no room both directions stop.
pub all_stop :
    (f : Field) (fs : List Field) (ts : List FieldType) (offset : ℕ) (buf : List ℕ) (data_len : ℕ)
    → offset < size_mod
    → data_len < offset + length (bytes_of f)
    → (pack_all offset buf data_len (f ∷ fs) ≡ some (offset, buf))
      × (unpack_all offset buf data_len (type_of f ∷ ts) ≡ some (offset, []))
unfolding pack_all unpack_all
all_stop f fs ts offset buf data_len s h = (
  ground (
    arith,
    pack_field-put f offset buf data_len,
    put_outside (bytes_of f) offset buf data_len s (bytes_of_small f) h,
  ),
  rw (unpack_field_outside f offset buf data_len s h),
)

pub unpack_all_step :
    (f : Field) (ts : List FieldType) (offset : ℕ) (buf : List ℕ) (data_len : ℕ)
    → FieldInRange f
    → data_len < size_mod
    → offset + length (bytes_of f) ≤ data_len
    → StandsAt offset (bytes_of f) buf
    → unpack_all offset buf data_len (type_of f ∷ ts)
      ≡ with_field f (unpack_all (offset + length (bytes_of f)) buf data_len ts)
unfolding unpack_all
unpack_all_step f ts offset buf data_len r s h at =
    let no_wrap : add_size offset (length (bytes_of f)) ≡ offset + length (bytes_of f) =
      omega arith in
    rw (unpack_field_lem f offset buf data_len r s h at, no_wrap)

fitting_short :
    (f : Field) (fs : List Field) (room : ℕ)
    → room < length (bytes_of f)
    → fitting room (f ∷ fs) ≡ []
fitting_short f fs room h = ground arith

fitting_room :
    (f : Field) (fs : List Field) (room : ℕ)
    → length (bytes_of f) ≤ room
    → fitting room (f ∷ fs) ≡ f ∷ fitting (room - length (bytes_of f)) fs
fitting_room f fs room h = ground arith

module _ (data_len : ℕ) (sized : data_len < size_mod) where
  -- Of the fields `fs`, exactly `back` are packed and unpacked.
  abbrev pub Trips : List Field → ℕ → List ℕ → List Field → Type 0
  Trips fs offset buf back =
      (after : List ℕ) × (pack_all offset buf data_len fs
        ≡ some (offset + length (message back), after))
      × IsWritten offset (message back) buf after
      × (unpack_all offset after data_len (map type_of fs)
          ≡ some (offset + length (message back), back))

  Trips-cons :
      (f : Field) (fs : List Field) (offset : ℕ) (buf middle : List ℕ) (back : List Field)
      → FieldInRange f
      → offset + length (bytes_of f) ≤ data_len
      → pack_all offset buf data_len (f ∷ fs)
        ≡ pack_all (offset + length (bytes_of f)) middle data_len fs
      → IsWritten offset (bytes_of f) buf middle
      → Trips fs (offset + length (bytes_of f)) middle back
      → Trips (f ∷ fs) offset buf (f ∷ back)
  Trips-cons f fs offset buf middle back r h step w (after, packed, w', read) =
      let ends : offset + length (bytes_of f) + length (message back)
          ≡ offset + length (message (f ∷ back)) =
        omega (arith, length-append (bytes_of f) (message back)) in
      let back_step =
        unpack_all_step f (map type_of fs) offset after data_len r sized h
          (StandsAt-second offset (bytes_of f) (message back) buf middle after w w') in
      (
        after,
        step ∙ packed ∙ ap (λ n. some (n, after)) ends,
        IsWritten-append offset (bytes_of f) (message back) buf middle after w w',
        back_step ∙ ap (with_field f) read ∙ ap (λ n. some (n, f ∷ back)) ends,
      )

  -- Fields packed one behind the other. Those that the room behind the offset takes, up to the first
  -- that it does not, are written there in order, with no other change to the buffer, and unpacking
  -- all the types gives exactly these fields back. Both directions end at the offset behind them.
  pub unpack_all-pack_all :
      (fs : List Field) (offset : ℕ) (buf : List ℕ)
      → AllInRange fs
      → offset ≤ data_len
      → data_len ≤ length buf
      → Trips fs offset buf (fitting (data_len - offset) fs)
  unfolding pack_all unpack_all
  unpack_all-pack_all [] offset buf r h fits =
      (buf, ground arith, IsWritten-nil offset buf, ground arith)
  unpack_all-pack_all (f ∷ fs) offset buf r h fits =
      elim (dec_le (length (bytes_of f)) (data_len - offset)) [
        | no short ↦
            let stops =
              all_stop f fs (map type_of fs) offset buf data_len (omega arith) (omega arith) in
            let none_fits = fitting_short f fs (data_len - offset) (omega arith) in
            subst (Trips (f ∷ fs) offset buf) (sym none_fits)
              (buf, ground (arith, stops.0), IsWritten-nil offset buf, ground (arith, stops.1))
        | yes room ↦
            let (middle, step, w) =
              pack_all_step f fs offset buf data_len (omega arith) fits sized in
            let left : data_len - (offset + length (bytes_of f))
                ≡ data_len - offset - length (bytes_of f) =
              omega arith in
            let rest =
              unpack_all-pack_all fs (offset + length (bytes_of f)) middle r.1 (omega arith)
                (omega (arith, w.same_length)) in
            subst (Trips (f ∷ fs) offset buf)
              (ap (λ n. f ∷ fitting n fs) left ∙ sym (fitting_room f fs (data_len - offset) room))
              (Trips-cons f fs offset buf middle _ r.0 (omega arith) step w rest)
      ]
