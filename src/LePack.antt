-- ===== src/LePack.antt =====
-- src/struct_pack/le_pack.c: little-endian packing of the primitive types. `Bytes` has what the
-- functions share, `Unsigned`, `Signed` and `Raw` have the functions, `Fields` a client that packs
-- several values behind each other, and the modules named `Trip` the round trips.
pub mod Bytes
pub mod Unsigned
pub mod UnsignedRead
pub mod UnsignedTrip
pub mod Raw
pub mod Signed
pub mod SignedRead
pub mod SignedTrip
pub mod Outside
pub mod Fields
pub mod FieldBytes
pub mod FieldsTrip
pub mod Digits
pub mod Numbers
pub mod FieldsBack
mod Tests
