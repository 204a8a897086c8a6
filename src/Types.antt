-- ===== src/Types.antt =====
-- Function types: U_TYPE_ENCODER (src/encoder/u_type_encoder.cxx), UBH_TYPE (include/ubh/ubh.h) and
-- Decode_type_and_cache (src/ubh/u_module.cxx).
pub mod Encode
pub mod Decode
pub mod ShortForm
pub mod Slots
pub mod LongForm
pub mod RoundTrip
pub mod Stored
