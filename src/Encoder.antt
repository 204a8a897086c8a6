-- ===== src/Encoder.antt =====
-- U_ENCODER (src/encoder/u_encoder.cxx) and U_INST_ENCODER (src/encoder/u_inst_encoder.cxx), with
-- what U_MODULE (src/ubh/u_module.cxx) reads of what they write.
pub mod Shdr
pub mod Headers
pub mod ReadBack
pub mod Code
pub mod CodeLayout
pub mod Labels
pub mod Sections
pub mod Buffers
pub mod Small
pub mod Collects
pub mod FileLayout
pub mod Load
pub mod Pointers
pub mod HeaderMap
pub mod Writes
pub mod Loaded
pub mod Funcs
pub mod Requests
pub mod Again
