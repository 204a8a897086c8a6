-- ===== src/Isa.antt =====
-- The instruction format: opcodes, encoding of instruction words and their expansion.
pub mod Opcode
pub mod Table
pub mod Word
pub mod Encode
pub mod Expand
pub mod Operands
pub mod Checks
pub mod Code
pub mod RoundTrip
pub mod Limits
pub mod CodeRoundTrip
pub mod Module
pub mod Links
pub mod PcMaps
