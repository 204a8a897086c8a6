-- ===== src/Machine.antt =====
-- The state of UWASM_MACHINE (src/interpreter/exec_unit.h) and its calls and returns.
pub mod Register
pub mod Context
pub mod State
pub mod Registers
pub mod Overflow
pub mod Call
pub mod Frames
pub mod Return
pub mod DataSegs
pub mod Segments
