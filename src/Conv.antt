-- ===== src/Conv.antt =====
-- The wasm converter (src/wasm): from the instructions of a wasm function to those of uwasm.
pub mod Pool
pub mod PoolLaws
pub mod Places
pub mod Begun
pub mod Begins
pub mod Winst
pub mod OpMap
pub mod Graph
pub mod State
pub mod Stack
pub mod Env
pub mod Blocks
pub mod Control
pub mod Ends
pub mod Data
pub mod MemInst
pub mod Calls
pub mod Inst
pub mod Locals
pub mod Func
pub mod Forward
pub mod Numeric
pub mod Straight
pub mod Arithmetic
pub mod Registers
pub mod Holds
pub mod Typing
pub mod Emits
pub mod Cases
pub mod Encodable
pub mod Progress
pub mod Writes
pub mod Values
pub mod Rules
pub mod Computes
pub mod Correct
