-- ===== src/Exec.antt =====
-- The instructions of UWASM_MACHINE (src/interpreter/exec_unit_func.h) and their dispatch.
pub mod Word
pub mod Jump
pub mod Arith
pub mod Const
pub mod Memory
pub mod Global
pub mod Convert
pub mod Counting
pub mod LoadStore
pub mod Unsigned
pub mod Keeps
pub mod Steady
pub mod ConvertKeeps
pub mod Linked
pub mod SafeReturns
pub mod SafeCalls
pub mod SafeOps
pub mod SafeRun
pub mod Prepare
pub mod Relocs
pub mod Step
