-- ===== src/Tests.antt =====
-- Concrete runs: each theorem with hypotheses, applied where they hold, and tests of the
-- definitions on small programs.
pub mod Sample
mod Encoding
mod Calls
mod Converting
mod Instructions
mod Running
mod Strings
mod Files
mod Linking
mod Loading
