-- ===== src/Jit.antt =====
-- src/jit.c: the block compiler.
pub mod Liveness
pub mod Address
pub mod Constant
pub mod Words
pub mod Code
pub mod Condition
pub mod Decides
pub mod Operand
pub mod Cache
pub mod Decode
