-- ===== src/Codegen/Correct.antt =====
-- src/codegen/x86_64.rs, `emit_block`, against the meaning of blocks, on the host of `Host`.
pub mod Executes
pub mod Decoded
pub mod Operands
pub mod Sources
pub mod Alu
pub mod Nzcv
pub mod Implements
pub mod Results
pub mod Shifts
pub mod Addresses
pub mod Jumps
pub mod Branches
pub mod Fits
pub mod Instructions
pub mod Blocks
pub mod Run
