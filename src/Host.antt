-- ===== src/Host.antt =====
-- The x86-64 instructions that src/codegen emits, as the Intel manual defines them: their decoding
-- from bytes and what they do. It models no code of the repository.
pub mod Cpu
pub mod Decoding
pub mod Execution
