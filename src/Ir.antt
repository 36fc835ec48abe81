-- ===== src/Ir.antt =====
-- src/ir: operands, instructions and blocks of the intermediate representation.
pub mod Operand
pub mod Inst
pub mod Block
