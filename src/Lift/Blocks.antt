-- ===== src/Lift/Blocks.antt =====
-- src/lift/block.rs: a basic block, up to its first branch.
use armx.Base.{
  ℕ, ◌+◌, ◌*◌, Bool, true, false, List, [], ◌∷◌, Option, some, none, u64, if◌then◌else◌,
}
use armx.Arch.{A64Inst, A64Opcode, Instruction, InstDecoder, decode}
use armx.Ir.Block.{Block}
use armx.Lift.{lift_one_at}
pub mod Basic
pub mod Prepared

abbrev pub matches_terminal : A64Opcode → Bool
matches_terminal A64Opcode.b = true
matches_terminal A64Opcode.br = true
matches_terminal (A64Opcode.bcc cond) = true
matches_terminal A64Opcode.bl = true
matches_terminal A64Opcode.blr = true
matches_terminal A64Opcode.cbz = true
matches_terminal A64Opcode.cbnz = true
matches_terminal A64Opcode.ret = true
matches_terminal _ = false

-- A word that does not decode ends the block too.
abbrev ends_block : Option Instruction → Bool
ends_block (some decoded) = matches_terminal decoded.opcode
ends_block none = true

unfoldable pub terminal : InstDecoder → A64Inst → Bool
terminal decoder word = ends_block (decode decoder word)

-- The loop, with the words consumed so far.
unfoldable pub lift_words : InstDecoder → ℕ → ℕ → List A64Inst → Block → Block × ℕ
lift_words decoder pc consumed [] block = (block, consumed)
lift_words decoder pc consumed (word ∷ words) block =
    let block' = lift_one_at decoder word (u64 (pc + consumed * 4)) block in
    let rest = lift_words decoder pc (consumed + 1) words block' in
    if terminal decoder word then (block', consumed + 1) else rest

unfoldable pub lift_block_at : InstDecoder → List A64Inst → ℕ → Block → Block × ℕ
lift_block_at decoder words pc block =
    lift_words decoder pc 0 words (record block { guest_pc = pc })

unfoldable pub lift_block : InstDecoder → List A64Inst → Block → Block × ℕ
lift_block decoder words block = lift_block_at decoder words block.guest_pc block
