-- ===== src/Ir/Block.antt =====
-- src/ir/block.rs: a basic block, with the byte span of the guest code that it stands for.
use armx.Base.{ℕ, List, [], ◌∷◌, ◌++◌, saturating_add64}
use armx.Ir.Inst.{IrInst}

pub record Block : Type 0 where
  pub guest_pc : ℕ
  pub insts : List IrInst
  pub hit_count : ℕ
  pub guest_byte_len : ℕ

-- `Block::at`; `Block::new` and `Block::default` are `at 0`.
abbrev pub at : ℕ → Block
at pc = record { guest_pc = pc; insts = []; hit_count = 0; guest_byte_len = 0 }

unfoldable pub push : Block → IrInst → Block
push block inst = record block {
  insts = block.insts ++ inst ∷ [];
  guest_byte_len = saturating_add64 block.guest_byte_len 4;
}

abbrev pub byte_len : Block → ℕ
byte_len block = block.guest_byte_len
