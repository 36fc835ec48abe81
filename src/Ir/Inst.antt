-- ===== src/Ir/Inst.antt =====
-- src/ir/inst.rs: opcodes and instructions.
use Prim.Native.Nat.{ℕ, bit_and}
use mathlib.Core.Bool.{Bool, not}
use armx.Base.{◌==◌}
use armx.Ir.Operand.{Operand}

pub data Opcode : Type 0 where
  nop unsupported mov add sub and orr eor shift extend load store compare branch branch_cond call
        ret :
      Opcode

-- `1 << 0`: the instruction writes NZCV.
abbrev pub flag_writes_nzcv : ℕ
flag_writes_nzcv = 1

pub record IrInst : Type 0 where
  pub opcode : Opcode
  pub flags : ℕ
  pub a : Operand
  pub b : Operand
  pub c : Operand

-- `flags & FLAG_WRITES_NZCV != 0`.
abbrev pub writes_nzcv : IrInst → Bool
writes_nzcv inst = not (bit_and inst.flags flag_writes_nzcv == 0)
