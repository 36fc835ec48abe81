-- ===== src/Codegen/Correct/Fits.antt =====
-- src/codegen/x86_64.rs, `emit_block`: the instructions that it is meant for.
use armx.Base.{◌^◌, ◌<◌, ◌≡◌}
use armx.Ir.Operand.{x, Operand, reg, imm, mem, guest_pc}
use armx.Ir.Inst.{
  Opcode, nop, mov, add, sub, and, orr, eor, shift, load, store, branch, branch_cond, ret, IrInst,
}
use armx.Codegen.Correct.Sources.{SourceIsValid, SourceFits}
use armx.Codegen.Correct.Shifts.{AmountIsValid}
use armx.Jit.Optimizer.Agree.{RegIsValid}

-- What the code generator wants of the operands, beyond that the instruction has a meaning.
abbrev pub MovFits : Operand → Operand → Type 0
MovFits (reg d) b = RegIsValid d × SourceIsValid b × SourceFits b d.width
MovFits _ b = Unit

abbrev pub ArithmeticFits : Operand → Operand → Operand → Type 0
ArithmeticFits (reg d) b c = RegIsValid d × SourceIsValid b × SourceIsValid c
ArithmeticFits _ b c = Unit

abbrev pub ShiftFits : Operand → Operand → Operand → Type 0
ShiftFits (reg d) b c = RegIsValid d × SourceIsValid b × AmountIsValid c
ShiftFits _ b c = Unit

abbrev pub LoadFits : Operand → Operand → Type 0
LoadFits (reg d) (mem m) = RegIsValid d × RegIsValid m.base × m.offset < 2 ^ 32
LoadFits _ _ = Unit

-- A store of a constant is rejected.
abbrev pub StoreFits : Operand → Operand → Type 0
StoreFits (mem m) (reg g) = RegIsValid g × RegIsValid m.base × m.offset < 2 ^ 32
StoreFits (mem m) _ = ⊥
StoreFits _ _ = Unit

abbrev pub TargetFits : Operand → Type 0
TargetFits (guest_pc pc) = pc < 2 ^ 64
TargetFits _ = Unit

-- The table of condition 15 is empty, and a constant is not compared.
abbrev pub ConditionFits : Operand → Operand → Type 0
ConditionFits (imm cond) Operand.none = cond < 15
ConditionFits (reg g) (imm kind) = RegIsValid g
ConditionFits _ _ = ⊥

-- RET goes through X30, whatever register it names.
abbrev pub Fits : Opcode → IrInst → Type 0
Fits nop inst = Unit
Fits mov inst = MovFits inst.a inst.b
Fits add inst = ArithmeticFits inst.a inst.b inst.c
Fits sub inst = ArithmeticFits inst.a inst.b inst.c
Fits and inst = ArithmeticFits inst.a inst.b inst.c
Fits orr inst = ArithmeticFits inst.a inst.b inst.c
Fits eor inst = ArithmeticFits inst.a inst.b inst.c
Fits shift inst = ShiftFits inst.a inst.b inst.c
Fits load inst = LoadFits inst.a inst.b
Fits store inst = StoreFits inst.a inst.b
Fits branch inst = TargetFits inst.a
Fits branch_cond inst = TargetFits inst.a × ConditionFits inst.b inst.c
Fits ret inst = inst.a ≡ reg (x 30)
Fits op inst = Unit
