-- ===== src/Lift/Valid/Operands.antt =====
-- src/lift/mod.rs, `lower_operand`: the ranges of its results.
use armx.Base.{ℕ, ◌^◌, ◌<◌, arith, Bool, true, false, List, Option, some, none}
use armx.Ir.Operand.{RegWidth, w32, x64, GuestReg, ShiftKind}
use armx.Ir.Inst.{IrInst}
use armx.Arch.{SizeCode, A64Operand, Instruction, InstDecoder}
use armx.Lift.{lower_reg, lower_shift, shifted_or_none, lower_operand, sized_reg}
use armx.Jit.Optimizer.Agree.{RegIsValid, OperandIsValid}

-- The ranges of the decoder's types and of register numbers.
abbrev pub DecodedOperandIsValid : A64Operand → Type 0
DecodedOperandIsValid (A64Operand.register size n) = n < 32
DecodedOperandIsValid (A64Operand.register_or_sp size n) = n < 32
DecodedOperandIsValid (A64Operand.reg_shift style amount size n) = n < 32
DecodedOperandIsValid (A64Operand.immediate v) = v < 2 ^ 32
DecodedOperandIsValid (A64Operand.imm64 v) = v < 2 ^ 64
DecodedOperandIsValid (A64Operand.imm16 v) = v < 2 ^ 16
DecodedOperandIsValid _ = Unit

abbrev pub DecodedIsValid : Option Instruction → Type 0
DecodedIsValid (some i) =
    DecodedOperandIsValid i.operand0
    × DecodedOperandIsValid i.operand1
    × DecodedOperandIsValid i.operand2
DecodedIsValid none = Unit

abbrev pub DecoderIsValid : InstDecoder → Type 0
DecoderIsValid decoder = (bytes : List ℕ) → DecodedIsValid (decoder bytes)

abbrev pub OperandsAreValid : IrInst → Type 0
OperandsAreValid inst = OperandIsValid inst.a × OperandIsValid inst.b × OperandIsValid inst.c

pub lower_reg-RegIsValid :
    (size : SizeCode) (n : ℕ) (sp : Bool) → n < 32 → RegIsValid (lower_reg size n sp)
unfolding lower_reg
lower_reg-RegIsValid size n true h g = ground arith
lower_reg-RegIsValid size n false h g = ground arith

pub sized_reg-RegIsValid : (w : RegWidth) (n : ℕ) → n < 32 → RegIsValid (sized_reg w n)
sized_reg-RegIsValid w32 n h g = ground arith
sized_reg-RegIsValid x64 n h g = ground arith

pub shifted_or_none-OperandIsValid :
    (r : GuestReg) (amount : ℕ) (kind : Option ShiftKind)
    → OperandIsValid (shifted_or_none r amount kind)
shifted_or_none-OperandIsValid r amount (some kind) = tt
shifted_or_none-OperandIsValid r amount none = tt

pub lower_operand-OperandIsValid :
    (o : A64Operand) → DecodedOperandIsValid o → OperandIsValid (lower_operand o)
unfolding lower_operand
lower_operand-OperandIsValid (A64Operand.register size n) h = lower_reg-RegIsValid size n false h
lower_operand-OperandIsValid (A64Operand.register_or_sp size n) h =
    lower_reg-RegIsValid size n true h
lower_operand-OperandIsValid (A64Operand.reg_shift style amount size n) h =
    shifted_or_none-OperandIsValid (lower_reg size n false) amount (lower_shift style)
lower_operand-OperandIsValid (A64Operand.immediate v) h = omega arith
lower_operand-OperandIsValid (A64Operand.imm64 v) h = h
lower_operand-OperandIsValid (A64Operand.imm16 v) h = omega arith
lower_operand-OperandIsValid o h = tt
