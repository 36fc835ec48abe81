-- ===== src/Lift/Valid.antt =====
-- src/lift/mod.rs: the ranges of the operands that each lifter makes.
pub mod Operands
use Operands.{
  DecodedOperandIsValid, DecodedIsValid, DecoderIsValid, OperandsAreValid, lower_reg-RegIsValid,
  sized_reg-RegIsValid, shifted_or_none-OperandIsValid, lower_operand-OperandIsValid,
}
use armx.Base.{
  ℕ, ◌/◌, ◌^◌, ◌<◌, arith, bit_and, Bool, true, false, not, ◌&&◌, ◌||◌, List, Option, some, none,
  if◌then◌else◌, Bool-cases, Option-cases, inl, inr, map_some, ◌>>=◌, ◌==◌, ltb,
}
use armx.Base.Bits.{bit_and_mask}
use armx.Ir.Operand.{RegWidth, w32, x64, GuestReg, Operand, reg, shift_reg, pc_relative, ShiftKind}
use armx.Ir.Inst.{Opcode, IrInst, branch}
use armx.Arch.{A64Inst, SizeCode, A64Operand, Instruction, InstDecoder, decode}
use armx.Lift.{
  lower_reg, lower_shift, shifted_or_none, lower_operand, field, sized_reg, memory_width,
  checked_shl32, lower_unsigned_mem, lift_conditional_branch, lift_move_wide, move_value, is_w32,
  word_width, shift_kind_of, as_reg, variable_shift_operands, ir_opcode, first_operand,
  or_unsupported, lift_decoded, or_else, load_inst, store_inst, lifted_at, access, shift_inst,
  decoded_inst,
}
use armx.Jit.Optimizer.Agree.{RegIsValid, OperandIsValid}

-- Where there is an instruction.
abbrev Valid? : Option IrInst → Type 0
Valid? (some inst) = OperandsAreValid inst
Valid? none = Unit

or_else-OperandsAreValid :
    (o : Option IrInst) (other : IrInst)
    → Valid? o
    → OperandsAreValid other
    → OperandsAreValid (or_else o other)
or_else-OperandsAreValid (some inst) other h h' = h
or_else-OperandsAreValid none other h h' = h'

or_unsupported-OperandsAreValid :
    (word : A64Inst) (o : Option IrInst) → Valid? o → OperandsAreValid (or_unsupported word o)
or_unsupported-OperandsAreValid word (some inst) h = h
or_unsupported-OperandsAreValid word none h = (tt, tt, tt)

field-bound : (word low : ℕ) → field word low 5 < 32
field-bound word low = omega (arith, bit_and_mask 5 (word / 2 ^ low))

branch-valid : (word pc : ℕ) → Valid? (lift_conditional_branch word pc)
unfolding lift_conditional_branch
branch-valid word pc = elim (Bool-cases (bit_and word 0xff00_0010 == 0x5400_0000)) [
  | inl c ↦ rw c (tt, omega (arith, bit_and_mask 4 word), tt)
  | inr c ↦
      elim (Bool-cases
        (bit_and word 0x7f00_0000 == 0x3400_0000 || bit_and word 0x7f00_0000 == 0x3500_0000)) [
          | inl d ↦
              rw (c, d)
                (
                  tt,
                  sized_reg-RegIsValid (word_width word) (field word 0 5) (field-bound word 0),
                  nonzero (bit_and word 0x7f00_0000 == 0x3500_0000),
                )
          | inr d ↦ rw (c, d) tt
        ]
]
  where
    nonzero : (b : Bool) → (if b then 1 else 0) < 2 ^ 64
    nonzero b = ground arith

value-bound : (movn : Bool) (w : RegWidth) (imm16 hw : ℕ) → move_value movn w imm16 hw < 2 ^ 64
value-bound movn w32 imm16 hw = ground arith
value-bound movn x64 imm16 hw = ground arith

move-valid : (word : ℕ) → Valid? (lift_move_wide word)
unfolding lift_move_wide
move-valid word =
    elim (Bool-cases (
      not (bit_and word 0x7f80_0000 == 0x5280_0000)
      && not (bit_and word 0x7f80_0000 == 0x1280_0000))) [
        | inl c ↦ rw c tt
        | inr c ↦ elim (Bool-cases (is_w32 (word_width word) && ltb 1 (field word 21 2))) [
          | inl d ↦ rw (c, d) (tt, tt, tt)
          | inr d ↦
              rw (c, d)
                (
                  sized_reg-RegIsValid (word_width word) (field word 0 5) (field-bound word 0),
                  value-bound (bit_and word 0x7f80_0000 == 0x1280_0000) (word_width word)
                      (field word 5 16) (field word 21 2),
                  tt,
                )
        ]
      ]

-- The two operands of an access.
abbrev ValidPair? : Option (Operand × Operand) → Type 0
ValidPair? (some o) = OperandIsValid o.0 × OperandIsValid o.1
ValidPair? none = Unit

access-valid :
    (rn rt : ℕ) (is_load : Bool) (width : RegWidth) (offset : ℕ)
    → rt < 32
    → ValidPair? (some (access rn rt is_load width offset))
access-valid rn rt true width offset h = (sized_reg-RegIsValid width rt h, tt)
access-valid rn rt false width offset h = (tt, sized_reg-RegIsValid width rt h)

mem-valid : (word : ℕ) (is_load : Bool) → ValidPair? (lower_unsigned_mem word is_load)
unfolding lower_unsigned_mem
mem-valid word is_load =
    class
      (if is_load
        then bit_and word 0x3fc0_0000 == 0x3940_0000
        else bit_and word 0x3fc0_0000 == 0x3900_0000)
      (memory_width (field word 30 2)) (checked_shl32 (field word 10 12) (field word 30 2))
  where
    class :
        (c : Bool) (width : Option RegWidth) (offset : Option ℕ)
        → ValidPair? (
            if c
            then (width >>= λ w.
                offset >>= λ o. some (access (field word 5 5) (field word 0 5) is_load w o))
            else none)
    class true (some w) (some o) =
        access-valid (field word 5 5) (field word 0 5) is_load w o (field-bound word 0)
    class true (some w) none = tt
    class true none o = tt
    class false w o = tt

load-valid : (o : Option (Operand × Operand)) → ValidPair? o → Valid? (map_some load_inst o)
load-valid (some o) h = (h.0, h.1, tt)
load-valid none h = tt

store-valid : (o : Option (Operand × Operand)) → ValidPair? o → Valid? (map_some store_inst o)
store-valid (some o) h = (h.0, h.1, tt)
store-valid none h = tt

shift-valid :
    (decoded : Instruction) (kind : ShiftKind)
    → DecodedIsValid (some decoded)
    → Valid? (map_some shift_inst (variable_shift_operands decoded kind))
unfolding variable_shift_operands
shift-valid decoded kind h =
    regs (lower_operand decoded.operand0) (lower_operand decoded.operand1)
      (lower_operand decoded.operand2) (lower_operand-OperandIsValid decoded.operand0 h.0)
      (lower_operand-OperandIsValid decoded.operand1 h.1)
      (lower_operand-OperandIsValid decoded.operand2 h.2)
  where
    regs :
        (a b c : Operand)
        → OperandIsValid a
        → OperandIsValid b
        → OperandIsValid c
        → Valid? (
            map_some shift_inst (
              as_reg a >>= λ d.
              as_reg b >>= λ v. as_reg c >>= λ n. some (reg d, reg v, shift_reg v n kind)))
    regs (reg d) (reg v) (reg n) ha hb hc = (ha, hb, (hb, hc))
    regs (reg d) (reg v) c ha hb hc = tt
    regs (reg d) b c ha hb hc = tt
    regs a b c ha hb hc = tt

first_operand-valid :
    (op : Opcode) (a : Operand) (pc : ℕ) (rest : Operand → Option IrInst)
    → OperandIsValid a
    → ((a' : Operand) → OperandIsValid a' → Valid? (rest a'))
    → Valid? (first_operand op a pc >>= rest)
first_operand-valid branch (pc_relative offset) pc rest ha h = h _ tt
first_operand-valid branch a pc rest ha h = tt
first_operand-valid op a pc rest ha h = h a ha

decoded_inst-valid :
    (decoded : Instruction) (pc : ℕ) (o : Option (Opcode × ℕ))
    → DecodedIsValid (some decoded)
    → Valid? (o >>= decoded_inst decoded pc)
decoded_inst-valid decoded pc none h = tt
decoded_inst-valid decoded pc (some (op, flags)) h =
    first_operand-valid op (lower_operand decoded.operand0) pc _
      (lower_operand-OperandIsValid decoded.operand0 h.0)
      (λ a va. (
        va,
        lower_operand-OperandIsValid decoded.operand1 h.1,
        lower_operand-OperandIsValid decoded.operand2 h.2,
      ))

lift_decoded-valid :
    (word pc : ℕ) (decoded : Instruction)
    → DecodedIsValid (some decoded)
    → OperandsAreValid (lift_decoded word pc decoded)
unfolding lift_decoded
lift_decoded-valid word pc decoded h = elim (Option-cases (shift_kind_of decoded.opcode)) [
  | inl e ↦
      rw (lift_decoded, e)
        (or_unsupported-OperandsAreValid word _
          (decoded_inst-valid decoded pc (ir_opcode word decoded.opcode) h))
  | inr (kind, e) ↦
      rw (lift_decoded, e) (or_unsupported-OperandsAreValid word _ (shift-valid decoded kind h))
]

decode-valid :
    (word pc : ℕ) (decoded : Option Instruction)
    → DecodedIsValid decoded
    → Valid? (map_some (lift_decoded word pc) decoded)
decode-valid word pc (some decoded) h = lift_decoded-valid word pc decoded h
decode-valid word pc none h = tt

pub lifted_at-OperandsAreValid :
    (decoder : InstDecoder) (word pc : ℕ)
    → DecoderIsValid decoder
    → OperandsAreValid (lifted_at decoder word pc)
unfolding lifted_at decode
lifted_at-OperandsAreValid decoder word pc h =
    or_else-OperandsAreValid (lift_conditional_branch word pc) _ (branch-valid word pc) (
      or_else-OperandsAreValid (lift_move_wide word) _ (move-valid word) (
        or_else-OperandsAreValid (map_some load_inst (lower_unsigned_mem word true)) _
          (load-valid (lower_unsigned_mem word true) (mem-valid word true))
          (or_else-OperandsAreValid (map_some store_inst (lower_unsigned_mem word false)) _
            (store-valid (lower_unsigned_mem word false) (mem-valid word false))
            (or_unsupported-OperandsAreValid word _
              (decode-valid word pc (decode decoder word) (h _))))))
