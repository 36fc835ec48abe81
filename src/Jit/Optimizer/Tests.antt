-- ===== src/Jit/Optimizer/Tests.antt =====
-- The blocks of the tests in src/jit/optimizer.rs, and what the pass makes of them.
use armx.Base.{List, [], ◌∷◌, Option, some, ◌≡◌, refl, u64_max, map_some}
use armx.Ir.Operand.{Operand, reg, imm, shift_reg, lsl, x, w}
use armx.Ir.Inst.{IrInst, Opcode, nop, mov, add, sub, eor, shift, flag_writes_nzcv}
use armx.Ir.Block.{at}
use armx.Jit.Optimizer.{default, optimize_block}
use armx.Jit.Optimizer.Fold.{fold_binop, fold_shift}

abbrev inst : Opcode → Operand → Operand → Operand → IrInst
inst o a b c = record { opcode = o; flags = 0; a = a; b = b; c = c }

abbrev optimized : List IrInst → Option (List IrInst)
optimized insts =
    map_some (λ r. r.0.insts) (optimize_block default (record (at 0x1000) { insts = insts }))

folds_constant_arithmetic :
    optimized
      (inst mov (reg (x 0)) (imm 40) Operand.none ∷ inst add (reg (x 1)) (reg (x 0)) (imm 2) ∷ [])
    ≡ some (
        inst mov (reg (x 0)) (imm 40) Operand.none
        ∷ inst mov (reg (x 1)) (imm 42) Operand.none
        ∷ [])
unfolding optimize_block fold_binop
folds_constant_arithmetic = refl

-- The block of `preserves_w32_zero_extension`, which expects 0 for the second constant: the pass gives
-- the sum on 64 bits.
w32_constant_plus_one :
    optimized (
      inst mov (reg (w 0)) (imm u64_max) Operand.none
      ∷ inst add (reg (x 1)) (reg (w 0)) (imm 1)
      ∷ [])
    ≡ some (
        inst mov (reg (w 0)) (imm u64_max) Operand.none
        ∷ inst mov (reg (x 1)) (imm 0x1_0000_0000) Operand.none
        ∷ [])
unfolding optimize_block fold_binop
w32_constant_plus_one = refl

preserves_flag_writers :
    optimized (record (inst add (reg (x 0)) (imm 1) (imm 2)) { flags = flag_writes_nzcv } ∷ [])
    ≡ some (record (inst add (reg (x 0)) (imm 1) (imm 2)) { flags = flag_writes_nzcv } ∷ [])
unfolding optimize_block fold_binop
preserves_flag_writers = refl

simplifies_identity_without_deleting_guest_slots :
    optimized (
      inst nop Operand.none Operand.none Operand.none
      ∷ inst add (reg (x 0)) (reg (x 1)) (imm 0)
      ∷ [])
    ≡ some (
        inst nop Operand.none Operand.none Operand.none
        ∷ inst mov (reg (x 0)) (reg (x 1)) Operand.none
        ∷ [])
unfolding optimize_block
simplifies_identity_without_deleting_guest_slots = refl

folds_variable_shift_when_amount_is_constant :
    optimized (
      inst mov (reg (x 0)) (imm 1) Operand.none
      ∷ inst mov (reg (x 1)) (imm 4) Operand.none
      ∷ inst shift (reg (x 2)) (reg (x 0)) (shift_reg (x 0) (x 1) lsl)
      ∷ [])
    ≡ some (
        inst mov (reg (x 0)) (imm 1) Operand.none
        ∷ inst mov (reg (x 1)) (imm 4) Operand.none
        ∷ inst mov (reg (x 2)) (imm 16) Operand.none
        ∷ [])
unfolding optimize_block fold_shift
folds_variable_shift_when_amount_is_constant = refl

simplifies_xor_self_to_zero :
    optimized (inst eor (reg (x 2)) (reg (x 2)) (reg (x 2)) ∷ [])
    ≡ some (inst mov (reg (x 2)) (imm 0) Operand.none ∷ [])
unfolding optimize_block
simplifies_xor_self_to_zero = refl

simplifies_sub_self_to_zero :
    optimized (inst sub (reg (x 2)) (reg (x 2)) (reg (x 2)) ∷ [])
    ≡ some (inst mov (reg (x 2)) (imm 0) Operand.none ∷ [])
unfolding optimize_block
simplifies_sub_self_to_zero = refl
