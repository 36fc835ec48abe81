-- ===== src/Tests/Optimization.antt =====
-- Examples for src/jit and src/codegen.
use armx.Base.{
  true, ◌++◌, ◌^◌, ◌-◌, ◌≡◌, ◌≢◌, refl, arith, [], ◌∷◌, some, get_elem?, replicate, map_some, ◌/◌,
}
use armx.Ir.Operand.{Operand, reg, imm, mem, guest_pc, x, xsp, w32, x64, lsr, ror}
use armx.Ir.Inst.{mov, add, store, branch_cond}
use armx.Ir.Block.{Block, at, byte_len}
use armx.Runtime.State.{new}
use armx.Meaning.{
  step_as, step_mov, step_alu, operand_value, read_reg, write_reg, alu, flags_after, Machine,
  run_block, shift_value, flag, condition_met, trunc,
}
use armx.Lift.{plain}
use armx.Jit.{prepare_block, is_hot}
use armx.Jit.Optimizer.{Optimizer, default, optimize_block}
use armx.Jit.Optimizer.Fold.{fold_binop, fold_shift}
use armx.Jit.Optimizer.Sound.{InstsAreValid, run_block-optimize_block}
use armx.Jit.Optimizer.Total.{SameShape, optimize_block-total}
use armx.Jit.Optimizer.Rotation.{fold_shift-ror32}
use armx.Jit.Selection.{select, sign_extend_32}
use armx.Jit.Selection.Immediate.{select-immediate_value}
use armx.Jit.Hot.{after_hits, is_hot-after_hits}
use armx.Codegen.{emit_block, emit_set_pc_imm, failed, unsupported_operand}
use armx.Codegen.Encoding.{mov_imm, mov_store}
use armx.Codegen.Conditions.{build_condition_tables}
use armx.Codegen.Conditions.Holds.{build_condition_tables-condition_met}
use armx.Codegen.Ends.Pieces.{Ends}
use armx.Codegen.Closing.Pieces.{ClosesWith}
use armx.Codegen.Closing.{exit_to, emit_block-ClosesWith}
use armx.Codegen.Rejects.{emit_block-known_store}

abbrev sum : Block
sum = record (at 0x1000) {
  insts =
      plain mov (reg (x 0)) (imm 40) Operand.none ∷ plain add (reg (x 1)) (reg (x 0)) (imm 2) ∷ [];
  guest_byte_len = 8;
}

abbrev start : Machine
start = record { regs = new; memory = λ a. 0 }

abbrev optimized : Block × Optimizer
optimized = (
  record sum {
    insts =
        plain mov (reg (x 0)) (imm 40) Operand.none
        ∷ plain mov (reg (x 1)) (imm 42) Operand.none
        ∷ [];
  },
  record { folded = 1; propagated = 1; simplified = 0 },
)

abbrev finished : Machine
finished = record start { regs = record new { gpr = 40 ∷ 42 ∷ replicate 29 0; pc = 0x1008 } }

sum-InstsAreValid : InstsAreValid sum.insts
sum-InstsAreValid = (
  record { destination = λ g. omega arith; left = omega arith; right = tt; shifted = λ e. tt },
  (
    record {
      destination = λ g. omega arith;
      left = λ g. omega arith;
      right = omega arith;
      shifted = λ e. tt;
    },
    tt,
  ),
)

sum-optimized : optimize_block default sum ≡ some optimized
unfolding optimize_block fold_binop
sum-optimized = refl

sum_run : run_block sum start ≡ some finished
unfolding run_block step_as step_mov step_alu operand_value read_reg write_reg alu flags_after
sum_run = refl

run_block-optimize_block_example : run_block optimized.0 start ≡ some finished
run_block-optimize_block_example =
    run_block-optimize_block default sum start {block' = optimized.0} {o' = optimized.1}
      sum-InstsAreValid refl sum-optimized sum_run

optimize_block-total_example :
    (block' : Block) × (o' : Optimizer) × (optimize_block default sum ≡ some (block', o'))
    × SameShape block'.insts sum.insts
    × (block'.guest_pc ≡ 0x1000)
    × (block'.hit_count ≡ 0)
    × (byte_len block' ≡ 8)
optimize_block-total_example =
    optimize_block-total default sum
      ((λ g. omega arith, tt, tt), ((λ g. omega arith, λ g. omega arith, tt), tt))

fold_shift-ror32_example :
    (fold_shift 1 1 ror w32 ≡ shift_value lsr 32 1 1)
    × (fold_shift 1 1 ror w32 ≢ shift_value ror 32 1 1)
fold_shift-ror32_example = fold_shift-ror32 1 1 (λ e. omega arith)

select-immediate_value_example : trunc x64 (sign_extend_32 (2 ^ 64 - 1)) ≡ trunc x64 (2 ^ 64 - 1)
unfolding select
select-immediate_value_example = select-immediate_value add 0 (x 3) (reg (x 4)) (2 ^ 64 - 1) refl

-- Signed "greater than" with N set and V clear.
build_condition_tables-condition_met_example :
    map_some (λ table. flag table (0x8000_0000 / 2 ^ 28)) (get_elem? build_condition_tables 12)
    ≡ some (condition_met 12 0x8000_0000)
build_condition_tables-condition_met_example =
    build_condition_tables-condition_met 12 0x8000_0000 (omega arith) (omega arith)

-- CBZ X0, 16 bytes ahead.
abbrev compared : Block
compared = record (at 0x1000) {
  insts = plain branch_cond (guest_pc 0x1010) (reg (x 0)) (imm 0) ∷ [];
  guest_byte_len = 4;
}

emit_block-ClosesWith_example :
    Ends (emit_block compared)
    × ClosesWith (0x75 ∷ 18 ∷ exit_to 0x1010 ++ exit_to 0x1004) (emit_block compared)
unfolding emit_set_pc_imm mov_imm mov_store
emit_block-ClosesWith_example = emit_block-ClosesWith compared

emit_block-known_store_example :
    map_some emit_block (
      prepare_block (record (at 0x1000) {
        insts =
            plain mov (reg (x 5)) (imm 7) Operand.none
            ∷ plain store
                (mem (record { base = xsp; offset = 8; width = x64 }))
                (reg (x 5))
                Operand.none
            ∷ [];
      }))
    ≡ some (failed unsupported_operand)
emit_block-known_store_example =
    emit_block-known_store 5 7 0x1000 (record { base = xsp; offset = 8; width = x64 }) (omega arith)

-- A counter one below its greatest value, with three more hits.
is_hot-after_hits_example : is_hot (after_hits 3 (record { hits = 0xffff_fffe })) 0xffff_ffff ≡ true
unfolding is_hot
is_hot-after_hits_example =
    is_hot-after_hits 3 0xffff_ffff (record { hits = 0xffff_fffe }) (omega arith) (omega arith)
