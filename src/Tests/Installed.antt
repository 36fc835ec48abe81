-- ===== src/Tests/Installed.antt =====
-- Examples for `compile_block` of src/runtime/dispatch.rs on its host.
use armx.Base.{ℕ, ◌≡◌, refl, arith, List, [], ◌∷◌, some, replicate}
use armx.Ir.Operand.{Operand, reg, x}
use armx.Ir.Inst.{nop, add, ret}
use armx.Ir.Block.{Block, at, push}
use armx.Arch.{decode}
use armx.Runtime.State.{new}
use armx.Lift.{
  plain, lift_one_at, lifted_at, lift_conditional_branch, lift_move_wide, lower_unsigned_mem,
  lift_decoded, lower_operand, lower_reg,
}
use armx.Lift.Blocks.{lift_block_at, lift_words, terminal}
use armx.Meaning.{
  Machine, run_block, run_insts, step_as, step_alu, step_ret, operand_value, read_reg, write_reg,
  alu, flags_after,
}
use armx.Jit.{prepare_block}
use armx.Jit.Optimizer.{optimize_block}
use armx.Jit.Optimizer.Sound.{InstsAreValid}
use armx.Codegen.{emit_block, emit_insts, emit_as, load_state, store_state, code_of}
use armx.Codegen.Encoding.{binop, mov_load, mov_store}
use armx.Codegen.Correct.Blocks.{BlockFits}
use armx.Runtime.Dispatch
use armx.Runtime.Dispatch.{CompiledBlock, Dispatcher, Result, get, compile_block}
use armx.Runtime.Dispatch.Hosted.{hosted}
use armx.Runtime.Dispatch.Installed.{compile_block-hosted}
use armx.Runtime.Dispatch.Total.{compile_block-total}
use armx.Tests.Translation.{decoder, decoder-DecoderIsValid, words}
use armx.Tests.Hosted.{at_call, bytes_or_nothing}

abbrev prepared : Block
prepared = record (at 0x1000) {
  insts =
      plain nop Operand.none Operand.none Operand.none
      ∷ plain add (reg (x 0)) (reg (x 1)) (reg (x 2))
      ∷ plain ret (reg (x 30)) Operand.none Operand.none
      ∷ [];
  guest_byte_len = 12;
}

prepared-BlockFits : BlockFits prepared
prepared-BlockFits = record {
  insts_fit = (tt, (((λ g. omega arith), (λ g. omega arith), (λ g. omega arith)), (refl, tt)));
  sized = refl;
  in_range = omega arith;
}

lifted-InstsAreValid : InstsAreValid (lift_block_at decoder words 0x1000 (at 0x1000)).0.insts
unfolding lift_block_at lift_words lift_one_at push lifted_at lift_conditional_branch lift_move_wide
    lower_unsigned_mem lift_decoded decode terminal lower_operand lower_reg
lifted-InstsAreValid = (
  record { destination = tt; left = tt; right = tt; shifted = λ e. tt },
  (
    record {
      destination = λ g. omega arith;
      left = λ g. omega arith;
      right = λ g. omega arith;
      shifted = λ e. tt;
    },
    (record { destination = λ g. omega arith; left = tt; right = tt; shifted = λ e. tt }, tt),
  ),
)

prepared_lifted : prepare_block (lift_block_at decoder words 0x1000 (at 0x1000)).0 ≡ some prepared
unfolding lift_block_at lift_words lift_one_at push lifted_at lift_conditional_branch lift_move_wide
    lower_unsigned_mem lift_decoded decode terminal lower_operand lower_reg prepare_block
    optimize_block
prepared_lifted = refl

abbrev table : Dispatcher (List ℕ)
unfolding emit_block emit_insts emit_as load_state store_state binop mov_load mov_store
table = record {
  blocks =
      (0x1000, record { code = bytes_or_nothing (code_of (emit_block prepared)); hit_count = 0 })
      ∷ [];
  blocks_executed = 0;
}

installed_table : compile_block decoder some Dispatch.new 0x1000 words ≡ some (table, Dispatch.ok 3)
unfolding table compile_block lift_block_at lift_words lift_one_at push lifted_at
    lift_conditional_branch lift_move_wide lower_unsigned_mem lift_decoded decode terminal
    lower_operand lower_reg prepare_block optimize_block emit_block emit_insts emit_as load_state
    store_state binop mov_load mov_store
installed_table = refl

abbrev start : Machine
start = record {
  regs = record new { gpr = 0 ∷ 2 ∷ 3 ∷ replicate 28 0; pc = 0x1000 };
  memory = λ a. 0;
}

abbrev finished : Machine
finished = record {
  regs = record new { gpr = 5 ∷ 2 ∷ 3 ∷ replicate 28 0; pc = 0 };
  memory = λ a. 0;
}

lifted_runs : run_block (lift_block_at decoder words 0x1000 (at 0x1000)).0 start ≡ some finished
unfolding lift_block_at lift_words lift_one_at push lifted_at lift_conditional_branch lift_move_wide
    lower_unsigned_mem lift_decoded decode terminal lower_operand lower_reg run_block run_insts
    step_as step_alu step_ret operand_value read_reg write_reg alu flags_after
lifted_runs = refl

compile_block-hosted_example :
    (compiled : CompiledBlock (List ℕ)) × (get table.blocks 0x1000 ≡ some compiled)
    × (hosted at_call compiled.code start ≡ finished)
compile_block-hosted_example =
    compile_block-hosted at_call decoder Dispatch.new table 0x1000 3 words prepared start finished
      (λ t. refl) installed_table lifted-InstsAreValid refl prepared_lifted prepared-BlockFits
      lifted_runs

compile_block-total_example :
    (r : Dispatcher (List ℕ) × Result ℕ) × (compile_block decoder some Dispatch.new 0x1000 words
      ≡ some r)
compile_block-total_example =
    compile_block-total decoder some Dispatch.new 0x1000 words decoder-DecoderIsValid
