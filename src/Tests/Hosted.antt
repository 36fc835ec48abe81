-- ===== src/Tests/Hosted.antt =====
-- Examples for the code of src/codegen on its host.
use armx.Base.{
  Option, none, false, Bool-cases, inl, inr, if◌then◌else◌, ◌==◌, ℕ, ◌≡◌, refl, arith, true, length,
  List, [], ◌∷◌, some, replicate,
}
use armx.Ir.Operand.{Operand, reg, imm, mem, guest_pc, x, x64}
use armx.Ir.Inst.{sub, store, branch_cond}
use armx.Ir.Block.{Block, at}
use armx.Runtime.State.{new}
use armx.Lift.{plain}
use armx.Meaning.{
  Machine, run_block, run_insts, step_as, step_alu, step_store, step_branch_cond, taken,
  condition_met, operand_value, read_reg, write_reg, alu, flags_after, address_of, store_bytes,
}
use armx.Jit.{prepare_block}
use armx.Jit.Optimizer.{optimize_block}
use armx.Jit.Optimizer.Sound.{InstsAreValid}
use armx.Codegen.{
  emit_block, emit_insts, emit_as, load_state, store_state, load_operand, emit_branch_cond,
  emit_guest_address, emit_set_pc_imm, code_of,
}
use armx.Codegen.Encoding.{
  mov_imm, mov_load, mov_store, binop, binop_imm, emit_mem_store, emit_nzcv_from_x86_flags,
}
use armx.Codegen.Conditions.{build_condition_tables, condition_truth_table, condition_holds}
use armx.Jit.Selection.{select, is_immediate_candidate}
use armx.Codegen.Total.{NoPanic, emit_block-NoPanic}
use armx.Codegen.Correct.Nzcv.{sub_flags}
use armx.Codegen.Correct.Blocks.{BlockFits}
use armx.Codegen.Correct.Run.{emit_block-run_code, prepare_block-run_code}
use armx.Runtime.Dispatch
use armx.Runtime.Dispatch.{Dispatcher, run}
use armx.Runtime.Dispatch.Hosted.{hosted, Translates, last_block, run-GuestRuns}
use armx.Host.Cpu.{Cpu}
use armx.Host.Execution.{run_code}

-- SUBS X0, X0, #1; STR X0, [X1, #8]; B.NE to the first.
abbrev countdown : Block
countdown = record (at 0x1000) {
  insts =
      record (plain sub (reg (x 0)) (reg (x 0)) (imm 1)) { flags = 1 }
      ∷ plain store (mem (record { base = x 1; offset = 8; width = x64 })) (reg (x 0)) Operand.none
      ∷ plain branch_cond (guest_pc 0x1000) (imm 1) Operand.none
      ∷ [];
  guest_byte_len = 12;
}

abbrev start : Cpu
start = record {
  a = 7;
  c = 7;
  d = 7;
  si = 7;
  flags = record { sf = true; zf = true; cf = true; vf = true };
  machine = record {
    regs = record new { gpr = 1 ∷ 0x2000 ∷ replicate 29 0; pc = 0x1000 };
    memory = λ a. 0;
  };
}

abbrev finished : Machine
finished = record {
  regs = record new { gpr = 0 ∷ 0x2000 ∷ replicate 29 0; nzcv = 0x6000_0000; pc = 0x100c };
  memory = store_bytes 8 (λ a. 0) 0x2008 0;
}

countdown-BlockFits : BlockFits countdown
countdown-BlockFits = record {
  insts_fit = (
    ((λ g. omega arith), (λ g. omega arith), omega arith),
    (((λ g. omega arith), (λ g. omega arith), omega arith), ((omega arith, omega arith), tt)),
  );
  sized = refl;
  in_range = omega arith;
}

countdown_runs : run_block countdown start.machine ≡ some finished
unfolding run_block run_insts step_as step_alu step_store step_branch_cond taken condition_met
    operand_value read_reg write_reg alu flags_after address_of
countdown_runs = refl

countdown-InstsAreValid : InstsAreValid countdown.insts
countdown-InstsAreValid = (
  record {
    destination = λ g. omega arith;
    left = λ g. omega arith;
    right = omega arith;
    shifted = λ e. tt;
  },
  (
    record { destination = tt; left = λ g. omega arith; right = tt; shifted = λ e. tt },
    (record { destination = tt; left = omega arith; right = tt; shifted = λ e. tt }, tt),
  ),
)

emit_block-run_code_example :
    (code : List ℕ) × (after : Cpu) × (code_of (emit_block countdown) ≡ some code)
    × (run_code (length code) code start ≡ some after)
    × (after.machine ≡ finished)
emit_block-run_code_example =
    emit_block-run_code countdown finished start countdown-BlockFits countdown_runs

emit_block-NoPanic_example : NoPanic (emit_block countdown)
emit_block-NoPanic_example =
    emit_block-NoPanic countdown ((λ e. sub_flags), ((λ e. cc e), ((λ e. cc e), tt)))

countdown_prepared : prepare_block countdown ≡ some countdown
unfolding prepare_block optimize_block
countdown_prepared = refl

prepare_block-run_code_example :
    (code : List ℕ) × (after : Cpu) × (code_of (emit_block countdown) ≡ some code)
    × (run_code (length code) code start ≡ some after)
    × (after.machine ≡ finished)
prepare_block-run_code_example =
    prepare_block-run_code countdown countdown finished start countdown-InstsAreValid refl
      countdown_prepared countdown-BlockFits countdown_runs

abbrev pub bytes_or_nothing : Option (List ℕ) → List ℕ
bytes_or_nothing (some bytes) = bytes
bytes_or_nothing none = []

abbrev countdown_code : List ℕ
unfolding emit_block emit_insts emit_as
countdown_code = bytes_or_nothing (code_of (emit_block countdown))

countdown_emits : code_of (emit_block countdown) ≡ some countdown_code
unfolding countdown_code emit_block emit_insts emit_as load_state store_state load_operand select
    emit_branch_cond emit_guest_address emit_set_pc_imm mov_imm mov_load mov_store binop binop_imm
    emit_mem_store emit_nzcv_from_x86_flags build_condition_tables condition_truth_table
    condition_holds is_immediate_candidate
countdown_emits = refl

abbrev pub at_call : Machine → Cpu
at_call m = record {
  a = 0;
  c = 0;
  d = 0;
  si = 0;
  flags = record { sf = false; zf = false; cf = false; vf = false };
  machine = m;
}

abbrev one_block : Dispatcher (List ℕ)
one_block = record {
  blocks = (0x1000, record { code = countdown_code; hit_count = 0 }) ∷ [];
  blocks_executed = 0;
}

abbrev guest : ℕ → Option Block
guest pc = if 0x1000 == pc then some countdown else none

one_block-Translates : Translates one_block guest
one_block-Translates pc = elim (Bool-cases (0x1000 == pc)) [
  | inl h ↦ rw h (record { fits = countdown-BlockFits; emits = countdown_emits })
  | inr h ↦ rw h tt
]

run-GuestRuns_example :
    (d' : Dispatcher (List ℕ)) × (run (hosted at_call) 5 one_block start.machine
      ≡ (d', finished, Dispatch.ok 0x100c))
run-GuestRuns_example =
    run-GuestRuns at_call (λ m. refl) 5 1 start.machine finished one_block guest
      one_block-Translates (last_block countdown refl countdown_runs refl) (omega arith)
