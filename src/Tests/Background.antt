-- ===== src/Tests/Background.antt =====
-- Examples for src/jit/compiler.rs.
use armx.Base.{ℕ, ◌≡◌, ◌≢◌, refl, length, List, [], ◌∷◌, ◌++◌, Option, some}
use armx.Ir.Operand.{Operand}
use armx.Ir.Inst.{nop, unsupported}
use armx.Ir.Block.{at, push}
use armx.Arch.{decode}
use armx.Lift.{
  plain, lift_one_at, lifted_at, lift_conditional_branch, lift_move_wide, lower_unsigned_mem,
  lift_decoded, lower_operand, lower_reg,
}
use armx.Lift.Blocks.{lift_block_at, lift_words, terminal}
use armx.Jit.{prepare_block}
use armx.Jit.Optimizer.{optimize_block}
use armx.Jit.Compiler.{
  CompileRequest, CompiledBlock, running, ended, BackgroundCompiler, spawn, close, enqueue,
  compile_request, work,
}
use armx.Jit.Compiler.Traces.{Runs, spawned, enqueued, worked, received, closed, compile_all}
use armx.Jit.Compiler.Ordered.{Runs-running, Runs-ended}
use armx.Jit.Compiler.Drained.{work_for, work_for-drained}
use armx.Codegen.{emit_block, emit_insts, emit_as, emit_set_pc_imm, load_state, store_state}
use armx.Codegen.Encoding.{binop, mov_imm, mov_load, mov_store}
use armx.Runtime.Dispatch
use armx.Runtime.Dispatch.{Dispatcher, get, compile_block}
use armx.Runtime.Dispatch.Background.{compile_request-compile_block}
use armx.Tests.Translation.{decoder, words}

abbrev mapped_length : List ℕ → Option ℕ
mapped_length bytes = some (length bytes)

-- A block that compiles, and one that does not.
abbrev good : CompileRequest
good = record {
  pc = 0x1000;
  block = record (at 0x1000) {
    insts = plain nop Operand.none Operand.none Operand.none ∷ [];
    guest_byte_len = 4;
  };
}

abbrev bad : CompileRequest
bad = record {
  pc = 0x2000;
  block = record (at 0x2000) {
    insts = plain unsupported Operand.none Operand.none Operand.none ∷ [];
    guest_byte_len = 4;
  };
}

abbrev good_result : CompiledBlock ℕ
good_result = record { pc = 0x1000; code = 19 }

-- Both are enqueued; the worker takes the first; the result is received.
abbrev halfway : BackgroundCompiler ℕ
halfway = record spawn { requests = bad ∷ [] }

halfway-Runs : Runs mapped_length (good ∷ bad ∷ []) (good_result ∷ []) halfway
unfolding enqueue work compile_request prepare_block optimize_block emit_block emit_insts emit_as
    emit_set_pc_imm mov_imm mov_store
halfway-Runs =
    received good_result []
      (worked {s' = record halfway { results = good_result ∷ [] }}
        (enqueued bad (enqueued good spawned refl) refl) refl)
      refl

Runs-running_example :
    (done : List CompileRequest) × (good ∷ bad ∷ [] ≡ done ++ bad ∷ [])
    × (compile_all mapped_length done ≡ some (good_result ∷ [] ++ []))
Runs-running_example = Runs-running mapped_length halfway-Runs refl refl

-- The sender goes; the worker takes the second, which fails, and ends.
abbrev over : BackgroundCompiler ℕ
over = record (close spawn) { worker = ended }

over-Runs : Runs mapped_length (good ∷ bad ∷ []) (good_result ∷ []) over
unfolding work compile_request prepare_block optimize_block emit_block emit_insts emit_as
over-Runs = worked (worked {s' = close spawn} (closed halfway-Runs) refl) refl

Runs-ended_example : compile_all mapped_length (good ∷ bad ∷ []) ≡ some (good_result ∷ [] ++ [])
Runs-ended_example = Runs-ended mapped_length over-Runs refl refl

work_for-drained_example : (work_for mapped_length 2 (close halfway)).worker ≢ running
work_for-drained_example = work_for-drained mapped_length (close halfway) refl

abbrev one_block : Dispatcher ℕ
one_block = record {
  blocks = (0x1000, record { code = 40; hit_count = 0 }) ∷ [];
  blocks_executed = 0;
}

three_compiled :
    compile_block decoder mapped_length Dispatch.new 0x1000 words ≡ some (one_block, Dispatch.ok 3)
unfolding compile_block lift_block_at lift_words lift_one_at push lifted_at lift_conditional_branch
    lift_move_wide lower_unsigned_mem lift_decoded decode terminal lower_operand lower_reg
    prepare_block optimize_block emit_block emit_insts emit_as load_state store_state binop mov_load
    mov_store
three_compiled = refl

compile_request-compile_block_example :
    (code : ℕ) × (compile_request mapped_length
        (record { pc = 0x1000; block = (lift_block_at decoder words 0x1000 (at 0x1000)).0 })
      ≡ some (some (record { pc = 0x1000; code = code })))
    × (get one_block.blocks 0x1000 ≡ some (record { code = code; hit_count = 0 }))
compile_request-compile_block_example =
    compile_request-compile_block decoder mapped_length Dispatch.new one_block 0x1000 3 words
      three_compiled
