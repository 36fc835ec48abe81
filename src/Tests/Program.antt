-- ===== src/Tests/Program.antt =====
-- Examples for src/main.rs.
use armx.Base.{ℕ, ◌-◌, ◌≡◌, refl, arith, length, List, [], ◌∷◌, Option, some, ◌==◌, if◌then◌else◌}
use armx.Base.Bytes.{read}
use armx.Ir.Block.{push}
use armx.Arch.{decode}
use armx.Runtime.State.{new}
use armx.Runtime.Memory.{GuestMemory, host_base, in_bounds, read_u32}
use armx.Runtime.Dispatch
use armx.Runtime.Dispatch.{Dispatcher, has_block, hit_count, compile_block, run}
use armx.Lift.{
  lift_one_at, lifted_at, lift_conditional_branch, lift_move_wide, lower_unsigned_mem, lift_decoded,
  lower_operand, lower_reg,
}
use armx.Lift.Blocks.{lift_block_at, lift_words, terminal}
use armx.Jit.{prepare_block}
use armx.Jit.Optimizer.{optimize_block}
use armx.Codegen.{emit_block, emit_insts, emit_as, load_state}
use armx.Codegen.Encoding.{mov_load, mov_store}
use armx.Main.{ok, fetch_words, turn, main_loop, max_blocks}
use armx.Main.Once.{once, main_loop-executed_once}
use armx.Main.Fetch.{words_at, fetch_words-words_at}
use armx.Meaning.{Machine}
use armx.Tests.Translation.{decoder}

-- A return at 0x1000, at the end of the memory.
abbrev program : ℕ → ℕ
program a =
    if a == 0x1000
    then 0xc0
    else if a == 0x1001
    then 0x03
    else if a == 0x1002
    then 0x5f
    else if a == 0x1003
    then 0xd6
    else 0

abbrev memory : GuestMemory
memory = record { base = host_base; size = 0x1004 }

abbrev start : Machine
start = record { regs = record new { pc = 0x1000 }; memory = program }

abbrev mapped_length : List ℕ → Option ℕ
mapped_length bytes = some (length bytes)

-- Every block leaves for address 0.
abbrev to_zero : ℕ → Machine → Machine
to_zero code m = record m { regs = record m.regs { pc = 0 } }

abbrev final : Dispatcher ℕ
final = record { blocks = (0x1000, record { code = 15; hit_count = 1 }) ∷ []; blocks_executed = 1 }

abbrev finished : Machine
finished = record { regs = new; memory = program }

program_ends :
    main_loop decoder mapped_length to_zero max_blocks memory Dispatch.new start
    ≡ ok (final, finished)
unfolding main_loop turn fetch_words in_bounds read_u32 read has_block compile_block run
    lift_block_at lift_words lift_one_at push lifted_at lift_conditional_branch lift_move_wide
    lower_unsigned_mem lift_decoded decode terminal lower_operand lower_reg prepare_block
    optimize_block emit_block emit_insts emit_as load_state mov_load mov_store
program_ends = refl

main_loop-executed_once_example :
    (hit_count final 0x1000 ≡ once (has_block final 0x1000)) × (finished.regs.pc ≡ 0)
main_loop-executed_once_example =
    main_loop-executed_once decoder mapped_length to_zero max_blocks memory start final finished
      0x1000 program_ends

fetch_words-words_at_example :
    fetch_words 32 0 0x1000 memory (λ a. program (a - host_base))
    ≡ ok (words_at 32 memory (λ a. program (a - host_base)) 0x1000)
fetch_words-words_at_example =
    fetch_words-words_at 32 0x1000 memory (λ a. program (a - host_base)) (omega arith)
