-- ===== src/Tests/Execution.antt =====
-- Examples for src/runtime.
use armx.Base.{
  ℕ, ◌+◌, ◌^◌, ◌%◌, ◌≤◌, ◌<◌, ◌≡◌, ◌↔◌, ◌⊎◌, refl, arith, false, List, [], ◌∷◌, Option, some, none,
  length,
}
use armx.Base.Bytes.{Bytes, read}
use armx.Arch.{decode}
use armx.Ir.Block.{push}
use armx.Lift.{
  lift_one_at, lifted_at, lift_conditional_branch, lift_move_wide, lower_unsigned_mem, lift_decoded,
  lower_operand, lower_reg,
}
use armx.Lift.Blocks.{terminal, lift_words, lift_block_at}
use armx.Jit.{prepare_block}
use armx.Jit.Optimizer.{optimize_block}
use armx.Codegen.{emit_block, emit_insts, emit_as, load_state, store_state}
use armx.Codegen.Encoding.{binop, mov_load, mov_store}
use armx.Meaning.{Machine}
use armx.Runtime.State.{new}
use armx.Runtime.Memory.{
  GuestMemory, host_base, ok, err, address_overflow, outside_mapped_memory, host_address,
  write_bytes, write_u64, read_u32, read_u64,
}
use armx.Runtime.Memory.Access.{
  write_bytes_lem, read_u64-write_u64, read_u32-none_iff, map-drop, MapsOrReleases,
}
use armx.Runtime.Dispatch
use armx.Runtime.Dispatch.{CompiledBlock, Dispatcher, Result, has_block, compile_block, run}
use armx.Runtime.Dispatch.Table.{Compiled, compile_block-Compiled}
use armx.Runtime.Dispatch.Runs.{Runs, last, next, run-Runs, Runs-counters}
use armx.Tests.Translation.{decoder, words}

abbrev memory : GuestMemory
memory = record { base = host_base; size = 0x1000 }

abbrev zeros : Bytes
zeros = λ a. 0

read_u64-write_u64_example :
    (memory' : Bytes) × (write_u64 memory 0xff8 77 zeros ≡ some memory')
    × (read_u64 memory 0xff8 memory' ≡ some 77)
read_u64-write_u64_example =
    read_u64-write_u64 memory 0xff8 77 zeros (omega arith) (omega arith) (omega arith)

read_u32-none_iff_example : (read_u32 memory 0xffd zeros ≡ none) ↔ (0x1000 < 0xffd + 4)
read_u32-none_iff_example = read_u32-none_iff memory 0xffd zeros (omega arith)

-- A kernel that does not honor the address.
abbrev elsewhere : ℕ → ℕ → Option ℕ
elsewhere address size = some 0x7000

map-drop_example : MapsOrReleases elsewhere 0x1000
map-drop_example = map-drop elsewhere 0x1000 (omega arith)

-- Three bytes, the last of them outside.
write_bytes_lem_example :
    ((2 ^ 64 ≤ 0x1001) × (write_bytes memory 0xffe (1 ∷ 2 ∷ 3 ∷ []) zeros ≡ err address_overflow))
    ⊎ ((0x1001 < 2 ^ 64)
        × (0x1000 < 0x1001)
        × (write_bytes memory 0xffe (1 ∷ 2 ∷ 3 ∷ []) zeros ≡ err outside_mapped_memory))
    ⊎ ((0x1001 < 2 ^ 64)
        × (0x1001 ≤ 0x1000)
        × ((memory' : Bytes) × (write_bytes memory 0xffe (1 ∷ 2 ∷ 3 ∷ []) zeros ≡ ok memory')
            × (read 3 (host_address memory 0xffe) memory' ≡ 1 ∷ 2 ∷ 3 ∷ [])))
write_bytes_lem_example = write_bytes_lem memory 0xffe (1 ∷ 2 ∷ 3 ∷ []) zeros

-- The host's code is mapped as its length.
abbrev mapped_length : List ℕ → Option ℕ
mapped_length bytes = some (length bytes)

abbrev empty : Dispatcher ℕ
empty = Dispatch.new

abbrev one_block : Dispatcher ℕ
one_block = record {
  blocks = (0x1000, record { code = 40; hit_count = 0 }) ∷ [];
  blocks_executed = 0;
}

three_compiled :
    compile_block decoder mapped_length empty 0x1000 words ≡ some (one_block, Dispatch.ok 3)
unfolding compile_block lift_block_at lift_words lift_one_at push lifted_at lift_conditional_branch
    lift_move_wide lower_unsigned_mem lift_decoded decode terminal lower_operand lower_reg
    prepare_block optimize_block emit_block emit_insts emit_as load_state store_state binop mov_load
    mov_store
three_compiled = refl

compile_block-Compiled_example :
    Compiled decoder mapped_length empty 0x1000 words one_block (Dispatch.ok 3)
unfolding terminal decode
compile_block-Compiled_example =
    compile_block-Compiled decoder mapped_length empty 0x1000 words one_block (Dispatch.ok 3)
      three_compiled

-- A block's code is the address that it leaves for.
abbrev jump : ℕ → Machine → Machine
jump code m = record m { regs = record m.regs { pc = code } }

abbrev at_pc : ℕ → Machine
at_pc pc = record { regs = record new { pc = pc }; memory = zeros }

abbrev chain : ℕ → ℕ → Dispatcher ℕ
chain hits executed = record {
  blocks =
      (0x1000, record { code = 0x2000; hit_count = hits })
      ∷ (0x2000, record { code = 0; hit_count = hits })
      ∷ [];
  blocks_executed = executed;
}

two-Runs : Runs jump 2 (chain 0 0) (at_pc 0x1000) (chain 1 2) (at_pc 0)
unfolding has_block
two-Runs =
    next (record { code = 0x2000; hit_count = 0 }) refl refl
      (last (record { code = 0; hit_count = 0 }) refl refl)

run-Runs_example : (run jump 2 (chain 0 0) (at_pc 0x1000) ≡ (chain 1 2, at_pc 0, Dispatch.ok 0)) ↔ (
    (k : ℕ) × (k ≤ 2)
    × Runs jump k (chain 0 0) (at_pc 0x1000) (chain 1 2) (at_pc 0)
    × (0 ≡ (at_pc 0).regs.pc))
run-Runs_example = run-Runs jump 2 (chain 0 0) (at_pc 0x1000) (chain 1 2) (at_pc 0) 0

Runs-counters_example :
    ((chain 1 2).blocks_executed ≡ (0 + 2) % 2 ^ 64)
    × (has_block (chain 1 2) 0 ≡ false)
    × (has_block (chain 1 2) 0x1000 ≡ has_block (chain 0 0) 0x1000)
Runs-counters_example = Runs-counters jump two-Runs (omega arith) 0x1000
