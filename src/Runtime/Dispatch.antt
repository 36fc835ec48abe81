-- ===== src/Runtime/Dispatch.antt =====
-- src/runtime/dispatch.rs: translated blocks, by their guest address, and their execution. The hash
-- map is an association list with one entry for each address. `make_executable` is the mapping of
-- code into the host's memory (memmap2), and `entry` is the host that executes it; both are
-- parameters.
pub mod Table
pub mod Runs
pub mod Hosted
pub mod Installed
pub mod Total
pub mod Background
use armx.Base.{
  ℕ, zero, suc, ◌+◌, Bool, true, false, ◌||◌, List, [], ◌∷◌, Option, some, none, if◌then◌else◌,
  ◌==◌, length, ◌>>=◌, wrapping_add64, saturating_add32,
}
use armx.Arch.{A64Inst, InstDecoder}
use armx.Ir.Inst.{Opcode, unsupported, IrInst}
use armx.Ir.Block.{Block, at}
use armx.Lift.Blocks.{lift_block_at}
use armx.Jit.{prepare_block}
use armx.Codegen.{CodegenError, Emit, emitted, returned, failed, panicked, emit_block}
use armx.Meaning.{Machine}

pub record CompiledBlock (Code : Type 0) : Type 0 where
  pub code : Code
  pub hit_count : ℕ

pub record Dispatcher (Code : Type 0) : Type 0 where
  pub blocks : List (ℕ × CompiledBlock Code)
  pub blocks_executed : ℕ

abbrev pub new : {Code : Type 0} → Dispatcher Code
new = record { blocks = []; blocks_executed = 0 }

-- The messages of the errors.
pub data DispatchError : Type 0 where
  unsupported_instruction executable_mapping_failed no_translated_block : ℕ → DispatchError
  codegen_failed : ℕ → CodegenError → DispatchError
  execution_budget_exhausted : DispatchError

pub data Result (A : Type 0) : Type 0 where
  ok : A → Result A
  err : DispatchError → Result A

module _ {Code : Type 0} where
  abbrev pub get : List (ℕ × CompiledBlock Code) → ℕ → Option (CompiledBlock Code)
  get [] pc = none
  get (entry ∷ entries) pc =
      let rest = get entries pc in if entry.0 == pc then some entry.1 else rest

  -- Replaces the entry of the address, or adds one.
  abbrev pub insert :
      List (ℕ × CompiledBlock Code) → ℕ → CompiledBlock Code → List (ℕ × CompiledBlock Code)
  insert [] pc block = (pc, block) ∷ []
  insert (entry ∷ entries) pc block =
      let rest = insert entries pc block in
      if entry.0 == pc then (pc, block) ∷ entries else entry ∷ rest

  abbrev pub is_some : Option (CompiledBlock Code) → Bool
  is_some (some block) = true
  is_some none = false

  abbrev hits_or_zero : Option (CompiledBlock Code) → ℕ
  hits_or_zero (some block) = block.hit_count
  hits_or_zero none = 0

  unfoldable pub has_block : Dispatcher Code → ℕ → Bool
  has_block d guest_pc = is_some (get d.blocks guest_pc)

  abbrev pub block_count : Dispatcher Code → ℕ
  block_count d = length d.blocks

  unfoldable pub hit_count : Dispatcher Code → ℕ → ℕ
  hit_count d guest_pc = hits_or_zero (get d.blocks guest_pc)

abbrev is_unsupported : Opcode → Bool
is_unsupported unsupported = true
is_unsupported _ = false

abbrev pub any_unsupported : List IrInst → Bool
any_unsupported [] = false
any_unsupported (inst ∷ insts) = is_unsupported inst.opcode || any_unsupported insts

module _ {Code : Type 0} (decoder : InstDecoder) (make_executable : List ℕ → Option Code) where
  abbrev pub install : Dispatcher Code → ℕ → ℕ → Option Code → Dispatcher Code × Result ℕ
  install d guest_pc consumed (some code) = (
    record d { blocks = insert d.blocks guest_pc (record { code = code; hit_count = 0 }) },
    ok consumed,
  )
  install d guest_pc consumed none = (d, err (executable_mapping_failed guest_pc))

  abbrev pub generated : Dispatcher Code → ℕ → ℕ → Emit → Option (Dispatcher Code × Result ℕ)
  generated d guest_pc consumed (emitted bytes) =
      some (install d guest_pc consumed (make_executable bytes))
  generated d guest_pc consumed (returned bytes) =
      some (install d guest_pc consumed (make_executable bytes))
  generated d guest_pc consumed (failed e) = some (d, err (codegen_failed guest_pc e))
  generated d guest_pc consumed panicked = none

  -- The new dispatcher and the result; `none` is a panic.
  unfoldable pub compile_block :
      Dispatcher Code → ℕ → List A64Inst → Option (Dispatcher Code × Result ℕ)
  compile_block d guest_pc words =
      let lifted = lift_block_at decoder words guest_pc (at guest_pc) in
      if any_unsupported lifted.0.insts
      then some (d, err (unsupported_instruction guest_pc))
      else (prepare_block lifted.0 >>= λ block. generated d guest_pc lifted.1 (emit_block block))

module _ {Code : Type 0} (entry : Code → Machine → Machine) where
  -- The counters of one execution.
  abbrev pub count : Dispatcher Code → ℕ → CompiledBlock Code → Dispatcher Code
  count d pc block = record {
    blocks = insert d.blocks pc (record block { hit_count = saturating_add32 block.hit_count 1 });
    blocks_executed = wrapping_add64 d.blocks_executed 1;
  }

  -- The dispatcher, the machine and the result.
  unfoldable pub run : ℕ → Dispatcher Code → Machine → Dispatcher Code × Machine × Result ℕ
  run zero d m = (d, m, err execution_budget_exhausted)
  run (suc max_blocks) d m = elim (get d.blocks m.regs.pc) [
    | none ↦ (d, m, err (no_translated_block m.regs.pc))
    | some block ↦
        let d' = count d m.regs.pc block in
        let m' = entry block.code m in
        let rest = run max_blocks d' m' in
        if has_block d' m'.regs.pc then rest else (d', m', ok m'.regs.pc)
  ]
