-- ===== src/Runtime/Dispatch/Installed.antt =====
-- src/runtime/dispatch.rs, `compile_block`: the code that it installs.
use armx.Base.{ℕ, ◌≡◌, refl, sym, ap, ◌∙◌, subst, List, Option, some, length}
use armx.Arch.{A64Inst, InstDecoder}
use armx.Ir.Block.{Block, at}
use armx.Lift.Blocks.{lift_block_at}
use armx.Jit.{prepare_block}
use armx.Jit.Optimizer.Sound.{InstsAreValid}
use armx.Codegen.{emit_block, code_of}
use armx.Codegen.Correct.Blocks.{BlockFits}
use armx.Codegen.Correct.Run.{prepare_block-run_code}
use armx.Runtime.Dispatch.{CompiledBlock, Dispatcher, Result, ok, get, compile_block}
use armx.Runtime.Dispatch.Table.{
  Compiled, compiled, not_supported, not_emitted, not_mapped, compile_block-Compiled,
}
use armx.Runtime.Dispatch.Hosted.{hosted}
use armx.Host.Cpu.{Cpu}
use armx.Meaning.{Machine, run_block}

-- The entry of an address is the code that is made of a block's bytes.
pub record Installed {Code : Type 0} (make_executable : List ℕ → Option Code) (d : Dispatcher Code)
    (guest_pc : ℕ) (block : Block) : Type 0 where
  pub bytes : List ℕ
  pub emits : code_of (emit_block block) ≡ some bytes
  pub code : Code
  pub made : make_executable bytes ≡ some code
  pub entry : get d.blocks guest_pc ≡ some (record { code = code; hit_count = 0 })

module _ {Code : Type 0} (decoder : InstDecoder) (make_executable : List ℕ → Option Code)
    (d : Dispatcher Code) (guest_pc : ℕ) (words : List A64Inst) where
  Compiled-Installed :
      (n : ℕ) (d' : Dispatcher Code) (r : Result ℕ)
      → Compiled decoder make_executable d guest_pc words d' r
      → r ≡ ok n
      → (block : Block) × (prepare_block (lift_block_at decoder words guest_pc (at guest_pc)).0
          ≡ some block)
        × Installed make_executable d' guest_pc block
  Compiled-Installed n d' r
        (compiled block bytes code supported prepared emits made found others executed) e =
      (
        block,
        prepared,
        record { bytes = bytes; emits = emits; code = code; made = made; entry = found },
      )
  Compiled-Installed n d' r (not_supported u) e = cc e
  Compiled-Installed n d' r (not_emitted block error u prepared emits) e = cc e
  Compiled-Installed n d' r (not_mapped block bytes u prepared emits made) e = cc e

  pub compile_block-Installed :
      (n : ℕ) (d' : Dispatcher Code)
      → compile_block decoder make_executable d guest_pc words ≡ some (d', ok n)
      → (block : Block) × (prepare_block (lift_block_at decoder words guest_pc (at guest_pc)).0
          ≡ some block)
        × Installed make_executable d' guest_pc block
  compile_block-Installed n d' e =
      Compiled-Installed n d' (ok n)
        (compile_block-Compiled decoder make_executable d guest_pc words d' (ok n) e) refl

-- Translation and execution together: where a call of `compile_block` succeeds, the table has an entry
-- at its address whose code, called on the host, does what the lifted block does: from a machine in
-- shape, for a lifted block that the optimizer is sound for and a prepared one that the generator is
-- meant for.
pub compile_block-hosted :
    (start : Machine → Cpu) (decoder : InstDecoder) (d d' : Dispatcher (List ℕ)) (guest_pc n : ℕ)
    (words : List A64Inst) (block : Block) (m m' : Machine)
    → ((t : Machine) → (start t).machine ≡ t)
    → compile_block decoder some d guest_pc words ≡ some (d', ok n)
    → InstsAreValid (lift_block_at decoder words guest_pc (at guest_pc)).0.insts
    → length m.regs.gpr ≡ 31
    → prepare_block (lift_block_at decoder words guest_pc (at guest_pc)).0 ≡ some block
    → BlockFits block
    → run_block (lift_block_at decoder words guest_pc (at guest_pc)).0 m ≡ some m'
    → (compiled : CompiledBlock (List ℕ)) × (get d'.blocks guest_pc ≡ some compiled)
      × (hosted start compiled.code m ≡ m')
compile_block-hosted start decoder d d' guest_pc n words block m m' started e valid registers
      prepared fits h =
    let lifted : Block = (lift_block_at decoder words guest_pc (at guest_pc)).0 in
    let (block', prepared', entry) = compile_block-Installed decoder some d guest_pc words n d' e in
    let (code, after, emits, runs, machine) =
      prepare_block-run_code lifted block m' (start m) valid
        (ap (λ (t : Machine). length t.regs.gpr) (started m) ∙ registers) prepared fits
        (subst (λ (t : Machine). run_block lifted t ≡ some m') (sym (started m)) h) in
    let one_block : block' ≡ block = cc (prepared, prepared') in
    let made : code ≡ entry.code = cc (entry.made, entry.emits, emits, one_block) in
    let called : hosted start code m ≡ m' = rw (hosted, runs) machine in
    (
      record { code = entry.code; hit_count = 0 },
      entry.entry,
      subst (λ (c : List ℕ). hosted start c m ≡ m') made called,
    )
