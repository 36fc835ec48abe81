-- ===== src/Codegen/Correct/Run.antt =====
-- src/codegen/x86_64.rs, `emit_block`: the code of a block, run from its first byte.
use armx.Base.{
  ◌+◌, ◌-◌, arith, Bool-cases, inl, inr, length, ℕ, zero, suc, ◌≡◌, refl, subst, false, List, [],
  ◌∷◌, ◌++◌, some, >>=-eq-some,
}
use mathlib.Core.List.{append-nil}
use armx.Ir.Block.{Block}
use armx.Codegen.{emit_block, code_of}
use armx.Codegen.Correct.Blocks.{BlockFits, emit_block-Finishes}
use armx.Jit.{prepare_block}
use armx.Jit.Optimizer.{default, optimize_block}
use armx.Jit.Optimizer.Sound.{InstsAreValid, run_block-optimize_block}
use armx.Host.Cpu.{Cpu}
use armx.Host.Decoding.{Insn, decode}
use armx.Host.Execution.{tick, ticks, execute, is_ret, run_code}
use armx.Meaning.{Machine, run_block}

no_return :
    (code : List ℕ) (cpu : Cpu) {next : List ℕ × Cpu}
    → tick code cpu ≡ some next
    → is_ret (decode code) ≡ false
unfolding tick execute
no_return code cpu {next} h =
    let (read, decoded, done) = >>=-eq-some (decode code) (λ read. execute read.0 read.1 cpu) h in
    rw decoded (go read.0 read.1 done)
  where
    go :
        (insn : Insn) (rest : List ℕ)
        → execute insn rest cpu ≡ some next
        → is_ret (some (insn, rest)) ≡ false
    go Insn.ret rest done = cc done
    go insn rest done = refl

ticks-run_code :
    (n : ℕ) (code tail : List ℕ) (cpu after : Cpu)
    → ticks n code cpu ≡ some (0xC3 ∷ tail, after)
    → run_code (suc n) code cpu ≡ some after
unfolding ticks run_code decode
ticks-run_code zero code tail cpu after h =
    let at_end : code ≡ 0xC3 ∷ tail = cc h in
    let same : cpu ≡ after = cc h in rw (at_end, same) refl
ticks-run_code (suc n) code tail cpu after h =
    let (next, goes, rest) = >>=-eq-some (tick code cpu) (λ next. ticks n next.0 next.1) h in
    rw (run_code, no_return code cpu goes, goes) (ticks-run_code n next.0 tail next.1 after rest)

run_code-more :
    (n k : ℕ) (code : List ℕ) (cpu after : Cpu)
    → run_code n code cpu ≡ some after
    → run_code (n + k) code cpu ≡ some after
unfolding run_code
run_code-more zero k code cpu after h = cc h
run_code-more (suc n) k code cpu after h =
    let split : suc n + k ≡ suc (n + k) = omega arith in
    rw split (elim (Bool-cases (is_ret (decode code))) [
      | inl ends ↦ rw (run_code, ends) (rw (run_code, ends) at h)
      | inr on ↦
          let (next, goes, rest) =
            >>=-eq-some (tick code cpu) (λ next. run_code n next.0 next.1)
              (rw (run_code, on) at h) in
          rw (run_code, on, goes) (run_code-more n k next.0 next.1 after rest)
    ])

-- The emitted code does what the block does: where the block, of instructions that the generator is
-- meant for and as long as its byte span says, takes a machine to another, the emission gives code
-- with no error, and this code run on the host from any registers and flags comes to its return, after
-- fewer instructions than it has bytes, with the guest's state and memory as in that machine.
pub emit_block-run_code :
    (block : Block) (m : Machine) (cpu : Cpu)
    → BlockFits block
    → run_block block cpu.machine ≡ some m
    → (code : List ℕ) × (after : Cpu) × (code_of (emit_block block) ≡ some code)
      × (run_code (length code) code cpu ≡ some after)
      × (after.machine ≡ m)
emit_block-run_code block m cpu fits h =
    let finishes = emit_block-Finishes block m cpu fits h in
    let count : ℕ = finishes.reaches.count in
    let tail : List ℕ = finishes.reaches.tail in
    let reached : ticks count finishes.code cpu ≡ some (0xC3 ∷ (tail ++ []), finishes.after) =
      subst (λ (c : List ℕ). ticks count c cpu ≡ some (0xC3 ∷ (tail ++ []), finishes.after))
        (append-nil finishes.code) (finishes.reaches.runs []) in
    let spare : suc count + (length finishes.code - suc count) ≡ length finishes.code =
      omega (arith, finishes.reaches.bounded) in
    let returned = ticks-run_code count finishes.code (tail ++ []) cpu finishes.after reached in
    (
      finishes.code,
      finishes.after,
      finishes.emits,
      subst (λ (n : ℕ). run_code n finishes.code cpu ≡ some finishes.after) spare
          (run_code-more (suc count) (length finishes.code - suc count) finishes.code cpu
            finishes.after returned),
      finishes.machine,
    )

-- The same of the pipeline: the code that is emitted for the prepared block does what the unprepared
-- block does, where the prepared block is one that the generator is meant for.
pub prepare_block-run_code :
    (block block' : Block) (m : Machine) (cpu : Cpu)
    → InstsAreValid block.insts
    → length cpu.machine.regs.gpr ≡ 31
    → prepare_block block ≡ some block'
    → BlockFits block'
    → run_block block cpu.machine ≡ some m
    → (code : List ℕ) × (after : Cpu) × (code_of (emit_block block') ≡ some code)
      × (run_code (length code) code cpu ≡ some after)
      × (after.machine ≡ m)
unfolding prepare_block
prepare_block-run_code block block' m cpu valid registers prepared fits h =
    let (r, optimized, e) = >>=-eq-some (optimize_block default block) _ prepared in
    let same : r.0 ≡ block' = cc e in
    let run = run_block-optimize_block default block cpu.machine valid registers optimized h in
    emit_block-run_code block' m cpu fits
      (subst (λ (b : Block). run_block b cpu.machine ≡ some m) same run)
