-- ===== src/Codegen/Correct/Blocks.antt =====
-- src/codegen/x86_64.rs, `emit_block`: the loop and the end of a block.
use armx.Base.{
  ℕ, ◌+◌, ◌*◌, ◌^◌, ◌<◌, ◌≡◌, refl, sym, ap, ◌∙◌, subst, arith, List, [], ◌∷◌, ◌++◌, Option, some,
  ◌>>=◌, >>=-eq-some, if◌then◌else◌, u64, length,
}
use armx.Ir.Inst.{
  Opcode, nop, mov, add, sub, and, orr, eor, shift, load, store, branch, branch_cond, ret, IrInst,
}
use armx.Ir.Block.{Block, byte_len}
use armx.Codegen.{
  Emit, emitted, returned, ◌>>◌, prepend, is_empty, emit_set_pc_imm, emit_as, emit_insts,
  emit_block, code_of,
}
use armx.Codegen.Correct.Executes.{Executes, Executes-nil}
use armx.Codegen.Correct.Alu.{Operates, add_op, sub_op, and_op, orr_op, eor_op}
use armx.Codegen.Correct.Implements.{ReturnsAt, Reaches, Implements, Executes-Reaches, Reaches-++}
use armx.Codegen.Correct.Fits.{Fits}
use armx.Codegen.Correct.Jumps.{jumped, at_pc, leaves_to}
use armx.Codegen.Correct.Instructions.{
  nop-Implements, mov-Implements, arithmetic-Implements, shift-Implements, load-Implements,
  store-Implements, branch-Implements, branch_cond-Implements, ret-Implements,
}
use armx.Host.Cpu.{Cpu, AluOp}
use armx.Meaning.{Machine, Outcome, running, exited, step_as, run_insts, run_block}

-- The code of one instruction does what the instruction does.
pub emit_as-Implements :
    (op : Opcode) (next : ℕ) (inst : IrInst) (o : Outcome) (cpu : Cpu)
    → inst.opcode ≡ op
    → Fits op inst
    → next < 2 ^ 64
    → step_as op next inst cpu.machine ≡ some o
    → Implements (emit_as op next inst) o cpu
unfolding step_as emit_as
emit_as-Implements nop next inst o cpu e fits hn h = nop-Implements o cpu (cc h)
emit_as-Implements mov next inst o cpu e fits hn h = mov-Implements inst.a inst o cpu fits h
emit_as-Implements add next inst o cpu e fits hn h =
    arithmetic-Implements inst.a inst o cpu refl fits
      (subst (λ (t : Opcode). Operates t AluOp.add) (sym e) add_op) h
emit_as-Implements sub next inst o cpu e fits hn h =
    arithmetic-Implements inst.a inst o cpu refl fits
      (subst (λ (t : Opcode). Operates t AluOp.sub) (sym e) sub_op) h
emit_as-Implements and next inst o cpu e fits hn h =
    arithmetic-Implements inst.a inst o cpu refl fits
      (subst (λ (t : Opcode). Operates t AluOp.and) (sym e) and_op) h
emit_as-Implements orr next inst o cpu e fits hn h =
    arithmetic-Implements inst.a inst o cpu refl fits
      (subst (λ (t : Opcode). Operates t AluOp.or) (sym e) orr_op) h
emit_as-Implements eor next inst o cpu e fits hn h =
    arithmetic-Implements inst.a inst o cpu refl fits
      (subst (λ (t : Opcode). Operates t AluOp.xor) (sym e) eor_op) h
emit_as-Implements shift next inst o cpu e fits hn h = shift-Implements inst.a inst o cpu fits h
emit_as-Implements load next inst o cpu e fits hn h = load-Implements inst.a inst.b o cpu fits h
emit_as-Implements store next inst o cpu e fits hn h = store-Implements inst.a inst.b o cpu fits h
emit_as-Implements branch next inst o cpu e fits hn h = branch-Implements inst.a o cpu fits h
emit_as-Implements branch_cond next inst o cpu e (target, condition) hn h =
    branch_cond-Implements inst.a inst next o cpu hn target condition h
emit_as-Implements ret next inst o cpu e fits hn h = ret-Implements inst.a o cpu fits h
emit_as-Implements op next inst o cpu e fits hn h = cc h

-- The whole code comes to a return.
pub record Finishes (e : Emit) (m : Machine) (cpu : Cpu) : Type 0 where
  pub code : List ℕ
  pub emits : code_of e ≡ some code
  pub after : Cpu
  pub reaches : Reaches code cpu after
  pub machine : after.machine ≡ m

abbrev pub AllFit : List IrInst → Type 0
AllFit [] = Unit
AllFit (inst ∷ insts) = Fits inst.opcode inst × AllFit insts

code_of-prepend :
    (xs ys : List ℕ) (e : Emit) → code_of e ≡ some ys → code_of (prepend xs e) ≡ some (xs ++ ys)
code_of-prepend xs ys (emitted code) h = ap (λ (c : Option (List ℕ)). c >>= λ zs. some (xs ++ zs)) h
code_of-prepend xs ys (returned code) h =
    ap (λ (c : Option (List ℕ)). c >>= λ zs. some (xs ++ zs)) h
code_of-prepend xs ys e h = cc h

prefixed_finishing :
    {e₁ e₂ : Emit} {code : List ℕ} {m : Machine} {c c' : Cpu}
    → e₁ ≡ emitted code
    → Executes code c c'
    → Finishes e₂ m c'
    → Finishes (e₁ >> e₂) m c
prefixed_finishing {e₂ = e₂} {code = code} emits runs finishes = rw emits (record {
  code = code ++ finishes.code;
  emits = code_of-prepend code finishes.code e₂ finishes.emits;
  after = finishes.after;
  reaches = Executes-Reaches runs finishes.reaches;
  machine = finishes.machine;
})

-- Code after a return changes nothing.
Finishes->> :
    {e : Emit} {m : Machine} {c : Cpu} (ys : List ℕ)
    → Finishes e m c
    → Finishes (e >> emitted ys) m c
Finishes->> {e} {m} {c} ys finishes = go e refl
  where
    go : (e' : Emit) → e ≡ e' → Finishes (e >> emitted ys) m c
    go (emitted code) h =
        let same : finishes.code ≡ code = cc (rw h at finishes.emits) in
        rw h (record {
          code = code ++ ys;
          emits = refl;
          after = finishes.after;
          reaches =
              Reaches-++ (subst (λ (t : List ℕ). Reaches t c finishes.after) same finishes.reaches)
                ys;
          machine = finishes.machine;
        })
    go (returned code) h = rw h (subst (λ (t : Emit). Finishes t m c) h finishes)
    go e' h = cc (rw h at finishes.emits)

-- The end of a block that no branch ends.
block_end :
    (stop : ℕ) (cpu : Cpu)
    → stop < 2 ^ 64
    → Finishes (emitted (emit_set_pc_imm (u64 stop) ++ 0xC3 ∷ [])) (at_pc cpu.machine stop) cpu
block_end stop cpu h =
    let word : stop ≡ u64 stop = omega arith in
    subst
      (λ (n : ℕ). Finishes (emitted (emit_set_pc_imm n ++ 0xC3 ∷ [])) (at_pc cpu.machine stop) cpu)
      word
      (record {
        code = _;
        emits = refl;
        after = _;
        reaches = leaves_to stop cpu [] h;
        machine = refl;
      })

returned_finishing :
    {e : Emit} {m : Machine} {c : Cpu} (e₂ : Emit) → ReturnsAt e m c → Finishes (e >> e₂) m c
returned_finishing e₂ returns = rw returns.emits (record {
  code = returns.code;
  emits = refl;
  after = returns.after;
  reaches = returns.reaches;
  machine = returns.machine;
})

-- An instruction, then the rest of the block where it goes on.
sequence :
    (e rest : Emit) (k : Machine → Option Machine) (m : Machine) (o : Outcome) (cpu : Cpu)
    → Implements e o cpu
    → ((cpu' : Cpu) → k cpu'.machine ≡ some m → Finishes rest m cpu')
    → elim o [ running m' ↦ k m' | exited m' ↦ some m' ] ≡ some m
    → Finishes (e >> rest) m cpu
sequence e rest k m (running m') cpu goes continue h =
    prefixed_finishing goes.emits goes.executes
      (continue goes.after (subst (λ (t : Machine). k t ≡ some m) (sym goes.machine) h))
sequence e rest k m (exited m') cpu returns continue h =
    let same : m' ≡ m = cc h in
    subst (λ (t : Machine). Finishes (e >> rest) t cpu) same (returned_finishing rest returns)

emit_insts-Finishes :
    (block : Block) (index pc : ℕ) (inst : IrInst) (insts : List IrInst) (m : Machine) (cpu : Cpu)
    → AllFit (inst ∷ insts)
    → pc ≡ block.guest_pc + index * 4
    → block.guest_pc + byte_len block < 2 ^ 64
    → pc + length (inst ∷ insts) * 4 < 2 ^ 64
    → run_insts pc (block.guest_pc + byte_len block) (inst ∷ insts) cpu.machine ≡ some m
    → Finishes (emit_insts block index (inst ∷ insts)) m cpu
unfolding emit_insts run_insts
emit_insts-Finishes block index pc inst [] m cpu (fits, all_fit) at_index stop_fits range h =
    let stop : ℕ = block.guest_pc + byte_len block in
    let next : u64 (block.guest_pc + (index + 1) * 4) ≡ pc + 4 = omega arith in
    let (o, eo, h₁) = >>=-eq-some (step_as inst.opcode (pc + 4) inst cpu.machine) _ h in
    let implements =
      emit_as-Implements inst.opcode (pc + 4) inst o cpu refl fits (omega (arith, range)) eo in
    rw next (
      sequence (emit_as inst.opcode (pc + 4) inst) _ (run_insts (pc + 4) stop []) m o cpu implements
        (λ cpu' e.
          let same : at_pc cpu'.machine stop ≡ m = cc e in
          Finishes->> [] (
            subst
              (λ (t : Machine). Finishes (emitted (emit_set_pc_imm (u64 stop) ++ 0xC3 ∷ [])) t cpu')
              same (block_end stop cpu' stop_fits)))
        h₁)
emit_insts-Finishes block index pc inst (inst' ∷ insts) m cpu (fits, all_fit) at_index stop_fits
      range h =
    let stop : ℕ = block.guest_pc + byte_len block in
    let next : u64 (block.guest_pc + (index + 1) * 4) ≡ pc + 4 = omega (arith, at_index, range) in
    let (o, eo, h₁) = >>=-eq-some (step_as inst.opcode (pc + 4) inst cpu.machine) _ h in
    let implements =
      emit_as-Implements inst.opcode (pc + 4) inst o cpu refl fits (omega (arith, range)) eo in
    rw next (
      sequence (emit_as inst.opcode (pc + 4) inst) _ (run_insts (pc + 4) stop (inst' ∷ insts)) m o
        cpu implements
        (λ cpu' e. prefixed_finishing refl (Executes-nil cpu') (
          emit_insts-Finishes block (index + 1) (pc + 4) inst' insts m cpu' all_fit
            (omega (arith, at_index)) stop_fits (omega (arith, range)) e))
        h₁)

-- A block of as many bytes as its instructions take.
pub record BlockFits (block : Block) : Type 0 where
  pub insts_fit : AllFit block.insts
  pub sized : byte_len block ≡ length block.insts * 4
  pub in_range : block.guest_pc + byte_len block < 2 ^ 64

empty_block :
    (block : Block) (m : Machine) (cpu : Cpu)
    → BlockFits block
    → block.insts ≡ []
    → run_block block cpu.machine ≡ some m
    → Finishes (emit_block block) m cpu
unfolding emit_block emit_insts run_block run_insts
empty_block block m cpu fits e h =
    let none_left : byte_len block ≡ 0 = fits.sized ∙ ap (λ (t : List IrInst). length t * 4) e in
    let stop : block.guest_pc + byte_len block ≡ block.guest_pc = omega (arith, none_left) in
    let outcome : some (at_pc cpu.machine (block.guest_pc + byte_len block)) ≡ some m =
      subst
        (λ (t : List IrInst).
          run_insts block.guest_pc (block.guest_pc + byte_len block) t cpu.machine ≡ some m)
        e h in
    let same : at_pc cpu.machine block.guest_pc ≡ m = cc (outcome, stop) in
    rw e (record {
      code = emit_set_pc_imm block.guest_pc ++ 0xC3 ∷ [];
      emits = refl;
      after = jumped cpu block.guest_pc;
      reaches = leaves_to block.guest_pc cpu [] (omega (arith, fits.in_range));
      machine = same;
    })

pub emit_block-Finishes :
    (block : Block) (m : Machine) (cpu : Cpu)
    → BlockFits block
    → run_block block cpu.machine ≡ some m
    → Finishes (emit_block block) m cpu
unfolding emit_block run_block
emit_block-Finishes block m cpu fits h = go block.insts refl
  where
    go : (insts : List IrInst) → block.insts ≡ insts → Finishes (emit_block block) m cpu
    go [] e = empty_block block m cpu fits e h
    go (inst ∷ insts) e =
        let stop : ℕ = block.guest_pc + byte_len block in
        let run : run_insts block.guest_pc stop (inst ∷ insts) cpu.machine ≡ some m =
          subst (λ (t : List IrInst). run_insts block.guest_pc stop t cpu.machine ≡ some m) e h in
        let range = subst (λ (t : List IrInst). byte_len block ≡ length t * 4) e fits.sized in
        subst
          (λ (t : List IrInst).
            Finishes
              (emit_insts block 0 t
                >> (if is_empty t
                    then emitted (emit_set_pc_imm block.guest_pc ++ 0xC3 ∷ [])
                    else emitted []))
              m cpu)
          (sym e)
          (Finishes->> [] (
            emit_insts-Finishes block 0 block.guest_pc inst insts m cpu
              (subst AllFit e fits.insts_fit) (omega arith) fits.in_range
              (omega (arith, fits.in_range, range)) run))
