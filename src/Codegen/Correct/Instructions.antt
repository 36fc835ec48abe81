-- ===== src/Codegen/Correct/Instructions.antt =====
-- src/codegen/x86_64.rs, `emit_block`: one turn of the loop, for every opcode that it emits.
use armx.Base.{
  ℕ, ◌%◌, ◌^◌, ◌<◌, ◌≡◌, refl, ap, subst, arith, Bool, true, [], ◌∷◌, ◌++◌, some, map_some-eq-some,
  ◌==◌, leb, if◌then◌else◌, Bool-cases, inl, inr,
}
use armx.Ir.Operand.{x64, GuestReg, x, Operand, reg, imm, mem, guest_pc}
use armx.Ir.Inst.{IrInst}
use armx.Runtime.State.{pc_offset}
use armx.Codegen.{
  Emit, emitted, ◌>>◌, ending, emit_arithmetic, emit_mov, emit_shift, emit_load, emit_store,
  emit_branch, emit_branch_to, emit_conditional, emit_compare_branch, load_state,
}
use armx.Codegen.Encoding.{rax, mov_store}
use armx.Codegen.Correct.Executes.{Executes-one}
use armx.Codegen.Correct.Operands.{load_state-Loads, read_reg-lt}
use armx.Codegen.Correct.Fits.{
  MovFits, ArithmeticFits, ShiftFits, LoadFits, StoreFits, TargetFits, ConditionFits,
}
use armx.Codegen.Correct.Alu.{Operates}
use armx.Codegen.Correct.Implements.{
  LeavesAt, ReturnsAt, Implements, Executes-Reaches, at_return, prefixed_leaving,
}
use armx.Codegen.Correct.Results.{emit_mov-Implements, emit_arithmetic-Implements}
use armx.Codegen.Correct.Shifts.{emit_shift-Implements}
use armx.Codegen.Correct.Addresses.{emit_load-Implements, emit_store-Implements}
use armx.Codegen.Correct.Jumps.{at_pc, jumped, store_pc, leaves_to}
use armx.Codegen.Correct.Branches.{emit_branch_cond-LeavesAt, emit_compare_branch-LeavesAt}
use armx.Host.Cpu.{Cpu, AluOp, put_reg}
use armx.Host.Decoding.{decode}
use armx.Host.Execution.{tick, execute}
use armx.Meaning.{
  Machine, Outcome, running, leave, bool_eq, condition_met, operand_value, read_reg, taken,
  step_alu, step_mov, step_shift, step_load, step_store, step_branch, step_branch_cond, step_ret,
}

-- The arms that end the block.
ending-ReturnsAt :
    (e : Emit) (m : Machine) (cpu : Cpu) → LeavesAt e m cpu → ReturnsAt (ending e) m cpu
ending-ReturnsAt e m cpu leaves = rw leaves.emits (record {
  code = leaves.code;
  emits = refl;
  after = leaves.after;
  reaches = leaves.reaches;
  machine = leaves.machine;
})

pub nop-Implements :
    (o : Outcome) (cpu : Cpu) → running cpu.machine ≡ o → Implements (emitted (0x90 ∷ [])) o cpu
unfolding tick decode execute
nop-Implements o cpu e =
    subst (λ (t : Outcome). Implements (emitted (0x90 ∷ [])) t cpu) e
      (record {
        code = 0x90 ∷ [];
        emits = refl;
        after = cpu;
        executes = Executes-one (0x90 ∷ []) cpu cpu (λ rest. refl);
        machine = refl;
      })

pub arithmetic-Implements :
    {hop : AluOp} (a : Operand) (inst : IrInst) (o : Outcome) (cpu : Cpu)
    → inst.a ≡ a
    → ArithmeticFits a inst.b inst.c
    → Operates inst.opcode hop
    → step_alu a inst cpu.machine ≡ some o
    → Implements (emit_arithmetic a inst) o cpu
unfolding step_alu
arithmetic-Implements (reg d) inst o cpu ea (valid, vb, vc) operates h =
    emit_arithmetic-Implements d inst o cpu ea valid vb vc operates h
arithmetic-Implements a inst o cpu ea fits operates h = cc h

pub mov-Implements :
    (a : Operand) (inst : IrInst) (o : Outcome) (cpu : Cpu)
    → MovFits a inst.b
    → step_mov a inst.b cpu.machine ≡ some o
    → Implements (emit_mov a inst) o cpu
unfolding step_mov
mov-Implements (reg d) inst o cpu (valid, vb, fits) h =
    emit_mov-Implements d inst o cpu valid vb fits h
mov-Implements a inst o cpu fits h = cc h

pub shift-Implements :
    (a : Operand) (inst : IrInst) (o : Outcome) (cpu : Cpu)
    → ShiftFits a inst.b inst.c
    → step_shift a inst.b inst.c cpu.machine ≡ some o
    → Implements (emit_shift a inst) o cpu
unfolding step_shift
shift-Implements (reg d) inst o cpu (valid, vb, vc) h =
    emit_shift-Implements d inst o cpu valid vb vc h
shift-Implements a inst o cpu fits h = cc h

pub load-Implements :
    (a b : Operand) (o : Outcome) (cpu : Cpu)
    → LoadFits a b
    → step_load a b cpu.machine ≡ some o
    → Implements (emit_load a b) o cpu
unfolding step_load
load-Implements (reg d) (mem m) o cpu (valid, vm, range) h =
    emit_load-Implements d m o cpu valid vm range h
load-Implements a b o cpu fits h = cc h

pub store-Implements :
    (a b : Operand) (o : Outcome) (cpu : Cpu)
    → StoreFits a b
    → step_store a b cpu.machine ≡ some o
    → Implements (emit_store a b) o cpu
unfolding step_store
store-Implements (mem m) (reg g) o cpu (valid, vm, range) h =
    emit_store-Implements g m o cpu valid vm range h
store-Implements (mem m) b o cpu fits h = absurd fits
store-Implements a b o cpu fits h = cc h

pub branch-Implements :
    (a : Operand) (o : Outcome) (cpu : Cpu)
    → TargetFits a
    → step_branch a cpu.machine ≡ some o
    → Implements (ending (emit_branch a)) o cpu
unfolding step_branch
branch-Implements (guest_pc target) o cpu fits h =
    let outcome : leave cpu.machine target ≡ o = cc h in
    subst (λ (t : Outcome). Implements (ending (emit_branch (guest_pc target))) t cpu) outcome
      (record {
        code = _;
        emits = refl;
        after = jumped cpu target;
        reaches = leaves_to target cpu [] fits;
        machine = refl;
      })
branch-Implements a o cpu fits h = cc h

imm_condition :
    (cond : ℕ) (cpu : Cpu) {t : Bool}
    → cond < 15
    → taken (imm cond) Operand.none cpu.machine.regs ≡ some t
    → condition_met cond cpu.machine.regs.nzcv ≡ t
unfolding taken
imm_condition cond cpu hc h = let valid : leb cond 15 ≡ true = ground arith in cc (rw valid at h)

compare_condition :
    (g : GuestReg) (kind : ℕ) (cpu : Cpu) {t : Bool}
    → taken (reg g) (imm kind) cpu.machine.regs ≡ some t
    → (v : ℕ) × (leb kind 1 ≡ true)
      × (operand_value cpu.machine.regs x64 (reg g) ≡ some v)
      × (bool_eq (v == 0) (kind == 0) ≡ t)
unfolding taken
compare_condition g kind cpu h = elim (Bool-cases (leb kind 1)) [
  | inl k ↦
      let (v, ev, et) =
        map_some-eq-some (λ v. bool_eq (v == 0) (kind == 0))
          (operand_value cpu.machine.regs x64 (reg g)) (rw k at h) in
      (v, k, ev, et)
  | inr k ↦ cc (rw k at h)
]

conditional-LeavesAt :
    (b c : Operand) (target next : ℕ) (t : Bool) (cpu : Cpu)
    → target < 2 ^ 64
    → next < 2 ^ 64
    → ConditionFits b c
    → taken b c cpu.machine.regs ≡ some t
    → LeavesAt
        (emit_conditional b c target next)
        (at_pc cpu.machine (if t then target else next))
        cpu
conditional-LeavesAt (imm cond) Operand.none target next t cpu ht hn hc h =
    subst
      (λ (t : Bool).
        LeavesAt (emit_conditional (imm cond) Operand.none target next)
          (at_pc cpu.machine (if t then target else next)) cpu)
      (imm_condition cond cpu hc h) (emit_branch_cond-LeavesAt cond target next cpu hc ht hn)
conditional-LeavesAt (reg g) (imm kind) target next t cpu ht hn valid h =
    let (v, k, ev, et) = compare_condition g kind cpu h in
    rw k (
      subst
        (λ (t : Bool).
          LeavesAt (emit_compare_branch g kind target next)
            (at_pc cpu.machine (if t then target else next)) cpu)
        et (emit_compare_branch-LeavesAt g kind target next v cpu valid ht hn ev))
conditional-LeavesAt b c target next t cpu ht hn fits h = absurd fits

pub branch_cond-Implements :
    (a : Operand) (inst : IrInst) (next : ℕ) (o : Outcome) (cpu : Cpu)
    → next < 2 ^ 64
    → TargetFits a
    → ConditionFits inst.b inst.c
    → step_branch_cond a inst next cpu.machine ≡ some o
    → Implements (ending (emit_branch_to a inst next)) o cpu
unfolding step_branch_cond
branch_cond-Implements (guest_pc target) inst next o cpu hn ht fits h =
    let (t, et, outcome) = map_some-eq-some _ (taken inst.b inst.c cpu.machine.regs) h in
    subst (λ (u : Outcome). Implements (ending (emit_conditional inst.b inst.c target next)) u cpu)
      outcome
      (ending-ReturnsAt _ _ cpu
        (conditional-LeavesAt inst.b inst.c target next t cpu ht hn fits et))
branch_cond-Implements a inst next o cpu hn ht fits h = cc h

ret-LeavesAt :
    (v : ℕ) (cpu : Cpu)
    → read_reg cpu.machine.regs (x 30) ≡ some v
    → LeavesAt
        (load_state rax (x 30) >> emitted (mov_store pc_offset rax x64 ++ 0xC3 ∷ []))
        (at_pc cpu.machine v)
        cpu
ret-LeavesAt v cpu e =
    let loads = load_state-Loads rax (x 30) x64 v cpu (λ general. omega arith) e in
    let loaded : Cpu = put_reg rax loads.value (record cpu { flags = loads.flags }) in
    let small = read_reg-lt cpu.machine.regs (x 30) x64 v (omega arith) e in
    let value : loads.value ≡ v =
      same loads.value v (loads.narrow (omega arith)) small loads.right in
    prefixed_leaving loads.emits loads.executes (record {
      code = _;
      emits = refl;
      after = _;
      reaches = Executes-Reaches (store_pc loaded) (at_return [] _);
      machine = ap (at_pc cpu.machine) value;
    })
  where
    same : (u v : ℕ) → u < 2 ^ 64 → v < 2 ^ 64 → u % 2 ^ 64 ≡ v % 2 ^ 64 → u ≡ v
    same u v hu hv e = omega arith

pub ret-Implements :
    (a : Operand) (o : Outcome) (cpu : Cpu)
    → a ≡ reg (x 30)
    → step_ret a cpu.machine ≡ some o
    → Implements
        (ending (load_state rax (x 30) >> emitted (mov_store pc_offset rax x64 ++ 0xC3 ∷ [])))
        o
        cpu
unfolding step_ret
ret-Implements a o cpu ea h =
    let (v, ev, outcome) =
      map_some-eq-some (leave cpu.machine) (read_reg cpu.machine.regs (x 30)) (rw ea at h) in
    subst
      (λ (t : Outcome).
        Implements
          (ending (load_state rax (x 30) >> emitted (mov_store pc_offset rax x64 ++ 0xC3 ∷ []))) t
          cpu)
      outcome (ending-ReturnsAt _ _ cpu (ret-LeavesAt v cpu ev))
