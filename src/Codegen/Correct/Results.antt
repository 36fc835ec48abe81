-- ===== src/Codegen/Correct/Results.antt =====
-- src/codegen/x86_64.rs, `emit_block`: the arms of the moves and the arithmetic.
use armx.Base.{
  ℕ, ◌^◌, ◌<◌, ◌≡◌, refl, sym, ap, ◌∙◌, subst, arith, Bool, true, false, [], ◌++◌, some,
  map_some-eq-some, >>=-eq-some, if◌then◌else◌,
}
use armx.Ir.Operand.{RegWidth, w32, x64, GuestReg, Operand, reg, imm}
use armx.Ir.Inst.{Opcode, add, sub, and, IrInst, writes_nzcv}
use armx.Runtime.State.{GuestState}
use armx.Codegen.{Emit, emitted, ◌>>◌, or_panic, store_state, emit_arithmetic, emit_mov}
use armx.Codegen.Encoding.{rax, emit_nzcv_from_x86_flags}
use armx.Codegen.Correct.Executes.{Executes, Executes-++, Executes-nil}
use armx.Codegen.Correct.Operands.{with_state, store_state-Executes}
use armx.Codegen.Correct.Sources.{SourceIsValid, SourceFits, load_operand-Loads}
use armx.Codegen.Correct.Alu.{Operates, Computes, emit_operation-Computes, alu_result-alu}
use armx.Codegen.Correct.Nzcv.{
  SetsFlags, add_flags, sub_flags, and_flags, guest_nzcv, emit_nzcv-SetsNzcv,
  flags_after-guest_nzcv,
}
use armx.Codegen.Correct.Implements.{GoesTo, Implements}
use armx.Jit.Selection.{select, immediate, sign_extend_32}
use armx.Jit.Selection.Immediate.{select-immediate_value}
use armx.Jit.Optimizer.Agree.{RegIsValid}
use armx.Host.Cpu.{Cpu, AluOp, alu_result, put_reg}
use armx.Meaning.{
  Machine, Outcome, with_regs, bits, trunc, operand_value, write_reg, step_mov, step_alu, alu,
  set_flags, flags_after,
}

trunc-narrow : (w : RegWidth) (u v : ℕ) → u < 2 ^ bits w → trunc w u ≡ v → u ≡ v
trunc-narrow w32 u v h e = omega arith
trunc-narrow x64 u v h e = omega arith

-- The result is in RAX.
pub stored :
    (d : GuestReg) (v : ℕ) {s : GuestState} (cpu : Cpu)
    → RegIsValid d
    → cpu.a ≡ v
    → write_reg cpu.machine.regs d v ≡ some s
    → Executes (store_state d rax) cpu (with_state cpu s)
stored d v cpu valid e h = store_state-Executes d rax cpu valid (rw e h)

pub emit_mov-Implements :
    (d : GuestReg) (inst : IrInst) (o : Outcome) (cpu : Cpu)
    → RegIsValid d
    → SourceIsValid inst.b
    → SourceFits inst.b d.width
    → step_mov (reg d) inst.b cpu.machine ≡ some o
    → Implements (emit_mov (reg d) inst) o cpu
unfolding step_mov
emit_mov-Implements d inst o cpu valid vb fits h =
    let (v, eb, written) = >>=-eq-some (operand_value cpu.machine.regs d.width inst.b) _ h in
    let (s, es, eo) =
      map_some-eq-some (with_regs cpu.machine) (write_reg cpu.machine.regs d v) written in
    let loads = load_operand-Loads inst.b rax d.width v cpu vb eb in
    let loaded : Cpu = put_reg rax loads.value (record cpu { flags = loads.flags }) in
    let same = trunc-narrow d.width loads.value v (loads.narrow fits) loads.right in
    subst (λ (t : Outcome). Implements (emit_mov (reg d) inst) t cpu) eo
      (record {
        code = loads.code ++ store_state d rax;
        emits = rw loads.emits;
        after = with_state loaded s;
        executes = Executes-++ loads.executes (stored d v loaded valid same es);
        machine = refl;
      })

flags_after-SetsFlags :
    (op : Opcode) (w : RegWidth) (a b r : ℕ) {f : ℕ}
    → flags_after op w a b r ≡ some f
    → SetsFlags op
unfolding flags_after
flags_after-SetsFlags add w a b r h = add_flags
flags_after-SetsFlags sub w a b r h = sub_flags
flags_after-SetsFlags and w a b r h = and_flags
flags_after-SetsFlags op w a b r h = cc h

chosen_fits :
    (inst : IrInst) (d : GuestReg) (k : ℕ)
    → inst.a ≡ reg d
    → (select inst).form ≡ immediate
    → inst.c ≡ imm k
    → trunc d.width (sign_extend_32 k) ≡ trunc d.width k
chosen_fits inst d k ea form ec =
    let same : inst ≡ record inst { a = reg d; c = imm k } =
      ap (λ (t : Operand). record inst { a = t }) ea
      ∙ ap (λ (t : Operand). record inst { a = reg d; c = t }) ec in
    select-immediate_value inst.opcode inst.flags d inst.b k (rw same at form)

with_flags_off :
    (e : Emit) {hop : AluOp} {w : RegWidth} {a b : ℕ} (d : GuestReg) (s : GuestState) (cpu : Cpu)
    → RegIsValid d
    → Computes e hop w a b cpu
    → write_reg cpu.machine.regs d (alu_result hop w a b) ≡ some s
    → GoesTo (e >> emitted (store_state d rax) >> emitted []) (record cpu.machine { regs = s }) cpu
with_flags_off e {hop} {w} {a} {b} d s cpu valid computes es = rw computes.emits (record {
  code = computes.code ++ (store_state d rax ++ []);
  emits = refl;
  after = with_state computes.after s;
  executes = Executes-++ computes.executes (
      Executes-++
        (stored d (alu_result hop w a b) computes.after valid computes.result
          (rw (sym computes.machine) at es))
        (Executes-nil (with_state computes.after s)));
  machine = ap (λ (m : Machine). record m { regs = s }) computes.machine;
})

with_flags_on :
    (e : Emit) (op : Opcode) {hop : AluOp} {w : RegWidth} {a b f : ℕ} (d : GuestReg)
    (s : GuestState) (cpu : Cpu)
    → RegIsValid d
    → Operates op hop
    → Computes e hop w a b cpu
    → write_reg cpu.machine.regs d (alu_result hop w a b) ≡ some s
    → flags_after op w a b (alu_result hop w a b) ≡ some f
    → GoesTo
        (e >> emitted (store_state d rax) >> or_panic (emit_nzcv_from_x86_flags op))
        (record cpu.machine { regs = record s { nzcv = f } })
        cpu
with_flags_on e op {hop} {w} {a} {b} {f} d s cpu valid operates computes es ef =
    let sets = flags_after-SetsFlags op w a b (alu_result hop w a b) ef in
    let cpu' : Cpu = with_state computes.after s in
    let nzcv = emit_nzcv-SetsNzcv op cpu' sets in
    let value : guest_nzcv op computes.after.flags ≡ f =
      cc (computes.flags, ef, flags_after-guest_nzcv w a b (alu_result hop w a b) sets operates) in
    rw (computes.emits, nzcv.emits)
      (record {
        code = computes.code ++ (store_state d rax ++ nzcv.code);
        emits = refl;
        after = nzcv.after;
        executes = Executes-++ computes.executes (
            Executes-++
              (stored d (alu_result hop w a b) computes.after valid computes.result
                (rw (sym computes.machine) at es))
              nzcv.executes);
        machine =
            nzcv.machine
            ∙ (ap (λ (n : ℕ). record computes.after.machine { regs = record s { nzcv = n } }) value
                ∙ ap (λ (m : Machine). record m { regs = record s { nzcv = f } }) computes.machine);
      })

with_flags :
    (e : Emit) (op : Opcode) (on : Bool) {hop : AluOp} {w : RegWidth} {a b : ℕ} (d : GuestReg)
    {s s' : GuestState} (cpu : Cpu)
    → RegIsValid d
    → Operates op hop
    → Computes e hop w a b cpu
    → write_reg cpu.machine.regs d (alu_result hop w a b) ≡ some s
    → set_flags on (flags_after op w a b (alu_result hop w a b)) s ≡ some s'
    → GoesTo
        (e
          >> emitted (store_state d rax)
          >> (if on then or_panic (emit_nzcv_from_x86_flags op) else emitted []))
        (record cpu.machine { regs = s' })
        cpu
with_flags e op true {hop} {w} {a} {b} d {s} cpu valid operates computes es es' =
    let (f, ef, same) =
      map_some-eq-some (λ f. record s { nzcv = f }) (flags_after op w a b (alu_result hop w a b))
        es' in
    rw (← same) (with_flags_on e op d s cpu valid operates computes es ef)
with_flags e op false d {s} {s'} cpu valid operates computes es es' =
    let same : s ≡ s' = cc es' in rw (← same) (with_flags_off e d s cpu valid computes es)

pub emit_arithmetic-Implements :
    {hop : AluOp} (d : GuestReg) (inst : IrInst) (o : Outcome) (cpu : Cpu)
    → inst.a ≡ reg d
    → RegIsValid d
    → SourceIsValid inst.b
    → SourceIsValid inst.c
    → Operates inst.opcode hop
    → step_alu (reg d) inst cpu.machine ≡ some o
    → Implements (emit_arithmetic (reg d) inst) o cpu
unfolding step_alu
emit_arithmetic-Implements {hop} d inst o cpu ea valid vb vc operates h =
    let m : Machine = cpu.machine in
    let w : RegWidth = d.width in
    let (u, eb, h₁) = >>=-eq-some (operand_value m.regs w inst.b) _ h in
    let (v, ec, h₂) = >>=-eq-some (operand_value m.regs w inst.c) _ h₁ in
    let (r, er, h₃) = >>=-eq-some (alu inst.opcode w u v) _ h₂ in
    let (s, es, h₄) = >>=-eq-some (write_reg m.regs d r) _ h₃ in
    let (s', es', eo) =
      map_some-eq-some (with_regs m)
        (set_flags (writes_nzcv inst) (flags_after inst.opcode w u v r) s) h₄ in
    let result : r ≡ alu_result hop w u v = cc (er, alu_result-alu w u v operates) in
    let computes =
      emit_operation-Computes (select inst).form inst.b inst.c w u v cpu operates vb vc
        (λ k form c. chosen_fits inst d k ea form c) eb ec in
    subst (λ (t : Outcome). Implements (emit_arithmetic (reg d) inst) t cpu) eo
      (with_flags _ inst.opcode (writes_nzcv inst) d cpu valid operates computes (rw result at es)
        (rw result at es'))
