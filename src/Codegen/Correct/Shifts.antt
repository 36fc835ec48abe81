-- ===== src/Codegen/Correct/Shifts.antt =====
-- src/codegen/x86_64.rs, `emit_block`: the arm of the shifts by a register.
use armx.Base.{
  ℕ, ◌%◌, ◌≡◌, refl, subst, arith, ◌++◌, some, map_some, map_some-eq-some, >>=-eq-some, ◌>>=◌,
}
use armx.Ir.Operand.{RegWidth, w32, x64, ShiftKind, GuestReg, Operand, reg, shift_reg}
use armx.Ir.Inst.{IrInst}
use armx.Codegen.{emitted, ◌>>◌, load_operand, load_state, store_state, emit_shift}
use armx.Codegen.Encoding.{rax, rcx, emit_nzcv_from_x86_flags}
use armx.Codegen.Correct.Executes.{Executes, Executes-one, Executes-++}
use armx.Codegen.Encoding
use armx.Codegen.Correct.Decoded.{decode-shift_reg}
use armx.Host.Execution.{tick, execute}
use armx.Codegen.Correct.Operands.{load_state-Loads, with_state}
use armx.Codegen.Correct.Sources.{SourceIsValid, load_operand-Loads}
use armx.Codegen.Correct.Implements.{Implements}
use armx.Jit.Optimizer.Agree.{RegIsValid}
use armx.Host.Cpu.{Cpu, put_reg}
use armx.Meaning.{
  Outcome, with_regs, step_shift, shift_value, read_reg, bits, trunc, operand_value, write_reg,
}
use armx.Codegen.Correct.Results.{stored}

abbrev pub AmountIsValid : Operand → Type 0
AmountIsValid (shift_reg v amount kind) = RegIsValid amount
AmountIsValid _ = Unit

amount_bits : (w w' : RegWidth) (u v : ℕ) → trunc w' u ≡ trunc w' v → u % bits w ≡ v % bits w
amount_bits w32 w32 u v e = omega arith
amount_bits w32 x64 u v e = omega arith
amount_bits x64 w32 u v e = omega arith
amount_bits x64 x64 u v e = omega arith

shift_reg-Executes :
    (kind : ShiftKind) (w : RegWidth) (v by : ℕ) (cpu : Cpu)
    → trunc w cpu.a ≡ v
    → cpu.c % bits w ≡ by % bits w
    → Executes
        (Encoding.shift_reg kind w)
        cpu
        (put_reg rax (shift_value kind (bits w) v (by % bits w)) cpu)
unfolding tick execute
shift_reg-Executes kind w v by cpu ea ec =
    Executes-one _ cpu _ (λ rest. rw (tick, decode-shift_reg kind w rest, ea, ec))

shift_by :
    (d : GuestReg) (b : Operand) (g : GuestReg) (kind : ShiftKind) (o : Outcome) (cpu : Cpu)
    → RegIsValid d
    → SourceIsValid b
    → RegIsValid g
    → (operand_value cpu.machine.regs d.width b >>= λ v. read_reg cpu.machine.regs g >>= λ by.
        map_some
          (with_regs cpu.machine)
          (write_reg cpu.machine.regs d (shift_value kind (bits d.width) v (by % bits d.width))))
      ≡ some o
    → Implements
        (load_operand b rax d.width
          >> (load_state rcx g >> emitted (Encoding.shift_reg kind d.width))
          >> emitted (store_state d rax))
        o
        cpu
shift_by d b g kind o cpu valid vb vg h =
    let w : RegWidth = d.width in
    let (v, eb, h₁) = >>=-eq-some (operand_value cpu.machine.regs w b) _ h in
    let (by, eg, h₂) = >>=-eq-some (read_reg cpu.machine.regs g) _ h₁ in
    let (s, es, eo) =
      map_some-eq-some (with_regs cpu.machine) (write_reg cpu.machine.regs d _) h₂ in
    let left = load_operand-Loads b rax w v cpu vb eb in
    let cpu₁ : Cpu = put_reg rax left.value (record cpu { flags = left.flags }) in
    let right = load_state-Loads rcx g g.width by cpu₁ vg eg in
    let cpu₂ : Cpu = put_reg rcx right.value (record cpu₁ { flags = right.flags }) in
    let shifted =
      shift_reg-Executes kind w v by cpu₂ left.right
        (amount_bits w g.width right.value by right.right) in
    let result : ℕ = shift_value kind (bits w) v (by % bits w) in
    subst
      (λ (t : Outcome).
        Implements
          (load_operand b rax w
            >> (load_state rcx g >> emitted (Encoding.shift_reg kind w))
            >> emitted (store_state d rax))
          t cpu)
      eo
      (rw (left.emits, right.emits)
        (record {
          code = left.code ++ ((right.code ++ Encoding.shift_reg kind w) ++ store_state d rax);
          emits = refl;
          after = with_state (put_reg rax result cpu₂) s;
          executes = Executes-++ left.executes (
              Executes-++ (Executes-++ right.executes shifted)
                (stored d result (put_reg rax result cpu₂) valid refl es));
          machine = refl;
        }))

pub emit_shift-Implements :
    (d : GuestReg) (inst : IrInst) (o : Outcome) (cpu : Cpu)
    → RegIsValid d
    → SourceIsValid inst.b
    → AmountIsValid inst.c
    → step_shift (reg d) inst.b inst.c cpu.machine ≡ some o
    → Implements (emit_shift (reg d) inst) o cpu
unfolding step_shift
emit_shift-Implements d inst o cpu valid vb vc h = amount inst.c refl
  where
    amount : (c : Operand) → inst.c ≡ c → Implements (emit_shift (reg d) inst) o cpu
    amount (shift_reg _ g kind) ec =
        rw ec (shift_by d inst.b g kind o cpu valid vb (rw ec at vc) (rw ec at h))
    amount c ec = cc (rw ec at h)
