-- ===== src/Codegen/Correct/Alu.antt =====
-- src/codegen/x86_64.rs: the operations of the arithmetic instructions.
use armx.Base.{
  ℕ, ◌+◌, ◌-◌, ◌%◌, ◌^◌, ◌≡◌, refl, ap, ◌∙◌, subst, arith, List, ◌++◌, Option, some, u32, leb,
  if◌then◌else◌,
}
use armx.Ir.Operand.{RegWidth, w32, x64, GuestReg, Operand, reg, imm}
use armx.Ir.Inst.{Opcode, add, sub, and, orr, eor}
use armx.Runtime.State.{GuestState}
use armx.Jit.Selection.{InstForm, immediate, sign_extend_32}
use armx.Codegen.{Emit, emitted, ◌>>◌, or_panic, load_state, load_operand, emit_operation}
use armx.Codegen.Encoding.{rax, rcx, binop, binop_imm}
use armx.Codegen.Correct.Executes.{Executes, Executes-one, Executes-++, four_bytes}
use armx.Codegen.Correct.Sources.{SourceIsValid, load_operand-Loads}
use armx.Host.Cpu.{Cpu, AluOp, put_reg, alu_result, alu_flags}
use armx.Host.Decoding.{decode}
use armx.Host.Execution.{execute, tick, alu_step}
use armx.Meaning.{trunc, alu, operand_value}

-- The host's operation for an opcode.
pub data Operates : Opcode → AluOp → Type 0 where
  add_op : Operates add AluOp.add
  sub_op : Operates sub AluOp.sub
  and_op : Operates and AluOp.and
  orr_op : Operates orr AluOp.or
  eor_op : Operates eor AluOp.xor

-- The result of an operation is that of the instruction.
pub alu_result-alu :
    {op : Opcode} {hop : AluOp} (w : RegWidth) (a b : ℕ)
    → Operates op hop
    → alu op w a b ≡ some (alu_result hop w a b)
unfolding alu alu_result
alu_result-alu w a b add_op = refl
alu_result-alu w a b sub_op = refl
alu_result-alu w a b and_op = refl
alu_result-alu w a b orr_op = refl
alu_result-alu w a b eor_op = refl

binop-Executes :
    {op : Opcode} {hop : AluOp} (w : RegWidth) (cpu : Cpu)
    → Operates op hop
    → (code : List ℕ) × (binop op w ≡ some code) × Executes code cpu (alu_step hop w rax cpu.c cpu)
unfolding binop tick decode execute
binop-Executes w32 cpu add_op = (_, refl, Executes-one _ cpu _ (λ rest. refl))
binop-Executes x64 cpu add_op = (_, refl, Executes-one _ cpu _ (λ rest. refl))
binop-Executes w32 cpu sub_op = (_, refl, Executes-one _ cpu _ (λ rest. refl))
binop-Executes x64 cpu sub_op = (_, refl, Executes-one _ cpu _ (λ rest. refl))
binop-Executes w32 cpu and_op = (_, refl, Executes-one _ cpu _ (λ rest. refl))
binop-Executes x64 cpu and_op = (_, refl, Executes-one _ cpu _ (λ rest. refl))
binop-Executes w32 cpu orr_op = (_, refl, Executes-one _ cpu _ (λ rest. refl))
binop-Executes x64 cpu orr_op = (_, refl, Executes-one _ cpu _ (λ rest. refl))
binop-Executes w32 cpu eor_op = (_, refl, Executes-one _ cpu _ (λ rest. refl))
binop-Executes x64 cpu eor_op = (_, refl, Executes-one _ cpu _ (λ rest. refl))

abbrev after_imm : AluOp → RegWidth → Cpu → List ℕ → ℕ → Option (List ℕ × Cpu)
after_imm hop w cpu rest v = some (rest, alu_step hop w rax (sign_extend_32 v) cpu)

binop_imm-Executes :
    {op : Opcode} {hop : AluOp} (w : RegWidth) (v : ℕ) (cpu : Cpu)
    → Operates op hop
    → (code : List ℕ) × (binop_imm op w v ≡ some code)
      × Executes code cpu (alu_step hop w rax (sign_extend_32 (v % 2 ^ 32)) cpu)
unfolding binop_imm tick decode execute
binop_imm-Executes w32 v cpu add_op =
    (_, refl, Executes-one _ cpu _ (λ rest. ap (after_imm AluOp.add w32 cpu rest) (four_bytes v)))
binop_imm-Executes x64 v cpu add_op =
    (_, refl, Executes-one _ cpu _ (λ rest. ap (after_imm AluOp.add x64 cpu rest) (four_bytes v)))
binop_imm-Executes w32 v cpu sub_op =
    (_, refl, Executes-one _ cpu _ (λ rest. ap (after_imm AluOp.sub w32 cpu rest) (four_bytes v)))
binop_imm-Executes x64 v cpu sub_op =
    (_, refl, Executes-one _ cpu _ (λ rest. ap (after_imm AluOp.sub x64 cpu rest) (four_bytes v)))
binop_imm-Executes w32 v cpu and_op =
    (_, refl, Executes-one _ cpu _ (λ rest. ap (after_imm AluOp.and w32 cpu rest) (four_bytes v)))
binop_imm-Executes x64 v cpu and_op =
    (_, refl, Executes-one _ cpu _ (λ rest. ap (after_imm AluOp.and x64 cpu rest) (four_bytes v)))
binop_imm-Executes w32 v cpu orr_op =
    (_, refl, Executes-one _ cpu _ (λ rest. ap (after_imm AluOp.or w32 cpu rest) (four_bytes v)))
binop_imm-Executes x64 v cpu orr_op =
    (_, refl, Executes-one _ cpu _ (λ rest. ap (after_imm AluOp.or x64 cpu rest) (four_bytes v)))
binop_imm-Executes w32 v cpu eor_op =
    (_, refl, Executes-one _ cpu _ (λ rest. ap (after_imm AluOp.xor w32 cpu rest) (four_bytes v)))
binop_imm-Executes x64 v cpu eor_op =
    (_, refl, Executes-one _ cpu _ (λ rest. ap (after_imm AluOp.xor x64 cpu rest) (four_bytes v)))

-- The result in RAX, with the flags of the operation.
pub record Computes (e : Emit) (hop : AluOp) (w : RegWidth) (a b : ℕ) (cpu : Cpu) : Type 0 where
  pub code : List ℕ
  pub emits : e ≡ emitted code
  pub after : Cpu
  pub executes : Executes code cpu after
  pub result : after.a ≡ alu_result hop w a b
  pub flags : after.flags ≡ alu_flags hop w a b (alu_result hop w a b)
  pub machine : after.machine ≡ cpu.machine

operation-Computes :
    {op : Opcode} {hop : AluOp} (b c : Operand) (w : RegWidth) (u v : ℕ) (cpu : Cpu)
    → Operates op hop
    → SourceIsValid b
    → SourceIsValid c
    → operand_value cpu.machine.regs w b ≡ some u
    → operand_value cpu.machine.regs w c ≡ some v
    → Computes (load_operand b rax w >> load_operand c rcx w >> or_panic (binop op w)) hop w u v cpu
operation-Computes b c w u v cpu operates vb vc eb ec =
    let left = load_operand-Loads b rax w u cpu vb eb in
    let cpu₁ : Cpu = put_reg rax left.value (record cpu { flags = left.flags }) in
    let right = load_operand-Loads c rcx w v cpu₁ vc ec in
    let cpu₂ : Cpu = put_reg rcx right.value (record cpu₁ { flags = right.flags }) in
    let (code, emits, runs) = binop-Executes w cpu₂ operates in
    rw (left.emits, right.emits, emits)
      (record {
        code = left.code ++ (right.code ++ code);
        emits = refl;
        after = _;
        executes = Executes-++ left.executes (Executes-++ right.executes runs);
        result = rw (left.right, right.right) refl;
        flags = rw (left.right, right.right) refl;
        machine = refl;
      })

loaded_emits :
    (lhs : GuestReg) (w : RegWidth) (code : List ℕ)
    → load_operand (reg lhs) rax w ≡ emitted code
    → load_state rax lhs ≡ emitted code
unfolding load_operand
loaded_emits lhs w code e = e

imm_value :
    (s : GuestState) (w : RegWidth) (k v : ℕ) → operand_value s w (imm k) ≡ some v → trunc w k ≡ v
unfolding operand_value
imm_value s w k v e = cc e

immediate-Computes :
    {op : Opcode} {hop : AluOp} (lhs : GuestReg) (k : ℕ) (w : RegWidth) (u : ℕ) (cpu : Cpu)
    → Operates op hop
    → SourceIsValid (reg lhs)
    → trunc w (sign_extend_32 k) ≡ trunc w k
    → operand_value cpu.machine.regs w (reg lhs) ≡ some u
    → Computes (load_state rax lhs >> or_panic (binop_imm op w k)) hop w u (trunc w k) cpu
immediate-Computes lhs k w u cpu operates valid fits eb =
    let left = load_operand-Loads (reg lhs) rax w u cpu valid eb in
    let cpu₁ : Cpu = put_reg rax left.value (record cpu { flags = left.flags }) in
    let (code, emits, runs) = binop_imm-Executes w k cpu₁ operates in
    let low : trunc w (sign_extend_32 (k % 2 ^ 32)) ≡ trunc w k =
      ap (trunc w) (extended k) ∙ fits in
    rw (loaded_emits lhs w left.code left.emits, emits)
      (record {
        code = left.code ++ code;
        emits = refl;
        after = _;
        executes = Executes-++ left.executes runs;
        result = rw (left.right, low) refl;
        flags = rw (left.right, low) refl;
        machine = refl;
      })
  where
    extended : (k : ℕ) → sign_extend_32 (k % 2 ^ 32) ≡ sign_extend_32 k
    extended k =
        let same : u32 (k % 2 ^ 32) ≡ u32 k = omega arith in
        ap (λ (n : ℕ). if leb (2 ^ 31) n then n + 2 ^ 64 - 2 ^ 32 else n) same

-- With the form that the selector chooses.
pub emit_operation-Computes :
    {op : Opcode} {hop : AluOp} (form : InstForm) (b c : Operand) (w : RegWidth) (u v : ℕ)
    (cpu : Cpu)
    → Operates op hop
    → SourceIsValid b
    → SourceIsValid c
    → ((k : ℕ) → form ≡ immediate → c ≡ imm k → trunc w (sign_extend_32 k) ≡ trunc w k)
    → operand_value cpu.machine.regs w b ≡ some u
    → operand_value cpu.machine.regs w c ≡ some v
    → Computes (emit_operation form b c op w) hop w u v cpu
emit_operation-Computes {op = op} {hop = hop} immediate (reg lhs) (imm k) w u v cpu operates vb vc
      fits eb ec =
    subst (λ (t : ℕ). Computes (load_state rax lhs >> or_panic (binop_imm op w k)) hop w u t cpu)
      (imm_value cpu.machine.regs w k v ec)
      (immediate-Computes lhs k w u cpu operates vb (fits k refl refl) eb)
emit_operation-Computes form b c w u v cpu operates vb vc fits eb ec =
    operation-Computes b c w u v cpu operates vb vc eb ec
