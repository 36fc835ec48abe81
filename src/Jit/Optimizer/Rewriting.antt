-- ===== src/Jit/Optimizer/Rewriting.antt =====
-- src/jit/optimizer.rs, `rewrite_operand`, against the meaning of instructions.
use armx.Base.{ℕ, ◌≡◌, refl, ap, ◌∙◌, Bool, some, none, map_some-eq-some}
use armx.Ir.Operand.{x64, ror, GuestReg, Operand, reg, imm, shift_reg, mem, guest_pc}
use armx.Ir.Inst.{Opcode, mov, add, sub, and, orr, eor, shift, load, store, branch_cond, IrInst}
use armx.Runtime.State.{GuestState}
use armx.Jit.Optimizer.{Optimizer, Constants, Visit, optimize_inst}
use armx.Jit.Optimizer.Agree.{
  Agree, OperandIsValid, Rewrites, same, replaced, Rewrites-value, Rewrites-IsValid,
  rewrite_operand-Rewrites, rewrite_operand-IsUnknown,
}
use armx.Jit.Optimizer.Visit.{VisitOk, visited, ir}
use armx.Jit.Optimizer.Visit.Shift.{ShiftIsValid}
use armx.Jit.Optimizer.Visit.Arms.{visit-VisitOk}
use armx.Meaning.{
  Machine, Outcome, step, step_as, step_mov, step_alu, step_shift, step_load, step_store,
  step_branch_cond, operand_value, taken,
}

-- A shift's operands, as `lift_one_at` makes them: the shifted register twice. A 32-bit rotation is
-- excluded.
abbrev pub ShiftOperands : Operand → Operand → Operand → Type 0
ShiftOperands (reg d) b (shift_reg v a kind) = (b ≡ reg v) × (kind ≡ ror → d.width ≡ x64)
ShiftOperands a b c = Unit

pub record InstIsValid (inst : IrInst) : Type 0 where
  pub destination : OperandIsValid inst.a
  pub left : OperandIsValid inst.b
  pub right : OperandIsValid inst.c
  pub shifted : inst.opcode ≡ shift → ShiftOperands inst.a inst.b inst.c

module _ (m : Machine) {b b' c c' : Operand} (rb : Rewrites m.regs b b')
    (rc : Rewrites m.regs c c') where
  mov-rewritten : (a : Operand) → step_mov a b' m ≡ step_mov a b m
  unfolding step_mov
  mov-rewritten (reg d) = rw (Rewrites-value rb d.width)
  mov-rewritten a = refl

  alu-rewritten :
      (op : Opcode) (f : ℕ) (a : Operand)
      → step_alu a (ir op f a b' c') m ≡ step_alu a (ir op f a b c) m
  unfolding step_alu
  alu-rewritten op f (reg d) = rw (Rewrites-value rb d.width, Rewrites-value rc d.width)
  alu-rewritten op f a = refl

  store-rewritten : (a : Operand) → step_store a b' m ≡ step_store a b m
  unfolding step_store
  store-rewritten (mem o) = rw (Rewrites-value rb x64)
  store-rewritten a = refl

shift-rewritten :
    (m : Machine) {b b' c c' : Operand} (a : Operand) {out : Outcome}
    → Rewrites m.regs b b'
    → Rewrites m.regs c c'
    → step_shift a b c m ≡ some out
    → step_shift a b' c' m ≡ some out
unfolding step_shift
shift-rewritten m (reg d) rb (same {op = shift_reg v a kind}) run =
    rw (Rewrites-value rb d.width) run
shift-rewritten m a rb rc run = cc

load-rewritten :
    (m : Machine) {b b' : Operand} (a : Operand) {out : Outcome}
    → Rewrites m.regs b b'
    → step_load a b m ≡ some out
    → step_load a b' m ≡ some out
unfolding step_load
load-rewritten m a same run = run
load-rewritten m (reg d) (replaced h) run = cc
load-rewritten m a (replaced h) run = cc

taken-register : (s : GuestState) (b : Operand) (r : GuestReg) → taken b (reg r) s ≡ none
unfolding taken
taken-register s (imm cond) r = refl
taken-register s b r = refl

taken-rewritten :
    (s : GuestState) {b b' c c' : Operand} {t : Bool}
    → Rewrites s b b'
    → Rewrites s c c'
    → taken b c s ≡ some t
    → taken b' c' s ≡ some t
unfolding taken
taken-rewritten s same same run = run
taken-rewritten s (replaced h) (same {op = imm k}) run = rw (Rewrites-value (replaced h) x64) run
taken-rewritten s {b = b} same (replaced {r = r} h) run = cc (taken-register s b r)
taken-rewritten s rb rc run = cc

branch_cond-rewritten :
    (next : ℕ) (m : Machine) (f : ℕ) {b b' c c' : Operand} (a : Operand) {out : Outcome}
    → Rewrites m.regs b b'
    → Rewrites m.regs c c'
    → step_branch_cond a (ir branch_cond f a b c) next m ≡ some out
    → step_branch_cond a (ir branch_cond f a b' c') next m ≡ some out
unfolding step_branch_cond
branch_cond-rewritten next m f {b} {b'} {c} {c'} (guest_pc target) rb rc run =
    let (t, e, leads) = map_some-eq-some _ (taken b c m.regs) run in
    rw (taken-rewritten m.regs rb rc e) (ap some leads)
branch_cond-rewritten next m f a rb rc run = cc

-- Every opcode.
step-rewritten :
    (op : Opcode) (next : ℕ) (m : Machine) (f : ℕ) (a : Operand) {b b' c c' : Operand}
    {out : Outcome}
    → Rewrites m.regs b b'
    → Rewrites m.regs c c'
    → step next (ir op f a b c) m ≡ some out
    → step next (ir op f a b' c') m ≡ some out
unfolding step_as
step-rewritten mov next m f a rb rc run = mov-rewritten m rb rc a ∙ run
step-rewritten add next m f a rb rc run = alu-rewritten m rb rc add f a ∙ run
step-rewritten sub next m f a rb rc run = alu-rewritten m rb rc sub f a ∙ run
step-rewritten and next m f a rb rc run = alu-rewritten m rb rc and f a ∙ run
step-rewritten orr next m f a rb rc run = alu-rewritten m rb rc orr f a ∙ run
step-rewritten eor next m f a rb rc run = alu-rewritten m rb rc eor f a ∙ run
step-rewritten shift next m f a rb rc run = shift-rewritten m a rb rc run
step-rewritten load next m f a rb rc run = load-rewritten m a rb run
step-rewritten store next m f a rb rc run = store-rewritten m rb rc a ∙ run
step-rewritten branch_cond next m f a rb rc run = branch_cond-rewritten next m f a rb rc run
step-rewritten op next m f a rb rc run = run

shift-ShiftIsValid :
    {s : GuestState} (a : Operand) {b b' c c' : Operand}
    → Rewrites s b b'
    → Rewrites s c c'
    → ShiftOperands a b c
    → ShiftIsValid s a b' c'
shift-ShiftIsValid {s} (reg d) rb (same {op = shift_reg v a kind}) h =
    (λ w. Rewrites-value rb w ∙ ap (operand_value s w) h.0, h.1)
shift-ShiftIsValid a rb rc h = tt

VisitOk-instead :
    {next : ℕ} {m : Machine} {inst inst' : IrInst} {v : Visit}
    → ((out : Outcome) → step next inst m ≡ some out → step next inst' m ≡ some out)
    → VisitOk next m inst' v
    → VisitOk next m inst v
VisitOk-instead follows (visited r) =
    visited (record { same_step = λ out run. r.same_step out (follows out run) })

-- One round of the loop keeps the effect of its instruction and the invariant.
pub optimize_inst-VisitOk :
    {constants : Constants} (next : ℕ) (m : Machine) (inst : IrInst) (o : Optimizer)
    → Agree constants m.regs.gpr
    → InstIsValid inst
    → VisitOk next m inst (optimize_inst o constants inst)
unfolding optimize_inst
optimize_inst-VisitOk {constants} next m inst o h valid =
    let (b, o', eb, rb) = rewrite_operand-Rewrites m.regs o inst.b h valid.left in
    let (c, o'', ec, rc) = rewrite_operand-Rewrites m.regs o' inst.c h valid.right in
    rw (eb, ec)
      (VisitOk-instead (λ out run. step-rewritten inst.opcode next m inst.flags inst.a rb rc run)
        (visit-VisitOk inst.opcode next m inst.flags inst.a b c o'' h valid.destination
          (Rewrites-IsValid rb valid.left) (Rewrites-IsValid rc valid.right)
          (rewrite_operand-IsUnknown constants o inst.b eb)
          (λ e. shift-ShiftIsValid inst.a rb rc (valid.shifted e))))
