-- ===== src/Jit/Optimizer/Visit/Arms.antt =====
-- src/jit/optimizer.rs: all arms of the match together.
use armx.Base.{
  ℕ, ◌/◌, ◌≡◌, refl, ap, subst, arith, some, none, List, set, Bool-cases, inl, inr,
  map_some-eq-some, >>=-eq-some,
}
use armx.Ir.Operand.{x64, GuestReg, Operand, reg, mem, guest_pc, is_general}
use armx.Ir.Inst.{
  Opcode, nop, unsupported, mov, add, sub, and, orr, eor, shift, load, store, branch, branch_cond,
  ret, IrInst,
}
use armx.Runtime.State.{GuestState}
use armx.Jit.Optimizer.{Optimizer, Constants, keep, visit, invalidate_dest}
use armx.Jit.Optimizer.Agree.{Agree, OperandIsValid, IsUnknown}
use armx.Jit.Optimizer.Visit.{
  AgreeAfter, VisitOk, visited, nothing, set?-in_range, Agree-write, Agree-other_write, ir,
  mov-VisitOk,
}
use armx.Jit.Optimizer.Visit.Alu.{
  binop-VisitOk, add-IsBinary, sub-IsBinary, and-IsBinary, orr-IsBinary, eor-IsBinary,
}
use armx.Jit.Optimizer.Visit.Shift.{ShiftIsValid, shift-VisitOk}
use armx.Meaning.{
  Machine, Outcome, running, exited, with_regs, leave, step, step_as, step_load, step_store,
  step_branch, step_branch_cond, step_ret, bits, address_of, write_reg, read_reg, operand_value,
  taken, store_bytes,
}

invalidate_dest-total :
    {constants : Constants} {gpr : List ℕ} (a : Operand)
    → Agree constants gpr
    → OperandIsValid a
    → (constants' : Constants) × (invalidate_dest a constants ≡ some constants')
unfolding invalidate_dest
invalidate_dest-total {constants} (reg d) h va = elim (Bool-cases (is_general d.kind)) [
  | inl g ↦ (set constants d.num none, rw g (set?-in_range d.num none h (va g)))
  | inr g ↦ (constants, rw g)
]
invalidate_dest-total {constants} a h va = (constants, refl)

-- An arm that keeps its instruction and forgets its destination.
module _ (next : ℕ) (m : Machine) (op : Opcode) (f : ℕ) (a b c : Operand) where
  invalidate-VisitOk :
      {constants : Constants} (o : Optimizer)
      → Agree constants m.regs.gpr
      → OperandIsValid a
      → ((constants' : Constants) (out : Outcome)
          → invalidate_dest a constants ≡ some constants'
          → step next (ir op f a b c) m ≡ some out
          → AgreeAfter constants' out)
      → VisitOk next m (ir op f a b c) (keep (ir op f a b c) o (invalidate_dest a constants))
  invalidate-VisitOk o h va after =
      let (constants', e) = invalidate_dest-total a h va in
      rw e (visited (record { same_step = λ out run. (run, after constants' out e run) }))

load-AgreeAfter :
    {constants constants' : Constants} (m : Machine) (a b : Operand) {out : Outcome}
    → Agree constants m.regs.gpr
    → invalidate_dest a constants ≡ some constants'
    → step_load a b m ≡ some out
    → AgreeAfter constants' out
unfolding step_load invalidate_dest
load-AgreeAfter {constants} {constants'} m (reg d) (mem o) h e run =
    let (address, _, run₁) = >>=-eq-some (address_of m.regs o) _ run in
    let (s, es, eo) = map_some-eq-some (with_regs m) _ run₁ in
    subst (AgreeAfter constants') eo (written d _ es e)
  where
    written :
        (d : GuestReg) (v : ℕ) {s : GuestState}
        → write_reg m.regs d v ≡ some s
        → invalidate_dest (reg d) constants ≡ some constants'
        → Agree constants' s.gpr
    written d v {s} es e = elim (Bool-cases (is_general d.kind)) [
      | inl g ↦ Agree-write m.regs d v h g nothing (rw g at e) es
      | inr g ↦
          let same : constants ≡ constants' = ground arith in
          subst (λ k. Agree k s.gpr) same (Agree-other_write m.regs d v h g es)
    ]
load-AgreeAfter m a b h e run = cc

left-AgreeAfter :
    (constants : Constants) (m : Machine) {out : Outcome}
    → some (exited m) ≡ some out
    → AgreeAfter constants out
left-AgreeAfter constants m {out} e =
    let same : exited m ≡ out = cc in subst (AgreeAfter constants) same tt

store-AgreeAfter :
    {constants constants' : Constants} (m : Machine) (a b : Operand) {out : Outcome}
    → Agree constants m.regs.gpr
    → invalidate_dest a constants ≡ some constants'
    → step_store a b m ≡ some out
    → AgreeAfter constants' out
unfolding step_store invalidate_dest
store-AgreeAfter {constants} {constants'} m (mem o) b {out} h e run =
    let (v, _, run₁) = >>=-eq-some (operand_value m.regs x64 b) _ run in
    let (address, _, run₂) = >>=-eq-some (address_of m.regs o) _ run₁ in
    let stored : running (record m { memory = store_bytes (bits o.width / 8) m.memory address v })
        ≡ out =
      cc in
    let same : constants ≡ constants' = cc in
    subst (AgreeAfter constants') stored (subst (λ k. Agree k m.regs.gpr) same h)
store-AgreeAfter m a b h e run = cc

branch-AgreeAfter :
    (constants : Constants) (m : Machine) (a : Operand) {out : Outcome}
    → step_branch a m ≡ some out
    → AgreeAfter constants out
unfolding step_branch
branch-AgreeAfter constants m (guest_pc t) run = left-AgreeAfter constants _ run
branch-AgreeAfter constants m a run = cc

branch_cond-AgreeAfter :
    (constants : Constants) (next : ℕ) (m : Machine) (a : Operand) (inst : IrInst) {out : Outcome}
    → step_branch_cond a inst next m ≡ some out
    → AgreeAfter constants out
unfolding step_branch_cond
branch_cond-AgreeAfter constants next m (guest_pc target) inst run =
    let (t, _, e) = map_some-eq-some _ (taken inst.b inst.c m.regs) run in
    left-AgreeAfter constants _ (ap some e)
branch_cond-AgreeAfter constants next m a inst run = cc

ret-AgreeAfter :
    (constants : Constants) (m : Machine) (a : Operand) {out : Outcome}
    → step_ret a m ≡ some out
    → AgreeAfter constants out
unfolding step_ret
ret-AgreeAfter constants m (reg r) run =
    let (v, _, e) = map_some-eq-some (leave m) (read_reg m.regs r) run in
    left-AgreeAfter constants _ (ap some e)
ret-AgreeAfter constants m a run = cc

-- Every arm, on an instruction whose operands have been rewritten.
pub visit-VisitOk :
    {constants : Constants} (op : Opcode) (next : ℕ) (m : Machine) (f : ℕ) (a b c : Operand)
    (o : Optimizer)
    → Agree constants m.regs.gpr
    → OperandIsValid a
    → OperandIsValid b
    → OperandIsValid c
    → IsUnknown constants b
    → (op ≡ shift → ShiftIsValid m.regs a b c)
    → VisitOk next m (ir op f a b c) (visit op (ir op f a b c) constants o)
unfolding visit step_as
visit-VisitOk {constants} nop next m f a b c o h va vb vc unknown shifts = visited (record {
  same_step =
      λ out run. let same : running m ≡ out = cc in (run, subst (AgreeAfter constants) same h);
})
visit-VisitOk {constants} unsupported next m f a b c o h va vb vc unknown shifts =
    visited (record { same_step = λ out run. cc })
visit-VisitOk mov next m f a b c o h va vb vc unknown shifts =
    mov-VisitOk next m f a b c o h va vb unknown
visit-VisitOk add next m f a b c o h va vb vc unknown shifts =
    binop-VisitOk add add-IsBinary next m f a b c o h va vb vc
visit-VisitOk sub next m f a b c o h va vb vc unknown shifts =
    binop-VisitOk sub sub-IsBinary next m f a b c o h va vb vc
visit-VisitOk and next m f a b c o h va vb vc unknown shifts =
    binop-VisitOk and and-IsBinary next m f a b c o h va vb vc
visit-VisitOk orr next m f a b c o h va vb vc unknown shifts =
    binop-VisitOk orr orr-IsBinary next m f a b c o h va vb vc
visit-VisitOk eor next m f a b c o h va vb vc unknown shifts =
    binop-VisitOk eor eor-IsBinary next m f a b c o h va vb vc
visit-VisitOk shift next m f a b c o h va vb vc unknown shifts =
    shift-VisitOk next m f a b c o h va vc (shifts refl)
visit-VisitOk load next m f a b c o h va vb vc unknown shifts =
    invalidate-VisitOk next m load f a b c o h va (λ k out e run. load-AgreeAfter m a b h e run)
visit-VisitOk store next m f a b c o h va vb vc unknown shifts =
    invalidate-VisitOk next m store f a b c o h va (λ k out e run. store-AgreeAfter m a b h e run)
visit-VisitOk branch next m f a b c o h va vb vc unknown shifts =
    invalidate-VisitOk next m branch f a b c o h va (λ k out e run. branch-AgreeAfter k m a run)
visit-VisitOk branch_cond next m f a b c o h va vb vc unknown shifts =
    invalidate-VisitOk next m branch_cond f a b c o h va
      (λ k out e run. branch_cond-AgreeAfter k next m a (ir branch_cond f a b c) run)
visit-VisitOk ret next m f a b c o h va vb vc unknown shifts =
    invalidate-VisitOk next m ret f a b c o h va (λ k out e run. ret-AgreeAfter k m a run)
visit-VisitOk op next m f a b c o h va vb vc unknown shifts =
    invalidate-VisitOk next m op f a b c o h va (λ k out e run. cc)
