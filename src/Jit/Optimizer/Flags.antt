-- ===== src/Jit/Optimizer/Flags.antt =====
-- src/jit/optimizer.rs: the instructions that write the flags, after the pass.
use armx.Base.{
  ℕ, ◌≡◌, refl, subst, Bool, true, false, List, [], ◌∷◌, Option, some, none, ◌>>=◌, >>=-eq-some,
  Bool-cases, inl, inr, if◌then◌else◌, set?,
}
use armx.Ir.Operand.{GuestReg, ShiftKind, Operand, reg, imm, shift_reg, is_general}
use armx.Ir.Inst.{
  Opcode, nop, mov, add, sub, and, orr, eor, shift, unsupported, IrInst, writes_nzcv,
}
use armx.Jit.Optimizer.{
  Optimizer, Constants, Visit, keep, as_mov, fold_into, simplify_into, simplify_identity,
  identity_source, count_simplified, fold_known, visit_binop, fold_known_shift, visit_shift_by,
  visit_shift, visit, visit_mov, constant_operand, invalidate_dest, rewrite_operand, optimize_inst,
  optimize_insts,
}
use armx.Jit.Optimizer.Fold.{fold_binop, fold_shift}
use armx.Codegen.Total.{FlagsFit, AllFlagsFit}

abbrev VisitFits : Visit → Type 0
VisitFits (some visited) = FlagsFit visited.0
VisitFits none = Unit

bind-VisitFits :
    {A : Type 0} (o : Option A) (f : A → Visit) → ((a : A) → VisitFits (f a)) → VisitFits (o >>= f)
bind-VisitFits (some a) f h = h a
bind-VisitFits none f h = tt

keep-VisitFits :
    (inst : IrInst) (o : Optimizer) (constants : Option Constants)
    → FlagsFit inst
    → VisitFits (keep inst o constants)
keep-VisitFits inst o (some constants) h = h
keep-VisitFits inst o none h = tt

-- A move of what was folded writes no flags.
moved_fits :
    (inst : IrInst) (source : Operand) → writes_nzcv inst ≡ false → FlagsFit (as_mov inst source)
moved_fits inst source off on = cc (off, on)

fold_into-VisitFits :
    (inst : IrInst) (dst : GuestReg) (value : ℕ) (constants : Constants) (o : Optimizer)
    → FlagsFit inst
    → VisitFits (fold_into inst dst value constants o)
unfolding fold_into
fold_into-VisitFits inst dst value constants o h = elim (Bool-cases (writes_nzcv inst)) [
  | inl on ↦ rw (fold_into, on) (keep-VisitFits inst o (set? constants dst.num none) h)
  | inr off ↦
      rw (fold_into, off)
        (keep-VisitFits (as_mov inst (imm value)) _ (set? constants dst.num (some value))
          (moved_fits inst (imm value) off))
]

simplified_fits :
    (inst : IrInst) (o : Optimizer) (constants : Constants) (source : Option Operand)
    → writes_nzcv inst ≡ false
    → FlagsFit inst
    → VisitFits (
        count_simplified o constants
          (elim source [ none ↦ (inst, false) | some s ↦ (as_mov inst s, true) ]))
simplified_fits inst o constants (some s) off h = moved_fits inst s off
simplified_fits inst o constants none off h = h

simplify_into-VisitFits :
    (inst : IrInst) (dst : GuestReg) (constants : Constants) (o : Optimizer)
    → FlagsFit inst
    → VisitFits (simplify_into inst dst constants o)
unfolding simplify_into simplify_identity
simplify_into-VisitFits inst dst constants o h =
    bind-VisitFits (set? constants dst.num none) _
      (λ constants'. go constants' (writes_nzcv inst) refl)
  where
    go :
        (constants' : Constants) (on : Bool)
        → writes_nzcv inst ≡ on
        → VisitFits (
            if on
            then some (inst, constants', o)
            else count_simplified o constants' (simplify_identity inst dst.width))
    go constants' true e = h
    go constants' false e =
        simplified_fits inst o constants' (identity_source inst.opcode inst.b inst.c dst.width) e h

fold_known-VisitFits :
    (inst : IrInst) (dst : GuestReg) (constants : Constants) (o : Optimizer) (l r : Option ℕ)
    → FlagsFit inst
    → VisitFits (fold_known inst dst constants o l r)
unfolding fold_known
fold_known-VisitFits inst dst constants o (some l) (some r) h =
    bind-VisitFits (fold_binop inst.opcode l r dst.width) _
      (λ value. fold_into-VisitFits inst dst value constants o h)
fold_known-VisitFits inst dst constants o (some l) none h =
    simplify_into-VisitFits inst dst constants o h
fold_known-VisitFits inst dst constants o none r h = simplify_into-VisitFits inst dst constants o h

visit_binop-VisitFits :
    (a : Operand) (inst : IrInst) (constants : Constants) (o : Optimizer)
    → FlagsFit inst
    → VisitFits (visit_binop a inst constants o)
unfolding visit_binop
visit_binop-VisitFits (reg dst) inst constants o h = elim (Bool-cases (is_general dst.kind)) [
  | inl g ↦
      rw (visit_binop, g)
        (bind-VisitFits (constant_operand inst.b constants) _ (λ l.
          bind-VisitFits (constant_operand inst.c constants) _
            (λ r. fold_known-VisitFits inst dst constants o l r h)))
  | inr g ↦ rw (visit_binop, g) h
]
visit_binop-VisitFits a inst constants o h = h

fold_known_shift-VisitFits :
    (inst : IrInst) (dst : GuestReg) (kind : ShiftKind) (constants : Constants) (o : Optimizer)
    (v a : Option ℕ)
    → FlagsFit inst
    → VisitFits (fold_known_shift inst dst kind constants o v a)
unfolding fold_known_shift
fold_known_shift-VisitFits inst dst kind constants o (some v) (some a) h =
    fold_into-VisitFits inst dst (fold_shift v a kind dst.width) constants o h
fold_known_shift-VisitFits inst dst kind constants o (some v) none h =
    keep-VisitFits inst o (set? constants dst.num none) h
fold_known_shift-VisitFits inst dst kind constants o none a h =
    keep-VisitFits inst o (set? constants dst.num none) h

visit_shift_by-VisitFits :
    (c : Operand) (inst : IrInst) (dst : GuestReg) (constants : Constants) (o : Optimizer)
    → FlagsFit inst
    → VisitFits (visit_shift_by c inst dst constants o)
unfolding visit_shift_by
visit_shift_by-VisitFits (shift_reg v a kind) inst dst constants o h =
    bind-VisitFits (constant_operand (reg v) constants) _ (λ value.
      bind-VisitFits (constant_operand (reg a) constants) _
        (λ amount. fold_known_shift-VisitFits inst dst kind constants o value amount h))
visit_shift_by-VisitFits c inst dst constants o h =
    keep-VisitFits inst o (set? constants dst.num none) h

visit_shift-VisitFits :
    (a : Operand) (inst : IrInst) (constants : Constants) (o : Optimizer)
    → FlagsFit inst
    → VisitFits (visit_shift a inst constants o)
unfolding visit_shift
visit_shift-VisitFits (reg dst) inst constants o h = elim (Bool-cases (is_general dst.kind)) [
  | inl g ↦ rw (visit_shift, g) (visit_shift_by-VisitFits inst.c inst dst constants o h)
  | inr g ↦ rw (visit_shift, g) h
]
visit_shift-VisitFits a inst constants o h = h

visit-VisitFits :
    (op : Opcode) (inst : IrInst) (constants : Constants) (o : Optimizer)
    → FlagsFit inst
    → VisitFits (visit op inst constants o)
unfolding visit
visit-VisitFits nop inst constants o h = h
visit-VisitFits mov inst constants o h = keep-VisitFits inst o (visit_mov inst.a inst.b constants) h
visit-VisitFits add inst constants o h = visit_binop-VisitFits inst.a inst constants o h
visit-VisitFits sub inst constants o h = visit_binop-VisitFits inst.a inst constants o h
visit-VisitFits and inst constants o h = visit_binop-VisitFits inst.a inst constants o h
visit-VisitFits orr inst constants o h = visit_binop-VisitFits inst.a inst constants o h
visit-VisitFits eor inst constants o h = visit_binop-VisitFits inst.a inst constants o h
visit-VisitFits shift inst constants o h = visit_shift-VisitFits inst.a inst constants o h
visit-VisitFits unsupported inst constants o h = h
visit-VisitFits op inst constants o h = keep-VisitFits inst o (invalidate_dest inst.a constants) h

optimize_inst-VisitFits :
    (o : Optimizer) (constants : Constants) (inst : IrInst)
    → FlagsFit inst
    → VisitFits (optimize_inst o constants inst)
unfolding optimize_inst
optimize_inst-VisitFits o constants inst h =
    bind-VisitFits (rewrite_operand o inst.b constants) _ (λ b.
      bind-VisitFits (rewrite_operand b.1 inst.c constants) _
        (λ c. visit-VisitFits inst.opcode (record inst { b = b.0; c = c.0 }) constants c.1 h))

pub optimize_insts-AllFlagsFit :
    (insts : List IrInst) (o : Optimizer) (constants : Constants) {insts' : List IrInst}
    {o' : Optimizer}
    → AllFlagsFit insts
    → optimize_insts o constants insts ≡ some (insts', o')
    → AllFlagsFit insts'
unfolding optimize_insts
optimize_insts-AllFlagsFit [] o constants {insts'} fit e =
    let same : [] ≡ insts' = cc e in subst AllFlagsFit same tt
optimize_insts-AllFlagsFit (inst ∷ insts) o constants {insts'} (first, fit) e =
    let (v, ev, e₁) = >>=-eq-some (optimize_inst o constants inst) _ e in
    let (rest, er, e₂) = >>=-eq-some (optimize_insts v.2 v.1 insts) _ e₁ in
    let same : v.0 ∷ rest.0 ≡ insts' = cc e₂ in
    subst AllFlagsFit same (
      subst VisitFits ev (optimize_inst-VisitFits o constants inst first),
      optimize_insts-AllFlagsFit insts v.2 v.1 fit er,
    )
