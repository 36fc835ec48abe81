-- ===== src/Jit/Optimizer/Visit/Alu.antt =====
-- src/jit/optimizer.rs: the arm of the five binary operations.
use armx.Base.{
  ℕ, ◌<◌, ◌^◌, ◌+◌, ◌-◌, bit_and, bit_or, bit_xor, ◌≡◌, refl, sym, ap, ◌∙◌, subst, arith, true,
  false, Bool, Option, some, none, set, Bool-cases, Option-cases, inl, inr, map_some-eq-some,
  >>=-eq-some,
}
use armx.Ir.Operand.{RegWidth, GuestReg, Operand, reg, imm, is_general}
use armx.Ir.Inst.{Opcode, add, sub, and, orr, eor, IrInst, writes_nzcv}
use armx.Runtime.State.{GuestState}
use armx.Jit.Optimizer.{
  Optimizer, Constants, as_mov, visit_binop, fold_known, fold_into, simplify_into,
  simplify_identity, identity_source,
}
use armx.Jit.Optimizer.Agree.{
  Agree, RegIsValid, OperandIsValid, HasValue, Found, missing, found, constant_operand-Found,
}
use armx.Jit.Optimizer.Arithmetic.{fold_binop-eq-alu, trunc-lt, trunc-trunc}
use armx.Jit.Optimizer.Identity.{identity_source-value}
use armx.Jit.Optimizer.Visit.{
  AgreeAfter, Replaces, VisitOk, visited, Learned, nothing, value, set?-in_range, Agree-write,
  Agree-other_write, ir,
}
use armx.Meaning.{
  Machine, Outcome, bits, with_regs, step, step_as, step_alu, step_mov, set_flags, flags_after,
  trunc, alu, operand_value, write_reg,
}

-- A binary operation, its result on any operands, and its step.
pub record IsBinary (op : Opcode) : Type 0 where
  pub result : (w : RegWidth) (x y : ℕ) → (r : ℕ) × (alu op w x y ≡ some (trunc w r))
  pub steps :
      (next : ℕ) (inst : IrInst) (m : Machine) → step_as op next inst m ≡ step_alu inst.a inst m

-- The parts of a step.
record Parts (m : Machine) (op : Opcode) (f : ℕ) (d : GuestReg) (b c : Operand) (out : Outcome)
    : Type 0 where
  x : ℕ
  y : ℕ
  r : ℕ
  written : GuestState
  after : GuestState
  left : operand_value m.regs d.width b ≡ some x
  right : operand_value m.regs d.width c ≡ some y
  result : alu op d.width x y ≡ some r
  writes : write_reg m.regs d r ≡ some written
  flags :
      set_flags (writes_nzcv (ir op f (reg d) b c)) (flags_after op d.width x y r) written
      ≡ some after
  leads : with_regs m after ≡ out

step_alu-Parts :
    (m : Machine) (op : Opcode) (f : ℕ) (d : GuestReg) (b c : Operand) {out : Outcome}
    → step_alu (reg d) (ir op f (reg d) b c) m ≡ some out
    → Parts m op f d b c out
unfolding step_alu
step_alu-Parts m op f d b c run =
    let (x, ex, run₁) = >>=-eq-some (operand_value m.regs d.width b) _ run in
    let (y, ey, run₂) = >>=-eq-some (operand_value m.regs d.width c) _ run₁ in
    let (r, er, run₃) = >>=-eq-some (alu op d.width x y) _ run₂ in
    let (s, es, run₄) = >>=-eq-some (write_reg m.regs d r) _ run₃ in
    let (s', ef, eo) = map_some-eq-some (with_regs m) _ run₄ in
    record {
      x = x;
      y = y;
      r = r;
      written = s;
      after = s';
      left = ex;
      right = ey;
      result = er;
      writes = es;
      flags = ef;
      leads = eo;
    }

gpr-set_flags :
    (b : Bool) (f : Option ℕ) (s : GuestState) {s' : GuestState}
    → set_flags b f s ≡ some s'
    → s.gpr ≡ s'.gpr
gpr-set_flags b f s e = ground arith

pub simplify_identity-none :
    (inst : IrInst) (w : RegWidth)
    → identity_source inst.opcode inst.b inst.c w ≡ none
    → simplify_identity inst w ≡ (inst, false)
unfolding simplify_identity
simplify_identity-none inst w e = ground arith

pub simplify_identity-some :
    (inst : IrInst) (w : RegWidth) {source : Operand}
    → identity_source inst.opcode inst.b inst.c w ≡ some source
    → simplify_identity inst w ≡ (as_mov inst source, true)
unfolding simplify_identity
simplify_identity-some inst w e = ground arith

quiet_flags :
    (b : Bool) (f : Option ℕ) (s : GuestState) {s' : GuestState}
    → b ≡ false
    → set_flags b f s ≡ some s'
    → s ≡ s'
quiet_flags b f s quiet e = ground arith

module _ (next : ℕ) (m : Machine) (op : Opcode) (f : ℕ) (d : GuestReg) (b c : Operand)
    (binary : IsBinary op) where
  abbrev before : IrInst
  before = ir op f (reg d) b c

  parts : {out : Outcome} → step next before m ≡ some out → Parts m op f d b c out
  parts {out} run = step_alu-Parts m op f d b c (sym (binary.steps next before m) ∙ run)

  -- The operation stays, and its destination is forgotten.
  kept :
      {constants : Constants}
      → Agree constants m.regs.gpr
      → is_general d.kind ≡ true
      → d.num < 31
      → Replaces next m before before (set constants d.num none)
  kept {constants} h g lt = record {
    same_step = λ out run.
        let p = parts run in
        let agrees =
          Agree-write m.regs d p.r h g nothing (set?-in_range d.num none h lt) p.writes in
        (
          run,
          subst (AgreeAfter (set constants d.num none)) p.leads (
              subst (Agree (set constants d.num none)) (gpr-set_flags _ _ p.written p.flags)
                agrees),
        );
  }

  -- A move takes its place, from an operand with the value of the result.
  moved :
      {constants : Constants} (source : Operand) (k : Option ℕ)
      → Agree constants m.regs.gpr
      → is_general d.kind ≡ true
      → d.num < 31
      → writes_nzcv before ≡ false
      → ((x y r : ℕ)
          → operand_value m.regs d.width b ≡ some x
          → operand_value m.regs d.width c ≡ some y
          → alu op d.width x y ≡ some r
          → (operand_value m.regs d.width source ≡ some r) × Learned r k)
      → Replaces next m before (as_mov before source) (set constants d.num k)
  unfolding step_as step_mov
  moved {constants} source k h g lt quiet same = record {
    same_step = λ out run.
        let p = parts run in
        let (es, learned) = same p.x p.y p.r p.left p.right p.result in
        let agrees = Agree-write m.regs d p.r h g learned (set?-in_range d.num k h lt) p.writes in
        let unflagged : p.written ≡ p.after = quiet_flags _ _ p.written quiet p.flags in
        let leads : with_regs m p.written ≡ out = ap (with_regs m) unflagged ∙ p.leads in
        (
          rw (es, p.writes) (ap some leads),
          subst (AgreeAfter (set constants d.num k)) leads agrees,
        );
  }

  -- A result that is known.
  fold_into-VisitOk :
      {constants : Constants} (o : Optimizer) (u v folded : ℕ)
      → Agree constants m.regs.gpr
      → is_general d.kind ≡ true
      → d.num < 31
      → HasValue m.regs b u
      → HasValue m.regs c v
      → alu op d.width (trunc d.width u) (trunc d.width v) ≡ some (trunc d.width folded)
      → VisitOk next m before (fold_into before d (trunc d.width folded) constants o)
  unfolding fold_into
  fold_into-VisitOk {constants} o u v folded h g lt hu hv e =
      elim (Bool-cases (writes_nzcv before)) [
        | inl flagged ↦ rw (flagged, set?-in_range d.num none h lt) (visited (kept h g lt))
        | inr quiet ↦
            rw (quiet, set?-in_range d.num (some (trunc d.width folded)) h lt)
              (visited (
                moved (imm (trunc d.width folded)) (some (trunc d.width folded)) h g lt quiet
                  (result d.width u v folded hu hv e)))
      ]
    where
      result :
          (w : RegWidth) (u v folded : ℕ)
          → HasValue m.regs b u
          → HasValue m.regs c v
          → alu op w (trunc w u) (trunc w v) ≡ some (trunc w folded)
          → (x y r : ℕ) → operand_value m.regs w b ≡ some x
          → operand_value m.regs w c ≡ some y
          → alu op w x y ≡ some r
          → (operand_value m.regs w (imm (trunc w folded)) ≡ some r)
            × Learned r (some (trunc w folded))
      result w u v folded hu hv e x y r ex ey er =
          let left : trunc w u ≡ x = cc (hu.value_at w) in
          let right : trunc w v ≡ y = cc (hv.value_at w) in
          let same : trunc w folded ≡ r = cc in
          (
            unfold operand_value in ap some (trunc-trunc w folded ∙ same),
            rw (← same) (value (trunc-lt w folded)),
          )

  -- A result that is not known.
  simplify_into-VisitOk :
      {constants : Constants} (o : Optimizer)
      → Agree constants m.regs.gpr
      → is_general d.kind ≡ true
      → d.num < 31
      → OperandIsValid c
      → VisitOk next m before (simplify_into before d constants o)
  unfolding simplify_into
  simplify_into-VisitOk {constants} o h g lt valid = elim (Bool-cases (writes_nzcv before)) [
    | inl flagged ↦ rw (set?-in_range d.num none h lt, flagged) (visited (kept h g lt))
    | inr quiet ↦ elim (Option-cases (identity_source op b c d.width)) [
      | inl e ↦
          rw (set?-in_range d.num none h lt, quiet, simplify_identity-none before d.width e)
            (visited (kept h g lt))
      | inr (source, e) ↦
          rw (set?-in_range d.num none h lt, quiet, simplify_identity-some before d.width e)
            (visited (
              moved source none h g lt quiet λ x y r ex ey er.
                (identity_source-value m.regs d.width op b c valid ex ey er e, nothing)))
    ]
  ]

  fold_known-VisitOk :
      {constants : Constants} (o : Optimizer) {lhs rhs : Option ℕ}
      → Agree constants m.regs.gpr
      → is_general d.kind ≡ true
      → d.num < 31
      → OperandIsValid c
      → Found m.regs b lhs
      → Found m.regs c rhs
      → VisitOk next m before (fold_known before d constants o lhs rhs)
  unfolding fold_known
  fold_known-VisitOk o h g lt valid missing fc = simplify_into-VisitOk o h g lt valid
  fold_known-VisitOk o h g lt valid (found hb) missing = simplify_into-VisitOk o h g lt valid
  fold_known-VisitOk o h g lt valid (found {v = u} hb) (found {v = v} hc) =
      let (r, e) = binary.result d.width (trunc d.width u) (trunc d.width v) in
      rw (fold_binop-eq-alu op d.width u v hb.fits hc.fits, e)
        (fold_into-VisitOk o u v r h g lt hb hc e)

  alu-VisitOk :
      {constants : Constants} (o : Optimizer)
      → Agree constants m.regs.gpr
      → RegIsValid d
      → OperandIsValid b
      → OperandIsValid c
      → VisitOk next m before (visit_binop (reg d) before constants o)
  unfolding visit_binop
  alu-VisitOk {constants} o h vd vb vc = elim (Bool-cases (is_general d.kind)) [
    | inl g ↦
        let (lhs, eb, fb) = constant_operand-Found m.regs b h vb in
        let (rhs, ec, fc) = constant_operand-Found m.regs c h vc in
        rw (g, eb, ec) (fold_known-VisitOk o h g (vd g) vc fb fc)
    | inr g ↦ rw g (
        visited (record {
          same_step = λ out run.
              let p = parts run in
              let agrees = Agree-other_write m.regs d p.r h g p.writes in
              (
                run,
                subst (AgreeAfter constants) p.leads
                    (subst (Agree constants) (gpr-set_flags _ _ p.written p.flags) agrees),
              );
        }))
  ]

-- Without a register as its destination the operation has no meaning, and is kept.
pub binop-VisitOk :
    {constants : Constants} (op : Opcode)
    → IsBinary op
    → (next : ℕ) (m : Machine) (f : ℕ) (a b c : Operand) (o : Optimizer)
    → Agree constants m.regs.gpr
    → OperandIsValid a
    → OperandIsValid b
    → OperandIsValid c
    → VisitOk next m (ir op f a b c) (visit_binop a (ir op f a b c) constants o)
unfolding visit_binop
binop-VisitOk op binary next m f (reg d) b c o h va vb vc =
    alu-VisitOk next m op f d b c binary o h va vb vc
binop-VisitOk {constants} op binary next m f a b c o h va vb vc =
    visited {inst' = ir op f a b c} {constants = constants} (record {
      same_step = λ out run. unfold step_alu in cc (binary.steps next (ir op f a b c) m);
    })

pub add-IsBinary : IsBinary add
unfolding alu step_as
add-IsBinary = record { result = λ w x y. (x + y, refl); steps = λ next inst m. refl }

pub sub-IsBinary : IsBinary sub
unfolding alu step_as
sub-IsBinary = record { result = λ w x y. (x + 2 ^ bits w - y, refl); steps = λ next inst m. refl }

pub and-IsBinary : IsBinary and
unfolding alu step_as
and-IsBinary = record { result = λ w x y. (bit_and x y, refl); steps = λ next inst m. refl }

pub orr-IsBinary : IsBinary orr
unfolding alu step_as
orr-IsBinary = record { result = λ w x y. (bit_or x y, refl); steps = λ next inst m. refl }

pub eor-IsBinary : IsBinary eor
unfolding alu step_as
eor-IsBinary = record { result = λ w x y. (bit_xor x y, refl); steps = λ next inst m. refl }
