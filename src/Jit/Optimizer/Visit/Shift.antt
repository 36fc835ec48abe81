-- ===== src/Jit/Optimizer/Visit/Shift.antt =====
-- src/jit/optimizer.rs: the arm of the shifts by a register.
use armx.Base.{
  ℕ, ◌<◌, ◌%◌, ◌≡◌, refl, ap, subst, arith, true, Option, some, none, set, Bool-cases, inl, inr,
  map_some, map_some-eq-some, >>=-eq-some,
}
use armx.Ir.Operand.{
  RegWidth, w32, x64, ShiftKind, ror, GuestReg, Operand, reg, imm, shift_reg, is_general,
}
use armx.Ir.Inst.{shift, IrInst, writes_nzcv}
use armx.Runtime.State.{GuestState}
use armx.Jit.Optimizer.{Optimizer, Constants, as_mov, visit_shift, fold_known_shift, fold_into}
use armx.Jit.Optimizer.Agree.{
  Agree, RegIsValid, OperandIsValid, HasValue, Found, missing, found, constant_operand-Found,
}
use armx.Jit.Optimizer.Arithmetic.{fold_shift-eq-shift_value, trunc-lt}
use armx.Jit.Optimizer.Identity.{shift_value-trunc, mod-bits-lt}
use armx.Jit.Optimizer.Fold.{fold_shift}
use armx.Jit.Optimizer.Visit.{
  AgreeAfter, Replaces, VisitOk, visited, nothing, value, set?-in_range, Agree-write,
  Agree-other_write, ir,
}
use armx.Meaning.{
  Machine, Outcome, with_regs, step, step_as, step_shift, step_mov, trunc, bits, shift_value,
  operand_value, read_reg, write_reg,
}

record Parts (m : Machine) (d v a : GuestReg) (kind : ShiftKind) (b : Operand) (out : Outcome)
    : Type 0 where
  x : ℕ
  by : ℕ
  written : GuestState
  shifted : operand_value m.regs d.width b ≡ some x
  amount : read_reg m.regs a ≡ some by
  writes : write_reg m.regs d (shift_value kind (bits d.width) x (by % bits d.width)) ≡ some written
  leads : with_regs m written ≡ out

step_shift-Parts :
    (m : Machine) (d v a : GuestReg) (kind : ShiftKind) (b : Operand) {out : Outcome}
    → step_shift (reg d) b (shift_reg v a kind) m ≡ some out
    → Parts m d v a kind b out
unfolding step_shift
step_shift-Parts m d v a kind b run =
    let (x, ex, run₁) = >>=-eq-some (operand_value m.regs d.width b) _ run in
    let (by, eb, run₂) = >>=-eq-some (read_reg m.regs a) _ run₁ in
    let (s, es, eo) = map_some-eq-some (with_regs m) _ run₂ in
    record { x = x; by = by; written = s; shifted = ex; amount = eb; writes = es; leads = eo }

-- Equal amounts at a width are equal below its number of bits.
same_amount : (w : RegWidth) (p q : ℕ) → trunc w p ≡ trunc w q → p % bits w ≡ q % bits w
same_amount w32 p q h = omega arith
same_amount x64 p q h = omega arith

amount_of :
    (s : GuestState) (a : GuestReg) (w : RegWidth) {by ua : ℕ}
    → HasValue s (reg a) ua
    → read_reg s a ≡ some by
    → by % bits w ≡ ua % bits w
unfolding operand_value
amount_of s a w {by} {ua} ha e = same_amount w by ua (cc (ha.value_at w, ap (map_some (trunc w)) e))

module _ (next : ℕ) (m : Machine) (f : ℕ) (d v a : GuestReg) (kind : ShiftKind) (b : Operand) where
  abbrev before : IrInst
  before = ir shift f (reg d) b (shift_reg v a kind)

  parts : {out : Outcome} → step next before m ≡ some out → Parts m d v a kind b out
  unfolding step_as
  parts run = step_shift-Parts m d v a kind b run

  kept :
      {constants : Constants}
      → Agree constants m.regs.gpr
      → is_general d.kind ≡ true
      → d.num < 31
      → Replaces next m before before (set constants d.num none)
  kept {constants} h g lt = record {
    same_step = λ out run.
        let p = parts run in
        (
          run,
          subst (AgreeAfter (set constants d.num none)) p.leads
              (Agree-write m.regs d _ h g nothing (set?-in_range d.num none h lt) p.writes),
        );
  }

  -- Both the shifted value and the amount are known.
  moved :
      {constants : Constants} (u ua : ℕ)
      → Agree constants m.regs.gpr
      → is_general d.kind ≡ true
      → d.num < 31
      → ((w : RegWidth) → operand_value m.regs w b ≡ operand_value m.regs w (reg v))
      → (kind ≡ ror → d.width ≡ x64)
      → HasValue m.regs (reg v) u
      → HasValue m.regs (reg a) ua
      → Replaces next m before
          (as_mov before (imm (fold_shift u ua kind d.width)))
          (set constants d.num (some (fold_shift u ua kind d.width)))
  unfolding step_as step_mov operand_value
  moved {constants} u ua h g lt same rotates hv ha = record {
    same_step = λ out run.
        let p = parts run in
        let w = d.width in
        let folds = fold_shift-eq-shift_value kind w u ua hv.fits rotates in
        let x_eq : trunc w u ≡ p.x = cc (same w, hv.value_at w, p.shifted) in
        let by_eq : p.by % bits w ≡ ua % bits w = amount_of m.regs a w ha p.amount in
        let result : shift_value kind (bits w) p.x (p.by % bits w) ≡ fold_shift u ua kind w =
          rw (folds, x_eq, by_eq) in
        let fits : trunc w (fold_shift u ua kind w) ≡ fold_shift u ua kind w =
          rw folds (shift_value-trunc kind w u (ua % bits w) (mod-bits-lt w ua)) in
        let written : write_reg m.regs d (fold_shift u ua kind w) ≡ some p.written =
          rw (← result) p.writes in
        (
          rw (fits, written) (ap some p.leads),
          subst (AgreeAfter (set constants d.num (some (fold_shift u ua kind w)))) p.leads (
              Agree-write m.regs d (fold_shift u ua kind w) h g (value (rw (← fits) (trunc-lt w _)))
                (set?-in_range d.num _ h lt) written),
        );
  }

  fold_known_shift-VisitOk :
      {constants : Constants} (o : Optimizer) {lhs rhs : Option ℕ}
      → Agree constants m.regs.gpr
      → is_general d.kind ≡ true
      → d.num < 31
      → ((w : RegWidth) → operand_value m.regs w b ≡ operand_value m.regs w (reg v))
      → (kind ≡ ror → d.width ≡ x64)
      → Found m.regs (reg v) lhs
      → Found m.regs (reg a) rhs
      → VisitOk next m before (fold_known_shift before d kind constants o lhs rhs)
  unfolding fold_known_shift fold_into
  fold_known_shift-VisitOk o h g lt same rotates missing fa =
      rw (set?-in_range d.num none h lt) (visited (kept h g lt))
  fold_known_shift-VisitOk o h g lt same rotates (found hv) missing =
      rw (set?-in_range d.num none h lt) (visited (kept h g lt))
  fold_known_shift-VisitOk o h g lt same rotates (found {v = u} hv) (found {v = ua} ha) =
      elim (Bool-cases (writes_nzcv before)) [
        | inl flagged ↦ rw (flagged, set?-in_range d.num none h lt) (visited (kept h g lt))
        | inr quiet ↦
            rw (quiet, set?-in_range d.num (some (fold_shift u ua kind d.width)) h lt)
              (visited (moved u ua h g lt same rotates hv ha))
      ]

  register_shift-VisitOk :
      {constants : Constants} (o : Optimizer)
      → Agree constants m.regs.gpr
      → RegIsValid d
      → RegIsValid v
      → RegIsValid a
      → ((w : RegWidth) → operand_value m.regs w b ≡ operand_value m.regs w (reg v))
      → (kind ≡ ror → d.width ≡ x64)
      → VisitOk next m before (visit_shift (reg d) before constants o)
  unfolding visit_shift
  register_shift-VisitOk {constants} o h vd vv va same rotates =
      elim (Bool-cases (is_general d.kind)) [
        | inl g ↦
            let (lhs, ev, fv) = constant_operand-Found m.regs (reg v) h vv in
            let (rhs, ea, fa) = constant_operand-Found m.regs (reg a) h va in
            rw (g, ev, ea) (fold_known_shift-VisitOk o h g (vd g) same rotates fv fa)
        | inr g ↦ rw g (
            visited (record {
              same_step = λ out run.
                  let p = parts run in
                  (
                    run,
                    subst (AgreeAfter constants) p.leads
                        (Agree-other_write m.regs d _ h g p.writes),
                  );
            }))
      ]

-- `b` is the shifted register, or a constant with its value; a 32-bit rotation is left out.
abbrev pub ShiftIsValid : GuestState → Operand → Operand → Operand → Type 0
ShiftIsValid s (reg d) b (shift_reg v a kind) =
    ((w : RegWidth) → operand_value s w b ≡ operand_value s w (reg v))
    × (kind ≡ ror → d.width ≡ x64)
ShiftIsValid s a b c = Unit

unmeaning :
    (next : ℕ) (m : Machine) (f : ℕ) (a b c : Operand) (constants : Constants)
    → step_shift a b c m ≡ none
    → Replaces next m (ir shift f a b c) (ir shift f a b c) constants
unfolding step_as
unmeaning next m f a b c constants e = record { same_step = λ out run. cc }

pub shift-VisitOk :
    {constants : Constants} (next : ℕ) (m : Machine) (f : ℕ) (a b c : Operand) (o : Optimizer)
    → Agree constants m.regs.gpr
    → OperandIsValid a
    → OperandIsValid c
    → ShiftIsValid m.regs a b c
    → VisitOk next m (ir shift f a b c) (visit_shift a (ir shift f a b c) constants o)
unfolding visit_shift step_shift
shift-VisitOk next m f (reg d) b (shift_reg v a kind) o h va vc valid =
    register_shift-VisitOk next m f d v a kind b o h va vc.0 vc.1 valid.0 valid.1
shift-VisitOk {constants} next m f (reg d) b c o h va vc valid =
    elim (Bool-cases (is_general d.kind)) [
      | inl g ↦
          rw (g, set?-in_range d.num none h (va g))
            (visited (unmeaning next m f (reg d) b c (set constants d.num none) refl))
      | inr g ↦ rw g (visited (unmeaning next m f (reg d) b c constants refl))
    ]
shift-VisitOk {constants} next m f a b c o h va vc valid =
    visited (unmeaning next m f a b c constants refl)
