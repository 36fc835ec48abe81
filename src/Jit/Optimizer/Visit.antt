-- ===== src/Jit/Optimizer/Visit.antt =====
-- src/jit/optimizer.rs, the match on the opcode, against the meaning of instructions.
pub mod Alu
pub mod Shift
pub mod Arms
use armx.Base.{
  ℕ, ◌<◌, ◌^◌, ◌≡◌, refl, sym, ap, ◌∙◌, subst, arith, true, false, Bool, Option, some, none, List,
  get_elem?, set, set?, length, length-set, ltb, lt→ltb, ◌==◌, Bool-cases, inl, inr, if◌then◌else◌,
  map_some, map_some-eq-some, ◌>>=◌, >>=-eq-some,
}
use armx.Ir.Operand.{
  RegWidth, w32, x64, RegKind, general, stack_pointer, GuestReg, Operand, reg, imm, is_general,
  is_zero, shift_reg, ShiftKind, ror,
}
use armx.Ir.Inst.{
  Opcode, nop, unsupported, mov, add, sub, and, orr, eor, shift, extend, load, store, compare,
  branch, branch_cond, call, ret, IrInst, writes_nzcv,
}
use armx.Runtime.State.{GuestState}
use armx.Jit.Optimizer.{
  Optimizer, Constants, Visit, keep, as_mov, visit, visit_mov, moved_value, visit_binop,
  visit_shift, invalidate_dest, constant_operand, known, fold_known, fold_into, simplify_into,
  simplify_identity, identity_source,
}
use armx.Jit.Optimizer.Agree.{
  Agree, Agree-set, Agree-forget, RegIsValid, OperandIsValid, HasValue, Found, missing, found,
  known-Found, constant_operand-Found, IsUnknown, zero-HasValue,
}
use armx.Jit.Optimizer.Identity.{identity_source-value, operand_value-trunc, trunc_zero}
use armx.Jit.Optimizer.Arithmetic.{mask_width-eq-trunc, trunc-lt}
use armx.Jit.Optimizer.Fold.{mask_width}
use armx.Meaning.{
  Machine, Outcome, running, exited, with_regs, step, step_as, step_mov, trunc, bits, alu,
  operand_value, read_reg, write_reg,
}

-- What the constants say of the registers, where the block goes on.
abbrev pub AgreeAfter : Constants → Outcome → Type 0
AgreeAfter constants (running m) = Agree constants m.regs.gpr
AgreeAfter constants (exited m) = Unit

-- `inst'` does what `inst` does, where that has a meaning, and `constants` describe the result.
pub record Replaces (next : ℕ) (m : Machine) (inst inst' : IrInst) (constants : Constants)
    : Type 0 where
  pub same_step :
      (out : Outcome)
      → step next inst m ≡ some out
      → (step next inst' m ≡ some out) × AgreeAfter constants out

-- A visit that does not panic.
pub data VisitOk (next : ℕ) (m : Machine) (inst : IrInst) : Visit → Type 0 where
  visited :
      {inst' : IrInst} {constants : Constants} {o : Optimizer}
      → Replaces next m inst inst' constants
      → VisitOk next m inst (some (inst', constants, o))

set?-in_range :
    {constants : Constants} {gpr : List ℕ} (n : ℕ) (k : Option ℕ)
    → Agree constants gpr
    → n < 31
    → set? constants n k ≡ some (set constants n k)
set?-in_range {constants} n k h lt = rw (lt→ltb n (length constants) (omega (arith, h.tracked)))

-- What may be recorded of a register that is given `v`.
pub data Learned (v : ℕ) : Option ℕ → Type 0 where
  nothing : Learned v none
  value : v < 2 ^ 64 → Learned v (some v)

general-write :
    (s : GuestState) (d : GuestReg) (v : ℕ) {s' : GuestState}
    → is_general d.kind ≡ true
    → write_reg s d v ≡ some s'
    → set? s.gpr d.num v ≡ some s'.gpr
unfolding write_reg
general-write s d v g e = ground arith

other-write :
    (s : GuestState) (d : GuestReg) (v : ℕ) {s' : GuestState}
    → is_general d.kind ≡ false
    → write_reg s d v ≡ some s'
    → s'.gpr ≡ s.gpr
unfolding write_reg
other-write s d v g e = ground arith

Agree-write :
    {constants constants' : Constants} (s : GuestState) (d : GuestReg) (v : ℕ) {k : Option ℕ}
    {s' : GuestState}
    → Agree constants s.gpr
    → is_general d.kind ≡ true
    → Learned v k
    → set? constants d.num k ≡ some constants'
    → write_reg s d v ≡ some s'
    → Agree constants' s'.gpr
Agree-write s d v h g nothing e w = Agree-forget d.num v h e (general-write s d v g w)
Agree-write s d v h g (value fits) e w = Agree-set d.num v h fits e (general-write s d v g w)

Agree-other_write :
    {constants : Constants} (s : GuestState) (d : GuestReg) (v : ℕ) {s' : GuestState}
    → Agree constants s.gpr
    → is_general d.kind ≡ false
    → write_reg s d v ≡ some s'
    → Agree constants s'.gpr
Agree-other_write {constants} s d v h g w = subst (Agree constants) (sym (other-write s d v g w)) h

abbrev pub ir : Opcode → ℕ → Operand → Operand → Operand → IrInst
ir op f a b c = record { opcode = op; flags = f; a = a; b = b; c = c }

-- What `Mov` records of its destination.
data Moved (s : GuestState) (w : RegWidth) (b : Operand) : Option ℕ → Type 0 where
  nothing : Moved s w b none
  value : {v : ℕ} → v < 2 ^ 64 → operand_value s w b ≡ some v → Moved s w b (some v)

Moved-Learned :
    {s : GuestState} {w : RegWidth} {b : Operand} {k : Option ℕ} (v : ℕ)
    → Moved s w b k
    → operand_value s w b ≡ some v
    → Learned v k
Moved-Learned v nothing e = nothing
Moved-Learned v (value {v = u} fits e') e =
    let same : u ≡ v = cc in rw same (value (rw (← same) fits))

moved_value-Moved :
    {constants : Constants} (s : GuestState) (w : RegWidth) (b : Operand)
    → Agree constants s.gpr
    → OperandIsValid b
    → IsUnknown constants b
    → (k : Option ℕ) × (moved_value b constants w ≡ some k) × Moved s w b k
unfolding moved_value known operand_value
moved_value-Moved s w (imm v) h valid unknown =
    let masked = mask_width-eq-trunc w v valid in
    (some (mask_width v w), refl, value (rw masked (trunc-lt w v)) (rw masked))
moved_value-Moved s w (reg r) h valid unknown = elim (Bool-cases (is_zero r.kind)) [
  | inl z ↦ (
    some 0,
    rw z,
    value (omega arith) ((zero-HasValue s r z).value_at w ∙ ap some (trunc_zero w)),
  )
  | inr z ↦ elim (Bool-cases (is_general r.kind)) [
    | inl g ↦ (none, rw (z, g, unknown g), nothing)
    | inr g ↦ (none, rw (z, g), nothing)
  ]
]
moved_value-Moved s w _ h valid unknown = (none, refl, nothing)

step_mov_parts :
    (m : Machine) (d : GuestReg) (b : Operand) {out : Outcome}
    → step_mov (reg d) b m ≡ some out
    → (v : ℕ) × (s : GuestState) × (operand_value m.regs d.width b ≡ some v)
      × (write_reg m.regs d v ≡ some s)
      × (with_regs m s ≡ out)
unfolding step_mov
step_mov_parts m d b run =
    let (v, ev, rest) =
      >>=-eq-some (operand_value m.regs d.width b)
        (λ v. map_some (with_regs m) (write_reg m.regs d v)) run in
    let (s, es, eo) = map_some-eq-some (with_regs m) (write_reg m.regs d v) rest in
    (v, s, ev, es, eo)

mov-VisitOk :
    {constants : Constants} (next : ℕ) (m : Machine) (f : ℕ) (a b c : Operand) (o : Optimizer)
    → Agree constants m.regs.gpr
    → OperandIsValid a
    → OperandIsValid b
    → IsUnknown constants b
    → VisitOk next m (ir mov f a b c) (keep (ir mov f a b c) o (visit_mov a b constants))
unfolding visit_mov step_as
mov-VisitOk {constants} next m f (reg d) b c o h va vb unknown =
    elim (Bool-cases (is_general d.kind)) [
      | inl g ↦
          let (k, e, moved) = moved_value-Moved m.regs d.width b h vb unknown in
          let stored = set?-in_range d.num k h (va g) in
          rw (g, e, stored)
            (visited (record {
              same_step = λ out run.
                  let (v, s, ev, es, eo) = step_mov_parts m d b run in
                  (
                    run,
                    subst (AgreeAfter (set constants d.num k)) eo
                        (Agree-write m.regs d v h g (Moved-Learned v moved ev) stored es),
                  );
            }))
      | inr g ↦ rw g (
          visited (record {
            same_step = λ out run.
                let (v, s, ev, es, eo) = step_mov_parts m d b run in
                (run, subst (AgreeAfter constants) eo (Agree-other_write m.regs d v h g es));
          }))
    ]
mov-VisitOk {constants} next m f a b c o h va vb unknown =
    visited {inst' = ir mov f a b c} {constants = constants}
      (record { same_step = λ out run. unfold step_mov in cc })
