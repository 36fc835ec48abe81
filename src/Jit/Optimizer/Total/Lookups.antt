-- ===== src/Jit/Optimizer/Total/Lookups.antt =====
-- src/jit/optimizer.rs: the lookups and updates of the constants, on registers in range.
use armx.Base.{
  ℕ, ◌<◌, ◌≡◌, refl, ◌∙◌, arith, true, Option, some, none, List, [], ◌∷◌, length, set, set?,
  get_elem?-in_range, length-set, lt→ltb, Bool-cases, inl, inr, map_some, saturating_add32,
}
use armx.Ir.Operand.{RegWidth, GuestReg, Operand, reg, imm, shift_reg, is_general, is_zero}
use armx.Ir.Inst.{IrInst}
use armx.Jit.Optimizer.{
  Optimizer, Constants, Visit, keep, known, constant_operand, rewrite_operand, moved_value,
}
use armx.Jit.Optimizer.Fold.{mask_width}
use armx.Jit.Optimizer.Agree.{RegIsValid}

-- The registers that are looked up are in range.
abbrev pub RegsAreValid : Operand → Type 0
RegsAreValid (reg r) = RegIsValid r
RegsAreValid (shift_reg v a kind) = RegIsValid v × RegIsValid a
RegsAreValid _ = Unit

abbrev pub InstRegsAreValid : IrInst → Type 0
InstRegsAreValid inst = RegsAreValid inst.a × RegsAreValid inst.b × RegsAreValid inst.c

abbrev pub RegsInRange : List IrInst → Type 0
RegsInRange [] = Unit
RegsInRange (inst ∷ insts) = InstRegsAreValid inst × RegsInRange insts

-- A visit that does not panic and keeps the instruction's destination and flags.
pub data VisitTotal (inst : IrInst) : Visit → Type 0 where
  total :
      {inst' : IrInst} {constants : Constants} {o : Optimizer}
      → length constants ≡ 31
      → inst'.a ≡ inst.a
      → inst'.flags ≡ inst.flags
      → VisitTotal inst (some (inst', constants, o))

pub set?-total :
    (constants : Constants) (n : ℕ) (k : Option ℕ)
    → length constants ≡ 31
    → n < 31
    → (set? constants n k ≡ some (set constants n k)) × (length (set constants n k) ≡ 31)
set?-total constants n k h lt =
    (rw (lt→ltb n (length constants) (omega arith)), length-set constants n k ∙ h)

pub keep-VisitTotal :
    (inst : IrInst) (o : Optimizer) (constants : Constants) (n : ℕ) (k : Option ℕ)
    → length constants ≡ 31
    → n < 31
    → VisitTotal inst (keep inst o (set? constants n k))
keep-VisitTotal inst o constants n k h lt =
    let (e, l) = set?-total constants n k h lt in rw e (total l refl refl)

pub known-total :
    (constants : Constants) (r : GuestReg) (w : RegWidth)
    → length constants ≡ 31
    → r.num < 31
    → (k : Option ℕ) × (known constants r w ≡ some k)
unfolding known
known-total constants r w h lt =
    let (x, e) = get_elem?-in_range constants r.num (omega arith) in
    (map_some (λ v. mask_width v w) x, rw e)

pub constant_operand-total :
    (constants : Constants) (op : Operand)
    → length constants ≡ 31
    → RegsAreValid op
    → (k : Option ℕ) × (constant_operand op constants ≡ some k)
unfolding constant_operand
constant_operand-total constants (imm v) h valid = (some v, refl)
constant_operand-total constants (reg r) h valid = elim (Bool-cases (is_zero r.kind)) [
  | inl z ↦ (some 0, rw z)
  | inr z ↦ elim (Bool-cases (is_general r.kind)) [
    | inl g ↦ let (k, e) = known-total constants r r.width h (valid g) in (k, rw (z, g) e)
    | inr g ↦ (none, rw (z, g))
  ]
]
constant_operand-total constants op h valid = (none, refl)

pub moved_value-total :
    (constants : Constants) (op : Operand) (w : RegWidth)
    → length constants ≡ 31
    → RegsAreValid op
    → (k : Option ℕ) × (moved_value op constants w ≡ some k)
unfolding moved_value
moved_value-total constants (imm v) w h valid = (_, refl)
moved_value-total constants (reg r) w h valid = elim (Bool-cases (is_zero r.kind)) [
  | inl z ↦ (some 0, rw z)
  | inr z ↦ elim (Bool-cases (is_general r.kind)) [
    | inl g ↦ let (k, e) = known-total constants r w h (valid g) in (k, rw (z, g) e)
    | inr g ↦ (none, rw (z, g))
  ]
]
moved_value-total constants op w h valid = (none, refl)

pub rewrite_operand-total :
    (constants : Constants) (o : Optimizer) (op : Operand)
    → length constants ≡ 31
    → RegsAreValid op
    → (op' : Operand) × (o' : Optimizer) × (rewrite_operand o op constants ≡ some (op', o'))
      × RegsAreValid op'
unfolding rewrite_operand
rewrite_operand-total constants o (reg r) h valid = elim (Bool-cases (is_general r.kind)) [
  | inl g ↦ let (k, e) = known-total constants r r.width h (valid g) in replacement k e g
  | inr g ↦ (reg r, o, rw g, valid)
]
  where
    replacement :
        (k : Option ℕ)
        → known constants r r.width ≡ some k
        → is_general r.kind ≡ true
        → (op' : Operand) × (o' : Optimizer) × (rewrite_operand o (reg r) constants
            ≡ some (op', o'))
          × RegsAreValid op'
    replacement none e g = (reg r, o, rw (g, e), valid)
    replacement (some v) e g =
        (imm v, record o { propagated = saturating_add32 o.propagated 1 }, rw (g, e), tt)
rewrite_operand-total constants o op h valid = (op, o, refl, valid)
