-- ===== src/Jit/Optimizer/Total.antt =====
-- src/jit/optimizer.rs on registers in range: panics, and what the pass keeps.
pub mod Lookups
use Lookups.{
  RegsAreValid, InstRegsAreValid, RegsInRange, VisitTotal, total, set?-total, keep-VisitTotal,
  known-total, constant_operand-total, moved_value-total, rewrite_operand-total,
}
use mathlib.Core.List.{map}
use armx.Base.{
  ℕ, suc, ◌<◌, ◌≡◌, refl, ap, ◌∙◌, arith, true, Option, some, none, List, [], ◌∷◌, length, set,
  set?, get_elem?-in_range, length-set, lt→ltb, replicate, Bool-cases, Option-cases, inl, inr,
  map_some, saturating_add32,
}
use armx.Ir.Operand.{RegWidth, GuestReg, Operand, reg, imm, shift_reg, is_general, is_zero}
use armx.Ir.Inst.{
  Opcode, nop, unsupported, mov, add, sub, and, orr, eor, shift, IrInst, writes_nzcv,
}
use armx.Ir.Block.{Block, byte_len}
use armx.Jit.Optimizer.{
  Optimizer, Constants, Visit, keep, known, constant_operand, rewrite_operand, invalidate_dest,
  moved_value, visit_mov, fold_into, simplify_into, identity_source, fold_known, visit_binop,
  fold_known_shift, visit_shift_by, visit_shift, visit, optimize_inst, optimize_insts,
  optimize_block,
}
use armx.Jit.Optimizer.Fold.{mask_width, fold_binop, fold_shift}
use armx.Jit.Optimizer.Visit.Alu.{simplify_identity-none, simplify_identity-some}
use armx.Jit.Optimizer.Agree.{RegIsValid}
use armx.Jit.Optimizer.Visit.{ir}

-- The arms.
fold_into-VisitTotal :
    (inst : IrInst) (d : GuestReg) (v : ℕ) (constants : Constants) (o : Optimizer)
    → length constants ≡ 31
    → d.num < 31
    → VisitTotal inst (fold_into inst d v constants o)
unfolding fold_into
fold_into-VisitTotal inst d v constants o h lt = elim (Bool-cases (writes_nzcv inst)) [
  | inl w ↦ rw w (keep-VisitTotal inst o constants d.num none h lt)
  | inr w ↦ let (e, l) = set?-total constants d.num (some v) h lt in rw (w, e) (total l refl refl)
]

simplify_into-VisitTotal :
    (inst : IrInst) (d : GuestReg) (constants : Constants) (o : Optimizer)
    → length constants ≡ 31
    → d.num < 31
    → VisitTotal inst (simplify_into inst d constants o)
unfolding simplify_into
simplify_into-VisitTotal inst d constants o h lt =
    let (e, l) = set?-total constants d.num none h lt in
    elim (Bool-cases (writes_nzcv inst)) [
      | inl w ↦ rw (e, w) (total l refl refl)
      | inr w ↦ elim (Option-cases (identity_source inst.opcode inst.b inst.c d.width)) [
        | inl n ↦ rw (e, w, simplify_identity-none inst d.width n) (total l refl refl)
        | inr (source, n) ↦ rw (e, w, simplify_identity-some inst d.width n) (total l refl refl)
      ]
    ]

-- `fold_binop` has a result for the opcodes that it is called for.
abbrev Folds : Opcode → Type 0
Folds op = (l r : ℕ) (w : RegWidth) → (v : ℕ) × (fold_binop op l r w ≡ some v)

visit_binop-VisitTotal :
    (inst : IrInst) (a : Operand) (constants : Constants) (o : Optimizer)
    → Folds inst.opcode
    → length constants ≡ 31
    → RegsAreValid a
    → RegsAreValid inst.b
    → RegsAreValid inst.c
    → VisitTotal inst (visit_binop a inst constants o)
unfolding visit_binop
visit_binop-VisitTotal inst (reg d) constants o folds h va vb vc =
    elim (Bool-cases (is_general d.kind)) [
      | inl g ↦
          let (lhs, eb) = constant_operand-total constants inst.b h vb in
          let (rhs, ec) = constant_operand-total constants inst.c h vc in
          rw (g, eb, ec) (result lhs rhs (va g))
      | inr g ↦ rw g (total h refl refl)
    ]
  where
    result :
        (lhs rhs : Option ℕ) → d.num < 31 → VisitTotal inst (fold_known inst d constants o lhs rhs)
    result (some l) (some r) lt =
        let (v, e) = folds l r d.width in rw e (fold_into-VisitTotal inst d v constants o h lt)
    result lhs rhs lt = simplify_into-VisitTotal inst d constants o h lt
visit_binop-VisitTotal inst a constants o folds h va vb vc = total h refl refl

visit_mov-VisitTotal :
    (inst : IrInst) (a b : Operand) (constants : Constants) (o : Optimizer)
    → length constants ≡ 31
    → RegsAreValid a
    → RegsAreValid b
    → VisitTotal inst (keep inst o (visit_mov a b constants))
unfolding visit_mov
visit_mov-VisitTotal inst (reg d) b constants o h va vb = elim (Bool-cases (is_general d.kind)) [
  | inl g ↦
      let (k, e) = moved_value-total constants b d.width h vb in
      rw (g, e) (keep-VisitTotal inst o constants d.num k h (va g))
  | inr g ↦ rw g (total h refl refl)
]
visit_mov-VisitTotal inst a b constants o h va vb = total h refl refl

visit_shift_by-VisitTotal :
    (inst : IrInst) (d : GuestReg) (c : Operand) (constants : Constants) (o : Optimizer)
    → length constants ≡ 31
    → d.num < 31
    → RegsAreValid c
    → VisitTotal inst (visit_shift_by c inst d constants o)
unfolding visit_shift_by
visit_shift_by-VisitTotal inst d (shift_reg v a kind) constants o h lt valid =
    let (value, ev) = constant_operand-total constants (reg v) h valid.0 in
    let (amount, ea) = constant_operand-total constants (reg a) h valid.1 in
    rw (ev, ea) (result value amount)
  where
    result :
        (value amount : Option ℕ)
        → VisitTotal inst (fold_known_shift inst d kind constants o value amount)
    result (some x) (some y) =
        fold_into-VisitTotal inst d (fold_shift x y kind d.width) constants o h lt
    result value amount = keep-VisitTotal inst o constants d.num none h lt
visit_shift_by-VisitTotal inst d c constants o h lt valid =
    keep-VisitTotal inst o constants d.num none h lt

visit_shift-VisitTotal :
    (inst : IrInst) (a : Operand) (constants : Constants) (o : Optimizer)
    → length constants ≡ 31
    → RegsAreValid a
    → RegsAreValid inst.c
    → VisitTotal inst (visit_shift a inst constants o)
unfolding visit_shift
visit_shift-VisitTotal inst (reg d) constants o h va vc = elim (Bool-cases (is_general d.kind)) [
  | inl g ↦ rw g (visit_shift_by-VisitTotal inst d inst.c constants o h (va g) vc)
  | inr g ↦ rw g (total h refl refl)
]
visit_shift-VisitTotal inst a constants o h va vc = total h refl refl

invalidate_dest-VisitTotal :
    (inst : IrInst) (a : Operand) (constants : Constants) (o : Optimizer)
    → length constants ≡ 31
    → RegsAreValid a
    → VisitTotal inst (keep inst o (invalidate_dest a constants))
unfolding invalidate_dest
invalidate_dest-VisitTotal inst (reg d) constants o h va = elim (Bool-cases (is_general d.kind)) [
  | inl g ↦ rw g (keep-VisitTotal inst o constants d.num none h (va g))
  | inr g ↦ rw g (total h refl refl)
]
invalidate_dest-VisitTotal inst a constants o h va = total h refl refl

length-map : (f : Option ℕ → Option ℕ) (l : Constants) → length (map f l) ≡ length l
length-map f [] = refl
length-map f (x ∷ l) = ap suc (length-map f l)

visit-VisitTotal :
    (op : Opcode) (f : ℕ) (a b c : Operand) (constants : Constants) (o : Optimizer)
    → length constants ≡ 31
    → RegsAreValid a
    → RegsAreValid b
    → RegsAreValid c
    → VisitTotal (ir op f a b c) (visit op (ir op f a b c) constants o)
unfolding visit fold_binop
visit-VisitTotal nop f a b c constants o h va vb vc = total h refl refl
visit-VisitTotal unsupported f a b c constants o h va vb vc =
    total (length-map _ constants ∙ h) refl refl
visit-VisitTotal mov f a b c constants o h va vb vc =
    visit_mov-VisitTotal (ir mov f a b c) a b constants o h va vb
visit-VisitTotal add f a b c constants o h va vb vc =
    visit_binop-VisitTotal (ir add f a b c) a constants o (λ l r w. (_, refl)) h va vb vc
visit-VisitTotal sub f a b c constants o h va vb vc =
    visit_binop-VisitTotal (ir sub f a b c) a constants o (λ l r w. (_, refl)) h va vb vc
visit-VisitTotal and f a b c constants o h va vb vc =
    visit_binop-VisitTotal (ir and f a b c) a constants o (λ l r w. (_, refl)) h va vb vc
visit-VisitTotal orr f a b c constants o h va vb vc =
    visit_binop-VisitTotal (ir orr f a b c) a constants o (λ l r w. (_, refl)) h va vb vc
visit-VisitTotal eor f a b c constants o h va vb vc =
    visit_binop-VisitTotal (ir eor f a b c) a constants o (λ l r w. (_, refl)) h va vb vc
visit-VisitTotal shift f a b c constants o h va vb vc =
    visit_shift-VisitTotal (ir shift f a b c) a constants o h va vc
visit-VisitTotal op f a b c constants o h va vb vc =
    invalidate_dest-VisitTotal (ir op f a b c) a constants o h va

VisitTotal-instead :
    {inst inst' : IrInst} {v : Visit}
    → inst'.a ≡ inst.a
    → inst'.flags ≡ inst.flags
    → VisitTotal inst' v
    → VisitTotal inst v
VisitTotal-instead ea ef (total l a f) = total l (a ∙ ea) (f ∙ ef)

optimize_inst-VisitTotal :
    (inst : IrInst) (constants : Constants) (o : Optimizer)
    → length constants ≡ 31
    → InstRegsAreValid inst
    → VisitTotal inst (optimize_inst o constants inst)
unfolding optimize_inst
optimize_inst-VisitTotal inst constants o h valid =
    let (b, o', eb, vb) = rewrite_operand-total constants o inst.b h valid.1 in
    let (c, o'', ec, vc) = rewrite_operand-total constants o' inst.c h valid.2 in
    rw (eb, ec)
      (VisitTotal-instead refl refl
        (visit-VisitTotal inst.opcode inst.flags inst.a b c constants o'' h valid.0 vb vc))

-- Two lists of instructions with the same destinations and flags in the same order.
abbrev pub SameShape : List IrInst → List IrInst → Type 0
SameShape [] [] = Unit
SameShape (i ∷ is) (j ∷ js) = (i.a ≡ j.a) × (i.flags ≡ j.flags) × SameShape is js
SameShape _ _ = ⊥

optimize_insts-total :
    (insts : List IrInst) (constants : Constants) (o : Optimizer)
    → length constants ≡ 31
    → RegsInRange insts
    → (insts' : List IrInst) × (o' : Optimizer) × (optimize_insts o constants insts
        ≡ some (insts', o'))
      × SameShape insts' insts
unfolding optimize_insts
optimize_insts-total [] constants o h valid = ([], o, refl, tt)
optimize_insts-total (inst ∷ insts) constants o h valid =
    go (optimize_inst o constants inst) refl (optimize_inst-VisitTotal inst constants o h valid.0)
      (λ k o₁ l. optimize_insts-total insts k o₁ l valid.1)
  where
    go :
        (v : Visit)
        → optimize_inst o constants inst ≡ v
        → VisitTotal inst v
        → ((k : Constants) (o₁ : Optimizer)
            → length k ≡ 31
            → (insts' : List IrInst) × (o' : Optimizer) × (optimize_insts o₁ k insts
                ≡ some (insts', o'))
              × SameShape insts' insts)
        → (insts' : List IrInst) × (o' : Optimizer) × (optimize_insts o constants (inst ∷ insts)
            ≡ some (insts', o'))
          × SameShape insts' (inst ∷ insts)
    go v ev (total {inst'} {constants = k} {o = o₁} l ea ef) rest =
        let (insts', o', e, same) = rest k o₁ l in (inst' ∷ insts', o', rw (ev, e), (ea, ef, same))

-- On instructions whose register numbers are in range the pass does not panic. It keeps the
-- number of the instructions, the destination and the flags of each, and the block's address, hit
-- count and byte span.
pub optimize_block-total :
    (o : Optimizer) (block : Block)
    → RegsInRange block.insts
    → (block' : Block) × (o' : Optimizer) × (optimize_block o block ≡ some (block', o'))
      × SameShape block'.insts block.insts
      × (block'.guest_pc ≡ block.guest_pc)
      × (block'.hit_count ≡ block.hit_count)
      × (byte_len block' ≡ byte_len block)
unfolding optimize_block
optimize_block-total o block valid =
    let (insts', o', e, same) = optimize_insts-total block.insts (replicate 31 none) o refl valid in
    (record block { insts = insts' }, o', rw e, same, refl, refl, refl)
