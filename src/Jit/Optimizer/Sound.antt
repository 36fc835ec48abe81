-- ===== src/Jit/Optimizer/Sound.antt =====
-- src/jit/optimizer.rs, `optimize_block`, against the meaning of blocks.
use armx.Base.{
  ℕ, ◌+◌, ◌≡◌, refl, subst, Option, some, none, List, [], ◌∷◌, length, replicate, get_elem?,
  >>=-eq-some, map_some-eq-some, zero, suc,
}
use armx.Ir.Inst.{IrInst}
use armx.Ir.Block.{Block, byte_len}
use armx.Jit.Optimizer.{Optimizer, Constants, Visit, optimize_inst, optimize_insts, optimize_block}
use armx.Jit.Optimizer.Agree.{Agree}
use armx.Jit.Optimizer.Visit.{AgreeAfter, VisitOk, visited, Replaces}
use armx.Jit.Optimizer.Rewriting.{InstIsValid, optimize_inst-VisitOk}
use armx.Meaning.{Machine, Outcome, running, exited, step, run_insts, run_block}

abbrev pub InstsAreValid : List IrInst → Type 0
InstsAreValid [] = Unit
InstsAreValid (inst ∷ insts) = InstIsValid inst × InstsAreValid insts

optimize_insts-cons :
    (o : Optimizer) (constants : Constants) (inst : IrInst) (insts : List IrInst) {inst' : IrInst}
    {constants' : Constants} {o' o'' : Optimizer} {all : List IrInst}
    → optimize_inst o constants inst ≡ some (inst', constants', o')
    → optimize_insts o constants (inst ∷ insts) ≡ some (all, o'')
    → (insts' : List IrInst) × (optimize_insts o' constants' insts ≡ some (insts', o''))
      × (inst' ∷ insts' ≡ all)
unfolding optimize_insts
optimize_insts-cons o constants inst insts {inst'} {constants'} {o'} {o''} {all} e run =
    let (r, e₂, e₃) = >>=-eq-some (optimize_insts o' constants' insts) _ (rw e at run) in
    finish r.0 r.1 e₂ e₃
  where
    finish :
        (insts' : List IrInst) (o₁ : Optimizer)
        → optimize_insts o' constants' insts ≡ some (insts', o₁)
        → ◌≡◌ {A = Option (List IrInst × Optimizer)} (some (inst' ∷ insts', o₁)) (some (all, o''))
        → (insts' : List IrInst) × (optimize_insts o' constants' insts ≡ some (insts', o''))
          × (inst' ∷ insts' ≡ all)
    finish insts' o₁ e₂ e₃ = (insts', cc, cc)

Resumes : ℕ → ℕ → List IrInst → List IrInst → Constants → Type 0
Resumes pc stop insts insts' constants =
    (m m' : Machine)
    → Agree constants m.regs.gpr
    → run_insts pc stop insts m ≡ some m'
    → run_insts pc stop insts' m ≡ some m'

-- One instruction, then the rest.
run-cons :
    (pc stop : ℕ) (inst inst' : IrInst) (insts insts' : List IrInst) (constants : Constants)
    (m m' : Machine)
    → Replaces (pc + 4) m inst inst' constants
    → Resumes (pc + 4) stop insts insts' constants
    → run_insts pc stop (inst ∷ insts) m ≡ some m'
    → run_insts pc stop (inst' ∷ insts') m ≡ some m'
unfolding run_insts Resumes
run-cons pc stop inst inst' insts insts' constants m m' r rest run =
    let (out, es, follows) = >>=-eq-some (step (pc + 4) inst m) _ run in
    let (es', agrees) = r.same_step out es in rw es' (go out agrees follows)
  where
    go :
        (out : Outcome)
        → AgreeAfter constants out
        → (elim out [ running m₁ ↦ run_insts (pc + 4) stop insts m₁ | exited m₁ ↦ some m₁ ])
          ≡ some m'
        → (elim out [ running m₁ ↦ run_insts (pc + 4) stop insts' m₁ | exited m₁ ↦ some m₁ ])
          ≡ some m'
    go (running m₁) agrees follows = rest m₁ m' agrees follows
    go (exited m₁) agrees follows = follows

optimize_insts-Resumes :
    (insts : List IrInst) (pc stop : ℕ) (o : Optimizer) (constants : Constants) {all : List IrInst}
    {o' : Optimizer}
    → InstsAreValid insts
    → optimize_insts o constants insts ≡ some (all, o')
    → Resumes pc stop insts all constants
unfolding Resumes
optimize_insts-Resumes [] pc stop o constants {all} valid e m m' h run =
    let same : [] ≡ all = unfold optimize_insts in cc in
    subst (λ l. run_insts pc stop l m ≡ some m') same run
optimize_insts-Resumes (inst ∷ insts) pc stop o constants {all} {o'} valid e m m' h run =
    go (optimize_inst o constants inst) refl (optimize_inst-VisitOk (pc + 4) m inst o h valid.0)
      (λ o₁ k rest. optimize_insts-Resumes insts (pc + 4) stop o₁ k {all = rest} {o' = o'} valid.1)
  where
    go :
        (v : Visit)
        → optimize_inst o constants inst ≡ v
        → VisitOk (pc + 4) m inst v
        → ((o₁ : Optimizer) (k : Constants) (rest : List IrInst)
            → optimize_insts o₁ k insts ≡ some (rest, o')
            → Resumes (pc + 4) stop insts rest k)
        → run_insts pc stop all m ≡ some m'
    go v ev (visited {inst'} {constants = k} {o = o₁} r) resumes =
        let (rest, e₂, e₃) = optimize_insts-cons o constants inst insts ev e in
        subst (λ l. run_insts pc stop l m ≡ some m') e₃
          (run-cons pc stop inst inst' insts rest k m m' r (resumes o₁ k rest e₂) run)

none_known : (n i : ℕ) {v : ℕ} → get_elem? (replicate n none) i ≡ some (some v) → ⊥
none_known zero i e = cc
none_known (suc n) zero e = cc
none_known (suc n) (suc i) e = none_known n i e

Agree-start : (gpr : List ℕ) → length gpr ≡ 31 → Agree (replicate 31 none) gpr
Agree-start gpr h = record {
  tracked = refl;
  registers = h;
  right = λ i v e. absurd (none_known 31 i e);
}

-- The optimized block runs as the block does: where a run of the block, from registers of the
-- machine's shape, has a result, the run of the optimized block has the same one. The instructions
-- are those that encodings give, without 32-bit rotations.
pub run_block-optimize_block :
    (o : Optimizer) (block : Block) (m : Machine) {block' : Block} {o' : Optimizer} {m' : Machine}
    → InstsAreValid block.insts
    → length m.regs.gpr ≡ 31
    → optimize_block o block ≡ some (block', o')
    → run_block block m ≡ some m'
    → run_block block' m ≡ some m'
unfolding optimize_block run_block Resumes
run_block-optimize_block o block m {block'} {o'} {m'} valid h e run =
    let (r, er, same) = map_some-eq-some _ (optimize_insts o (replicate 31 none) block.insts) e in
    let block_eq : record block { insts = r.0 } ≡ block' = cc in
    subst (λ (b : Block). run_insts b.guest_pc (b.guest_pc + byte_len b) b.insts m ≡ some m')
      block_eq
      (optimize_insts-Resumes block.insts block.guest_pc (block.guest_pc + byte_len block) o
        (replicate 31 none) {all = r.0} {o' = r.1} valid er m m' (Agree-start m.regs.gpr h) run)
