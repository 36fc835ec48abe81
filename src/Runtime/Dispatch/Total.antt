-- ===== src/Runtime/Dispatch/Total.antt =====
-- src/runtime/dispatch.rs, `compile_block`: its panics.
use armx.Base.{
  ℕ, ◌≡◌, refl, subst, List, Option, some, none, Bool-cases, inl, inr, >>=-eq-some, map_some,
  replicate,
}
use armx.Ir.Inst.{IrInst}
use armx.Arch.{A64Inst, InstDecoder}
use armx.Ir.Block.{Block, at}
use armx.Lift.Valid.Operands.{DecoderIsValid}
use armx.Lift.Blocks.{lift_block_at}
use armx.Lift.Blocks.Prepared.{prepare_block-lifted}
use armx.Lift.Flags.{lift_block_at-AllFlagsFit}
use armx.Jit.{prepare_block}
use armx.Jit.Optimizer.{Optimizer, default, optimize_block, optimize_insts}
use armx.Jit.Optimizer.Flags.{optimize_insts-AllFlagsFit}
use armx.Codegen.{Emit, emitted, returned, failed, panicked, emit_block}
use armx.Codegen.Total.{NoPanic, AllFlagsFit, emit_block-NoPanic}
use armx.Runtime.Dispatch.{
  Dispatcher, Result, err, unsupported_instruction, any_unsupported, generated, compile_block,
}

prepare_block-AllFlagsFit :
    (block : Block) {block' : Block}
    → AllFlagsFit block.insts
    → prepare_block block ≡ some block'
    → AllFlagsFit block'.insts
unfolding prepare_block optimize_block
prepare_block-AllFlagsFit block {block'} fit e =
    let (v, ev, e₁) = >>=-eq-some (optimize_block default block) _ e in
    go (optimize_insts default _ block.insts) refl v ev e₁
  where
    go :
        (r : Option (List IrInst × Optimizer))
        → optimize_insts default (replicate 31 none) block.insts ≡ r
        → (v : Block × Optimizer) → map_some (λ r. (record block { insts = r.0 }, r.1)) r ≡ some v
        → some v.0 ≡ some block'
        → AllFlagsFit block'.insts
    go none h v ev e = cc ev
    go (some (insts, o)) h v ev e =
        let same : insts ≡ block'.insts = cc (ev, e) in
        subst AllFlagsFit same (optimize_insts-AllFlagsFit block.insts default _ fit h)

module _ {Code : Type 0} (decoder : InstDecoder) (make_executable : List ℕ → Option Code) where
  generated-total :
      (d : Dispatcher Code) (guest_pc consumed : ℕ) (e : Emit)
      → NoPanic e
      → (r : Dispatcher Code × Result ℕ) × (generated decoder make_executable d guest_pc consumed e
          ≡ some r)
  generated-total d guest_pc consumed (emitted bytes) h = (_, refl)
  generated-total d guest_pc consumed (returned bytes) h = (_, refl)
  generated-total d guest_pc consumed (failed e) h = (_, refl)
  generated-total d guest_pc consumed panicked h = elim h [ ]

  -- With a decoder that gives register numbers below 32, compiling any words at any address does not
  -- panic: it gives a dispatcher and a result.
  pub compile_block-total :
      (d : Dispatcher Code) (guest_pc : ℕ) (words : List A64Inst)
      → DecoderIsValid decoder
      → (r : Dispatcher Code × Result ℕ) × (compile_block decoder make_executable d guest_pc words
          ≡ some r)
  unfolding compile_block
  compile_block-total d guest_pc words valid =
      let lifted = lift_block_at decoder words guest_pc (at guest_pc) in
      elim (Bool-cases (any_unsupported lifted.0.insts)) [
        | inl u ↦ ((d, err (unsupported_instruction guest_pc)), rw u refl)
        | inr u ↦
            let (block, prepared, same, address, bytes) =
              prepare_block-lifted decoder words guest_pc valid in
            let fit =
              prepare_block-AllFlagsFit lifted.0 (lift_block_at-AllFlagsFit decoder words guest_pc)
                prepared in
            let (r, e) =
              generated-total d guest_pc lifted.1 (emit_block block)
                (emit_block-NoPanic block fit) in
            (r, rw (u, prepared) e)
      ]
