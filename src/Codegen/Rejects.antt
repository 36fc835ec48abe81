-- ===== src/Codegen/Rejects.antt =====
-- src/codegen/x86_64.rs, `emit_block`, on stores after src/jit/optimizer.rs.
use armx.Base.{
  ℕ, ◌<◌, ◌≡◌, arith, [], ◌∷◌, some, none, map_some, true, false, ltb, ◌==◌, get_elem?, set,
  replicate, get_elem?-set_self,
}
use armx.Ir.Operand.{Operand, reg, imm, mem, MemOperand, x}
use armx.Ir.Inst.{mov, store}
use armx.Ir.Block.{at}
use armx.Lift.{plain}
use armx.Jit.{prepare_block}
use armx.Jit.Optimizer.{optimize_block}
use armx.Codegen.{failed, unsupported_operand, emit_as, emit_block}

-- Code generation fails for a constant moved to a register and stored from it, at any register,
-- constant and address.
pub emit_block-known_store :
    (n v pc : ℕ) (address : MemOperand)
    → n < 31
    → map_some emit_block (
        prepare_block (record (at pc) {
          insts =
              plain mov (reg (x n)) (imm v) Operand.none
              ∷ plain store (mem address) (reg (x n)) Operand.none
              ∷ [];
        }))
      ≡ some (failed unsupported_operand)
unfolding prepare_block optimize_block emit_block emit_as
emit_block-known_store n v pc address h =
    let general : (n == 31) ≡ false = ground arith in
    let in_range : ltb n 31 ≡ true = ground arith in
    let stored : get_elem? (set (replicate 31 none) n (some v)) n ≡ some (some v) =
      get_elem?-set_self (replicate 31 none) n (some v) h in
    rw (general, in_range, stored)
