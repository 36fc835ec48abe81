-- ===== src/Lift/Blocks/Prepared.antt =====
-- src/lift/block.rs and src/jit/mod.rs: lifted blocks as `prepare_block` takes them.
use armx.Base.{ℕ, ◌+◌, ◌*◌, ◌≡◌, sym, subst, List, [], ◌∷◌, some, u64}
use armx.Ir.Operand.{Operand, reg, shift_reg}
use armx.Ir.Block.{Block, at, byte_len}
use armx.Arch.{A64Inst, InstDecoder}
use armx.Lift.Valid.Operands.{DecoderIsValid}
use armx.Lift.Valid.{lifted_at-OperandsAreValid}
use armx.Lift.Blocks.{lift_block_at}
use armx.Lift.Blocks.Basic.{basic_block, lifted_from, lift_block_at-insts}
use armx.Jit.{prepare_block}
use armx.Jit.Optimizer.{default}
use armx.Jit.Optimizer.Agree.{OperandIsValid}
use armx.Jit.Optimizer.Total.Lookups.{RegsAreValid, RegsInRange}
use armx.Jit.Optimizer.Total.{SameShape, optimize_block-total}

RegsAreValid-of : (op : Operand) → OperandIsValid op → RegsAreValid op
RegsAreValid-of (reg r) h = h
RegsAreValid-of (shift_reg v a kind) h = h
RegsAreValid-of op h = tt

lifted_from-RegsInRange :
    (decoder : InstDecoder) (pc i : ℕ) (words : List A64Inst)
    → DecoderIsValid decoder
    → RegsInRange (lifted_from decoder pc i words)
lifted_from-RegsInRange decoder pc i [] h = tt
lifted_from-RegsInRange decoder pc i (word ∷ words) h =
    let (a, b, c) = lifted_at-OperandsAreValid decoder word (u64 (pc + i * 4)) h in
    (
      (RegsAreValid-of _ a, RegsAreValid-of _ b, RegsAreValid-of _ c),
      lifted_from-RegsInRange decoder pc (i + 1) words h,
    )

-- With a decoder that gives register numbers below 32, every lifted block is prepared without a panic:
-- the prepared block has the address and the byte span of the lifted one, and an instruction with the
-- same destination and flags for each of its instructions.
pub prepare_block-lifted :
    (decoder : InstDecoder) (words : List A64Inst) (pc : ℕ)
    → DecoderIsValid decoder
    → let block = (lift_block_at decoder words pc (at pc)).0 in
      (block' : Block) × (prepare_block block ≡ some block')
      × SameShape block'.insts block.insts
      × (block'.guest_pc ≡ block.guest_pc)
      × (byte_len block' ≡ byte_len block)
unfolding prepare_block
prepare_block-lifted decoder words pc h =
    let insts = lift_block_at-insts decoder words pc in
    let regs =
      subst RegsInRange (sym insts)
        (lifted_from-RegsInRange decoder pc 0 (basic_block decoder words) h) in
    let (block', o, e, same, address, hits, bytes) =
      optimize_block-total default (lift_block_at decoder words pc (at pc)).0 regs in
    (block', rw e, same, address, bytes)
