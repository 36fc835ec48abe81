-- ===== src/Tests/Translation.antt =====
-- Examples for src/lift.
use armx.Base.{
  ℕ, ◌^◌, ◌-◌, ◌≡◌, arith, Bool, true, false, List, [], ◌∷◌, Option, some, none, ◌==◌,
  if◌then◌else◌,
}
use armx.Base.Bytes.{from_le_bytes}
use armx.Arch.{A64Inst, A64Opcode, A64Operand, SizeCode, Instruction, InstDecoder, decode}
use armx.Ir.Operand.{Operand, reg, imm, mem, guest_pc, x, w, xsp, x64}
use armx.Ir.Inst.{mov, branch_cond, load}
use armx.Ir.Block.{Block, at, byte_len, push}
use armx.Lift.{plain, lift_conditional_branch, lift_move_wide, lift_one_at}
use armx.Lift.Blocks.{terminal, lift_block_at}
use armx.Lift.Blocks.Basic.{lifted_from, lift_block_at-basic_block}
use armx.Lift.Blocks.Prepared.{prepare_block-lifted}
use armx.Lift.Branches.{lift_b_cond, lift_compare}
use armx.Lift.Memory.{lift_one_at-access}
use armx.Lift.Moves.{lift_move_wide_lem}
use armx.Lift.Valid.Operands.{DecoderIsValid, DecodedIsValid}
use armx.Jit.{prepare_block}
use armx.Jit.Optimizer.Total.{SameShape}

abbrev nop_word : A64Inst
nop_word = 0xd503_201f

abbrev add_word : A64Inst
add_word = 0x8b02_0020

abbrev ret_word : A64Inst
ret_word = 0xd65f_03c0

abbrev x_operand : ℕ → A64Operand
x_operand n = A64Operand.register SizeCode.x n

-- Decodes NOP, ADD X0, X1, X2 and RET.
abbrev pub three_words : ℕ → Option Instruction
three_words word =
    if word == nop_word
    then some (record {
      opcode = A64Opcode.hint;
      operand0 = A64Operand.nothing;
      operand1 = A64Operand.nothing;
      operand2 = A64Operand.nothing;
    })
    else if word == add_word
    then some (record {
      opcode = A64Opcode.add;
      operand0 = x_operand 0;
      operand1 = x_operand 1;
      operand2 = x_operand 2;
    })
    else if word == ret_word
    then some (record {
      opcode = A64Opcode.ret;
      operand0 = x_operand 30;
      operand1 = A64Operand.nothing;
      operand2 = A64Operand.nothing;
    })
    else none

abbrev pub decoder : InstDecoder
decoder bytes = three_words (from_le_bytes bytes)

pub decoder-DecoderIsValid : DecoderIsValid decoder
decoder-DecoderIsValid bytes =
    which (from_le_bytes bytes == nop_word) (from_le_bytes bytes == add_word)
      (from_le_bytes bytes == ret_word)
  where
    which :
        (n a r : Bool)
        → DecodedIsValid (
            if n
            then some (record {
              opcode = A64Opcode.hint;
              operand0 = A64Operand.nothing;
              operand1 = A64Operand.nothing;
              operand2 = A64Operand.nothing;
            })
            else if a
            then some (record {
              opcode = A64Opcode.add;
              operand0 = x_operand 0;
              operand1 = x_operand 1;
              operand2 = x_operand 2;
            })
            else if r
            then some (record {
              opcode = A64Opcode.ret;
              operand0 = x_operand 30;
              operand1 = A64Operand.nothing;
              operand2 = A64Operand.nothing;
            })
            else none)
    which true a r = (tt, tt, tt)
    which false true r = (omega arith, omega arith, omega arith)
    which false false true = (omega arith, tt, tt)
    which false false false = tt

-- The word after the return is not part of the block.
abbrev pub words : List A64Inst
words = nop_word ∷ add_word ∷ ret_word ∷ add_word ∷ []

lift_block_at-basic_block_example : lift_block_at decoder words 0x1000 (at 0x1000) ≡ (
  record {
    guest_pc = 0x1000;
    insts = lifted_from decoder 0x1000 0 (nop_word ∷ add_word ∷ ret_word ∷ []);
    hit_count = 0;
    guest_byte_len = 12;
  },
  3,
)
unfolding terminal decode
lift_block_at-basic_block_example = lift_block_at-basic_block decoder words 0x1000 (omega arith)

prepare_block-lifted_example :
    let block = (lift_block_at decoder words 0x1000 (at 0x1000)).0 in
    (block' : Block) × (prepare_block block ≡ some block')
    × SameShape block'.insts block.insts
    × (block'.guest_pc ≡ block.guest_pc)
    × (byte_len block' ≡ byte_len block)
prepare_block-lifted_example = prepare_block-lifted decoder words 0x1000 decoder-DecoderIsValid

-- B.NE, 8 bytes back.
lift_b_cond_example :
    lift_conditional_branch 0x54ff_ffc1 0x1000
    ≡ some (plain branch_cond (guest_pc 0xff8) (imm 1) Operand.none)
lift_b_cond_example = lift_b_cond (2 ^ 19 - 2) 1 0x1000 (omega arith) (omega arith)

-- CBNZ W3, 16 bytes ahead.
lift_compare_example :
    lift_conditional_branch 0x3500_0083 0x1000
    ≡ some (plain branch_cond (guest_pc 0x1010) (reg (w 3)) (imm 1))
lift_compare_example = lift_compare false true 4 3 0x1000 (omega arith) (omega arith)

-- MOVN W1, #5, LSL 16.
lift_move_wide_lem_example :
    lift_move_wide 0x12a0_00a1 ≡ some (plain mov (reg (w 1)) (imm 0xfffa_ffff) Operand.none)
lift_move_wide_lem_example =
    lift_move_wide_lem false false 1 5 1 (omega arith) (omega arith) (omega arith)

-- LDR X2, [SP, 24].
lift_one_at-access_example :
    lift_one_at decoder 0xf940_0fe2 0x1000 (at 0x1000)
    ≡ push (at 0x1000) (record {
      opcode = load;
      flags = 0;
      a = reg (x 2);
      b = mem (record { base = xsp; offset = 24; width = x64 });
      c = Operand.none;
    })
lift_one_at-access_example =
    lift_one_at-access decoder true true 3 31 2 0x1000 (at 0x1000) (omega arith) (omega arith)
      (omega arith)
