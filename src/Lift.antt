-- ===== src/Lift.antt =====
-- src/lift/mod.rs: from a guest instruction word to an instruction of the intermediate
-- representation. A method that pushes onto the block is split into the instruction that it makes
-- and the push. `Lift.Blocks` has src/lift/block.rs; an addition of addresses wraps, as in a release
-- build.
pub mod Blocks
pub mod Branches
pub mod Moves
pub mod Memory
pub mod Valid
pub mod Flags
use armx.Base.{
  ℕ, zero, ◌+◌, ◌-◌, ◌*◌, ◌/◌, ◌%◌, ◌^◌, bit_and, Bool, true, false, not, ◌&&◌, ◌||◌, Option, some,
  none, u8, u32, u64, u64_max, ltb, ◌==◌, if◌then◌else◌, ◌>>=◌, map_some, arithmetic_shift,
  saturating_add64,
}
use armx.Arch.{
  A64Inst, SizeCode, ShiftStyle, A64Opcode, A64Operand, Instruction, InstDecoder, decode,
}
use armx.Ir.Operand.{
  RegWidth, w32, x64, RegKind, general, stack_pointer, ShiftKind, lsl, lsr, asr, ror, GuestReg, x,
  w, xsp, Operand, reg, imm, shifted_imm, pc_relative, guest_pc, raw_inst, shifted_reg, shift_reg,
  mem,
}
use armx.Ir.Inst.{
  Opcode, nop, unsupported, mov, add, sub, and, orr, eor, shift, load, store, branch, branch_cond,
  ret, IrInst, flag_writes_nzcv,
}
use armx.Ir.Block.{Block, push, byte_len}

abbrev pub width_of : SizeCode → RegWidth
width_of SizeCode.x = x64
width_of SizeCode.w = w32

abbrev pub kind_of : Bool → ℕ → RegKind
kind_of sp num =
    if sp && num == 31 then stack_pointer else if num == 31 then RegKind.zero else general

-- `lower_reg` makes `Operand::Reg` of this register.
unfoldable pub lower_reg : SizeCode → ℕ → Bool → GuestReg
lower_reg size num sp = record { num = u8 num; width = width_of size; kind = kind_of sp (u8 num) }

unfoldable pub lower_shift : ShiftStyle → Option ShiftKind
lower_shift ShiftStyle.lsl = some lsl
lower_shift ShiftStyle.lsr = some lsr
lower_shift ShiftStyle.asr = some asr
lower_shift ShiftStyle.ror = some ror
lower_shift ShiftStyle.other = none

abbrev pub shifted_or_none : GuestReg → ℕ → Option ShiftKind → Operand
shifted_or_none r amount (some kind) = shifted_reg r kind amount
shifted_or_none r amount none = Operand.none

unfoldable pub lower_operand : A64Operand → Operand
lower_operand A64Operand.nothing = Operand.none
lower_operand (A64Operand.register size num) = reg (lower_reg size num false)
lower_operand (A64Operand.register_or_sp size num) = reg (lower_reg size num true)
lower_operand (A64Operand.immediate v) = imm v
lower_operand (A64Operand.imm64 v) = imm v
lower_operand (A64Operand.imm16 v) = imm v
lower_operand (A64Operand.pc_offset offset) = pc_relative offset
lower_operand (A64Operand.imm_shift v amount) = shifted_imm v amount
lower_operand (A64Operand.reg_shift style amount size num) =
    shifted_or_none (lower_reg size num false) amount (lower_shift style)
lower_operand A64Operand.other = Operand.none

-- `(word >> low) & (2^n - 1)`, the field of `n` bits from bit `low` on.
abbrev pub field : A64Inst → ℕ → ℕ → ℕ
field word low n = bit_and (word / 2 ^ low) (2 ^ n - 1)

-- The match on the two size bits.
abbrev pub memory_width : ℕ → Option RegWidth
memory_width size = if size == 2 then some w32 else if size == 3 then some x64 else none

-- `i32::checked_shl`.
abbrev pub checked_shl32 : ℕ → ℕ → Option ℕ
checked_shl32 v by = if ltb by 32 then some (u32 (v * 2 ^ by)) else none

abbrev sized_reg : RegWidth → ℕ → GuestReg
sized_reg w32 num = w num
sized_reg x64 num = x num

-- The destination first, for a load and for a store.
abbrev pub access : ℕ → ℕ → Bool → RegWidth → ℕ → Operand × Operand
access rn rt is_load width offset =
    let m =
      mem (record { base = if rn == 31 then xsp else x rn; offset = offset; width = width }) in
    let r = reg (sized_reg width rt) in if is_load then (r, m) else (m, r)

unfoldable pub lower_unsigned_mem : A64Inst → Bool → Option (Operand × Operand)
lower_unsigned_mem word is_load =
    let class = bit_and word 0x3fc0_0000 in
    let size = field word 30 2 in
    let rt = field word 0 5 in
    let rn = field word 5 5 in
    if (if is_load then class == 0x3940_0000 else class == 0x3900_0000)
    then (do
      width ← memory_width size
      offset ← checked_shl32 (field word 10 12) size
      some (access rn rt is_load width offset))
    else none

-- An instruction with no flags.
abbrev pub plain : Opcode → Operand → Operand → Operand → IrInst
plain op a b c = record { opcode = op; flags = 0; a = a; b = b; c = c }

-- What `unsupported` pushes.
abbrev pub unsupported_inst : A64Inst → IrInst
unsupported_inst word = plain unsupported (raw_inst word) Operand.none Operand.none

-- Bit 31 clear and set.
abbrev pub word_width : A64Inst → RegWidth
word_width word = if bit_and word (2 ^ 31) == 0 then w32 else x64

-- The 19-bit displacement, in words, as a 64-bit pattern in bytes: `(value << 43) >> 43` on `i64`.
unfoldable pub sign_extend_19 : ℕ → ℕ
sign_extend_19 v = arithmetic_shift 64 (u64 (bit_and v 0x7_ffff * 4 * 2 ^ 43)) 43

abbrev pub target_of : A64Inst → ℕ → Operand
target_of word pc = guest_pc (u64 (pc + sign_extend_19 (u32 word / 2 ^ 5)))

-- What `lift_conditional_branch` pushes, where it returns true.
unfoldable pub lift_conditional_branch : A64Inst → ℕ → Option IrInst
lift_conditional_branch word pc =
    let cb_class = bit_and word 0x7f00_0000 in
    if bit_and word 0xff00_0010 == 0x5400_0000
    then some (plain branch_cond (target_of word pc) (imm (bit_and word 0xf)) Operand.none)
    else if cb_class == 0x3400_0000 || cb_class == 0x3500_0000
    then some (
        plain branch_cond (target_of word pc) (reg (sized_reg (word_width word) (field word 0 5)))
          (imm (if cb_class == 0x3500_0000 then 1 else 0)))
    else none

abbrev pub move_value : Bool → RegWidth → ℕ → ℕ → ℕ
move_value movn width imm16 hw =
    let shifted = u64 (imm16 * 2 ^ (hw * 16)) in
    let value = if movn then u64_max - shifted else shifted in
    elim width [ w32 ↦ u32 value | x64 ↦ value ]

abbrev pub is_w32 : RegWidth → Bool
is_w32 w32 = true
is_w32 x64 = false

-- What `lift_move_wide` pushes, where it returns true.
unfoldable pub lift_move_wide : A64Inst → Option IrInst
lift_move_wide word =
    let class = bit_and word 0x7f80_0000 in
    let movn = class == 0x1280_0000 in
    let hw = field word 21 2 in
    let width = word_width word in
    if not (class == 0x5280_0000) && not movn
    then none
    else if is_w32 width && ltb 1 hw
    then some (unsupported_inst word)
    else some (
        plain mov (reg (sized_reg width (field word 0 5)))
          (imm (move_value movn width (field word 5 16) hw)) Operand.none)

abbrev pub shift_kind_of : A64Opcode → Option ShiftKind
shift_kind_of A64Opcode.lslv = some lsl
shift_kind_of A64Opcode.lsrv = some lsr
shift_kind_of A64Opcode.asrv = some asr
shift_kind_of A64Opcode.rorv = some ror
shift_kind_of _ = none

abbrev pub as_reg : Operand → Option GuestReg
as_reg (reg r) = some r
as_reg _ = none

unfoldable pub variable_shift_operands :
    Instruction → ShiftKind → Option (Operand × Operand × Operand)
variable_shift_operands decoded kind = do
  dest ← as_reg (lower_operand decoded.operand0)
  value ← as_reg (lower_operand decoded.operand1)
  amount ← as_reg (lower_operand decoded.operand2)
  some (reg dest, reg value, shift_reg value amount kind)

-- The opcode and the flags; `none` is the arm that pushes `Unsupported`.
abbrev pub ir_opcode : A64Inst → A64Opcode → Option (Opcode × ℕ)
ir_opcode word A64Opcode.hint = if word == 0xd503_201f then some (nop, 0) else none
ir_opcode word A64Opcode.add = some (add, 0)
ir_opcode word A64Opcode.adds = some (add, flag_writes_nzcv)
ir_opcode word A64Opcode.sub = some (sub, 0)
ir_opcode word A64Opcode.subs = some (sub, flag_writes_nzcv)
ir_opcode word A64Opcode.and = some (and, 0)
ir_opcode word A64Opcode.ands = some (and, flag_writes_nzcv)
ir_opcode word A64Opcode.orr = some (orr, 0)
ir_opcode word A64Opcode.eor = some (eor, 0)
ir_opcode word A64Opcode.b = some (branch, 0)
ir_opcode word A64Opcode.ret = some (ret, 0)
ir_opcode word _ = none

-- The first operand: a branch has its target as an address of the guest.
abbrev pub first_operand : Opcode → Operand → ℕ → Option Operand
first_operand branch (pc_relative offset) pc = some (guest_pc (u64 (pc + offset)))
first_operand branch _ pc = none
first_operand _ a pc = some a

abbrev pub or_unsupported : A64Inst → Option IrInst → IrInst
or_unsupported word (some inst) = inst
or_unsupported word none = unsupported_inst word

abbrev pub shift_inst : Operand × Operand × Operand → IrInst
shift_inst o = plain shift o.0 o.1 o.2

abbrev pub decoded_inst : Instruction → ℕ → Opcode × ℕ → Option IrInst
decoded_inst decoded pc o = do
  a ← first_operand o.0 (lower_operand decoded.operand0) pc
  some (record {
    opcode = o.0;
    flags = o.1;
    a = a;
    b = lower_operand decoded.operand1;
    c = lower_operand decoded.operand2;
  })

-- From the decoded instruction on.
unfoldable pub lift_decoded : A64Inst → ℕ → Instruction → IrInst
lift_decoded word pc decoded = elim (shift_kind_of decoded.opcode) [
  | some kind ↦ or_unsupported word (map_some shift_inst (variable_shift_operands decoded kind))
  | none ↦ or_unsupported word (ir_opcode word decoded.opcode >>= decoded_inst decoded pc)
]

abbrev pub or_else : Option IrInst → IrInst → IrInst
or_else (some inst) other = inst
or_else none other = other

abbrev pub load_inst : Operand × Operand → IrInst
load_inst o = plain load o.0 o.1 Operand.none

abbrev pub store_inst : Operand × Operand → IrInst
store_inst o = plain store o.0 o.1 Operand.none

-- What `lift_one_at` pushes: the first lifter that takes the word, and else the decoder.
unfoldable pub lifted_at : InstDecoder → A64Inst → ℕ → IrInst
unfolding lift_conditional_branch lift_move_wide lower_unsigned_mem lift_decoded decode
    sign_extend_19
lifted_at decoder word pc = or_else (lift_conditional_branch word pc) (
    or_else (lift_move_wide word) (
      or_else (map_some load_inst (lower_unsigned_mem word true)) (
        or_else (map_some store_inst (lower_unsigned_mem word false))
          (or_unsupported word (map_some (lift_decoded word pc) (decode decoder word))))))

unfoldable pub lift_one_at : InstDecoder → A64Inst → ℕ → Block → Block
lift_one_at decoder word pc block = push block (lifted_at decoder word pc)

unfoldable pub lift_one : InstDecoder → A64Inst → Block → Block
lift_one decoder word block =
    lift_one_at decoder word (saturating_add64 block.guest_pc (byte_len block)) block
