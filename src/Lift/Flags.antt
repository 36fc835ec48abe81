-- ===== src/Lift/Flags.antt =====
-- src/lift/mod.rs: which lifted instructions write the flags.
use armx.Base.{
  ℕ, ◌+◌, ◌*◌, ◌≡◌, refl, sym, subst, bit_and, Bool, true, false, not, ◌&&◌, ◌||◌, List, [], ◌∷◌,
  Option, some, none, if◌then◌else◌, Bool-cases, Option-cases, inl, inr, map_some, ◌>>=◌, ◌==◌, ltb,
  u64,
}
use armx.Ir.Operand.{Operand}
use armx.Ir.Inst.{Opcode, IrInst}
use armx.Ir.Block.{at}
use armx.Arch.{A64Inst, A64Opcode, Instruction, InstDecoder, decode}
use armx.Lift.{
  lower_operand, field, lower_unsigned_mem, lift_conditional_branch, lift_move_wide, is_w32,
  word_width, shift_kind_of, variable_shift_operands, ir_opcode, first_operand, or_unsupported,
  lift_decoded, or_else, load_inst, store_inst, lifted_at, shift_inst, decoded_inst,
}
use armx.Lift.Blocks.{lift_block_at}
use armx.Lift.Blocks.Basic.{basic_block, lifted_from, lift_block_at-insts}
use armx.Codegen.Correct.Nzcv.{SetsFlags, add_flags, sub_flags, and_flags}
use armx.Codegen.Total.{FlagsFit, AllFlagsFit}

-- Where there is an instruction.
abbrev Fits? : Option IrInst → Type 0
Fits? (some inst) = FlagsFit inst
Fits? none = Unit

or_else-FlagsFit :
    (o : Option IrInst) (other : IrInst) → Fits? o → FlagsFit other → FlagsFit (or_else o other)
or_else-FlagsFit (some inst) other h h' = h
or_else-FlagsFit none other h h' = h'

or_unsupported-FlagsFit :
    (word : A64Inst) (o : Option IrInst) → Fits? o → FlagsFit (or_unsupported word o)
or_unsupported-FlagsFit word (some inst) h = h
or_unsupported-FlagsFit word none h = λ e. cc e

branch-fits : (word pc : ℕ) → Fits? (lift_conditional_branch word pc)
unfolding lift_conditional_branch
branch-fits word pc = elim (Bool-cases (bit_and word 0xff00_0010 == 0x5400_0000)) [
  | inl c ↦ rw c (λ e. cc e)
  | inr c ↦
      elim (Bool-cases
        (bit_and word 0x7f00_0000 == 0x3400_0000 || bit_and word 0x7f00_0000 == 0x3500_0000)) [
          | inl d ↦ rw (c, d) (λ e. cc e)
          | inr d ↦ rw (c, d) tt
        ]
]

move-fits : (word : ℕ) → Fits? (lift_move_wide word)
unfolding lift_move_wide
move-fits word =
    elim (Bool-cases (
      not (bit_and word 0x7f80_0000 == 0x5280_0000)
      && not (bit_and word 0x7f80_0000 == 0x1280_0000))) [
        | inl c ↦ rw c tt
        | inr c ↦ elim (Bool-cases (is_w32 (word_width word) && ltb 1 (field word 21 2))) [
          | inl d ↦ rw (c, d) (λ e. cc e)
          | inr d ↦ rw (c, d) (λ e. cc e)
        ]
      ]

load-fits : (o : Option (Operand × Operand)) → Fits? (map_some load_inst o)
load-fits (some o) = λ e. cc e
load-fits none = tt

store-fits : (o : Option (Operand × Operand)) → Fits? (map_some store_inst o)
store-fits (some o) = λ e. cc e
store-fits none = tt

shift-fits : (o : Option (Operand × Operand × Operand)) → Fits? (map_some shift_inst o)
shift-fits (some o) = λ e. cc e
shift-fits none = tt

-- An opcode of the table with its flags.
abbrev EntryFits : Option (Opcode × ℕ) → Type 0
EntryFits (some (op, flags)) =
    (inst : IrInst) → inst.opcode ≡ op → inst.flags ≡ flags → FlagsFit inst
EntryFits none = Unit

clear-fits : (inst : IrInst) → inst.flags ≡ 0 → FlagsFit inst
clear-fits inst e = λ w. cc (w, e)

ir_opcode-EntryFits : (word : A64Inst) (op : A64Opcode) → EntryFits (ir_opcode word op)
ir_opcode-EntryFits word A64Opcode.hint = go (word == 0xd503_201f)
  where
    go : (b : Bool) → EntryFits (if b then some (Opcode.nop, 0) else none)
    go true = λ inst o f. clear-fits inst f
    go false = tt
ir_opcode-EntryFits word A64Opcode.add = λ inst o f. clear-fits inst f
ir_opcode-EntryFits word A64Opcode.adds = λ inst o f w. subst SetsFlags (sym o) add_flags
ir_opcode-EntryFits word A64Opcode.sub = λ inst o f. clear-fits inst f
ir_opcode-EntryFits word A64Opcode.subs = λ inst o f w. subst SetsFlags (sym o) sub_flags
ir_opcode-EntryFits word A64Opcode.and = λ inst o f. clear-fits inst f
ir_opcode-EntryFits word A64Opcode.ands = λ inst o f w. subst SetsFlags (sym o) and_flags
ir_opcode-EntryFits word A64Opcode.orr = λ inst o f. clear-fits inst f
ir_opcode-EntryFits word A64Opcode.eor = λ inst o f. clear-fits inst f
ir_opcode-EntryFits word A64Opcode.b = λ inst o f. clear-fits inst f
ir_opcode-EntryFits word A64Opcode.ret = λ inst o f. clear-fits inst f
ir_opcode-EntryFits word _ = tt

first-fits :
    (o : Option Operand) (rest : Operand → Option IrInst)
    → ((a : Operand) → Fits? (rest a))
    → Fits? (o >>= rest)
first-fits (some a) rest h = h a
first-fits none rest h = tt

decoded_inst-fits :
    (decoded : Instruction) (pc : ℕ) (o : Option (Opcode × ℕ))
    → EntryFits o
    → Fits? (o >>= decoded_inst decoded pc)
decoded_inst-fits decoded pc none h = tt
decoded_inst-fits decoded pc (some (op, flags)) h =
    first-fits (first_operand op (lower_operand decoded.operand0) pc) _ (λ a.
      h
        (record {
          opcode = op;
          flags = flags;
          a = a;
          b = lower_operand decoded.operand1;
          c = lower_operand decoded.operand2;
        })
        refl refl)

lift_decoded-FlagsFit :
    (word pc : ℕ) (decoded : Instruction) → FlagsFit (lift_decoded word pc decoded)
unfolding lift_decoded
lift_decoded-FlagsFit word pc decoded = elim (Option-cases (shift_kind_of decoded.opcode)) [
  | inl e ↦
      rw (lift_decoded, e)
        (or_unsupported-FlagsFit word _ (
          decoded_inst-fits decoded pc (ir_opcode word decoded.opcode)
            (ir_opcode-EntryFits word decoded.opcode)))
  | inr (kind, e) ↦
      rw (lift_decoded, e)
        (or_unsupported-FlagsFit word _ (shift-fits (variable_shift_operands decoded kind)))
]

decode-fits :
    (word pc : ℕ) (decoded : Option Instruction) → Fits? (map_some (lift_decoded word pc) decoded)
decode-fits word pc (some decoded) = lift_decoded-FlagsFit word pc decoded
decode-fits word pc none = tt

lifted_at-FlagsFit : (decoder : InstDecoder) (word pc : ℕ) → FlagsFit (lifted_at decoder word pc)
unfolding lifted_at decode
lifted_at-FlagsFit decoder word pc =
    or_else-FlagsFit (lift_conditional_branch word pc) _ (branch-fits word pc) (
      or_else-FlagsFit (lift_move_wide word) _ (move-fits word) (
        or_else-FlagsFit (map_some load_inst (lower_unsigned_mem word true)) _
          (load-fits (lower_unsigned_mem word true))
          (or_else-FlagsFit (map_some store_inst (lower_unsigned_mem word false)) _
            (store-fits (lower_unsigned_mem word false))
            (or_unsupported-FlagsFit word _ (decode-fits word pc (decode decoder word))))))

lifted_from-AllFlagsFit :
    (decoder : InstDecoder) (pc i : ℕ) (words : List A64Inst)
    → AllFlagsFit (lifted_from decoder pc i words)
lifted_from-AllFlagsFit decoder pc i [] = tt
lifted_from-AllFlagsFit decoder pc i (word ∷ words) = (
  lifted_at-FlagsFit decoder word (u64 (pc + i * 4)),
  lifted_from-AllFlagsFit decoder pc (i + 1) words,
)

pub lift_block_at-AllFlagsFit :
    (decoder : InstDecoder) (words : List A64Inst) (pc : ℕ)
    → AllFlagsFit (lift_block_at decoder words pc (at pc)).0.insts
lift_block_at-AllFlagsFit decoder words pc =
    subst AllFlagsFit (sym (lift_block_at-insts decoder words pc))
      (lifted_from-AllFlagsFit decoder pc 0 (basic_block decoder words))
