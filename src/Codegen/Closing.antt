-- ===== src/Codegen/Closing.antt =====
-- src/codegen/x86_64.rs, `emit_block`: the addresses that the code leaves for, at its end.
pub mod Pieces
use Pieces.{
  EndsWith, ClosesWith, Leaves, EndsWith-++, prepend-ClosesWith, GoesOn-ClosesWith,
  Leaves-ClosesWith, ending-Leaves, snoc-ClosesWith,
}
use mathlib.Core.List.{append_assoc, append-nil}
use armx.Base.{
  ℕ, ◌+◌, ◌*◌, ◌≡◌, refl, sym, ap, ◌∙◌, List, [], ◌∷◌, ◌++◌, Option, some, none, Bool-cases, inl,
  inr, if◌then◌else◌, u64, ltb, leb, ◌==◌, get_elem?, length,
}
use armx.Ir.Operand.{GuestReg, w32, x64, Operand, reg, imm, guest_pc, is_x64}
use armx.Ir.Inst.{
  Opcode, nop, mov, add, sub, and, orr, eor, shift, load, store, branch, branch_cond, ret, IrInst,
}
use armx.Ir.Block.{Block, byte_len}
use armx.Runtime.State.{gpr_base, nzcv_offset, pc_offset}
use armx.Codegen.Encoding.{rax, rcx, rex, mov_load, mov_imm, mov_store}
use armx.Codegen.Conditions.{build_condition_tables}
use armx.Codegen.{
  Emit, emitted, returned, failed, panicked, ◌>>◌, prepend, load_state, emit_set_pc_imm,
  branch_on_table, emit_branch_cond, emit_compare_branch, emit_branch, emit_conditional,
  emit_branch_to, emit_mov, emit_arithmetic, emit_shift, emit_load, emit_store, ending, is_empty,
  emit_as, emit_insts, emit_block,
}
use armx.Codegen.Ends.Pieces.{
  Ends, GoesOn, load_state-GoesOn, emit_mov-GoesOn, emit_arithmetic-GoesOn, emit_shift-GoesOn,
  emit_load-GoesOn, emit_store-GoesOn,
}
use armx.Codegen.Ends.{emit_block-Ends}

-- Sets the guest's address, and returns.
abbrev pub exit_to : ℕ → List ℕ
exit_to pc = emit_set_pc_imm pc ++ 0xC3 ∷ []

abbrev pub target_or_zero : Operand → ℕ
target_or_zero (guest_pc pc) = pc
target_or_zero _ = 0

-- The jump over the first of the two exits: JNC after the test of the table, and after the test of a
-- register JNZ for CBZ and JZ for CBNZ.
abbrev pub skipping_jump : Operand → Operand → ℕ
skipping_jump (reg g) (imm kind) = if kind == 0 then 0x75 else 0x74
skipping_jump _ _ = 0x73

-- How the code ends that begins with an instruction, from the end of the code that follows.
abbrev pub closing_as : Opcode → IrInst → ℕ → List ℕ → List ℕ
closing_as branch inst next rest = exit_to (target_or_zero inst.a)
closing_as branch_cond inst next rest =
    skipping_jump inst.b inst.c
      ∷ length (exit_to (target_or_zero inst.a))
      ∷ exit_to (target_or_zero inst.a)
    ++ exit_to next
closing_as ret inst next rest =
    mov_load rax (gpr_base + 30 * 8) x64 ++ mov_store pc_offset rax x64 ++ 0xC3 ∷ []
closing_as _ inst next rest = rest

abbrev closing_from : Block → ℕ → List IrInst → List ℕ
closing_from block index [] = exit_to (u64 (block.guest_pc + byte_len block))
closing_from block index (inst ∷ insts) =
    closing_as inst.opcode inst (u64 (block.guest_pc + (index + 1) * 4))
      (closing_from block (index + 1) insts)

-- The end of a block's code: that of its first branch, and past the block where it has none.
abbrev pub closing : Block → List ℕ
closing block =
    if is_empty block.insts then exit_to block.guest_pc else closing_from block 0 block.insts

emit_branch-ClosesWith : (a : Operand) → ClosesWith (exit_to (target_or_zero a)) (emit_branch a)
emit_branch-ClosesWith (guest_pc pc) = ([], refl)
emit_branch-ClosesWith a = tt

-- The end of a conditional branch.
abbrev two_exits : ℕ → ℕ → ℕ → List ℕ
two_exits jump target next = jump ∷ length (exit_to target) ∷ exit_to target ++ exit_to next

branch_on_table-ClosesWith :
    (table : Option ℕ) (target next : ℕ)
    → ClosesWith (two_exits 0x73 target next) (branch_on_table table target next)
unfolding mov_load emit_set_pc_imm mov_imm mov_store
branch_on_table-ClosesWith (some table) target next =
    let tail = two_exits 0x73 target next in
    EndsWith-++ tail (mov_load rax nzcv_offset w32) _ (
      EndsWith-++ tail (0xC1 ∷ 0xE8 ∷ 0x1C ∷ []) _
        (EndsWith-++ tail (mov_imm rcx table w32) _ (0x66 ∷ 0x0F ∷ 0xA3 ∷ 0xC1 ∷ [], refl)))
branch_on_table-ClosesWith none target next = tt

emit_branch_cond-ClosesWith :
    (target cond next : ℕ)
    → ClosesWith (two_exits 0x73 target next) (emit_branch_cond target cond next)
unfolding emit_branch_cond
emit_branch_cond-ClosesWith target cond next = elim (Bool-cases (ltb 15 cond)) [
  | inl h ↦ rw h tt
  | inr h ↦ rw h (branch_on_table-ClosesWith (get_elem? build_condition_tables cond) target next)
]

emit_compare_branch-ClosesWith :
    (g : GuestReg) (kind target next : ℕ)
    → ClosesWith
        (two_exits (if kind == 0 then 0x75 else 0x74) target next)
        (emit_compare_branch g kind target next)
unfolding emit_compare_branch emit_set_pc_imm mov_imm mov_store
emit_compare_branch-ClosesWith g kind target next =
    let tail = two_exits (if kind == 0 then 0x75 else 0x74) target next in
    GoesOn-ClosesWith tail (load_state rax g) _ (load_state-GoesOn rax g)
      (EndsWith-++ tail (rex (is_x64 g.width)) _ (0x85 ∷ 0xC0 ∷ [], refl))

emit_conditional-ClosesWith :
    (b c : Operand) (target next : ℕ)
    → ClosesWith (two_exits (skipping_jump b c) target next) (emit_conditional b c target next)
emit_conditional-ClosesWith (imm cond) Operand.none target next =
    emit_branch_cond-ClosesWith target cond next
emit_conditional-ClosesWith (reg g) (imm kind) target next = elim (Bool-cases (leb kind 1)) [
  | inl h ↦ rw h (emit_compare_branch-ClosesWith g kind target next)
  | inr h ↦ rw h tt
]
emit_conditional-ClosesWith b c target next = tt

emit_branch_to-ClosesWith :
    (a : Operand) (inst : IrInst) (next : ℕ)
    → ClosesWith
        (two_exits (skipping_jump inst.b inst.c) (target_or_zero a) next)
        (emit_branch_to a inst next)
emit_branch_to-ClosesWith (guest_pc target) inst next =
    emit_conditional-ClosesWith inst.b inst.c target next
emit_branch_to-ClosesWith a inst next = tt

arithmetic_closes :
    (inst : IrInst) (tail : List ℕ) (rest : Emit)
    → ClosesWith tail rest
    → ClosesWith tail (emit_arithmetic inst.a inst >> rest)
arithmetic_closes inst tail rest h =
    GoesOn-ClosesWith tail (emit_arithmetic inst.a inst) rest (emit_arithmetic-GoesOn inst.a inst) h

emit_as-ClosesWith :
    (op : Opcode) (next : ℕ) (inst : IrInst) (tail : List ℕ) (rest : Emit)
    → ClosesWith tail rest
    → ClosesWith (closing_as op inst next tail) (emit_as op next inst >> rest)
unfolding emit_as load_state mov_load mov_store
emit_as-ClosesWith nop next inst tail rest h = prepend-ClosesWith tail (0x90 ∷ []) rest h
emit_as-ClosesWith mov next inst tail rest h =
    GoesOn-ClosesWith tail (emit_mov inst.a inst) rest (emit_mov-GoesOn inst.a inst) h
emit_as-ClosesWith add next inst tail rest h = arithmetic_closes inst tail rest h
emit_as-ClosesWith sub next inst tail rest h = arithmetic_closes inst tail rest h
emit_as-ClosesWith and next inst tail rest h = arithmetic_closes inst tail rest h
emit_as-ClosesWith orr next inst tail rest h = arithmetic_closes inst tail rest h
emit_as-ClosesWith eor next inst tail rest h = arithmetic_closes inst tail rest h
emit_as-ClosesWith shift next inst tail rest h =
    GoesOn-ClosesWith tail (emit_shift inst.a inst) rest (emit_shift-GoesOn inst.a inst) h
emit_as-ClosesWith load next inst tail rest h =
    GoesOn-ClosesWith tail (emit_load inst.a inst.b) rest (emit_load-GoesOn inst.a inst.b) h
emit_as-ClosesWith store next inst tail rest h =
    GoesOn-ClosesWith tail (emit_store inst.a inst.b) rest (emit_store-GoesOn inst.a inst.b) h
emit_as-ClosesWith branch next inst tail rest h =
    Leaves-ClosesWith (exit_to (target_or_zero inst.a)) (ending (emit_branch inst.a)) rest
      (ending-Leaves _ (emit_branch inst.a) (emit_branch-ClosesWith inst.a))
emit_as-ClosesWith branch_cond next inst tail rest h =
    let closes = emit_branch_to-ClosesWith inst.a inst next in
    Leaves-ClosesWith _ (ending (emit_branch_to inst.a inst next)) rest
      (ending-Leaves _ (emit_branch_to inst.a inst next) closes)
emit_as-ClosesWith ret next inst tail rest h = ([], refl)
emit_as-ClosesWith op next inst tail rest h = tt

emit_insts-ClosesWith :
    (block : Block) (index : ℕ) (inst : IrInst) (insts : List IrInst)
    → ClosesWith (closing_from block index (inst ∷ insts)) (emit_insts block index (inst ∷ insts))
unfolding emit_insts
emit_insts-ClosesWith block index inst [] =
    emit_as-ClosesWith inst.opcode _ inst _ _ ([], append-nil _)
emit_insts-ClosesWith block index inst (next ∷ insts) = emit_as-ClosesWith inst.opcode _ inst _ _ (
    prepend-ClosesWith _ [] (emit_insts block (index + 1) (next ∷ insts))
      (emit_insts-ClosesWith block (index + 1) next insts))

-- The code of a block, where it is emitted, has a return as its last byte; and it ends with the code
-- that sets the guest's address and returns: for the target of the first branch, for X30 at a first
-- RET, and for the address past the block where nothing branches. At a conditional branch these are
-- two exits, for the target and for the next instruction, after a jump of exactly the length of the
-- first.
pub emit_block-ClosesWith :
    (block : Block) → Ends (emit_block block) × ClosesWith (closing block) (emit_block block)
unfolding emit_block
emit_block-ClosesWith block = (emit_block-Ends block, go block.insts refl)
  where
    go : (insts : List IrInst) → block.insts ≡ insts → ClosesWith (closing block) (emit_block block)
    go [] e = rw e ([], refl)
    go (inst ∷ insts) e = rw e (
        snoc-ClosesWith _ (emit_insts block 0 (inst ∷ insts))
          (emit_insts-ClosesWith block 0 inst insts))
