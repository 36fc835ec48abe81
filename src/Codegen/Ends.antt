-- ===== src/Codegen/Ends.antt =====
-- src/codegen/x86_64.rs, `emit_block`: how the code ends.
pub mod Pieces
use Pieces.{
  EndsInRet, Ends, ReturnsRet, GoesOn, EndsInRet-++, prepend-Ends, prepend-GoesOn, >>-GoesOn,
  GoesOn-ReturnsRet, >>-Ends, >>-Ends_before, ending-ReturnsRet, or_panic-GoesOn, load_state-GoesOn,
  load_operand-GoesOn, emit_operation-GoesOn, emit_arithmetic-GoesOn, emit_mov-GoesOn,
  emit_amount-GoesOn, emit_shift-GoesOn, emit_guest_address-GoesOn, emit_load-GoesOn,
  emit_store-GoesOn,
}
use mathlib.Core.List.{append_assoc, append-nil}
use armx.Base.{
  ℕ, ◌+◌, ◌≡◌, refl, sym, ap, ◌∙◌, List, [], ◌∷◌, ◌++◌, Option, some, none, Bool-cases, inl, inr,
  if◌then◌else◌, u64, ltb, leb, ◌==◌, get_elem?,
}
use armx.Ir.Operand.{
  RegWidth, w32, x64, GuestReg, x, Operand, reg, imm, shifted_imm, shifted_reg, shift_reg, mem,
  guest_pc, is_zero, is_x64,
}
use armx.Ir.Inst.{
  Opcode, nop, mov, add, sub, and, orr, eor, shift, load, store, branch, branch_cond, ret, IrInst,
  writes_nzcv,
}
use armx.Ir.Block.{Block, byte_len}
use armx.Runtime.State.{nzcv_offset, pc_offset}
use armx.Jit.Selection.{InstForm, immediate, select}
use armx.Codegen.Encoding.{
  X86Scratch, rax, rcx, rex, xor, mov_load, mov_imm, mov_store, binop, binop_imm,
  emit_nzcv_from_x86_flags,
}
use armx.Codegen.Conditions.{build_condition_tables}
use armx.Codegen.{
  Emit, emitted, returned, failed, panicked, ◌>>◌, prepend, or_panic, load_state, store_state,
  load_operand, emit_guest_address, emit_set_pc_imm, set_pc_ret_len, exits, branch_on_table,
  emit_branch_cond, emit_compare_branch, emit_mov, emit_operation, emit_arithmetic, emit_amount,
  emit_shift, emit_load, emit_store, ending, emit_branch, emit_conditional, emit_branch_to, emit_as,
  emit_insts, emit_block,
}

emit_branch-Ends : (a : Operand) → Ends (emit_branch a)
emit_branch-Ends (guest_pc pc) = (emit_set_pc_imm pc, refl)
emit_branch-Ends a = tt

exits-EndsInRet : (target fallthrough : ℕ) → EndsInRet (exits target fallthrough)
unfolding emit_set_pc_imm mov_imm mov_store
exits-EndsInRet target fallthrough =
    EndsInRet-++ (emit_set_pc_imm target) _
      (EndsInRet-++ (0xC3 ∷ []) _ (emit_set_pc_imm fallthrough, refl))

branch_on_table-Ends :
    (table : Option ℕ) (target fallthrough : ℕ) → Ends (branch_on_table table target fallthrough)
unfolding mov_load emit_set_pc_imm mov_imm
branch_on_table-Ends (some table) target fallthrough =
    EndsInRet-++ (mov_load rax nzcv_offset w32) _ (
      EndsInRet-++ (0xC1 ∷ 0xE8 ∷ 0x1C ∷ []) _ (
        EndsInRet-++ (mov_imm rcx table w32) _ (
          EndsInRet-++ (0x66 ∷ 0x0F ∷ 0xA3 ∷ 0xC1 ∷ 0x73 ∷ set_pc_ret_len ∷ []) _
            (exits-EndsInRet target fallthrough))))
branch_on_table-Ends none target fallthrough = tt

emit_branch_cond-Ends :
    (target cond fallthrough : ℕ) → Ends (emit_branch_cond target cond fallthrough)
unfolding emit_branch_cond
emit_branch_cond-Ends target cond fallthrough = elim (Bool-cases (ltb 15 cond)) [
  | inl h ↦ rw h tt
  | inr h ↦ rw h (branch_on_table-Ends (get_elem? build_condition_tables cond) target fallthrough)
]

emit_compare_branch-Ends :
    (g : GuestReg) (kind target fallthrough : ℕ)
    → Ends (emit_compare_branch g kind target fallthrough)
unfolding emit_compare_branch
emit_compare_branch-Ends g kind target fallthrough =
    >>-Ends (load_state rax g) _ (GoesOn-ReturnsRet (load_state rax g) (load_state-GoesOn rax g)) (
      EndsInRet-++ (rex (is_x64 g.width)) _ (
        EndsInRet-++ (0x85 ∷ 0xC0 ∷ (if kind == 0 then 0x75 else 0x74) ∷ set_pc_ret_len ∷ []) _
          (exits-EndsInRet target fallthrough)))

emit_conditional-Ends :
    (b c : Operand) (target fallthrough : ℕ) → Ends (emit_conditional b c target fallthrough)
emit_conditional-Ends (imm cond) Operand.none target fallthrough =
    emit_branch_cond-Ends target cond fallthrough
emit_conditional-Ends (reg g) (imm kind) target fallthrough = elim (Bool-cases (leb kind 1)) [
  | inl h ↦ rw h (emit_compare_branch-Ends g kind target fallthrough)
  | inr h ↦ rw h tt
]
emit_conditional-Ends b c target fallthrough = tt

emit_branch_to-Ends :
    (a : Operand) (inst : IrInst) (fallthrough : ℕ) → Ends (emit_branch_to a inst fallthrough)
emit_branch_to-Ends (guest_pc target) inst fallthrough =
    emit_conditional-Ends inst.b inst.c target fallthrough
emit_branch_to-Ends a inst fallthrough = tt

emit_ret-Ends : Ends (load_state rax (x 30) >> emitted (mov_store pc_offset rax x64 ++ 0xC3 ∷ []))
emit_ret-Ends =
    >>-Ends (load_state rax (x 30)) _
      (GoesOn-ReturnsRet (load_state rax (x 30)) (load_state-GoesOn rax (x 30)))
      (mov_store pc_offset rax x64, refl)

emit_as-ReturnsRet :
    (op : Opcode) (fallthrough : ℕ) (inst : IrInst) → ReturnsRet (emit_as op fallthrough inst)
unfolding emit_as
emit_as-ReturnsRet nop fallthrough inst = tt
emit_as-ReturnsRet mov fallthrough inst =
    GoesOn-ReturnsRet (emit_mov inst.a inst) (emit_mov-GoesOn inst.a inst)
emit_as-ReturnsRet add fallthrough inst =
    GoesOn-ReturnsRet (emit_arithmetic inst.a inst) (emit_arithmetic-GoesOn inst.a inst)
emit_as-ReturnsRet sub fallthrough inst =
    GoesOn-ReturnsRet (emit_arithmetic inst.a inst) (emit_arithmetic-GoesOn inst.a inst)
emit_as-ReturnsRet and fallthrough inst =
    GoesOn-ReturnsRet (emit_arithmetic inst.a inst) (emit_arithmetic-GoesOn inst.a inst)
emit_as-ReturnsRet orr fallthrough inst =
    GoesOn-ReturnsRet (emit_arithmetic inst.a inst) (emit_arithmetic-GoesOn inst.a inst)
emit_as-ReturnsRet eor fallthrough inst =
    GoesOn-ReturnsRet (emit_arithmetic inst.a inst) (emit_arithmetic-GoesOn inst.a inst)
emit_as-ReturnsRet shift fallthrough inst =
    GoesOn-ReturnsRet (emit_shift inst.a inst) (emit_shift-GoesOn inst.a inst)
emit_as-ReturnsRet load fallthrough inst =
    GoesOn-ReturnsRet (emit_load inst.a inst.b) (emit_load-GoesOn inst.a inst.b)
emit_as-ReturnsRet store fallthrough inst =
    GoesOn-ReturnsRet (emit_store inst.a inst.b) (emit_store-GoesOn inst.a inst.b)
emit_as-ReturnsRet branch fallthrough inst =
    ending-ReturnsRet (emit_branch inst.a) (emit_branch-Ends inst.a)
emit_as-ReturnsRet branch_cond fallthrough inst =
    ending-ReturnsRet (emit_branch_to inst.a inst fallthrough)
      (emit_branch_to-Ends inst.a inst fallthrough)
emit_as-ReturnsRet ret fallthrough inst =
    ending-ReturnsRet (load_state rax (x 30) >> emitted (mov_store pc_offset rax x64 ++ 0xC3 ∷ []))
      emit_ret-Ends
emit_as-ReturnsRet op fallthrough inst = tt

emit_insts-Ends :
    (block : Block) (index : ℕ) (inst : IrInst) (insts : List IrInst)
    → Ends (emit_insts block index (inst ∷ insts))
unfolding emit_insts
emit_insts-Ends block index inst [] =
    >>-Ends (emit_as inst.opcode _ inst) _ (emit_as-ReturnsRet inst.opcode _ inst) (
      >>-Ends_before
        (emitted (emit_set_pc_imm (u64 (block.guest_pc + byte_len block)) ++ 0xC3 ∷ []))
        (emit_set_pc_imm (u64 (block.guest_pc + byte_len block)), refl))
emit_insts-Ends block index inst (next ∷ insts) =
    >>-Ends (emit_as inst.opcode _ inst) _ (emit_as-ReturnsRet inst.opcode _ inst) (
      prepend-Ends [] (emit_insts block (index + 1) (next ∷ insts))
        (emit_insts-Ends block (index + 1) next insts))

-- The code of a block, where it is emitted, has a return as its last byte.
pub emit_block-Ends : (block : Block) → Ends (emit_block block)
unfolding emit_block
emit_block-Ends block = go block.insts refl
  where
    go : (insts : List IrInst) → block.insts ≡ insts → Ends (emit_block block)
    go [] e = rw e (emit_set_pc_imm block.guest_pc, refl)
    go (inst ∷ insts) e =
        rw e
          (>>-Ends_before (emit_insts block 0 (inst ∷ insts)) (emit_insts-Ends block 0 inst insts))
