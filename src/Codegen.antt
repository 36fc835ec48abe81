-- ===== src/Codegen.antt =====
-- src/codegen/x86_64.rs: from a block to host code. The additions of `emit_block` and a shift of
-- an immediate wrap, as in a release build.
pub mod Encoding
pub mod Conditions
pub mod Ends
pub mod Closing
pub mod Rejects
pub mod Total
pub mod Correct
use armx.Base.{
  ℕ, zero, suc, ◌+◌, ◌*◌, ◌/◌, ◌%◌, ◌^◌, Bool, true, false, List, [], ◌∷◌, ◌++◌, Option, some, none,
  u64, leb, ltb, ◌==◌, if◌then◌else◌, get_elem?,
}
use armx.Ir.Operand.{
  RegWidth, w32, x64, GuestReg, x, MemOperand, Operand, reg, imm, shifted_imm, shifted_reg,
  shift_reg, mem, guest_pc, is_zero, is_stack_pointer, is_x64,
}
use armx.Ir.Inst.{
  Opcode, nop, mov, add, sub, and, orr, eor, shift, load, store, branch, branch_cond, ret, IrInst,
  writes_nzcv,
}
use armx.Ir.Block.{Block, byte_len}
use armx.Runtime.State.{gpr_base, sp_offset, nzcv_offset, pc_offset}
use armx.Runtime.Memory.{host_base}
use armx.Jit.Selection.{InstForm, immediate, generic, select}
use armx.Codegen.Encoding.{
  X86Scratch, rax, rcx, rdx, rex, mov_imm, mov_load, mov_store, xor, binop, binop_imm,
  emit_nzcv_from_x86_flags, shift_imm, emit_mem_load, emit_mem_store,
}
use armx.Codegen.Conditions.{build_condition_tables}

pub data CodegenError : Type 0 where
  unsupported_opcode : Opcode → CodegenError
  unsupported_operand : CodegenError

-- What a method does to the buffer and how it ends: it appends bytes and goes on, or returns early
-- with them, or fails, or panics.
pub data Emit : Type 0 where
  emitted returned : List ℕ → Emit
  failed : CodegenError → Emit
  panicked : Emit

abbrev pub prepend : List ℕ → Emit → Emit
prepend bytes (emitted rest) = emitted (bytes ++ rest)
prepend bytes (returned rest) = returned (bytes ++ rest)
prepend bytes e = e

infixr 4 ◌>>◌
-- One method after another.
abbrev pub ◌>>◌ : Emit → Emit → Emit
emitted bytes >> e = prepend bytes e
e >> next = e

abbrev pub or_panic : Option (List ℕ) → Emit
or_panic (some bytes) = emitted bytes
or_panic none = panicked

abbrev pub state_offset : GuestReg → ℕ
state_offset g = if is_stack_pointer g.kind then sp_offset else gpr_base + g.num * 8

unfoldable pub load_state : X86Scratch → GuestReg → Emit
load_state r g =
    if is_zero g.kind
    then or_panic (xor r r g.width)
    else emitted (mov_load r (state_offset g) g.width)

unfoldable pub store_state : GuestReg → X86Scratch → List ℕ
store_state g r = if is_zero g.kind then [] else mov_store (state_offset g) r x64

unfoldable pub load_operand : Operand → X86Scratch → RegWidth → Emit
load_operand (reg g) r width = load_state r g
load_operand (imm value) r width = emitted (mov_imm r value width)
load_operand (shifted_imm value amount) r width =
    emitted (mov_imm r (u64 (value * 2 ^ (amount % 64))) width)
load_operand (shifted_reg g kind amount) r width =
    load_state r g >> emitted (shift_imm r kind amount width)
load_operand _ r width = failed unsupported_operand

unfoldable pub emit_guest_address : GuestReg → Emit
emit_guest_address base =
    load_state rax base >> emitted (mov_imm rdx host_base x64 ++ rex true ++ 0x01 ∷ 0xD0 ∷ [])

unfoldable pub emit_set_pc_imm : ℕ → List ℕ
emit_set_pc_imm pc = mov_imm rax pc x64 ++ mov_store pc_offset rax x64

abbrev pub set_pc_ret_len : ℕ
set_pc_ret_len = 18

-- To `target` and to `fallthrough`: the tail of both conditional branches.
abbrev pub exits : ℕ → ℕ → List ℕ
exits target fallthrough = emit_set_pc_imm target ++ 0xC3 ∷ emit_set_pc_imm fallthrough ++ 0xC3 ∷ []

abbrev pub branch_on_table : Option ℕ → ℕ → ℕ → Emit
branch_on_table (some table) target fallthrough = emitted (
    mov_load rax nzcv_offset w32
    ++ (0xC1 ∷ 0xE8 ∷ 0x1C ∷ [])
    ++ mov_imm rcx table w32
    ++ (0x66 ∷ 0x0F ∷ 0xA3 ∷ 0xC1 ∷ 0x73 ∷ set_pc_ret_len ∷ [])
    ++ exits target fallthrough)
branch_on_table none target fallthrough = panicked

unfoldable pub emit_branch_cond : ℕ → ℕ → ℕ → Emit
emit_branch_cond target condition fallthrough =
    if ltb 15 condition
    then failed unsupported_operand
    else branch_on_table (get_elem? build_condition_tables condition) target fallthrough

-- CBZ and CBNZ.
unfoldable pub emit_compare_branch : GuestReg → ℕ → ℕ → ℕ → Emit
emit_compare_branch g kind target fallthrough =
    load_state rax g
    >> emitted (
        rex (is_x64 g.width)
        ++ 0x85
          ∷ 0xC0
          ∷ (if kind == 0 then 0x75 else 0x74)
          ∷ set_pc_ret_len
          ∷ exits target fallthrough)

abbrev pub emit_mov : Operand → IrInst → Emit
emit_mov (reg d) inst = load_operand inst.b rax d.width >> emitted (store_state d rax)
emit_mov _ inst = failed unsupported_operand

-- The match on the selected form and the operands.
abbrev pub emit_operation : InstForm → Operand → Operand → Opcode → RegWidth → Emit
emit_operation immediate (reg lhs) (imm value) op width =
    load_state rax lhs >> or_panic (binop_imm op width value)
emit_operation form b c op width =
    load_operand b rax width >> load_operand c rcx width >> or_panic (binop op width)

abbrev pub emit_arithmetic : Operand → IrInst → Emit
emit_arithmetic (reg d) inst =
    emit_operation (select inst).form inst.b inst.c inst.opcode d.width
    >> emitted (store_state d rax)
    >> (if writes_nzcv inst then or_panic (emit_nzcv_from_x86_flags inst.opcode) else emitted [])
emit_arithmetic _ inst = failed unsupported_operand

abbrev pub emit_amount : Operand → RegWidth → Emit
emit_amount (shift_reg _ amount kind) width =
    load_state rcx amount >> emitted (Encoding.shift_reg kind width)
emit_amount _ width = failed unsupported_operand

abbrev pub emit_shift : Operand → IrInst → Emit
emit_shift (reg d) inst =
    load_operand inst.b rax d.width >> emit_amount inst.c d.width >> emitted (store_state d rax)
emit_shift _ inst = failed unsupported_operand

abbrev pub emit_load : Operand → Operand → Emit
emit_load (reg d) (mem m) =
    emit_guest_address m.base
    >> emitted (emit_mem_load m.width m.offset)
    >> emitted (store_state d rax)
emit_load _ _ = failed unsupported_operand

abbrev pub emit_store : Operand → Operand → Emit
emit_store (mem m) (reg source) =
    load_state rcx source >> emit_guest_address m.base >> emitted (emit_mem_store m.width m.offset)
emit_store _ _ = failed unsupported_operand

-- The arms that return from `emit_block`.
abbrev pub ending : Emit → Emit
ending (emitted bytes) = returned bytes
ending e = e

abbrev pub emit_branch : Operand → Emit
emit_branch (guest_pc pc) = emitted (emit_set_pc_imm pc ++ 0xC3 ∷ [])
emit_branch _ = failed unsupported_operand

abbrev pub emit_conditional : Operand → Operand → ℕ → ℕ → Emit
emit_conditional (imm cond) Operand.none target fallthrough =
    emit_branch_cond target cond fallthrough
emit_conditional (reg g) (imm kind) target fallthrough =
    if leb kind 1 then emit_compare_branch g kind target fallthrough else failed unsupported_operand
emit_conditional _ _ target fallthrough = failed unsupported_operand

abbrev pub emit_branch_to : Operand → IrInst → ℕ → Emit
emit_branch_to (guest_pc target) inst fallthrough =
    emit_conditional inst.b inst.c target fallthrough
emit_branch_to _ inst fallthrough = failed unsupported_operand

-- One instruction; `fallthrough` is the address of the next.
unfoldable pub emit_as : Opcode → ℕ → IrInst → Emit
unfolding load_operand select
emit_as nop fallthrough inst = emitted (0x90 ∷ [])
emit_as mov fallthrough inst = emit_mov inst.a inst
emit_as add fallthrough inst = emit_arithmetic inst.a inst
emit_as sub fallthrough inst = emit_arithmetic inst.a inst
emit_as and fallthrough inst = emit_arithmetic inst.a inst
emit_as orr fallthrough inst = emit_arithmetic inst.a inst
emit_as eor fallthrough inst = emit_arithmetic inst.a inst
emit_as shift fallthrough inst = emit_shift inst.a inst
emit_as load fallthrough inst = emit_load inst.a inst.b
emit_as store fallthrough inst = emit_store inst.a inst.b
emit_as branch fallthrough inst = ending (emit_branch inst.a)
emit_as branch_cond fallthrough inst = ending (emit_branch_to inst.a inst fallthrough)
emit_as ret fallthrough inst =
    ending (load_state rax (x 30) >> emitted (mov_store pc_offset rax x64 ++ 0xC3 ∷ []))
emit_as op fallthrough inst = failed (unsupported_opcode op)

abbrev pub is_empty : List IrInst → Bool
is_empty [] = true
is_empty _ = false

-- The loop from the instruction at `index` on.
unfoldable pub emit_insts : Block → ℕ → List IrInst → Emit
unfolding emit_set_pc_imm
emit_insts block index [] = emitted []
emit_insts block index (inst ∷ insts) =
    emit_as inst.opcode (u64 (block.guest_pc + (index + 1) * 4)) inst
    >> (if is_empty insts
        then emitted (emit_set_pc_imm (u64 (block.guest_pc + byte_len block)) ++ 0xC3 ∷ [])
        else emitted [])
    >> emit_insts block (index + 1) insts

unfoldable pub emit_block : Block → Emit
unfolding emit_insts
emit_block block =
    emit_insts block 0 block.insts
    >> (if is_empty block.insts
        then emitted (emit_set_pc_imm block.guest_pc ++ 0xC3 ∷ [])
        else emitted [])

-- The bytes that `into_executable` maps, where there is no failure.
abbrev pub code_of : Emit → Option (List ℕ)
code_of (emitted code) = some code
code_of (returned code) = some code
code_of e = none
