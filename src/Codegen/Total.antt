-- ===== src/Codegen/Total.antt =====
-- src/codegen/x86_64.rs, `emit_block`: the `unreachable!()`s of the methods that it calls.
use armx.Base.{
  ℕ, ◌+◌, ◌<◌, ◌≡◌, ◌≢◌, refl, sym, subst, arith, Bool, true, false, List, [], ◌∷◌, ◌++◌, Option,
  some, none, Bool-cases, inl, inr, if◌then◌else◌, ltb, leb, length, get_elem?-in_range,
}
use armx.Ir.Operand.{
  RegWidth, x64, GuestReg, x, Operand, reg, imm, shifted_imm, shifted_reg, shift_reg, mem, guest_pc,
  is_zero,
}
use armx.Ir.Inst.{
  Opcode, nop, mov, add, sub, and, orr, eor, shift, load, store, branch, branch_cond, ret, IrInst,
  writes_nzcv,
}
use armx.Ir.Block.{Block}
use armx.Runtime.State.{pc_offset}
use armx.Jit.Selection.{InstForm, immediate, select}
use armx.Codegen.{
  Emit, emitted, returned, failed, panicked, ◌>>◌, prepend, or_panic, load_state, load_operand,
  emit_guest_address, emit_mov, emit_operation, emit_arithmetic, emit_amount, emit_shift, emit_load,
  emit_store, emit_branch, emit_branch_to, emit_conditional, emit_branch_cond, emit_compare_branch,
  branch_on_table, ending, is_empty, emit_as, emit_insts, emit_block,
}
use armx.Codegen.Encoding.{
  X86Scratch, rax, rcx, rdx, rsi, xor, binop, binop_imm, mov_store, emit_nzcv_from_x86_flags,
}
use armx.Codegen.Conditions.{build_condition_tables}
use armx.Codegen.Correct.Nzcv.{SetsFlags, add_flags, sub_flags, and_flags}

abbrev pub NoPanic : Emit → Type 0
NoPanic panicked = ⊥
NoPanic _ = Unit

prepend-NoPanic : (xs : List ℕ) (e : Emit) → NoPanic e → NoPanic (prepend xs e)
prepend-NoPanic xs (emitted ys) h = tt
prepend-NoPanic xs (returned ys) h = tt
prepend-NoPanic xs (failed err) h = tt
prepend-NoPanic xs panicked h = h

>>-NoPanic : (e f : Emit) → NoPanic e → NoPanic f → NoPanic (e >> f)
>>-NoPanic (emitted xs) f he hf = prepend-NoPanic xs f hf
>>-NoPanic (returned xs) f he hf = tt
>>-NoPanic (failed err) f he hf = tt
>>-NoPanic panicked f he hf = he

ending-NoPanic : (e : Emit) → NoPanic e → NoPanic (ending e)
ending-NoPanic (emitted xs) h = tt
ending-NoPanic (returned xs) h = tt
ending-NoPanic (failed err) h = tt
ending-NoPanic panicked h = h

xor-NoPanic : (r : X86Scratch) (w : RegWidth) → NoPanic (or_panic (xor r r w))
unfolding xor
xor-NoPanic rax w = tt
xor-NoPanic rcx w = tt
xor-NoPanic rdx w = tt
xor-NoPanic rsi w = tt

load_state-NoPanic : (r : X86Scratch) (g : GuestReg) → NoPanic (load_state r g)
unfolding load_state
load_state-NoPanic r g = elim (Bool-cases (is_zero g.kind)) [
  | inl z ↦ rw (load_state, z) (xor-NoPanic r g.width)
  | inr z ↦ rw (load_state, z) tt
]

load_operand-NoPanic :
    (op : Operand) (r : X86Scratch) (w : RegWidth) → NoPanic (load_operand op r w)
unfolding load_operand
load_operand-NoPanic (reg g) r w = load_state-NoPanic r g
load_operand-NoPanic (imm v) r w = tt
load_operand-NoPanic (shifted_imm v by) r w = tt
load_operand-NoPanic (shifted_reg g kind by) r w =
    >>-NoPanic (load_state r g) _ (load_state-NoPanic r g) tt
load_operand-NoPanic op r w = tt

emit_guest_address-NoPanic : (g : GuestReg) → NoPanic (emit_guest_address g)
unfolding emit_guest_address
emit_guest_address-NoPanic g = >>-NoPanic (load_state rax g) _ (load_state-NoPanic rax g) tt

-- The opcodes of `binop`.
pub data IsArithmetic : Opcode → Type 0 where
  is_add : IsArithmetic add
  is_sub : IsArithmetic sub
  is_and : IsArithmetic and
  is_orr : IsArithmetic orr
  is_eor : IsArithmetic eor

binop-NoPanic : {op : Opcode} (w : RegWidth) → IsArithmetic op → NoPanic (or_panic (binop op w))
unfolding binop
binop-NoPanic w is_add = tt
binop-NoPanic w is_sub = tt
binop-NoPanic w is_and = tt
binop-NoPanic w is_orr = tt
binop-NoPanic w is_eor = tt

binop_imm-NoPanic :
    {op : Opcode} (w : RegWidth) (v : ℕ) → IsArithmetic op → NoPanic (or_panic (binop_imm op w v))
unfolding binop_imm
binop_imm-NoPanic w v is_add = tt
binop_imm-NoPanic w v is_sub = tt
binop_imm-NoPanic w v is_and = tt
binop_imm-NoPanic w v is_orr = tt
binop_imm-NoPanic w v is_eor = tt

nzcv-NoPanic : {op : Opcode} → SetsFlags op → NoPanic (or_panic (emit_nzcv_from_x86_flags op))
unfolding emit_nzcv_from_x86_flags
nzcv-NoPanic add_flags = tt
nzcv-NoPanic sub_flags = tt
nzcv-NoPanic and_flags = tt

emit_operation-NoPanic :
    {op : Opcode} (form : InstForm) (b c : Operand) (w : RegWidth)
    → IsArithmetic op
    → NoPanic (emit_operation form b c op w)
emit_operation-NoPanic immediate (reg lhs) (imm v) w a =
    >>-NoPanic (load_state rax lhs) _ (load_state-NoPanic rax lhs) (binop_imm-NoPanic w v a)
emit_operation-NoPanic {op} form b c w a =
    >>-NoPanic (load_operand b rax w) _ (load_operand-NoPanic b rax w)
      (>>-NoPanic (load_operand c rcx w) _ (load_operand-NoPanic c rcx w) (binop-NoPanic w a))

-- Only ADD, SUB and AND write the flags.
abbrev pub FlagsFit : IrInst → Type 0
FlagsFit inst = writes_nzcv inst ≡ true → SetsFlags inst.opcode

emit_arithmetic-NoPanic :
    (a : Operand) (inst : IrInst)
    → IsArithmetic inst.opcode
    → FlagsFit inst
    → NoPanic (emit_arithmetic a inst)
emit_arithmetic-NoPanic (reg d) inst arithmetic flags =
    >>-NoPanic (emit_operation (select inst).form inst.b inst.c inst.opcode d.width) _
      (emit_operation-NoPanic (select inst).form inst.b inst.c d.width arithmetic)
      (prepend-NoPanic _
        (if writes_nzcv inst then or_panic (emit_nzcv_from_x86_flags inst.opcode) else emitted [])
        (go (writes_nzcv inst) refl))
  where
    go :
        (on : Bool)
        → writes_nzcv inst ≡ on
        → NoPanic (if on then or_panic (emit_nzcv_from_x86_flags inst.opcode) else emitted [])
    go true e = nzcv-NoPanic (flags e)
    go false e = tt
emit_arithmetic-NoPanic a inst arithmetic flags = tt

emit_amount-NoPanic : (c : Operand) (w : RegWidth) → NoPanic (emit_amount c w)
emit_amount-NoPanic (shift_reg v g kind) w =
    >>-NoPanic (load_state rcx g) _ (load_state-NoPanic rcx g) tt
emit_amount-NoPanic c w = tt

tables-length : length build_condition_tables ≡ 16
unfolding build_condition_tables
tables-length = refl

branch_on_table-NoPanic :
    (o : Option ℕ) (target next : ℕ) → o ≢ none → NoPanic (branch_on_table o target next)
branch_on_table-NoPanic (some table) target next h = tt
branch_on_table-NoPanic none target next h = absurd (h refl)

emit_branch_cond-NoPanic : (target cond next : ℕ) → NoPanic (emit_branch_cond target cond next)
unfolding emit_branch_cond
emit_branch_cond-NoPanic target cond next = elim (Bool-cases (ltb 15 cond)) [
  | inl h ↦ rw (emit_branch_cond, h) tt
  | inr h ↦
      let small : cond < length build_condition_tables =
        omega (arith, tables-length, ltb_false 15 cond h) in
      let (table, found) = get_elem?-in_range build_condition_tables cond small in
      rw (emit_branch_cond, h) (branch_on_table-NoPanic _ target next (λ e. cc (e, found)))
]
  where
    ltb_false : (a b : ℕ) → ltb a b ≡ false → b < a + 1
    ltb_false a b h = ground (arith, h)

emit_conditional-NoPanic :
    (b c : Operand) (target next : ℕ) → NoPanic (emit_conditional b c target next)
unfolding emit_compare_branch
emit_conditional-NoPanic (imm cond) Operand.none target next =
    emit_branch_cond-NoPanic target cond next
emit_conditional-NoPanic (reg g) (imm kind) target next = elim (Bool-cases (leb kind 1)) [
  | inl h ↦ rw h (>>-NoPanic (load_state rax g) _ (load_state-NoPanic rax g) tt)
  | inr h ↦ rw h tt
]
emit_conditional-NoPanic b c target next = tt

mov-NoPanic : (a : Operand) (inst : IrInst) → NoPanic (emit_mov a inst)
mov-NoPanic (reg d) inst =
    >>-NoPanic (load_operand inst.b rax d.width) _ (load_operand-NoPanic inst.b rax d.width) tt
mov-NoPanic a inst = tt

shift-NoPanic : (a : Operand) (inst : IrInst) → NoPanic (emit_shift a inst)
shift-NoPanic (reg d) inst =
    >>-NoPanic (load_operand inst.b rax d.width) _ (load_operand-NoPanic inst.b rax d.width)
      (>>-NoPanic (emit_amount inst.c d.width) _ (emit_amount-NoPanic inst.c d.width) tt)
shift-NoPanic a inst = tt

load-NoPanic : (a b : Operand) → NoPanic (emit_load a b)
load-NoPanic (reg d) (mem m) =
    >>-NoPanic (emit_guest_address m.base) _ (emit_guest_address-NoPanic m.base) tt
load-NoPanic (reg d) b = tt
load-NoPanic a b = tt

store-NoPanic : (a b : Operand) → NoPanic (emit_store a b)
store-NoPanic (mem m) (reg g) =
    >>-NoPanic (load_state rcx g) _ (load_state-NoPanic rcx g)
      (>>-NoPanic (emit_guest_address m.base) _ (emit_guest_address-NoPanic m.base) tt)
store-NoPanic (mem m) b = tt
store-NoPanic a b = tt

branch-NoPanic : (a : Operand) → NoPanic (emit_branch a)
branch-NoPanic (guest_pc pc) = tt
branch-NoPanic a = tt

branch_to-NoPanic : (a : Operand) (inst : IrInst) (next : ℕ) → NoPanic (emit_branch_to a inst next)
branch_to-NoPanic (guest_pc target) inst next = emit_conditional-NoPanic inst.b inst.c target next
branch_to-NoPanic a inst next = tt

emit_as-NoPanic :
    (op : Opcode) (next : ℕ) (inst : IrInst)
    → inst.opcode ≡ op
    → FlagsFit inst
    → NoPanic (emit_as op next inst)
unfolding emit_as
emit_as-NoPanic nop next inst e flags = tt
emit_as-NoPanic mov next inst e flags = mov-NoPanic inst.a inst
emit_as-NoPanic add next inst e flags =
    emit_arithmetic-NoPanic inst.a inst (subst IsArithmetic (sym e) is_add) flags
emit_as-NoPanic sub next inst e flags =
    emit_arithmetic-NoPanic inst.a inst (subst IsArithmetic (sym e) is_sub) flags
emit_as-NoPanic and next inst e flags =
    emit_arithmetic-NoPanic inst.a inst (subst IsArithmetic (sym e) is_and) flags
emit_as-NoPanic orr next inst e flags =
    emit_arithmetic-NoPanic inst.a inst (subst IsArithmetic (sym e) is_orr) flags
emit_as-NoPanic eor next inst e flags =
    emit_arithmetic-NoPanic inst.a inst (subst IsArithmetic (sym e) is_eor) flags
emit_as-NoPanic shift next inst e flags = shift-NoPanic inst.a inst
emit_as-NoPanic load next inst e flags = load-NoPanic inst.a inst.b
emit_as-NoPanic store next inst e flags = store-NoPanic inst.a inst.b
emit_as-NoPanic branch next inst e flags =
    ending-NoPanic (emit_branch inst.a) (branch-NoPanic inst.a)
emit_as-NoPanic branch_cond next inst e flags =
    ending-NoPanic (emit_branch_to inst.a inst next) (branch_to-NoPanic inst.a inst next)
emit_as-NoPanic ret next inst e flags =
    ending-NoPanic (load_state rax (x 30) >> emitted (mov_store pc_offset rax x64 ++ 0xC3 ∷ []))
      (>>-NoPanic (load_state rax (x 30)) _ (load_state-NoPanic rax (x 30)) tt)
emit_as-NoPanic op next inst e flags = tt

abbrev pub AllFlagsFit : List IrInst → Type 0
AllFlagsFit [] = Unit
AllFlagsFit (inst ∷ insts) = FlagsFit inst × AllFlagsFit insts

last-NoPanic : (b : Bool) (xs : List ℕ) → NoPanic (if b then emitted xs else emitted [])
last-NoPanic true xs = tt
last-NoPanic false xs = tt

emit_insts-NoPanic :
    (block : Block) (index : ℕ) (insts : List IrInst)
    → AllFlagsFit insts
    → NoPanic (emit_insts block index insts)
unfolding emit_insts
emit_insts-NoPanic block index [] fit = tt
emit_insts-NoPanic block index (inst ∷ insts) (flags, fit) =
    >>-NoPanic (emit_as inst.opcode _ inst) _ (emit_as-NoPanic inst.opcode _ inst refl flags) (
      >>-NoPanic (if is_empty insts then emitted _ else emitted []) _
        (last-NoPanic (is_empty insts) _) (emit_insts-NoPanic block (index + 1) insts fit))

-- Emission never comes to one of its `unreachable!()`s, for any block in which the instructions that
-- write the flags are ADD, SUB and AND: it gives code or an error.
pub emit_block-NoPanic : (block : Block) → AllFlagsFit block.insts → NoPanic (emit_block block)
unfolding emit_block
emit_block-NoPanic block fit =
    >>-NoPanic (emit_insts block 0 block.insts) _ (emit_insts-NoPanic block 0 block.insts fit)
      (last-NoPanic (is_empty block.insts) _)
