-- ===== src/Jit/Optimizer.antt =====
-- src/jit/optimizer.rs: the pass over a block. `constants` has an entry for each of the 31 general
-- registers; an index outside it panics, which is `none`. `Optimizer.Fold` has the arithmetic.
pub mod Fold
mod Tests
pub mod Arithmetic
pub mod Agree
pub mod Identity
pub mod Visit
pub mod Rewriting
pub mod Sound
pub mod Total
pub mod Rotation
pub mod Flags
use Fold.{mask_width, fold_binop, fold_shift}
use mathlib.Core.List.{map}
use armx.Base.{
  ℕ, ◌+◌, Bool, true, false, ◌&&◌, List, [], ◌∷◌, Option, some, none, get_elem?, set?, replicate,
  ◌==◌, if◌then◌else◌, ◌>>=◌, map_some, saturating_add32, u64_max,
}
use armx.Ir.Operand.{
  RegWidth, ShiftKind, GuestReg, Operand, reg, imm, shift_reg, is_general, is_zero, width_eq,
}
use armx.Ir.Inst.{
  Opcode, nop, unsupported, mov, add, sub, and, orr, eor, shift, load, IrInst, writes_nzcv,
}
use armx.Ir.Block.{Block}

pub record Optimizer : Type 0 where
  pub folded : ℕ
  pub propagated : ℕ
  pub simplified : ℕ

abbrev pub default : Optimizer
default = record { folded = 0; propagated = 0; simplified = 0 }

abbrev pub Constants : Type 0
Constants = List (Option ℕ)

-- `constants[r.num as usize].map(|v| mask_width(v, width))`.
unfoldable pub known : Constants → GuestReg → RegWidth → Option (Option ℕ)
known constants r width = map_some (map_some (λ v. mask_width v width)) (get_elem? constants r.num)

unfoldable pub constant_operand : Operand → Constants → Option (Option ℕ)
unfolding known
constant_operand (imm v) constants = some (some v)
constant_operand (reg r) constants =
    if is_zero r.kind
    then some (some 0)
    else if is_general r.kind
    then known constants r r.width
    else some none
constant_operand _ constants = some none

abbrev substitute : Operand → Optimizer → Option ℕ → Operand × Optimizer
substitute op o none = (op, o)
substitute op o (some v) = (imm v, record o { propagated = saturating_add32 o.propagated 1 })

unfoldable pub rewrite_operand : Optimizer → Operand → Constants → Option (Operand × Optimizer)
unfolding known
rewrite_operand o (reg r) constants =
    if is_general r.kind
    then map_some (substitute (reg r) o) (known constants r r.width)
    else some (reg r, o)
rewrite_operand o op constants = some (op, o)

unfoldable pub same_general_reg : GuestReg → GuestReg → Bool
same_general_reg a b =
    is_general a.kind && (is_general b.kind && (a.num == b.num && width_eq a.width b.width))

-- The source of the move that replaces `op lhs, rhs`, if an identity applies.
unfoldable pub identity_source : Opcode → Operand → Operand → RegWidth → Option Operand
unfolding same_general_reg
identity_source add lhs (imm v) width = if v == 0 then some lhs else none
identity_source sub lhs (imm v) width = if v == 0 then some lhs else none
identity_source sub (reg l) (reg r) width = if same_general_reg l r then some (imm 0) else none
identity_source and lhs (imm v) width =
    if v == 0
    then some (imm 0)
    else if mask_width v width == mask_width u64_max width
    then some lhs
    else none
identity_source orr lhs (imm v) width =
    if mask_width v width == mask_width u64_max width
    then some (imm (mask_width u64_max width))
    else if v == 0
    then some lhs
    else none
identity_source eor lhs (imm v) width = if v == 0 then some lhs else none
identity_source eor (reg l) (reg r) width = if same_general_reg l r then some (imm 0) else none
identity_source _ lhs rhs width = none

abbrev pub as_mov : IrInst → Operand → IrInst
as_mov inst source = record inst { opcode = mov; b = source; c = Operand.none }

-- The rewritten instruction, and whether it was rewritten.
unfoldable pub simplify_identity : IrInst → RegWidth → IrInst × Bool
unfolding identity_source
simplify_identity inst width = elim (identity_source inst.opcode inst.b inst.c width) [
  | none ↦ (inst, false)
  | some source ↦ (as_mov inst source, true)
]

unfoldable pub invalidate_dest : Operand → Constants → Option Constants
invalidate_dest (reg r) constants =
    if is_general r.kind then set? constants r.num none else some constants
invalidate_dest _ constants = some constants

-- What one instruction becomes, with the constants and the counters after it.
abbrev pub Visit : Type 0
Visit = Option (IrInst × Constants × Optimizer)

abbrev pub keep : IrInst → Optimizer → Option Constants → Visit
keep inst o none = none
keep inst o (some constants) = some (inst, constants, o)

-- What `Mov` makes known of its destination.
unfoldable pub moved_value : Operand → Constants → RegWidth → Option (Option ℕ)
unfolding known
moved_value (imm v) constants width = some (some (mask_width v width))
moved_value (reg src) constants width =
    if is_zero src.kind
    then some (some 0)
    else if is_general src.kind
    then known constants src width
    else some none
moved_value _ constants width = some none

unfoldable pub visit_mov : Operand → Operand → Constants → Option Constants
unfolding moved_value
visit_mov (reg dst) source constants =
    if is_general dst.kind
    then (moved_value source constants dst.width >>= set? constants dst.num)
    else some constants
visit_mov _ source constants = some constants

-- A result known at compile time: a move of it, or the flag writer kept and the result forgotten.
unfoldable pub fold_into : IrInst → GuestReg → ℕ → Constants → Optimizer → Visit
fold_into inst dst value constants o =
    if writes_nzcv inst
    then keep inst o (set? constants dst.num none)
    else keep (as_mov inst (imm value)) (record o { folded = saturating_add32 o.folded 1 })
        (set? constants dst.num (some value))

abbrev count_simplified : Optimizer → Constants → IrInst × Bool → Visit
count_simplified o constants (inst, true) =
    some (inst, constants, record o { simplified = saturating_add32 o.simplified 1 })
count_simplified o constants (inst, false) = some (inst, constants, o)

-- The result is not known: forget it, and try an identity unless NZCV is written.
unfoldable pub simplify_into : IrInst → GuestReg → Constants → Optimizer → Visit
simplify_into inst dst constants o = set? constants dst.num none >>= λ constants'.
    if writes_nzcv inst
    then some (inst, constants', o)
    else count_simplified o constants' (simplify_identity inst dst.width)

unfoldable pub fold_known : IrInst → GuestReg → Constants → Optimizer → Option ℕ → Option ℕ → Visit
unfolding fold_into simplify_into simplify_identity
fold_known inst dst constants o (some lhs) (some rhs) =
    fold_binop inst.opcode lhs rhs dst.width >>= λ value. fold_into inst dst value constants o
fold_known inst dst constants o _ _ = simplify_into inst dst constants o

unfoldable pub visit_binop : Operand → IrInst → Constants → Optimizer → Visit
unfolding constant_operand fold_known
visit_binop (reg dst) inst constants o =
    if is_general dst.kind
    then (do
      lhs ← constant_operand inst.b constants
      rhs ← constant_operand inst.c constants
      fold_known inst dst constants o lhs rhs)
    else some (inst, constants, o)
visit_binop _ inst constants o = some (inst, constants, o)

unfoldable pub fold_known_shift :
    IrInst → GuestReg → ShiftKind → Constants → Optimizer → Option ℕ → Option ℕ → Visit
unfolding fold_into
fold_known_shift inst dst kind constants o (some v) (some a) =
    fold_into inst dst (fold_shift v a kind dst.width) constants o
fold_known_shift inst dst kind constants o _ _ = keep inst o (set? constants dst.num none)

-- Value and amount are both looked up before the test.
unfoldable pub visit_shift_by : Operand → IrInst → GuestReg → Constants → Optimizer → Visit
unfolding constant_operand fold_known_shift
visit_shift_by (shift_reg v a kind) inst dst constants o = do
  value ← constant_operand (reg v) constants
  amount ← constant_operand (reg a) constants
  fold_known_shift inst dst kind constants o value amount
visit_shift_by _ inst dst constants o = keep inst o (set? constants dst.num none)

unfoldable pub visit_shift : Operand → IrInst → Constants → Optimizer → Visit
unfolding visit_shift_by
visit_shift (reg dst) inst constants o =
    if is_general dst.kind
    then visit_shift_by inst.c inst dst constants o
    else some (inst, constants, o)
visit_shift _ inst constants o = some (inst, constants, o)

-- The `match` on the opcode.
unfoldable pub visit : Opcode → IrInst → Constants → Optimizer → Visit
unfolding visit_mov visit_binop visit_shift invalidate_dest
visit nop inst constants o = some (inst, constants, o)
visit mov inst constants o = keep inst o (visit_mov inst.a inst.b constants)
visit add inst constants o = visit_binop inst.a inst constants o
visit sub inst constants o = visit_binop inst.a inst constants o
visit and inst constants o = visit_binop inst.a inst constants o
visit orr inst constants o = visit_binop inst.a inst constants o
visit eor inst constants o = visit_binop inst.a inst constants o
visit shift inst constants o = visit_shift inst.a inst constants o
visit unsupported inst constants o = some (inst, map (λ _. none) constants, o)
visit _ inst constants o = keep inst o (invalidate_dest inst.a constants)

-- One round of the loop.
unfoldable pub optimize_inst : Optimizer → Constants → IrInst → Visit
unfolding rewrite_operand visit
optimize_inst o constants inst = do
  (b, o') ← rewrite_operand o inst.b constants
  (c, o'') ← rewrite_operand o' inst.c constants
  visit inst.opcode (record inst { b = b; c = c }) constants o''

unfoldable pub optimize_insts :
    Optimizer → Constants → List IrInst → Option (List IrInst × Optimizer)
optimize_insts o constants [] = some ([], o)
optimize_insts o constants (inst ∷ insts) = do
  (inst', constants', o') ← optimize_inst o constants inst
  (insts', o'') ← optimize_insts o' constants' insts
  some (inst' ∷ insts', o'')

unfoldable pub optimize_block : Optimizer → Block → Option (Block × Optimizer)
unfolding optimize_inst optimize_insts
optimize_block o block =
    map_some (λ r. (record block { insts = r.0 }, r.1))
      (optimize_insts o (replicate 31 none) block.insts)
