-- ===== src/Jit/Selection.antt =====
-- src/jit/isel.rs: which arithmetic instructions take an immediate form on the host.
use armx.Base.{
  ℕ, ◌+◌, ◌-◌, ◌*◌, ◌/◌, ◌%◌, ◌^◌, Bool, true, false, List, [], ◌∷◌, u32, u32_max, leb, ◌==◌,
  if◌then◌else◌, saturating_add32,
}
use armx.Ir.Operand.{RegWidth, w32, x64, Operand, reg, imm}
use armx.Ir.Inst.{
  Opcode, nop, mov, add, sub, and, orr, eor, shift, load, store, branch, branch_cond, ret, IrInst,
}
use armx.Ir.Block.{Block}
pub mod Immediate

pub data InstForm : Type 0 where
  generic immediate : InstForm

pub record Selection : Type 0 where
  pub opcode : Opcode
  pub form : InstForm
  pub cost : ℕ

pub record InstructionSelector : Type 0 where
  pub immediate_forms : ℕ

abbrev pub default : InstructionSelector
default = record { immediate_forms = 0 }

-- `value as i32 as i64 as u64`.
abbrev pub sign_extend_32 : ℕ → ℕ
sign_extend_32 v = let low = u32 v in if leb (2 ^ 31) low then low + 2 ^ 64 - 2 ^ 32 else low

abbrev pub fits : RegWidth → Opcode → ℕ → Bool
fits w32 op v = leb v u32_max
fits x64 add v = sign_extend_32 v == v
fits x64 sub v = sign_extend_32 v == v
fits x64 and v = leb v (2 ^ 31 - 1)
fits x64 orr v = leb v (2 ^ 31 - 1)
fits x64 eor v = leb v (2 ^ 31 - 1)
fits x64 _ v = false

abbrev pub is_arithmetic : Opcode → Bool
is_arithmetic add = true
is_arithmetic sub = true
is_arithmetic and = true
is_arithmetic orr = true
is_arithmetic eor = true
is_arithmetic _ = false

abbrev pub operands_fit : Opcode → Operand → Operand → Bool
operands_fit op (reg d) (imm v) = fits d.width op v
operands_fit op _ _ = false

unfoldable pub is_immediate_candidate : IrInst → Bool
is_immediate_candidate inst =
    if is_arithmetic inst.opcode then operands_fit inst.opcode inst.a inst.c else false

unfoldable pub generic_cost : Opcode → ℕ
generic_cost nop = 0
generic_cost mov = 1
generic_cost add = 2
generic_cost sub = 2
generic_cost and = 2
generic_cost orr = 2
generic_cost eor = 2
generic_cost shift = 2
generic_cost load = 3
generic_cost store = 3
generic_cost _ = 4

unfoldable pub select : IrInst → Selection
unfolding is_immediate_candidate generic_cost
select inst =
    if is_immediate_candidate inst
    then record { opcode = inst.opcode; form = immediate; cost = 1 }
    else record { opcode = inst.opcode; form = generic; cost = generic_cost inst.opcode }

abbrev count_immediates : List IrInst → ℕ → ℕ
count_immediates [] forms = forms
count_immediates (inst ∷ insts) forms =
    count_immediates insts (if is_immediate_candidate inst then saturating_add32 forms 1 else forms)

-- The block is read only.
unfoldable pub select_block : InstructionSelector → Block → InstructionSelector
unfolding is_immediate_candidate
select_block selector block = record {
  immediate_forms = count_immediates block.insts selector.immediate_forms;
}
