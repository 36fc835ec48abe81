-- ===== src/Jit/Optimizer/Fold.antt =====
-- The arithmetic of src/jit/optimizer.rs: results that the pass computes at compile time.
use armx.Base.{
  ℕ, ◌-◌, ◌*◌, ◌/◌, ◌^◌, bit_and, bit_or, bit_xor, u32, u64, wrapping_add64, wrapping_sub64, Option,
  some, none, map_some, arithmetic_shift, rotate_right,
}
use armx.Ir.Operand.{RegWidth, w32, x64, ShiftKind, lsl, lsr, asr, ror}
use armx.Ir.Inst.{Opcode, add, sub, and, orr, eor}

abbrev pub mask_width : ℕ → RegWidth → ℕ
mask_width v w32 = u32 v
mask_width v x64 = v

-- An opcode that is no binary operation is `unreachable!()`.
abbrev pub wrapping_binop : Opcode → ℕ → ℕ → Option ℕ
wrapping_binop add lhs rhs = some (wrapping_add64 lhs rhs)
wrapping_binop sub lhs rhs = some (wrapping_sub64 lhs rhs)
wrapping_binop and lhs rhs = some (bit_and lhs rhs)
wrapping_binop orr lhs rhs = some (bit_or lhs rhs)
wrapping_binop eor lhs rhs = some (bit_xor lhs rhs)
wrapping_binop _ lhs rhs = none

unfoldable pub fold_binop : Opcode → ℕ → ℕ → RegWidth → Option ℕ
fold_binop op lhs rhs width = map_some (λ value. mask_width value width) (wrapping_binop op lhs rhs)

abbrev pub bits : RegWidth → ℕ
bits w32 = 32
bits x64 = 64

-- The shift before the result is cut to the width. The rotation is that of a `u64` at both widths.
abbrev pub wide_shift : ShiftKind → RegWidth → ℕ → ℕ → ℕ
wide_shift lsl width value shift = u64 (value * 2 ^ shift)
wide_shift lsr width value shift = value / 2 ^ shift
wide_shift asr w32 value shift = arithmetic_shift 32 (u32 value) shift
wide_shift asr x64 value shift = arithmetic_shift 64 value shift
wide_shift ror width value shift = rotate_right 64 value shift

unfoldable pub fold_shift : ℕ → ℕ → ShiftKind → RegWidth → ℕ
fold_shift value amount kind width =
    mask_width
      (wide_shift kind width (mask_width value width) (bit_and (u32 amount) (bits width - 1))) width
