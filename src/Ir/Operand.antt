-- ===== src/Ir/Operand.antt =====
-- src/ir/operand.rs and src/ir/value.rs: registers and operands. An `i32` offset and an `i64`
-- displacement are bit patterns. `Value(u32)` is its number.
use Prim.Native.Nat.{ℕ}
use mathlib.Core.Bool.{Bool, true, false}
use armx.Base.{◌==◌, if◌then◌else◌}

pub data RegWidth : Type 0 where
  w32 x64 : RegWidth

pub data RegKind : Type 0 where
  general stack_pointer zero : RegKind

pub data ShiftKind : Type 0 where
  lsl lsr asr ror : ShiftKind

pub record GuestReg : Type 0 where
  pub num : ℕ
  pub width : RegWidth
  pub kind : RegKind

-- `num == 31` is the zero register.
abbrev pub numbered_kind : ℕ → RegKind
numbered_kind n = if n == 31 then zero else general

abbrev pub x : ℕ → GuestReg
x n = record { num = n; width = x64; kind = numbered_kind n }

abbrev pub w : ℕ → GuestReg
w n = record { num = n; width = w32; kind = numbered_kind n }

abbrev pub xsp : GuestReg
xsp = record { num = 31; width = x64; kind = stack_pointer }

abbrev pub wsp : GuestReg
wsp = record { num = 31; width = w32; kind = stack_pointer }

abbrev pub Value : Type 0
Value = ℕ

pub record MemOperand : Type 0 where
  pub base : GuestReg
  pub offset : ℕ
  pub width : RegWidth

pub data Operand : Type 0 where
  none : Operand
  value : Value → Operand
  reg : GuestReg → Operand
  imm : ℕ → Operand
  shifted_imm : ℕ → ℕ → Operand
  pc_relative : ℕ → Operand
  guest_pc : ℕ → Operand
  raw_inst : ℕ → Operand
  shifted_reg : GuestReg → ShiftKind → ℕ → Operand
  shift_reg : GuestReg → GuestReg → ShiftKind → Operand
  mem : MemOperand → Operand

-- The derived equality tests that the code uses.
abbrev pub is_general : RegKind → Bool
is_general general = true
is_general _ = false

abbrev pub is_zero : RegKind → Bool
is_zero zero = true
is_zero _ = false

abbrev pub is_stack_pointer : RegKind → Bool
is_stack_pointer stack_pointer = true
is_stack_pointer _ = false

abbrev pub is_x64 : RegWidth → Bool
is_x64 x64 = true
is_x64 w32 = false

abbrev pub width_eq : RegWidth → RegWidth → Bool
width_eq w32 w32 = true
width_eq x64 x64 = true
width_eq _ _ = false
