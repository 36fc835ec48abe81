-- ===== src/Arch.antt =====
-- src/arch/aarch64.rs: an instruction word, and its decoding by the yaxpeax-arm crate, which is a
-- parameter: a function from four bytes to a decoded instruction, `none` for its `DecodeError`. Of
-- the crate's types the constructors that the code names are listed; `other` stands for the rest.
use armx.Base.{ℕ, List, Option}
use armx.Base.Bytes.{to_le_bytes}

-- `A64Inst(u32)`.
abbrev pub A64Inst : Type 0
A64Inst = ℕ

pub data SizeCode : Type 0 where
  x w : SizeCode

pub data ShiftStyle : Type 0 where
  lsl lsr asr ror other : ShiftStyle

pub data A64Opcode : Type 0 where
  hint add adds sub subs and ands orr eor lslv lsrv asrv rorv b br bl blr cbz cbnz ret other :
      A64Opcode
  bcc : ℕ → A64Opcode

pub data A64Operand : Type 0 where
  nothing other : A64Operand
  register register_or_sp : SizeCode → ℕ → A64Operand
  immediate imm64 imm16 pc_offset : ℕ → A64Operand
  imm_shift : ℕ → ℕ → A64Operand
  reg_shift : ShiftStyle → ℕ → SizeCode → ℕ → A64Operand

-- The first three entries of the crate's array `operands`.
pub record Instruction : Type 0 where
  pub opcode : A64Opcode
  pub operand0 : A64Operand
  pub operand1 : A64Operand
  pub operand2 : A64Operand

abbrev pub InstDecoder : Type 0
InstDecoder = List ℕ → Option Instruction

unfoldable pub decode : InstDecoder → A64Inst → Option Instruction
decode decoder inst = decoder (to_le_bytes 4 inst)
