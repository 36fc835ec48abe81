-- ===== src/Codegen/Encoding.antt =====
-- src/codegen/x86_64.rs: the host instructions, as the bytes that the methods of `CodeBuffer`
-- append. `none` is the panic of `unreachable!()`.
use armx.Base.{
  ℕ, ◌+◌, ◌*◌, Bool, List, [], ◌∷◌, ◌++◌, Option, some, none, u32, ◌==◌, if◌then◌else◌, bit_or,
  map_some,
}
use armx.Base.Bytes.{to_le_bytes}
use armx.Ir.Operand.{RegWidth, w32, x64, ShiftKind, lsl, lsr, asr, ror, is_x64}
use armx.Ir.Inst.{Opcode, add, sub, and, orr, eor}
use armx.Runtime.State.{nzcv_offset}

pub data X86Scratch : Type 0 where
  rax rcx rdx rsi : X86Scratch

-- A displacement is an `i32`, here never negative.
abbrev pub emit32 : ℕ → List ℕ
emit32 value = to_le_bytes 4 (u32 value)

abbrev pub emit64 : ℕ → List ℕ
emit64 value = to_le_bytes 8 value

abbrev pub rex : Bool → List ℕ
rex w = if w then 0x48 ∷ [] else []

abbrev pub mov_opcode : X86Scratch → ℕ
mov_opcode rax = 0xB8
mov_opcode rcx = 0xB9
mov_opcode rdx = 0xBA
mov_opcode rsi = 0xBE

unfoldable pub mov_imm : X86Scratch → ℕ → RegWidth → List ℕ
mov_imm r value x64 = 0x48 ∷ mov_opcode r ∷ emit64 value
mov_imm r value w32 = mov_opcode r ∷ emit32 value

abbrev pub modrm_disp32 : X86Scratch → ℕ
modrm_disp32 rax = 0x87
modrm_disp32 rcx = 0x8F
modrm_disp32 rdx = 0x97
modrm_disp32 rsi = 0xB7

unfoldable pub mov_load : X86Scratch → ℕ → RegWidth → List ℕ
mov_load r disp width = rex (is_x64 width) ++ 0x8B ∷ modrm_disp32 r ∷ emit32 disp

unfoldable pub mov_store : ℕ → X86Scratch → RegWidth → List ℕ
mov_store disp r width = rex (is_x64 width) ++ 0x89 ∷ modrm_disp32 r ∷ emit32 disp

abbrev pub xor_modrm : X86Scratch → X86Scratch → Option ℕ
xor_modrm rax rax = some 0xC0
xor_modrm rax rcx = some 0xC8
xor_modrm rcx rax = some 0xC1
xor_modrm rcx rcx = some 0xC9
xor_modrm rdx rdx = some 0xD2
xor_modrm rsi rsi = some 0xF6
xor_modrm _ _ = none

unfoldable pub xor : X86Scratch → X86Scratch → RegWidth → Option (List ℕ)
xor dst src width = map_some (λ rm. rex (is_x64 width) ++ 0x31 ∷ rm ∷ []) (xor_modrm dst src)

abbrev pub binop_opcode : Opcode → Option ℕ
binop_opcode add = some 0x01
binop_opcode sub = some 0x29
binop_opcode and = some 0x21
binop_opcode orr = some 0x09
binop_opcode eor = some 0x31
binop_opcode _ = none

-- `op rax, rcx`.
unfoldable pub binop : Opcode → RegWidth → Option (List ℕ)
binop op width = map_some (λ code. rex (is_x64 width) ++ code ∷ 0xC8 ∷ []) (binop_opcode op)

abbrev pub imm_extension : Opcode → Option ℕ
imm_extension add = some 0
imm_extension orr = some 1
imm_extension and = some 4
imm_extension sub = some 5
imm_extension eor = some 6
imm_extension _ = none

-- `op rax, imm32`.
unfoldable pub binop_imm : Opcode → RegWidth → ℕ → Option (List ℕ)
binop_imm op width value =
    map_some (λ extension. rex (is_x64 width) ++ 0x81 ∷ bit_or 0xC0 (extension * 8) ∷ emit32 value)
      (imm_extension op)

-- C and V: into AL and SIL.
abbrev carry_and_overflow : Opcode → Option (List ℕ)
carry_and_overflow add = some (0x0F ∷ 0x92 ∷ 0xC0 ∷ 0x40 ∷ 0x0F ∷ 0x90 ∷ 0xC6 ∷ [])
carry_and_overflow sub = some (0x0F ∷ 0x93 ∷ 0xC0 ∷ 0x40 ∷ 0x0F ∷ 0x90 ∷ 0xC6 ∷ [])
carry_and_overflow and = some (0x31 ∷ 0xC0 ∷ 0x31 ∷ 0xF6 ∷ [])
carry_and_overflow _ = none

unfoldable pub emit_nzcv_from_x86_flags : Opcode → Option (List ℕ)
unfolding mov_store
emit_nzcv_from_x86_flags op =
    map_some
      (λ cv.
        (0x0F ∷ 0x98 ∷ 0xC2 ∷ 0x0F ∷ 0x94 ∷ 0xC1 ∷ [])
        ++ cv
        ++ (0x0F ∷ 0xB6 ∷ 0xD2 ∷ 0xC1 ∷ 0xE2 ∷ 0x1F ∷ [])
        ++ (0x0F ∷ 0xB6 ∷ 0xC9 ∷ 0xC1 ∷ 0xE1 ∷ 0x1E ∷ 0x09 ∷ 0xCA ∷ [])
        ++ (0x0F ∷ 0xB6 ∷ 0xC0 ∷ 0xC1 ∷ 0xE0 ∷ 0x1D ∷ 0x09 ∷ 0xC2 ∷ [])
        ++ (0x40 ∷ 0x0F ∷ 0xB6 ∷ 0xF6 ∷ 0xC1 ∷ 0xE6 ∷ 0x1C ∷ 0x09 ∷ 0xF2 ∷ [])
        ++ mov_store nzcv_offset rdx w32)
      (carry_and_overflow op)

abbrev pub shift_extension : ShiftKind → ℕ
shift_extension lsl = 0xE0
shift_extension lsr = 0xE8
shift_extension asr = 0xF8
shift_extension ror = 0xC8

-- The sixteen cases of the match: the register's number in the low bits.
abbrev pub shift_modrm : X86Scratch → ShiftKind → ℕ
shift_modrm rax kind = shift_extension kind
shift_modrm rcx kind = shift_extension kind + 1
shift_modrm rdx kind = shift_extension kind + 2
shift_modrm rsi kind = shift_extension kind + 6

unfoldable pub shift_imm : X86Scratch → ShiftKind → ℕ → RegWidth → List ℕ
shift_imm r kind amount width =
    if amount == 0 then [] else rex (is_x64 width) ++ 0xC1 ∷ shift_modrm r kind ∷ amount ∷ []

-- `shift rax, cl`.
unfoldable pub shift_reg : ShiftKind → RegWidth → List ℕ
shift_reg kind width = rex (is_x64 width) ++ 0xD3 ∷ shift_extension kind ∷ []

unfoldable pub emit_mem_load : RegWidth → ℕ → List ℕ
emit_mem_load width offset = rex (is_x64 width) ++ 0x8B ∷ 0x80 ∷ emit32 offset

unfoldable pub emit_mem_store : RegWidth → ℕ → List ℕ
emit_mem_store width offset = rex (is_x64 width) ++ 0x89 ∷ 0x88 ∷ emit32 offset
