-- ===== src/Host/Decoding.antt =====
-- The decoding of the instructions, after the Intel manual's opcode maps. Of the prefixes, REX with
-- and without W and the operand size are known; a jump back is not.
use armx.Base.{
  ℕ, ◌/◌, ◌%◌, Bool, true, false, List, [], ◌∷◌, Option, some, none, ◌==◌, ltb, ◌&&◌, if◌then◌else◌,
  ◌>>=◌,
}
use armx.Base.Bytes.{from_le_bytes}
use armx.Ir.Operand.{RegWidth, w32, x64, ShiftKind, lsl, lsr, asr, ror}
use armx.Codegen.Encoding.{X86Scratch, rax, rcx, rdx, rsi}
use armx.Host.Cpu.{AluOp}

pub data Condition : Type 0 where
  overflow carry no_carry equal not_equal sign : Condition

pub data Insn : Type 0 where
  nop ret : Insn
  move_imm : RegWidth → X86Scratch → ℕ → Insn
  load_field : RegWidth → X86Scratch → ℕ → Insn  -- [rdi + disp32]
  store_field : RegWidth → ℕ → X86Scratch → Insn
  load_mem : RegWidth → X86Scratch → ℕ → Insn  -- [rax + disp32]
  store_mem : RegWidth → ℕ → X86Scratch → Insn
  alu : AluOp → RegWidth → X86Scratch → X86Scratch → Insn
  alu_imm : AluOp → RegWidth → X86Scratch → ℕ → Insn
  test : RegWidth → X86Scratch → X86Scratch → Insn
  shift_by_imm : ShiftKind → RegWidth → X86Scratch → ℕ → Insn
  shift_cl : ShiftKind → RegWidth → X86Scratch → Insn
  set_if : Condition → X86Scratch → Insn  -- the low byte
  movzx : X86Scratch → X86Scratch → Insn  -- of the low byte
  bit_test16 : X86Scratch → X86Scratch → Insn
  jump_if : Condition → ℕ → Insn

-- What is decoded, and the bytes after it.
abbrev pub Decoded : Type 0
Decoded = Option (Insn × List ℕ)

abbrev pub reg_of : ℕ → Option X86Scratch
reg_of n =
    if n == 0
    then some rax
    else if n == 1
    then some rcx
    else if n == 2
    then some rdx
    else if n == 6
    then some rsi
    else none

-- SIL, number 6, wants a REX prefix.
abbrev pub byte_reg_of : Bool → ℕ → Option X86Scratch
byte_reg_of rex n = if n == 6 then (if rex then some rsi else none) else reg_of n

abbrev pub imm8 : List ℕ → Option (ℕ × List ℕ)
imm8 (b ∷ rest) = some (b, rest)
imm8 [] = none

abbrev pub imm32 : List ℕ → Option (ℕ × List ℕ)
imm32 (b0 ∷ b1 ∷ b2 ∷ b3 ∷ rest) = some (from_le_bytes (b0 ∷ b1 ∷ b2 ∷ b3 ∷ []), rest)
imm32 _ = none

abbrev pub imm64 : List ℕ → Option (ℕ × List ℕ)
imm64 (b0 ∷ b1 ∷ b2 ∷ b3 ∷ b4 ∷ b5 ∷ b6 ∷ b7 ∷ rest) =
    some (from_le_bytes (b0 ∷ b1 ∷ b2 ∷ b3 ∷ b4 ∷ b5 ∷ b6 ∷ b7 ∷ []), rest)
imm64 _ = none

abbrev pub imm_of : RegWidth → List ℕ → Option (ℕ × List ℕ)
imm_of w32 bytes = imm32 bytes
imm_of x64 bytes = imm64 bytes

abbrev pub mode : ℕ → ℕ
mode m = m / 64

abbrev pub reg_field : ℕ → ℕ
reg_field m = m / 8 % 8

abbrev pub rm_field : ℕ → ℕ
rm_field m = m % 8

-- `[rdi + disp32]` and `[rax + disp32]`.
abbrev pub addressed : ℕ → (ℕ → Insn) → (ℕ → Insn) → ℕ → List ℕ → Decoded
addressed rm of_state of_memory disp rest =
    if rm == 7
    then some (of_state disp, rest)
    else if rm == 0
    then some (of_memory disp, rest)
    else none

abbrev pub indirect : ℕ → List ℕ → (ℕ → Insn) → (ℕ → Insn) → Decoded
indirect m bytes of_state of_memory =
    if mode m == 2
    then (imm32 bytes >>= λ read. addressed (rm_field m) of_state of_memory read.0 read.1)
    else none

abbrev pub decode_load : RegWidth → List ℕ → Decoded
decode_load w (m ∷ bytes) = do
  r ← reg_of (reg_field m)
  indirect m bytes (load_field w r) (load_mem w r)
decode_load w [] = none

abbrev pub decode_store : RegWidth → List ℕ → Decoded
decode_store w (m ∷ bytes) = do
  r ← reg_of (reg_field m)
  indirect m bytes (λ disp. store_field w disp r) (λ disp. store_mem w disp r)
decode_store w [] = none

-- Register to register: the destination, then the source.
abbrev pub decode_pair : (X86Scratch → X86Scratch → Insn) → List ℕ → Decoded
decode_pair insn (m ∷ rest) = do
  dst ← reg_of (rm_field m)
  src ← reg_of (reg_field m)
  if mode m == 3 then some (insn dst src, rest) else none
decode_pair insn [] = none

abbrev pub group1 : ℕ → Option AluOp
group1 n =
    if n == 0
    then some AluOp.add
    else if n == 1
    then some AluOp.or
    else if n == 4
    then some AluOp.and
    else if n == 5
    then some AluOp.sub
    else if n == 6
    then some AluOp.xor
    else none

abbrev pub decode_alu_imm : RegWidth → List ℕ → Decoded
decode_alu_imm w (m ∷ bytes) = do
  op ← group1 (reg_field m)
  dst ← reg_of (rm_field m)
  (v, rest) ← imm32 bytes
  if mode m == 3 then some (alu_imm op w dst v, rest) else none
decode_alu_imm w [] = none

abbrev pub group2 : ℕ → Option ShiftKind
group2 n =
    if n == 1
    then some ror
    else if n == 4
    then some lsl
    else if n == 5
    then some lsr
    else if n == 7
    then some asr
    else none

abbrev pub decode_shift_imm : RegWidth → List ℕ → Decoded
decode_shift_imm w (m ∷ bytes) = do
  kind ← group2 (reg_field m)
  r ← reg_of (rm_field m)
  (n, rest) ← imm8 bytes
  if mode m == 3 then some (shift_by_imm kind w r n, rest) else none
decode_shift_imm w [] = none

abbrev pub decode_shift_cl : RegWidth → List ℕ → Decoded
decode_shift_cl w (m ∷ rest) = do
  kind ← group2 (reg_field m)
  r ← reg_of (rm_field m)
  if mode m == 3 then some (shift_cl kind w r, rest) else none
decode_shift_cl w [] = none

abbrev pub decode_mov_imm : RegWidth → ℕ → List ℕ → Decoded
decode_mov_imm w n bytes = do r ← reg_of n; (v, rest) ← imm_of w bytes; some (move_imm w r v, rest)

-- The low four bits of SETcc and Jcc.
abbrev pub condition_of : ℕ → Option Condition
condition_of n =
    if n == 0
    then some overflow
    else if n == 2
    then some carry
    else if n == 3
    then some no_carry
    else if n == 4
    then some equal
    else if n == 5
    then some not_equal
    else if n == 8
    then some sign
    else none

abbrev pub decode_set : Bool → ℕ → List ℕ → Decoded
decode_set rex n (m ∷ rest) = do
  cond ← condition_of n
  r ← byte_reg_of rex (rm_field m)
  if mode m == 3 then some (set_if cond r, rest) else none
decode_set rex n [] = none

abbrev pub decode_movzx : Bool → List ℕ → Decoded
decode_movzx rex (m ∷ rest) = do
  dst ← reg_of (reg_field m)
  src ← byte_reg_of rex (rm_field m)
  if mode m == 3 then some (movzx dst src, rest) else none
decode_movzx rex [] = none

abbrev pub decode_jump : ℕ → List ℕ → Decoded
decode_jump n bytes = do
  cond ← condition_of n
  (by, rest) ← imm8 bytes
  if ltb by 128 then some (jump_if cond by, rest) else none

-- The opcodes after 0F.
abbrev pub decode_0f : Bool → List ℕ → Decoded
decode_0f rex (b ∷ bytes) =
    if b == 0xB6
    then decode_movzx rex bytes
    else if b / 16 == 9
    then decode_set rex (b % 16) bytes
    else none
decode_0f rex [] = none

abbrev pub decode_opcode : Bool → RegWidth → List ℕ → Decoded
decode_opcode rex w (b ∷ bytes) =
    if b == 0x8B
    then decode_load w bytes
    else if b == 0x89
    then decode_store w bytes
    else if b / 8 == 0xB8 / 8
    then decode_mov_imm w (b % 8) bytes
    else if b == 0x0F
    then decode_0f rex bytes
    else if b == 0x01
    then decode_pair (alu AluOp.add w) bytes
    else if b == 0x09
    then decode_pair (alu AluOp.or w) bytes
    else if b == 0x21
    then decode_pair (alu AluOp.and w) bytes
    else if b == 0x29
    then decode_pair (alu AluOp.sub w) bytes
    else if b == 0x31
    then decode_pair (alu AluOp.xor w) bytes
    else if b == 0x85
    then decode_pair (test w) bytes
    else if b == 0x81
    then decode_alu_imm w bytes
    else if b == 0xC1
    then decode_shift_imm w bytes
    else if b == 0xD3
    then decode_shift_cl w bytes
    else if b / 16 == 7
    then decode_jump (b % 16) bytes
    else if b == 0x90
    then some (nop, bytes)
    else if b == 0xC3
    then some (ret, bytes)
    else none
decode_opcode rex w [] = none

-- After the operand-size prefix only BT is known.
abbrev pub decode_16 : List ℕ → Decoded
decode_16 (b ∷ b' ∷ bytes) = if b == 0x0F && b' == 0xA3 then decode_pair bit_test16 bytes else none
decode_16 _ = none

unfoldable pub decode : List ℕ → Decoded
decode (b ∷ bytes) =
    if b == 0x48
    then decode_opcode true x64 bytes
    else if b == 0x40
    then decode_opcode true w32 bytes
    else if b == 0x66
    then decode_16 bytes
    else decode_opcode false w32 (b ∷ bytes)
decode [] = none
