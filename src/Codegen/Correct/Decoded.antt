-- ===== src/Codegen/Correct/Decoded.antt =====
-- The emitted moves are decoded as moves.
use armx.Base.{ℕ, ◌%◌, ◌^◌, ◌<◌, ◌≡◌, refl, ap, List, [], ◌∷◌, ◌++◌, some}
use armx.Ir.Operand.{is_x64, RegWidth, w32, x64, ShiftKind, lsl, lsr, asr, ror}
use armx.Codegen.Encoding.{
  X86Scratch, rax, rcx, rdx, rsi, mov_imm, mov_load, mov_store, xor, binop, binop_imm,
  emit_mem_load, emit_mem_store, shift_modrm, rex,
}
use armx.Codegen.Encoding
use armx.Codegen.Correct.Executes.{four_bytes, eight_bytes}
use armx.Host.Decoding.{Insn, Decoded, decode}

abbrev with : (ℕ → Insn) → List ℕ → ℕ → Decoded
with insn rest v = some (insn v, rest)

pub decode-mov_load :
    (r : X86Scratch) (w : RegWidth) (disp : ℕ) (rest : List ℕ)
    → decode (mov_load r disp w ++ rest) ≡ some (Insn.load_field w r (disp % 2 ^ 32), rest)
unfolding decode mov_load
decode-mov_load rax w32 disp rest = ap (with (Insn.load_field w32 rax) rest) (four_bytes disp)
decode-mov_load rax x64 disp rest = ap (with (Insn.load_field x64 rax) rest) (four_bytes disp)
decode-mov_load rcx w32 disp rest = ap (with (Insn.load_field w32 rcx) rest) (four_bytes disp)
decode-mov_load rcx x64 disp rest = ap (with (Insn.load_field x64 rcx) rest) (four_bytes disp)
decode-mov_load rdx w32 disp rest = ap (with (Insn.load_field w32 rdx) rest) (four_bytes disp)
decode-mov_load rdx x64 disp rest = ap (with (Insn.load_field x64 rdx) rest) (four_bytes disp)
decode-mov_load rsi w32 disp rest = ap (with (Insn.load_field w32 rsi) rest) (four_bytes disp)
decode-mov_load rsi x64 disp rest = ap (with (Insn.load_field x64 rsi) rest) (four_bytes disp)

pub decode-mov_store :
    (r : X86Scratch) (w : RegWidth) (disp : ℕ) (rest : List ℕ)
    → decode (mov_store disp r w ++ rest) ≡ some (Insn.store_field w (disp % 2 ^ 32) r, rest)
unfolding decode mov_store
decode-mov_store rax w32 disp rest =
    ap (with (λ d. Insn.store_field w32 d rax) rest) (four_bytes disp)
decode-mov_store rax x64 disp rest =
    ap (with (λ d. Insn.store_field x64 d rax) rest) (four_bytes disp)
decode-mov_store rcx w32 disp rest =
    ap (with (λ d. Insn.store_field w32 d rcx) rest) (four_bytes disp)
decode-mov_store rcx x64 disp rest =
    ap (with (λ d. Insn.store_field x64 d rcx) rest) (four_bytes disp)
decode-mov_store rdx w32 disp rest =
    ap (with (λ d. Insn.store_field w32 d rdx) rest) (four_bytes disp)
decode-mov_store rdx x64 disp rest =
    ap (with (λ d. Insn.store_field x64 d rdx) rest) (four_bytes disp)
decode-mov_store rsi w32 disp rest =
    ap (with (λ d. Insn.store_field w32 d rsi) rest) (four_bytes disp)
decode-mov_store rsi x64 disp rest =
    ap (with (λ d. Insn.store_field x64 d rsi) rest) (four_bytes disp)

abbrev pub immediate : RegWidth → ℕ → ℕ
immediate w32 v = v % 2 ^ 32
immediate x64 v = v

pub decode-mov_imm :
    (r : X86Scratch) (w : RegWidth) (v : ℕ) (rest : List ℕ)
    → v < 2 ^ 64
    → decode (mov_imm r v w ++ rest) ≡ some (Insn.move_imm w r (immediate w v), rest)
unfolding decode mov_imm
decode-mov_imm rax w32 v rest h = ap (with (Insn.move_imm w32 rax) rest) (four_bytes v)
decode-mov_imm rax x64 v rest h = ap (with (Insn.move_imm x64 rax) rest) (eight_bytes v h)
decode-mov_imm rcx w32 v rest h = ap (with (Insn.move_imm w32 rcx) rest) (four_bytes v)
decode-mov_imm rcx x64 v rest h = ap (with (Insn.move_imm x64 rcx) rest) (eight_bytes v h)
decode-mov_imm rdx w32 v rest h = ap (with (Insn.move_imm w32 rdx) rest) (four_bytes v)
decode-mov_imm rdx x64 v rest h = ap (with (Insn.move_imm x64 rdx) rest) (eight_bytes v h)
decode-mov_imm rsi w32 v rest h = ap (with (Insn.move_imm w32 rsi) rest) (four_bytes v)
decode-mov_imm rsi x64 v rest h = ap (with (Insn.move_imm x64 rsi) rest) (eight_bytes v h)

pub decode-shift_imm :
    (r : X86Scratch) (kind : ShiftKind) (w : RegWidth) (n : ℕ) (rest : List ℕ)
    → decode ((rex (is_x64 w) ++ 0xC1 ∷ shift_modrm r kind ∷ n ∷ []) ++ rest)
      ≡ some (Insn.shift_by_imm kind w r n, rest)
unfolding decode
decode-shift_imm rax lsl w32 n rest = refl
decode-shift_imm rax lsl x64 n rest = refl
decode-shift_imm rax lsr w32 n rest = refl
decode-shift_imm rax lsr x64 n rest = refl
decode-shift_imm rax asr w32 n rest = refl
decode-shift_imm rax asr x64 n rest = refl
decode-shift_imm rax ror w32 n rest = refl
decode-shift_imm rax ror x64 n rest = refl
decode-shift_imm rcx lsl w32 n rest = refl
decode-shift_imm rcx lsl x64 n rest = refl
decode-shift_imm rcx lsr w32 n rest = refl
decode-shift_imm rcx lsr x64 n rest = refl
decode-shift_imm rcx asr w32 n rest = refl
decode-shift_imm rcx asr x64 n rest = refl
decode-shift_imm rcx ror w32 n rest = refl
decode-shift_imm rcx ror x64 n rest = refl
decode-shift_imm rdx lsl w32 n rest = refl
decode-shift_imm rdx lsl x64 n rest = refl
decode-shift_imm rdx lsr w32 n rest = refl
decode-shift_imm rdx lsr x64 n rest = refl
decode-shift_imm rdx asr w32 n rest = refl
decode-shift_imm rdx asr x64 n rest = refl
decode-shift_imm rdx ror w32 n rest = refl
decode-shift_imm rdx ror x64 n rest = refl
decode-shift_imm rsi lsl w32 n rest = refl
decode-shift_imm rsi lsl x64 n rest = refl
decode-shift_imm rsi lsr w32 n rest = refl
decode-shift_imm rsi lsr x64 n rest = refl
decode-shift_imm rsi asr w32 n rest = refl
decode-shift_imm rsi asr x64 n rest = refl
decode-shift_imm rsi ror w32 n rest = refl
decode-shift_imm rsi ror x64 n rest = refl

pub decode-shift_reg :
    (kind : ShiftKind) (w : RegWidth) (rest : List ℕ)
    → decode (Encoding.shift_reg kind w ++ rest) ≡ some (Insn.shift_cl kind w rax, rest)
unfolding decode Encoding.shift_reg
decode-shift_reg lsl w32 rest = refl
decode-shift_reg lsl x64 rest = refl
decode-shift_reg lsr w32 rest = refl
decode-shift_reg lsr x64 rest = refl
decode-shift_reg asr w32 rest = refl
decode-shift_reg asr x64 rest = refl
decode-shift_reg ror w32 rest = refl
decode-shift_reg ror x64 rest = refl

pub decode-emit_mem_load :
    (w : RegWidth) (disp : ℕ) (rest : List ℕ)
    → decode (emit_mem_load w disp ++ rest) ≡ some (Insn.load_mem w rax (disp % 2 ^ 32), rest)
unfolding decode emit_mem_load
decode-emit_mem_load w32 disp rest = ap (with (Insn.load_mem w32 rax) rest) (four_bytes disp)
decode-emit_mem_load x64 disp rest = ap (with (Insn.load_mem x64 rax) rest) (four_bytes disp)

pub decode-emit_mem_store :
    (w : RegWidth) (disp : ℕ) (rest : List ℕ)
    → decode (emit_mem_store w disp ++ rest) ≡ some (Insn.store_mem w (disp % 2 ^ 32) rcx, rest)
unfolding decode emit_mem_store
decode-emit_mem_store w32 disp rest =
    ap (with (λ d. Insn.store_mem w32 d rcx) rest) (four_bytes disp)
decode-emit_mem_store x64 disp rest =
    ap (with (λ d. Insn.store_mem x64 d rcx) rest) (four_bytes disp)
