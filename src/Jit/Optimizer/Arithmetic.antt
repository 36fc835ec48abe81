-- ===== src/Jit/Optimizer/Arithmetic.antt =====
-- src/jit/optimizer.rs: the folded arithmetic against that of the instructions.
use armx.Base.{
  ℕ, ◌%◌, ◌^◌, ◌<◌, bit_and, bit_or, bit_xor, ◌≡◌, refl, sym, ap, ◌∙◌, arith, some, u32,
  arithmetic_shift,
}
use native.Mathlib.Nat.{mod-eq_of_lt, div-le_self}
use armx.Base.Bits.{bit_and-mod, bit_or-mod, bit_xor-mod, bit_and_mask}
use armx.Ir.Operand.{RegWidth, w32, x64, ShiftKind, lsl, lsr, asr, ror}
use armx.Ir.Inst.{Opcode, add, sub, and, orr, eor}
use armx.Jit.Optimizer.Fold.{mask_width, fold_binop, fold_shift}
use armx.Meaning.{trunc, alu, bits, shift_value}

pub trunc-mask_width :
    (w w' : RegWidth) (v : ℕ) → v < 2 ^ 64 → trunc w (mask_width v w') ≡ trunc w (trunc w' v)
trunc-mask_width w32 w32 v h = refl
trunc-mask_width w32 x64 v h = omega arith
trunc-mask_width x64 w32 v h = omega arith
trunc-mask_width x64 x64 v h = omega arith

pub mask_width-eq-trunc : (w : RegWidth) (v : ℕ) → v < 2 ^ 64 → mask_width v w ≡ trunc w v
mask_width-eq-trunc w32 v h = refl
mask_width-eq-trunc x64 v h = omega arith

pub trunc-lt : (w : RegWidth) (v : ℕ) → trunc w v < 2 ^ 64
trunc-lt w32 v = omega arith
trunc-lt x64 v = omega arith

pub trunc-trunc : (w : RegWidth) (v : ℕ) → trunc w (trunc w v) ≡ trunc w v
trunc-trunc w32 v = omega arith
trunc-trunc x64 v = omega arith

-- A digitwise operation on 64-bit values has a 64-bit result.
closed :
    (op : ℕ → ℕ → ℕ)
    → ((k a b : ℕ) → op a b % 2 ^ k ≡ op (a % 2 ^ k) (b % 2 ^ k))
    → (a b : ℕ) → a < 2 ^ 64
    → b < 2 ^ 64
    → op a b ≡ op (a % 2 ^ 64) (b % 2 ^ 64) % 2 ^ 64
closed op law a b p q =
    rw (mod-eq_of_lt p, mod-eq_of_lt q) (sym (law 64 a b ∙ rw (mod-eq_of_lt p, mod-eq_of_lt q)))

-- Folding two 64-bit constants gives what the operation gives on them, cut to its width.
pub fold_binop-eq-alu :
    (op : Opcode) (w : RegWidth) (a b : ℕ)
    → a < 2 ^ 64
    → b < 2 ^ 64
    → fold_binop op a b w ≡ alu op w (trunc w a) (trunc w b)
unfolding fold_binop alu
fold_binop-eq-alu add w32 a b p q = ap some (omega arith)
fold_binop-eq-alu add x64 a b p q = ap some (omega arith)
fold_binop-eq-alu sub w32 a b p q = ap some (omega arith)
fold_binop-eq-alu sub x64 a b p q = ap some (omega arith)
fold_binop-eq-alu and w32 a b p q = ap some (omega (arith, bit_and-mod 32 a b))
fold_binop-eq-alu and x64 a b p q = ap some (closed bit_and bit_and-mod a b p q)
fold_binop-eq-alu orr w32 a b p q = ap some (omega (arith, bit_or-mod 32 a b))
fold_binop-eq-alu orr x64 a b p q = ap some (closed bit_or bit_or-mod a b p q)
fold_binop-eq-alu eor w32 a b p q = ap some (omega (arith, bit_xor-mod 32 a b))
fold_binop-eq-alu eor x64 a b p q = ap some (closed bit_xor bit_xor-mod a b p q)
fold_binop-eq-alu _ w a b p q = refl

pub arithmetic_shift-lt : (n v by : ℕ) → v < 2 ^ n → arithmetic_shift n v by < 2 ^ n
arithmetic_shift-lt n v by h = ground (arith, div-le_self v (2 ^ by))

pub amount32 : (a : ℕ) → bit_and (u32 a) 31 ≡ a % 32
amount32 a = bit_and_mask 5 (u32 a) ∙ omega arith

amount64 : (a : ℕ) → bit_and (u32 a) 63 ≡ a % 64
amount64 a = bit_and_mask 6 (u32 a) ∙ omega arith

w32-ne-x64 : w32 ≡ x64 → ⊥
w32-ne-x64 e = cc

pub fold_shift-eq-shift_value :
    (kind : ShiftKind) (w : RegWidth) (v a : ℕ)
    → v < 2 ^ 64
    → (kind ≡ ror → w ≡ x64)
    → fold_shift v a kind w ≡ shift_value kind (bits w) (trunc w v) (a % bits w)
unfolding fold_shift
fold_shift-eq-shift_value lsl w32 v a p h = rw (amount32 a) (omega arith)
fold_shift-eq-shift_value lsl x64 v a p h = rw (amount64 a, mod-eq_of_lt p)
fold_shift-eq-shift_value lsr w32 v a p h =
    rw (amount32 a) (mod-eq_of_lt (omega (arith, div-le_self (v % 2 ^ 32) (2 ^ (a % 32)))))
fold_shift-eq-shift_value lsr x64 v a p h = rw (amount64 a, mod-eq_of_lt p)
fold_shift-eq-shift_value asr w32 v a p h =
    let twice : u32 (u32 v) ≡ u32 v = omega arith in
    rw (amount32 a, twice) (mod-eq_of_lt (arithmetic_shift-lt 32 (u32 v) (a % 32) (omega arith)))
fold_shift-eq-shift_value asr x64 v a p h = rw (amount64 a, mod-eq_of_lt p)
fold_shift-eq-shift_value ror w32 v a p h = absurd (w32-ne-x64 (h refl))
fold_shift-eq-shift_value ror x64 v a p h = rw (amount64 a, mod-eq_of_lt p)
