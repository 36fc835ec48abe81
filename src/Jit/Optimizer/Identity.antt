-- ===== src/Jit/Optimizer/Identity.antt =====
-- src/jit/optimizer.rs, `simplify_identity`, against the meaning of instructions.
use armx.Base.{
  ℕ, ◌*◌, ◌-◌, ◌%◌, ◌^◌, ◌<◌, ◌≡◌, refl, ap, arith, true, some, map_some-eq-some, u64_max,
}
use armx.Base.Bits.{
  bit_and-zero, bit_or-zero, bit_xor-zero, bit_xor_self, bit_and_mask, bit_or_ones, rotate_right-lt,
}
use native.Mathlib.Nat.{mod-eq_of_lt, div-le_self}
use armx.Ir.Operand.{
  RegWidth, w32, x64, GuestReg, Operand, reg, imm, shifted_imm, shifted_reg, ShiftKind, lsl, lsr,
  asr, ror,
}
use armx.Ir.Inst.{Opcode, add, sub, and, orr, eor}
use armx.Runtime.State.{GuestState}
use armx.Jit.Optimizer.{identity_source, same_general_reg}
use armx.Jit.Optimizer.Fold.{mask_width}
use armx.Jit.Optimizer.Arithmetic.{trunc-trunc, arithmetic_shift-lt}
use armx.Jit.Optimizer.Agree.{OperandIsValid}
use armx.Meaning.{trunc, bits, alu, shift_value, operand_value, read_reg}

-- A mask of all the bits of the width.
ones :
    (w : RegWidth) (v : ℕ)
    → v < 2 ^ 64
    → mask_width v w ≡ mask_width u64_max w
    → trunc w v ≡ 2 ^ bits w - 1
ones w32 v h e = omega arith
ones x64 v h e = omega arith

-- The results of the operations on a value `x` of the width.
add_zero : (w : RegWidth) (x : ℕ) → trunc w x ≡ x → alu add w x (trunc w 0) ≡ some x
unfolding alu
add_zero w32 x h = ap some (omega arith)
add_zero x64 x h = ap some (omega arith)

sub_zero : (w : RegWidth) (x : ℕ) → trunc w x ≡ x → alu sub w x (trunc w 0) ≡ some x
unfolding alu
sub_zero w32 x h = ap some (omega arith)
sub_zero x64 x h = ap some (omega arith)

sub_self : (w : RegWidth) (x : ℕ) → alu sub w x x ≡ some (trunc w 0)
unfolding alu
sub_self w32 x = ap some (omega arith)
sub_self x64 x = ap some (omega arith)

pub trunc_zero : (w : RegWidth) → trunc w 0 ≡ 0
trunc_zero w32 = refl
trunc_zero x64 = refl

and_zero : (w : RegWidth) (x : ℕ) → alu and w x (trunc w 0) ≡ some (trunc w 0)
unfolding alu
and_zero w x = rw (trunc_zero w, bit_and-zero x) (ap some (trunc_zero w))

or_zero : (w : RegWidth) (x : ℕ) → trunc w x ≡ x → alu orr w x (trunc w 0) ≡ some x
unfolding alu
or_zero w x h = rw (trunc_zero w, bit_or-zero x, h)

xor_zero : (w : RegWidth) (x : ℕ) → trunc w x ≡ x → alu eor w x (trunc w 0) ≡ some x
unfolding alu
xor_zero w x h = rw (trunc_zero w, bit_xor-zero x, h)

xor_self : (w : RegWidth) (x : ℕ) → alu eor w x x ≡ some (trunc w 0)
unfolding alu
xor_self w x = rw (bit_xor_self x)

and_ones : (w : RegWidth) (x : ℕ) → trunc w x ≡ x → alu and w x (2 ^ bits w - 1) ≡ some x
unfolding alu
and_ones w32 x h = ap some (omega (arith, bit_and_mask 32 x))
and_ones x64 x h = ap some (omega (arith, bit_and_mask 64 x))

or_ones :
    (w : RegWidth) (x : ℕ)
    → trunc w x ≡ x
    → alu orr w x (2 ^ bits w - 1) ≡ some (trunc w (mask_width u64_max w))
unfolding alu
or_ones w32 x h = ap some (omega (arith, bit_or_ones 32 x (omega arith)))
or_ones x64 x h = ap some (omega (arith, bit_or_ones 64 x (omega arith)))

-- Registers that the test takes for the same are the same.
same_general_reg-eq : (l r : GuestReg) → same_general_reg l r ≡ true → l ≡ r
unfolding same_general_reg
same_general_reg-eq l r h = ground arith

pub shift_value-trunc :
    (kind : ShiftKind) (w : RegWidth) (v by : ℕ)
    → by < bits w
    → trunc w (shift_value kind (bits w) (trunc w v) by) ≡ shift_value kind (bits w) (trunc w v) by
shift_value-trunc lsl w32 v by h = omega arith
shift_value-trunc lsl x64 v by h = omega arith
shift_value-trunc lsr w32 v by h = mod-eq_of_lt (omega (arith, div-le_self (v % 2 ^ 32) (2 ^ by)))
shift_value-trunc lsr x64 v by h = mod-eq_of_lt (omega (arith, div-le_self (v % 2 ^ 64) (2 ^ by)))
shift_value-trunc asr w32 v by h =
    mod-eq_of_lt (arithmetic_shift-lt 32 (v % 2 ^ 32) by (omega arith))
shift_value-trunc asr x64 v by h =
    mod-eq_of_lt (arithmetic_shift-lt 64 (v % 2 ^ 64) by (omega arith))
shift_value-trunc ror w32 v by h =
    mod-eq_of_lt (rotate_right-lt 32 (v % 2 ^ 32) by (omega arith) (omega arith))
shift_value-trunc ror x64 v by h =
    mod-eq_of_lt (rotate_right-lt 64 (v % 2 ^ 64) by (omega arith) (omega arith))

pub mod-bits-lt : (w : RegWidth) (n : ℕ) → n % bits w < bits w
mod-bits-lt w32 n = omega arith
mod-bits-lt x64 n = omega arith

truncated : (w : RegWidth) (u : ℕ) {v : ℕ} → some (trunc w u) ≡ some v → trunc w v ≡ v
truncated w u {v} h = let e : trunc w u ≡ v = cc in rw (← e) (trunc-trunc w u)

-- An operand's value at a width fits the width.
pub operand_value-trunc :
    (s : GuestState) (w : RegWidth) (op : Operand) {v : ℕ}
    → operand_value s w op ≡ some v
    → trunc w v ≡ v
unfolding operand_value
operand_value-trunc s w (reg r) h =
    let (u, _, e) = map_some-eq-some (trunc w) (read_reg s r) h in rw (← e) (trunc-trunc w u)
operand_value-trunc s w (imm u) h = truncated w u h
operand_value-trunc s w (shifted_imm u by) h = truncated w (u * 2 ^ by) h
operand_value-trunc s w (shifted_reg r kind by) h =
    let (u, _, e) =
      map_some-eq-some (λ v. shift_value kind (bits w) (trunc w v) (by % bits w)) (read_reg s r)
        h in
    rw (← e) (shift_value-trunc kind w u (by % bits w) (mod-bits-lt w by))
operand_value-trunc s w _ h = cc

imm_value : (s : GuestState) (w : RegWidth) (v : ℕ) → operand_value s w (imm v) ≡ some (trunc w v)
unfolding operand_value
imm_value s w v = refl

-- Where an identity applies, its source has the result of the operation.
pub identity_source-value :
    (s : GuestState) (w : RegWidth) (op : Opcode) (b c : Operand) {source : Operand} {x y r : ℕ}
    → OperandIsValid c
    → operand_value s w b ≡ some x
    → operand_value s w c ≡ some y
    → alu op w x y ≡ some r
    → identity_source op b c w ≡ some source
    → operand_value s w source ≡ some r
unfolding identity_source
identity_source-value s w add b (imm v) {x = x} valid hb hc hr h =
    ground (arith, imm_value s w v, add_zero w x (operand_value-trunc s w b hb))
identity_source-value s w sub b (imm v) {x = x} valid hb hc hr h =
    ground (arith, imm_value s w v, sub_zero w x (operand_value-trunc s w b hb))
identity_source-value s w sub (reg l) (reg r) {x = x} valid hb hc hr h =
    ground (arith, imm_value s w 0, sub_self w x, same_general_reg-eq l r)
identity_source-value s w and b (imm v) {x = x} valid hb hc hr h =
    let fits = operand_value-trunc s w b hb in
    ground
      (arith, imm_value s w v, imm_value s w 0, and_zero w x, and_ones w x fits, ones w v valid)
identity_source-value s w orr b (imm v) {x = x} valid hb hc hr h =
    let fits = operand_value-trunc s w b hb in
    ground (
      arith,
      imm_value s w v,
      imm_value s w (mask_width u64_max w),
      or_zero w x fits,
      or_ones w x fits,
      ones w v valid,
    )
identity_source-value s w eor b (imm v) {x = x} valid hb hc hr h =
    ground (arith, imm_value s w v, xor_zero w x (operand_value-trunc s w b hb))
identity_source-value s w eor (reg l) (reg r) {x = x} valid hb hc hr h =
    ground (arith, imm_value s w 0, xor_self w x, same_general_reg-eq l r)
identity_source-value s w _ b c valid hb hc hr h = cc
