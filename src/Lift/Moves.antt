-- ===== src/Lift/Moves.antt =====
-- src/lift/mod.rs, `lift_move_wide`: MOVZ and MOVN, from their encodings.
use armx.Base.{
  Option, ◌&&◌, ℕ, ◌+◌, ◌-◌, ◌*◌, ◌/◌, ◌^◌, ◌<◌, bit_and, ◌≡◌, refl, ap, arith, Bool, true, false,
  some, none, u64, u64_max, ltb, ◌==◌, if◌then◌else◌, ◌⊎◌, inl, inr, Bool-cases, not,
}
use armx.Base.Bits.{bit_and_field, bit_and_mask}
use armx.Ir.Operand.{RegWidth, w32, x64, reg, imm, Operand}
use armx.Ir.Inst.{IrInst, mov}
use armx.Arch.{A64Inst}
use armx.Lift.{plain, sized_reg, lift_move_wide, is_w32, move_value, field, unsupported_inst}
use armx.Lift.Branches.{bit_of, width_bit}

-- `not_inverted` is true of MOVZ.
abbrev pub move_word : Bool → Bool → ℕ → ℕ → ℕ → A64Inst
move_word sf not_inverted hw imm16 rd =
    bit_of sf * 2 ^ 31
    + 0x1280_0000
    + bit_of not_inverted * 0x4000_0000
    + hw * 2 ^ 21
    + imm16 * 2 ^ 5
    + rd

-- The value that the instruction moves: the shifted immediate or its complement, at the width.
abbrev pub moved : Bool → Bool → ℕ → ℕ → ℕ
moved sf not_inverted hw imm16 =
    let ones : ℕ = if sf then 2 ^ 64 - 1 else 2 ^ 32 - 1 in
    if not_inverted then imm16 * 2 ^ (16 * hw) else ones - imm16 * 2 ^ (16 * hw)

abbrev pub not_allocated : Bool → ℕ → Bool
not_allocated true hw = false
not_allocated false hw = ltb 1 hw

shift_cases : (hw : ℕ) → hw < 4 → (hw ≡ 0) ⊎ (hw ≡ 1) ⊎ (hw ≡ 2) ⊎ (hw ≡ 3)
shift_cases hw h = ground arith

wide_value :
    (hw imm16 : ℕ) → hw < 4 → imm16 < 2 ^ 16 → u64 (imm16 * 2 ^ (hw * 16)) ≡ imm16 * 2 ^ (16 * hw)
wide_value hw imm16 hh hi = elim (shift_cases hw hh) [
  | inl e ↦ rw e (omega arith)
  | inr (inl e) ↦ rw e (omega arith)
  | inr (inr (inl e)) ↦ rw e (omega arith)
  | inr (inr (inr e)) ↦ rw e (omega arith)
]

word_value :
    (hw imm16 : ℕ) → hw < 4 → ltb 1 hw ≡ false → imm16 < 2 ^ 16 → imm16 * 2 ^ (16 * hw) < 2 ^ 32
word_value hw imm16 hh hl hi = elim (shift_cases hw hh) [
  | inl e ↦ rw e (omega arith)
  | inr (inl e) ↦ rw e (omega arith)
  | inr (inr (inl e)) ↦ ground arith
  | inr (inr (inr e)) ↦ ground arith
]

value_moved :
    (sf not_inverted : Bool) (hw imm16 : ℕ)
    → hw < 4
    → imm16 < 2 ^ 16
    → not_allocated sf hw ≡ false
    → move_value (not not_inverted) (if sf then x64 else w32) imm16 hw
      ≡ moved sf not_inverted hw imm16
value_moved true true hw imm16 hh hi hn = wide_value hw imm16 hh hi
value_moved true false hw imm16 hh hi hn = ap (λ (v : ℕ). u64_max - v) (wide_value hw imm16 hh hi)
value_moved false true hw imm16 hh hi hn =
    omega (arith, wide_value hw imm16 hh hi, word_value hw imm16 hh hn hi)
value_moved false false hw imm16 hh hi hn =
    omega (arith, wide_value hw imm16 hh hi, word_value hw imm16 hh hn hi)

abbrev selected : Bool → Bool → RegWidth → ℕ → ℕ → ℕ → ℕ → Option IrInst
selected movz movn width hw imm16 rd word =
    if not movz && not movn
    then none
    else if is_w32 width && ltb 1 hw
    then some (unsupported_inst word)
    else some
        (plain mov (reg (sized_reg width rd)) (imm (move_value movn width imm16 hw)) Operand.none)

abbrev expected : Bool → Bool → ℕ → ℕ → ℕ → ℕ → Option IrInst
expected sf not_inverted hw imm16 rd word =
    if not_allocated sf hw
    then some (unsupported_inst word)
    else some (
        plain mov (reg (sized_reg (if sf then x64 else w32) rd))
          (imm (moved sf not_inverted hw imm16)) Operand.none)

selected-allocated :
    (sf not_inverted : Bool) (hw imm16 rd word : ℕ)
    → hw < 4
    → imm16 < 2 ^ 16
    → selected not_inverted (not not_inverted) (if sf then x64 else w32) hw imm16 rd word
      ≡ expected sf not_inverted hw imm16 rd word
selected-allocated true true hw imm16 rd word hh hi = rw (value_moved true true hw imm16 hh hi refl)
selected-allocated true false hw imm16 rd word hh hi =
    rw (value_moved true false hw imm16 hh hi refl)
selected-allocated false true hw imm16 rd word hh hi = elim (Bool-cases (ltb 1 hw)) [
  | inl n ↦ rw n
  | inr n ↦ rw (n, value_moved false true hw imm16 hh hi n)
]
selected-allocated false false hw imm16 rd word hh hi = elim (Bool-cases (ltb 1 hw)) [
  | inl n ↦ rw n
  | inr n ↦ rw (n, value_moved false false hw imm16 hh hi n)
]

-- MOVZ and MOVN: every encoding is lifted to a move of its value to the register of its width; the
-- 32-bit forms with a shift over 16 bits, which are not allocated, are unsupported.
pub lift_move_wide_lem :
    (sf not_inverted : Bool) (hw imm16 rd : ℕ)
    → hw < 4
    → imm16 < 2 ^ 16
    → rd < 32
    → lift_move_wide (move_word sf not_inverted hw imm16 rd) ≡ (
        if not_allocated sf hw
        then some (unsupported_inst (move_word sf not_inverted hw imm16 rd))
        else some (
            plain mov
              (reg (sized_reg (if sf then x64 else w32) rd))
              (imm (moved sf not_inverted hw imm16))
              Operand.none))
unfolding lift_move_wide
lift_move_wide_lem sf inverted hw imm16 rd hh hi hr =
    let word = move_word sf inverted hw imm16 rd in
    let shift : field word 21 2 ≡ hw = ground (arith, bit_and_mask 2 (word / 2 ^ 21)) in
    let immediate : field word 5 16 ≡ imm16 = ground (arith, bit_and_mask 16 (word / 2 ^ 5)) in
    let register : field word 0 5 ≡ rd = ground (arith, bit_and_mask 5 (word / 1)) in
    let class : bit_and word 0x7f80_0000 ≡ 0x1280_0000 + bit_of inverted * 0x4000_0000 =
      ground (arith, bit_and_field 8 23 word) in
    let wide : bit_and word (2 ^ 31) ≡ bit_of sf * 2 ^ 31 = ground (arith, width_bit word) in
    rw (shift, immediate, register, class, wide) (chosen sf inverted)
  where
    chosen :
        (s i : Bool)
        → selected
            (0x1280_0000 + bit_of i * 0x4000_0000 == 0x5280_0000)
            (0x1280_0000 + bit_of i * 0x4000_0000 == 0x1280_0000)
            (if bit_of s * 2 ^ 31 == 0 then w32 else x64)
            hw
            imm16
            rd
            (move_word sf inverted hw imm16 rd)
          ≡ expected s i hw imm16 rd (move_word sf inverted hw imm16 rd)
    chosen true true =
        selected-allocated true true hw imm16 rd (move_word sf inverted hw imm16 rd) hh hi
    chosen true false =
        selected-allocated true false hw imm16 rd (move_word sf inverted hw imm16 rd) hh hi
    chosen false true =
        selected-allocated false true hw imm16 rd (move_word sf inverted hw imm16 rd) hh hi
    chosen false false =
        selected-allocated false false hw imm16 rd (move_word sf inverted hw imm16 rd) hh hi
