-- ===== src/Lift/Branches.antt =====
-- src/lift/mod.rs, `lift_conditional_branch`: B.cond, CBZ and CBNZ, from their encodings.
use armx.Base.{
  ℕ, ◌+◌, ◌-◌, ◌*◌, ◌/◌, ◌%◌, ◌^◌, ◌<◌, bit_and, ◌≡◌, ap, ◌∙◌, arith, Bool, true, false, some, u32,
  u64, ltb, ◌==◌, if◌then◌else◌, arithmetic_shift,
}
use armx.Base.Bits.{bit_and_field, bit_and_mask, bit_and_split}
use armx.Ir.Operand.{w32, x64, reg, imm, guest_pc, Operand}
use armx.Ir.Inst.{branch_cond}
use armx.Arch.{A64Inst}
use armx.Lift.{plain, sized_reg, sign_extend_19, lift_conditional_branch, field}

-- Four times a signed 19-bit number, as a 64-bit pattern.
abbrev pub displacement : ℕ → ℕ
displacement imm19 = if ltb imm19 (2 ^ 18) then 4 * imm19 else 2 ^ 64 - 4 * (2 ^ 19 - imm19)

-- The two shifts sign-extend the low 19 bits of any value.
pub sign_extend_19_lem : (v : ℕ) → sign_extend_19 v ≡ displacement (v % 2 ^ 19)
unfolding sign_extend_19
sign_extend_19_lem v = rw (bit_and_mask 19 v) (shifted (v % 2 ^ 19) (omega arith))
  where
    shifted : (m : ℕ) → m < 2 ^ 19 → arithmetic_shift 64 (u64 (m * 4 * 2 ^ 43)) 43 ≡ displacement m
    shifted m h = ground arith

abbrev pub b_cond_word : ℕ → ℕ → A64Inst
b_cond_word imm19 cond = 0x5400_0000 + imm19 * 2 ^ 5 + cond

pub cond_class :
    (word : ℕ)
    → bit_and word 0xff00_0010 ≡ word / 2 ^ 24 % 2 ^ 8 * 2 ^ 24 + word / 2 ^ 4 % 2 * 2 ^ 4
cond_class word =
    bit_and_split 24 word 0xff 0x10 (omega arith)
    ∙ omega (arith, bit_and_mask 8 (word / 2 ^ 24), bit_and_field 1 4 (word % 2 ^ 24))

-- B.cond: every encoding is lifted to a branch to the displaced address, on its condition.
pub lift_b_cond :
    (imm19 cond pc : ℕ)
    → imm19 < 2 ^ 19
    → cond < 16
    → lift_conditional_branch (b_cond_word imm19 cond) pc
      ≡ some (plain branch_cond (guest_pc (u64 (pc + displacement imm19))) (imm cond) Operand.none)
unfolding lift_conditional_branch
lift_b_cond imm19 cond pc hi hc =
    let word = b_cond_word imm19 cond in
    let class : bit_and word 0xff00_0010 ≡ 0x5400_0000 = omega (arith, cond_class word) in
    let condition : bit_and word 0xf ≡ cond = omega (arith, bit_and_mask 4 word) in
    let bits : u32 word / 2 ^ 5 % 2 ^ 19 ≡ imm19 = omega arith in
    let extended : sign_extend_19 (u32 word / 2 ^ 5) ≡ displacement imm19 =
      sign_extend_19_lem (u32 word / 2 ^ 5) ∙ ap displacement bits in
    rw (class, condition, extended)

abbrev pub bit_of : Bool → ℕ
bit_of true = 1
bit_of false = 0

abbrev pub compare_word : Bool → Bool → ℕ → ℕ → A64Inst
compare_word sf nonzero imm19 rt =
    bit_of sf * 2 ^ 31 + 0x3400_0000 + bit_of nonzero * 2 ^ 24 + imm19 * 2 ^ 5 + rt

pub width_bit : (word : ℕ) → bit_and word (2 ^ 31) ≡ word / 2 ^ 31 % 2 * 2 ^ 31
width_bit word = bit_and_field 1 31 word

-- CBZ and CBNZ: every encoding is lifted to a branch to the displaced address, on its register of
-- the encoded width being zero (0) or not (1).
pub lift_compare :
    (sf nonzero : Bool) (imm19 rt pc : ℕ)
    → imm19 < 2 ^ 19
    → rt < 32
    → lift_conditional_branch (compare_word sf nonzero imm19 rt) pc
      ≡ some (
          plain branch_cond
            (guest_pc (u64 (pc + displacement imm19)))
            (reg (sized_reg (if sf then x64 else w32) rt))
            (imm (bit_of nonzero)))
unfolding lift_conditional_branch
lift_compare sf nonzero imm19 rt pc hi hr =
    let word = compare_word sf nonzero imm19 rt in
    let bits : u32 word / 2 ^ 5 % 2 ^ 19 ≡ imm19 = ground arith in
    let extended : sign_extend_19 (u32 word / 2 ^ 5) ≡ displacement imm19 =
      sign_extend_19_lem (u32 word / 2 ^ 5) ∙ ap displacement bits in
    let register : field word 0 5 ≡ rt = ground (arith, bit_and_mask 5 (word / 1)) in
    let class : bit_and word 0x7f00_0000 ≡ 0x3400_0000 + bit_of nonzero * 2 ^ 24 =
      ground (arith, bit_and_field 7 24 word) in
    let other : (bit_and word 0xff00_0010 == 0x5400_0000) ≡ false =
      ground (arith, cond_class word) in
    let wide : bit_and word (2 ^ 31) ≡ bit_of sf * 2 ^ 31 = ground (arith, width_bit word) in
    rw (other, class, wide, register, extended) (ground arith)
