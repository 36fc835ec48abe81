-- ===== src/Lift/Memory.antt =====
-- src/lift/mod.rs, `lower_unsigned_mem`: loads and stores, from their encodings.
use armx.Base.{
  ℕ, ◌+◌, ◌*◌, ◌/◌, ◌^◌, ◌<◌, bit_and, ◌≡◌, refl, arith, Bool, true, false, some, none, u32, ◌==◌,
  if◌then◌else◌,
}
use armx.Base.Bits.{bit_and_field, bit_and_mask}
use armx.Ir.Operand.{RegWidth, w32, x64, GuestReg, x, xsp, reg, mem, Operand}
use armx.Ir.Inst.{IrInst, load, store}
use armx.Ir.Block.{Block, push}
use armx.Arch.{A64Inst, InstDecoder}
use armx.Lift.{
  sized_reg, lower_unsigned_mem, field, lift_conditional_branch, lift_move_wide, lifted_at,
  lift_one_at,
}
use armx.Lift.Branches.{bit_of, cond_class}

-- STR or LDR of a word or a doubleword at a base plus the immediate times the width.
abbrev pub unsigned_mem_word : Bool → Bool → ℕ → ℕ → ℕ → A64Inst
unsigned_mem_word wide is_load imm12 rn rt =
    2 ^ 31
    + bit_of wide * 2 ^ 30
    + 0x3900_0000
    + bit_of is_load * 2 ^ 22
    + imm12 * 2 ^ 10
    + rn * 2 ^ 5
    + rt

abbrev pub base_reg : ℕ → GuestReg
base_reg rn = if rn == 31 then xsp else x rn

abbrev pub mem_at : RegWidth → ℕ → ℕ → Operand
mem_at width offset rn = mem (record { base = base_reg rn; offset = offset; width = width })

Fields : Bool → Bool → ℕ → ℕ → ℕ → Type 0
Fields wide is_load imm12 rn rt =
    let word = unsigned_mem_word wide is_load imm12 rn rt in
    (bit_and word 0x3fc0_0000 ≡ 0x3900_0000 + bit_of is_load * 2 ^ 22)
    × (field word 30 2 ≡ 2 + bit_of wide)
    × (field word 0 5 ≡ rt)
    × (field word 5 5 ≡ rn)
    × (field word 10 12 ≡ imm12)

fields :
    (wide is_load : Bool) (imm12 rn rt : ℕ)
    → imm12 < 2 ^ 12
    → rn < 32
    → rt < 32
    → Fields wide is_load imm12 rn rt
unfolding Fields
fields wide is_load imm12 rn rt hi hn ht =
    let word = unsigned_mem_word wide is_load imm12 rn rt in
    (
      ground (arith, bit_and_field 8 22 word),
      ground (arith, bit_and_mask 2 (word / 2 ^ 30)),
      ground (arith, bit_and_mask 5 (word / 1)),
      ground (arith, bit_and_mask 5 (word / 2 ^ 5)),
      ground (arith, bit_and_mask 12 (word / 2 ^ 10)),
    )

-- Each encoding is lifted to the access of its width, at its register (31 is the stack pointer) plus
-- the immediate in units of the width; a store has the address first, a load the register, and
-- neither is taken for the other.
pub lower_unsigned_mem_lem :
    (wide is_load : Bool) (imm12 rn rt : ℕ)
    → imm12 < 2 ^ 12
    → rn < 32
    → rt < 32
    → (lower_unsigned_mem (unsigned_mem_word wide is_load imm12 rn rt) is_load
        ≡ some (
            let width : RegWidth = if wide then x64 else w32 in
            let m = mem_at width (imm12 * (if wide then 8 else 4)) rn in
            let r = reg (sized_reg width rt) in if is_load then (r, m) else (m, r)))
      × (lower_unsigned_mem
            (unsigned_mem_word wide is_load imm12 rn rt)
            (if is_load then false else true)
          ≡ none)
unfolding lower_unsigned_mem Fields
lower_unsigned_mem_lem true true imm12 rn rt hi hn ht =
    let (class, size, target, base, offset) = fields true true imm12 rn rt hi hn ht in
    let scaled : u32 (imm12 * 8) ≡ imm12 * 8 = omega arith in
    (rw (class, size, target, base, offset, scaled), rw class)
lower_unsigned_mem_lem true false imm12 rn rt hi hn ht =
    let (class, size, target, base, offset) = fields true false imm12 rn rt hi hn ht in
    let scaled : u32 (imm12 * 8) ≡ imm12 * 8 = omega arith in
    (rw (class, size, target, base, offset, scaled), rw class)
lower_unsigned_mem_lem false true imm12 rn rt hi hn ht =
    let (class, size, target, base, offset) = fields false true imm12 rn rt hi hn ht in
    let scaled : u32 (imm12 * 4) ≡ imm12 * 4 = omega arith in
    (rw (class, size, target, base, offset, scaled), rw class)
lower_unsigned_mem_lem false false imm12 rn rt hi hn ht =
    let (class, size, target, base, offset) = fields false false imm12 rn rt hi hn ht in
    let scaled : u32 (imm12 * 4) ≡ imm12 * 4 = omega arith in
    (rw (class, size, target, base, offset, scaled), rw class)

-- The instruction of an encoding.
abbrev pub access_inst : Bool → Bool → ℕ → ℕ → ℕ → IrInst
access_inst wide true imm12 rn rt = record {
  opcode = load;
  flags = 0;
  a = reg (sized_reg (if wide then x64 else w32) rt);
  b = mem_at (if wide then x64 else w32) (imm12 * (if wide then 8 else 4)) rn;
  c = Operand.none;
}
access_inst wide false imm12 rn rt = record {
  opcode = store;
  flags = 0;
  a = mem_at (if wide then x64 else w32) (imm12 * (if wide then 8 else 4)) rn;
  b = reg (sized_reg (if wide then x64 else w32) rt);
  c = Operand.none;
}

-- No encoding is taken for a branch or a move.
not_branch :
    (wide is_load : Bool) (imm12 rn rt pc : ℕ)
    → imm12 < 2 ^ 12
    → rn < 32
    → rt < 32
    → lift_conditional_branch (unsigned_mem_word wide is_load imm12 rn rt) pc ≡ none
unfolding lift_conditional_branch
not_branch wide is_load imm12 rn rt pc hi hn ht =
    let word = unsigned_mem_word wide is_load imm12 rn rt in
    let class : bit_and word 0x7f00_0000 ≡ 0x3900_0000 + bit_of wide * 2 ^ 30 =
      ground (arith, bit_and_field 7 24 word) in
    let other : (bit_and word 0xff00_0010 == 0x5400_0000) ≡ false =
      ground (arith, cond_class word) in
    rw (other, class) (ground arith)

not_move :
    (wide is_load : Bool) (imm12 rn rt : ℕ)
    → imm12 < 2 ^ 12
    → rn < 32
    → rt < 32
    → lift_move_wide (unsigned_mem_word wide is_load imm12 rn rt) ≡ none
unfolding lift_move_wide
not_move wide is_load imm12 rn rt hi hn ht =
    let word = unsigned_mem_word wide is_load imm12 rn rt in
    let class : bit_and word 0x7f80_0000 ≡ 0x3900_0000 + bit_of wide * 2 ^ 30 =
      ground (arith, bit_and_field 8 23 word) in
    rw class (ground arith)

-- Whatever the decoder gives, each LDR and STR encoding of a word or doubleword at an immediate
-- offset is lifted to one instruction, a load for LDR and a store for STR, of the register (31 is
-- zero) at the base (31 is the stack pointer) plus the immediate in units of the width.
pub lift_one_at-access :
    (decoder : InstDecoder) (wide is_load : Bool) (imm12 rn rt pc : ℕ) (block : Block)
    → imm12 < 2 ^ 12
    → rn < 32
    → rt < 32
    → lift_one_at decoder (unsigned_mem_word wide is_load imm12 rn rt) pc block
      ≡ push block (access_inst wide is_load imm12 rn rt)
unfolding lift_one_at lifted_at
lift_one_at-access decoder wide true imm12 rn rt pc block hi hn ht =
    rw
      (
        not_branch wide true imm12 rn rt pc hi hn ht,
        not_move wide true imm12 rn rt hi hn ht,
        (lower_unsigned_mem_lem wide true imm12 rn rt hi hn ht).0,
      )
      refl
lift_one_at-access decoder wide false imm12 rn rt pc block hi hn ht =
    rw
      (
        not_branch wide false imm12 rn rt pc hi hn ht,
        not_move wide false imm12 rn rt hi hn ht,
        (lower_unsigned_mem_lem wide false imm12 rn rt hi hn ht).1,
        (lower_unsigned_mem_lem wide false imm12 rn rt hi hn ht).0,
      )
      refl
