-- ===== src/Jit/Selection/Immediate.antt =====
-- src/jit/isel.rs, `is_immediate_candidate`: the value of an immediate on the host.
use armx.Base.{ℕ, ◌-◌, ◌^◌, ◌≡◌, arith, true, leb, ◌==◌, Bool-cases, inl, inr}
use armx.Ir.Operand.{RegWidth, w32, x64, GuestReg, Operand, reg, imm}
use armx.Ir.Inst.{Opcode, add, sub, and, orr, eor, IrInst}
use armx.Jit.Selection.{
  immediate, is_immediate_candidate, select, sign_extend_32, is_arithmetic, fits,
}
use armx.Meaning.{trunc}

fits-arithmetic :
    (v : ℕ) → (sign_extend_32 v == v) ≡ true → trunc x64 (sign_extend_32 v) ≡ trunc x64 v
fits-arithmetic v h = ground arith

fits-logical : (v : ℕ) → leb v (2 ^ 31 - 1) ≡ true → trunc x64 (sign_extend_32 v) ≡ trunc x64 v
fits-logical v h = ground arith

fits-value :
    (w : RegWidth) (op : Opcode) (v : ℕ)
    → fits w op v ≡ true
    → trunc w (sign_extend_32 v) ≡ trunc w v
fits-value w32 op v h = ground arith
fits-value x64 add v h = fits-arithmetic v h
fits-value x64 sub v h = fits-arithmetic v h
fits-value x64 and v h = fits-logical v h
fits-value x64 orr v h = fits-logical v h
fits-value x64 eor v h = fits-logical v h
fits-value x64 op v h = cc

candidate-immediate :
    (inst : IrInst) → (select inst).form ≡ immediate → is_immediate_candidate inst ≡ true
unfolding select
candidate-immediate inst h = elim (Bool-cases (is_immediate_candidate inst)) [
  | inl c ↦ c
  | inr c ↦ cc (c, h)
]

-- The selected immediate form has the operand's value at the destination's width, after the host has
-- cut the value to 32 bits and extended its sign.
pub select-immediate_value :
    (op : Opcode) (flags : ℕ) (d : GuestReg) (b : Operand) (v : ℕ)
    → (select (record { opcode = op; flags = flags; a = reg d; b = b; c = imm v })).form ≡ immediate
    → trunc d.width (sign_extend_32 v) ≡ trunc d.width v
unfolding is_immediate_candidate
select-immediate_value op flags d b v h =
    let candidate =
      candidate-immediate (record { opcode = op; flags = flags; a = reg d; b = b; c = imm v }) h in
    elim (Bool-cases (is_arithmetic op)) [
      | inl a ↦ fits-value d.width op v (rw a at candidate)
      | inr a ↦ cc (a, candidate)
    ]
