-- ===== src/Meaning.antt =====
-- What instructions and blocks of the intermediate representation mean, as the AArch64 manual
-- defines the instructions that they stand for: the specification that src/jit and src/codegen are
-- held to. Memory is a function from guest addresses to bytes. `none` is an instruction with no
-- meaning, such as a register number out of range.
use armx.Base.{
  ℕ, zero, suc, ◌+◌, ◌-◌, ◌*◌, ◌/◌, ◌%◌, ◌^◌, bit_and, bit_or, bit_xor, Bool, true, false, not,
  ◌&&◌, List, [], ◌∷◌, Option, some, none, get_elem?, set?, ◌==◌, ltb, leb, if◌then◌else◌, ◌>>=◌,
  map_some, arithmetic_shift, rotate_right,
}
use armx.Ir.Operand.{
  RegWidth, w32, x64, ShiftKind, lsl, lsr, asr, ror, RegKind, general, stack_pointer, GuestReg,
  Operand, reg, imm, shifted_imm, shifted_reg, shift_reg, mem, guest_pc, MemOperand,
}
use armx.Ir.Inst.{
  Opcode, nop, mov, add, sub, and, orr, eor, shift, load, store, branch, branch_cond, ret, IrInst,
  writes_nzcv,
}
use armx.Ir.Block.{Block, byte_len}
use armx.Runtime.State.{GuestState}

pub record Machine : Type 0 where
  pub regs : GuestState
  pub memory : ℕ → ℕ

abbrev pub bits : RegWidth → ℕ
bits w32 = 32
bits x64 = 64

abbrev pub trunc : RegWidth → ℕ → ℕ
trunc w32 v = v % 2 ^ 32
trunc x64 v = v % 2 ^ 64

abbrev read_kind : RegKind → GuestReg → GuestState → Option ℕ
read_kind general r s = map_some (trunc r.width) (get_elem? s.gpr r.num)
read_kind stack_pointer r s = some (trunc r.width s.sp)
read_kind RegKind.zero r s = some 0

unfoldable pub read_reg : GuestState → GuestReg → Option ℕ
read_reg s r = read_kind r.kind r s

abbrev write_kind : RegKind → GuestReg → ℕ → GuestState → Option GuestState
write_kind general r v s = map_some (λ g. record s { gpr = g }) (set? s.gpr r.num v)
write_kind stack_pointer r v s = some (record s { sp = v })
write_kind RegKind.zero r v s = some s

-- A write of 32 bits clears the upper half: the value is written whole.
unfoldable pub write_reg : GuestState → GuestReg → ℕ → Option GuestState
write_reg s r v = write_kind r.kind r v s

-- A shift of an `n`-bit value by less than `n`.
abbrev pub shift_value : ShiftKind → ℕ → ℕ → ℕ → ℕ
shift_value lsl n v by = (v * 2 ^ by) % 2 ^ n
shift_value lsr n v by = v / 2 ^ by
shift_value asr n v by = arithmetic_shift n v by
shift_value ror n v by = rotate_right n v by

unfoldable pub operand_value : GuestState → RegWidth → Operand → Option ℕ
operand_value s w (reg r) = map_some (trunc w) (read_reg s r)
operand_value s w (imm v) = some (trunc w v)
operand_value s w (shifted_imm v by) = some (trunc w (v * 2 ^ by))
operand_value s w (shifted_reg r kind by) =
    map_some (λ v. shift_value kind (bits w) (trunc w v) (by % bits w)) (read_reg s r)
operand_value s w _ = none

-- The result at width `w` of an operation on two values of that width.
unfoldable pub alu : Opcode → RegWidth → ℕ → ℕ → Option ℕ
alu add w a b = some (trunc w (a + b))
alu sub w a b = some (trunc w (a + 2 ^ bits w - b))
alu and w a b = some (trunc w (bit_and a b))
alu orr w a b = some (trunc w (bit_or a b))
alu eor w a b = some (trunc w (bit_xor a b))
alu _ w a b = none

abbrev pub bit : Bool → ℕ
bit true = 1
bit false = 0

abbrev pub negative : RegWidth → ℕ → Bool
negative w v = leb (2 ^ (bits w - 1)) v

abbrev pub bool_eq : Bool → Bool → Bool
bool_eq true b = b
bool_eq false b = not b

abbrev pub nzcv_word : Bool → Bool → Bool → Bool → ℕ
nzcv_word n z c v = bit n * 2 ^ 31 + bit z * 2 ^ 30 + bit c * 2 ^ 29 + bit v * 2 ^ 28

-- NZCV after an operation on `a` and `b` with the result `r`.
unfoldable pub flags_after : Opcode → RegWidth → ℕ → ℕ → ℕ → Option ℕ
flags_after add w a b r = some (
    nzcv_word (negative w r) (r == 0) (leb (2 ^ bits w) (a + b))
      (bool_eq (negative w a) (negative w b) && not (bool_eq (negative w a) (negative w r))))
flags_after sub w a b r = some (
    nzcv_word (negative w r) (r == 0) (leb b a)
      (not (bool_eq (negative w a) (negative w b)) && not (bool_eq (negative w a) (negative w r))))
flags_after and w a b r = some (nzcv_word (negative w r) (r == 0) false false)
flags_after _ w a b r = none

abbrev pub flag : ℕ → ℕ → Bool
flag nzcv n = (nzcv / 2 ^ n) % 2 == 1

-- The manual's ConditionHolds: three bits choose the test and the lowest inverts it, but for 15.
abbrev pub condition_base : ℕ → ℕ → Bool
condition_base nzcv zero = flag nzcv 30
condition_base nzcv (suc zero) = flag nzcv 29
condition_base nzcv (suc (suc zero)) = flag nzcv 31
condition_base nzcv (suc (suc (suc zero))) = flag nzcv 28
condition_base nzcv (suc (suc (suc (suc zero)))) = flag nzcv 29 && not (flag nzcv 30)
condition_base nzcv (suc (suc (suc (suc (suc zero))))) = bool_eq (flag nzcv 31) (flag nzcv 28)
condition_base nzcv (suc (suc (suc (suc (suc (suc zero)))))) =
    bool_eq (flag nzcv 31) (flag nzcv 28) && not (flag nzcv 30)
condition_base nzcv _ = true

unfoldable pub condition_met : ℕ → ℕ → Bool
condition_met cond nzcv =
    if cond % 2 == 1 && not (cond == 15)
    then not (condition_base nzcv (cond / 2))
    else condition_base nzcv (cond / 2)

-- `n` bytes from an address on, least significant first; addresses wrap.
unfoldable pub load_bytes : ℕ → (ℕ → ℕ) → ℕ → ℕ
load_bytes zero memory address = 0
load_bytes (suc n) memory address =
    memory (address % 2 ^ 64) % 256 + 256 * load_bytes n memory (address + 1)

unfoldable pub store_bytes : ℕ → (ℕ → ℕ) → ℕ → ℕ → ℕ → ℕ
store_bytes zero memory address v = memory
store_bytes (suc n) memory address v =
    store_bytes n (λ a. if a == address % 2 ^ 64 then v % 256 else memory a) (address + 1) (v / 256)

-- `base + offset`, where the offset is a signed 32-bit pattern.
abbrev pub effective_address : ℕ → ℕ → ℕ
effective_address base offset =
    (base + (if ltb offset (2 ^ 31) then offset else offset + 2 ^ 64 - 2 ^ 32)) % 2 ^ 64

unfoldable pub address_of : GuestState → MemOperand → Option ℕ
address_of s m = map_some (λ base. effective_address base m.offset) (read_reg s m.base)

-- An instruction goes on to the next one, or leaves the block with `pc` set.
pub data Outcome : Type 0 where
  running exited : Machine → Outcome

abbrev pub with_regs : Machine → GuestState → Outcome
with_regs m s = running (record m { regs = s })

abbrev pub leave : Machine → ℕ → Outcome
leave m pc = exited (record m { regs = record m.regs { pc = pc } })

abbrev pub set_flags : Bool → Option ℕ → GuestState → Option GuestState
set_flags false flags s = some s
set_flags true flags s = map_some (λ f. record s { nzcv = f }) flags

unfoldable pub step_mov : Operand → Operand → Machine → Option Outcome
step_mov (reg d) b m = do
  v ← operand_value m.regs d.width b
  map_some (with_regs m) (write_reg m.regs d v)
step_mov _ b m = none

unfoldable pub step_alu : Operand → IrInst → Machine → Option Outcome
step_alu (reg d) inst m = do
  a ← operand_value m.regs d.width inst.b
  b ← operand_value m.regs d.width inst.c
  r ← alu inst.opcode d.width a b
  s ← write_reg m.regs d r
  map_some (with_regs m) (set_flags (writes_nzcv inst) (flags_after inst.opcode d.width a b r) s)
step_alu _ inst m = none

unfoldable pub step_shift : Operand → Operand → Operand → Machine → Option Outcome
step_shift (reg d) b (shift_reg _ amount kind) m = do
  v ← operand_value m.regs d.width b
  by ← read_reg m.regs amount
  map_some (with_regs m)
      (write_reg m.regs d (shift_value kind (bits d.width) v (by % bits d.width)))
step_shift _ b c m = none

unfoldable pub step_load : Operand → Operand → Machine → Option Outcome
step_load (reg d) (mem o) m = do
  address ← address_of m.regs o
  map_some (with_regs m) (write_reg m.regs d (load_bytes (bits o.width / 8) m.memory address))
step_load _ b m = none

unfoldable pub step_store : Operand → Operand → Machine → Option Outcome
step_store (mem o) b m = do
  v ← operand_value m.regs x64 b
  address ← address_of m.regs o
  some (running (record m { memory = store_bytes (bits o.width / 8) m.memory address v }))
step_store _ b m = none

-- Whether a conditional branch is taken: a condition on NZCV, or a register against zero.
unfoldable pub taken : Operand → Operand → GuestState → Option Bool
taken (imm cond) Operand.none s = if leb cond 15 then some (condition_met cond s.nzcv) else none
taken source (imm kind) s =
    if leb kind 1
    then map_some (λ v. bool_eq (v == 0) (kind == 0)) (operand_value s x64 source)
    else none
taken _ _ s = none

unfoldable pub step_branch_cond : Operand → IrInst → ℕ → Machine → Option Outcome
step_branch_cond (guest_pc target) inst next m =
    map_some (λ t. leave m (if t then target else next)) (taken inst.b inst.c m.regs)
step_branch_cond _ inst next m = none

unfoldable pub step_branch : Operand → Machine → Option Outcome
step_branch (guest_pc target) m = some (leave m target)
step_branch _ m = none

unfoldable pub step_ret : Operand → Machine → Option Outcome
step_ret (reg r) m = map_some (leave m) (read_reg m.regs r)
step_ret _ m = none

-- One instruction, where `next` is the address of the one after it.
unfoldable pub step_as : Opcode → ℕ → IrInst → Machine → Option Outcome
step_as nop next inst m = some (running m)
step_as mov next inst m = step_mov inst.a inst.b m
step_as add next inst m = step_alu inst.a inst m
step_as sub next inst m = step_alu inst.a inst m
step_as and next inst m = step_alu inst.a inst m
step_as orr next inst m = step_alu inst.a inst m
step_as eor next inst m = step_alu inst.a inst m
step_as shift next inst m = step_shift inst.a inst.b inst.c m
step_as load next inst m = step_load inst.a inst.b m
step_as store next inst m = step_store inst.a inst.b m
step_as branch next inst m = step_branch inst.a m
step_as branch_cond next inst m = step_branch_cond inst.a inst next m
step_as ret next inst m = step_ret inst.a m
step_as _ next inst m = none

abbrev pub step : ℕ → IrInst → Machine → Option Outcome
step next inst m = step_as inst.opcode next inst m

-- Instructions from `pc` on; `stop` is where the guest goes on after the last.
unfoldable pub run_insts : ℕ → ℕ → List IrInst → Machine → Option Machine
run_insts pc stop [] m = some (record m { regs = record m.regs { pc = stop } })
run_insts pc stop (inst ∷ insts) m =
    step (pc + 4) inst m
    >>= elim [ running m' ↦ run_insts (pc + 4) stop insts m' | exited m' ↦ some m' ]

unfoldable pub run_block : Block → Machine → Option Machine
unfolding run_insts
run_block block m = run_insts block.guest_pc (block.guest_pc + byte_len block) block.insts m
