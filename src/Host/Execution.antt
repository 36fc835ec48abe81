-- ===== src/Host/Execution.antt =====
-- What the instructions do, and runs of code.
use armx.Base.{
  ℕ, zero, suc, ◌+◌, ◌*◌, ◌/◌, ◌%◌, Bool, true, false, not, List, Option, some, none, if◌then◌else◌,
  map_some, ◌>>=◌, drop,
}
use armx.Ir.Operand.{RegWidth, ShiftKind}
use armx.Codegen.Encoding.{X86Scratch}
use armx.Jit.Selection.{sign_extend_32}
use armx.Meaning.{bits, trunc, bit, shift_value, flag, load_bytes, store_bytes}
use armx.Host.Cpu.{
  Cpu, Flags, AluOp, get_reg, put_reg, read_state, write_state, guest_address, displaced,
  alu_result, alu_flags,
}
use armx.Host.Decoding.{
  Insn, nop, ret, move_imm, load_field, store_field, load_mem, store_mem, alu, alu_imm, test,
  shift_by_imm, shift_cl, set_if, movzx, bit_test16, jump_if, Condition, overflow, carry, no_carry,
  equal, not_equal, sign, decode,
}

abbrev pub holds : Condition → Flags → Bool
holds overflow f = f.vf
holds carry f = f.cf
holds no_carry f = not f.cf
holds equal f = f.zf
holds not_equal f = not f.zf
holds sign f = f.sf

-- The operands are cut to the width; the result replaces the whole register.
abbrev pub alu_step : AluOp → RegWidth → X86Scratch → ℕ → Cpu → Cpu
alu_step op w dst b cpu =
    let a = trunc w (get_reg dst cpu) in
    let r = alu_result op w a (trunc w b) in
    put_reg dst r (record cpu { flags = alu_flags op w a (trunc w b) r })

-- The count is taken modulo the width. The flags after a shift are not used: they are left.
abbrev pub shift_step : ShiftKind → RegWidth → X86Scratch → ℕ → Cpu → Cpu
shift_step kind w r n cpu =
    put_reg r (shift_value kind (bits w) (trunc w (get_reg r cpu)) (n % bits w)) cpu

-- The code that follows and the state, after one instruction.
unfoldable pub execute : Insn → List ℕ → Cpu → Option (List ℕ × Cpu)
execute nop rest cpu = some (rest, cpu)
execute ret rest cpu = none
execute (move_imm w r v) rest cpu = some (rest, put_reg r v cpu)
execute (load_field w r disp) rest cpu =
    map_some (λ v. (rest, put_reg r v cpu)) (read_state w disp cpu.machine.regs)
execute (store_field w disp r) rest cpu =
    map_some (λ s. (rest, record cpu { machine = record cpu.machine { regs = s } }))
      (write_state w disp (get_reg r cpu) cpu.machine.regs)
execute (load_mem w r disp) rest cpu =
    let address = guest_address (displaced cpu.a disp) in
    some (rest, put_reg r (load_bytes (bits w / 8) cpu.machine.memory address) cpu)
execute (store_mem w disp r) rest cpu =
    let address = guest_address (displaced cpu.a disp) in
    some (
      rest,
      record cpu {
        machine = record cpu.machine {
          memory = store_bytes (bits w / 8) cpu.machine.memory address (get_reg r cpu);
        };
      },
    )
execute (alu op w dst src) rest cpu = some (rest, alu_step op w dst (get_reg src cpu) cpu)
execute (alu_imm op w dst v) rest cpu = some (rest, alu_step op w dst (sign_extend_32 v) cpu)
execute (test w dst src) rest cpu =
    let a = trunc w (get_reg dst cpu) in
    let b = trunc w (get_reg src cpu) in
    some (rest, record cpu { flags = alu_flags AluOp.and w a b (alu_result AluOp.and w a b) })
execute (shift_by_imm kind w r n) rest cpu = some (rest, shift_step kind w r n cpu)
execute (shift_cl kind w r) rest cpu = some (rest, shift_step kind w r cpu.c cpu)
execute (set_if cond r) rest cpu =
    some (rest, put_reg r (get_reg r cpu / 256 * 256 + bit (holds cond cpu.flags)) cpu)
execute (movzx dst src) rest cpu = some (rest, put_reg dst (get_reg src cpu % 256) cpu)
execute (bit_test16 base index) rest cpu = some (
  rest,
  record cpu { flags = record cpu.flags { cf = flag (get_reg base cpu) (get_reg index cpu % 16) } },
)
execute (jump_if cond by) rest cpu = some (if holds cond cpu.flags then drop by rest else rest, cpu)

-- One instruction; `none` is a return, or bytes that are not decoded.
unfoldable pub tick : List ℕ → Cpu → Option (List ℕ × Cpu)
tick code cpu = do (insn, rest) ← decode code; execute insn rest cpu

unfoldable pub ticks : ℕ → List ℕ → Cpu → Option (List ℕ × Cpu)
ticks zero code cpu = some (code, cpu)
ticks (suc n) code cpu = do (rest, cpu') ← tick code cpu; ticks n rest cpu'

abbrev pub is_ret : Option (Insn × List ℕ) → Bool
is_ret (some (ret, rest)) = true
is_ret _ = false

-- Up to the return, with `fuel` instructions at most.
unfoldable pub run_code : ℕ → List ℕ → Cpu → Option Cpu
run_code zero code cpu = none
run_code (suc fuel) code cpu =
    if is_ret (decode code)
    then some cpu
    else (tick code cpu >>= λ next. run_code fuel next.0 next.1)
