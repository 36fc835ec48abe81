-- ===== src/Codegen/Correct/Nzcv.antt =====
-- src/codegen/x86_64.rs, `emit_nzcv_from_x86_flags`.
use armx.Base.{
  ℕ, ◌+◌, ◌*◌, ◌/◌, ◌%◌, ◌≡◌, refl, ap, arith, Bool, true, false, not, List, some, ltb, leb, bit_or,
}
use armx.Ir.Operand.{RegWidth, w32, lsl}
use armx.Ir.Inst.{Opcode, add, sub, and}
use armx.Codegen.Encoding.{emit_nzcv_from_x86_flags}
use armx.Codegen.Correct.Executes.{Executes}
use armx.Codegen.Correct.Operands.{xor-zero}
use armx.Codegen.Correct.Alu.{Operates, add_op, sub_op, and_op}
use armx.Host.Cpu.{Cpu, Flags, AluOp, alu_result, alu_flags, write_state}
use armx.Host.Decoding.{decode}
use armx.Host.Execution.{execute, tick, ticks}
use armx.Meaning.{Machine, bit, nzcv_word, trunc, shift_value, flags_after}

-- The opcodes that set NZCV.
pub data SetsFlags : Opcode → Type 0 where
  add_flags : SetsFlags add
  sub_flags : SetsFlags sub
  and_flags : SetsFlags and

-- NZCV from the flags of the host.
abbrev pub guest_nzcv : Opcode → Flags → ℕ
guest_nzcv add f = nzcv_word f.sf f.zf f.cf f.vf
guest_nzcv sub f = nzcv_word f.sf f.zf (not f.cf) f.vf
guest_nzcv _ f = nzcv_word f.sf f.zf false false

-- What the register of a flag holds once its low byte has been set, extended and shifted.
abbrev placed : ℕ → ℕ → Bool → ℕ
placed by r b = shift_value lsl 32 (trunc w32 ((r / 256 * 256 + bit b) % 256)) by

abbrev joined : ℕ → ℕ → ℕ
joined u v = trunc w32 (bit_or (trunc w32 u) (trunc w32 v))

abbrev assembled : ℕ → ℕ → ℕ → ℕ → ℕ
assembled n z c v = trunc w32 (joined (joined (joined n z) c) v)

set_byte : (r : ℕ) (b : Bool) → (r / 256 * 256 + bit b) % 256 ≡ bit b
set_byte r true = omega arith
set_byte r false = omega arith

assembled-nzcv_word :
    (n z c v : Bool)
    → assembled
        (shift_value lsl 32 (trunc w32 (bit n)) 31)
        (shift_value lsl 32 (trunc w32 (bit z)) 30)
        (shift_value lsl 32 (trunc w32 (bit c)) 29)
        (shift_value lsl 32 (trunc w32 (bit v)) 28)
      ≡ nzcv_word n z c v
assembled-nzcv_word true true true true = refl
assembled-nzcv_word true true true false = refl
assembled-nzcv_word true true false true = refl
assembled-nzcv_word true true false false = refl
assembled-nzcv_word true false true true = refl
assembled-nzcv_word true false true false = refl
assembled-nzcv_word true false false true = refl
assembled-nzcv_word true false false false = refl
assembled-nzcv_word false true true true = refl
assembled-nzcv_word false true true false = refl
assembled-nzcv_word false true false true = refl
assembled-nzcv_word false true false false = refl
assembled-nzcv_word false false true true = refl
assembled-nzcv_word false false true false = refl
assembled-nzcv_word false false false true = refl
assembled-nzcv_word false false false false = refl

placed_word :
    (a c d si : ℕ) (n z k v : Bool)
    → assembled (placed 31 d n) (placed 30 c z) (placed 29 a k) (placed 28 si v) ≡ nzcv_word n z k v
placed_word a c d si n z k v =
    rw (set_byte d n, set_byte c z, set_byte a k, set_byte si v) (assembled-nzcv_word n z k v)

-- The state with its NZCV set.
abbrev pub with_nzcv : Machine → ℕ → Machine
with_nzcv m nzcv = record m { regs = record m.regs { nzcv = nzcv } }

-- The code that sets NZCV.
pub record SetsNzcv (op : Opcode) (cpu : Cpu) : Type 0 where
  pub code : List ℕ
  pub emits : emit_nzcv_from_x86_flags op ≡ some code
  pub after : Cpu
  pub executes : Executes code cpu after
  pub machine : after.machine ≡ with_nzcv cpu.machine (guest_nzcv op cpu.flags)

add-SetsNzcv : (cpu : Cpu) → SetsNzcv add cpu
unfolding emit_nzcv_from_x86_flags ticks tick decode execute write_state alu_result
add-SetsNzcv cpu = record {
  code = _;
  emits = refl;
  after = _;
  executes = record { count = 16; bounded = omega arith; runs = λ rest. refl };
  machine =
      ap (with_nzcv cpu.machine)
        (placed_word cpu.a cpu.c cpu.d cpu.si cpu.flags.sf cpu.flags.zf cpu.flags.cf cpu.flags.vf);
}

sub-SetsNzcv : (cpu : Cpu) → SetsNzcv sub cpu
unfolding emit_nzcv_from_x86_flags ticks tick decode execute write_state alu_result
sub-SetsNzcv cpu = record {
  code = _;
  emits = refl;
  after = _;
  executes = record { count = 16; bounded = omega arith; runs = λ rest. refl };
  machine = ap (with_nzcv cpu.machine) (
      placed_word cpu.a cpu.c cpu.d cpu.si cpu.flags.sf cpu.flags.zf (not cpu.flags.cf)
        cpu.flags.vf);
}

cleared_word :
    (a c d si : ℕ) (n z : Bool)
    → assembled
        (placed 31 d n)
        (placed 30 c z)
        (shift_value lsl 32
          (trunc w32 (alu_result AluOp.xor w32 (trunc w32 a) (trunc w32 a) % 256))
          29)
        (shift_value lsl 32
          (trunc w32 (alu_result AluOp.xor w32 (trunc w32 si) (trunc w32 si) % 256))
          28)
      ≡ nzcv_word n z false false
cleared_word a c d si n z =
    rw (set_byte d n, set_byte c z, xor-zero w32 (trunc w32 a), xor-zero w32 (trunc w32 si))
      (assembled-nzcv_word n z false false)

and-SetsNzcv : (cpu : Cpu) → SetsNzcv and cpu
unfolding emit_nzcv_from_x86_flags ticks tick decode execute write_state alu_result
and-SetsNzcv cpu = record {
  code = _;
  emits = refl;
  after = _;
  executes = record { count = 16; bounded = omega arith; runs = λ rest. refl };
  machine =
      ap (with_nzcv cpu.machine) (cleared_word cpu.a cpu.c cpu.d cpu.si cpu.flags.sf cpu.flags.zf);
}

pub emit_nzcv-SetsNzcv : (op : Opcode) (cpu : Cpu) → SetsFlags op → SetsNzcv op cpu
emit_nzcv-SetsNzcv op cpu add_flags = add-SetsNzcv cpu
emit_nzcv-SetsNzcv op cpu sub_flags = sub-SetsNzcv cpu
emit_nzcv-SetsNzcv op cpu and_flags = and-SetsNzcv cpu

not-ltb : (a b : ℕ) → not (ltb a b) ≡ leb b a
not-ltb a b = ground arith

-- They are the flags of the instruction, which the host's borrow gives inverted.
pub flags_after-guest_nzcv :
    {op : Opcode} {hop : AluOp} (w : RegWidth) (a b r : ℕ)
    → SetsFlags op
    → Operates op hop
    → flags_after op w a b r ≡ some (guest_nzcv op (alu_flags hop w a b r))
unfolding flags_after alu_flags
flags_after-guest_nzcv w a b r add_flags add_op = refl
flags_after-guest_nzcv w a b r sub_flags sub_op = rw (not-ltb a b) refl
flags_after-guest_nzcv w a b r and_flags and_op = refl
