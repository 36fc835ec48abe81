-- ===== src/Codegen/Correct/Operands.antt =====
-- Operands into scratch registers, and results into the guest's state.
use armx.Base.{
  ℕ, ◌+◌, ◌*◌, ◌/◌, ◌%◌, ◌^◌, ◌<◌, ◌≤◌, ◌≡◌, refl, ap, subst, arith, true, false, List, [], Option,
  some, get_elem?, map_some-eq-some, Bool-cases, inl, inr, ◌==◌, ltb,
}
use armx.Base.Bits.{bit_xor_self}
use armx.Ir.Operand.{RegWidth, w32, x64, RegKind, general, stack_pointer, GuestReg, is_zero}
use armx.Runtime.State.{GuestState, gpr_base, sp_offset}
use armx.Codegen.{Emit, emitted, load_state, store_state, state_offset}
use armx.Codegen.Encoding.{X86Scratch, rax, rcx, rdx, rsi, xor, mov_load, mov_store}
use armx.Codegen.Correct.Executes.{Executes, Executes-one, Executes-nil}
use armx.Codegen.Correct.Decoded.{decode-mov_load, decode-mov_store}
use armx.Host.Cpu.{
  Cpu, Flags, AluOp, get_reg, put_reg, read_state, write_state, alu_result, alu_flags,
}
use armx.Host.Decoding.{decode}
use armx.Host.Execution.{execute, tick}
use armx.Jit.Optimizer.Agree.{RegIsValid}
use armx.Meaning.{bits, trunc, read_reg, write_reg}

-- The code puts a number that is `v` at width `w` into the register, and where `Fits` holds one of
-- at most `w` bits; the flags may change.
pub record Loads (e : Emit) (r : X86Scratch) (w : RegWidth) (v : ℕ) (Fits : Type 0) (cpu : Cpu)
    : Type 0 where
  pub code : List ℕ
  pub emits : e ≡ emitted code
  pub value : ℕ
  pub flags : Flags
  pub right : trunc w value ≡ v
  pub narrow : Fits → value < 2 ^ bits w
  pub executes : Executes code cpu (put_reg r value (record cpu { flags = flags }))

abbrev pub with_state : Cpu → GuestState → Cpu
with_state cpu s = record cpu { machine = record cpu.machine { regs = s } }

read_state-offset :
    (s : GuestState) (g : GuestReg)
    → RegIsValid g
    → is_zero g.kind ≡ false
    → read_state g.width (state_offset g % 2 ^ 32) s ≡ read_reg s g
unfolding read_state read_reg
read_state-offset s g valid z = go g.kind refl
  where
    go : (k : RegKind) → g.kind ≡ k → read_state g.width (state_offset g % 2 ^ 32) s ≡ read_reg s g
    go general e =
        let lt = valid (rw e) in
        let offset : (gpr_base + g.num * 8) % 2 ^ 32 ≡ g.num * 8 = omega arith in
        let low : ltb (g.num * 8) sp_offset ≡ true = ground arith in
        let aligned : (g.num * 8 % 8 == 0) ≡ true = ground arith in
        let index : g.num * 8 / 8 ≡ g.num = omega arith in rw (e, offset, low, aligned, index) refl
    go stack_pointer e = rw e refl
    go RegKind.zero e = cc (rw e at z)

write_state-offset :
    (s : GuestState) (g : GuestReg) (v : ℕ)
    → RegIsValid g
    → is_zero g.kind ≡ false
    → write_state x64 (state_offset g % 2 ^ 32) v s ≡ write_reg s g v
unfolding write_state write_reg
write_state-offset s g v valid z = go g.kind refl
  where
    go :
        (k : RegKind) → g.kind ≡ k → write_state x64 (state_offset g % 2 ^ 32) v s ≡ write_reg s g v
    go general e =
        let lt = valid (rw e) in
        let offset : (gpr_base + g.num * 8) % 2 ^ 32 ≡ g.num * 8 = omega arith in
        let low : ltb (g.num * 8) sp_offset ≡ true = ground arith in
        let aligned : (g.num * 8 % 8 == 0) ≡ true = ground arith in
        let index : g.num * 8 / 8 ≡ g.num = omega arith in rw (e, offset, low, aligned, index) refl
    go stack_pointer e = rw e refl
    go RegKind.zero e = cc (rw e at z)

pub xor-zero : (w : RegWidth) (t : ℕ) → alu_result AluOp.xor w t t ≡ 0
unfolding alu_result
xor-zero w32 t = ap (λ (n : ℕ). n % 2 ^ 32) (bit_xor_self t)
xor-zero x64 t = ap (λ (n : ℕ). n % 2 ^ 64) (bit_xor_self t)

abbrev cleared_flags : X86Scratch → RegWidth → Cpu → Flags
cleared_flags r w cpu =
    let t = trunc w (get_reg r cpu) in alu_flags AluOp.xor w t t (alu_result AluOp.xor w t t)

abbrev cleared : X86Scratch → RegWidth → Cpu → List ℕ → ℕ → Option (List ℕ × Cpu)
cleared r w cpu rest n = some (rest, put_reg r n (record cpu { flags = cleared_flags r w cpu }))

xor_self :
    (r : X86Scratch) (w : RegWidth) (cpu : Cpu)
    → (code : List ℕ) × (xor r r w ≡ some code)
      × Executes code cpu (put_reg r 0 (record cpu { flags = cleared_flags r w cpu }))
unfolding xor tick decode execute
xor_self rax w32 cpu = (
  _,
  refl,
  Executes-one _ cpu _
      (λ rest. ap (cleared rax w32 cpu rest) (xor-zero w32 (trunc w32 (get_reg rax cpu)))),
)
xor_self rax x64 cpu = (
  _,
  refl,
  Executes-one _ cpu _
      (λ rest. ap (cleared rax x64 cpu rest) (xor-zero x64 (trunc x64 (get_reg rax cpu)))),
)
xor_self rcx w32 cpu = (
  _,
  refl,
  Executes-one _ cpu _
      (λ rest. ap (cleared rcx w32 cpu rest) (xor-zero w32 (trunc w32 (get_reg rcx cpu)))),
)
xor_self rcx x64 cpu = (
  _,
  refl,
  Executes-one _ cpu _
      (λ rest. ap (cleared rcx x64 cpu rest) (xor-zero x64 (trunc x64 (get_reg rcx cpu)))),
)
xor_self rdx w32 cpu = (
  _,
  refl,
  Executes-one _ cpu _
      (λ rest. ap (cleared rdx w32 cpu rest) (xor-zero w32 (trunc w32 (get_reg rdx cpu)))),
)
xor_self rdx x64 cpu = (
  _,
  refl,
  Executes-one _ cpu _
      (λ rest. ap (cleared rdx x64 cpu rest) (xor-zero x64 (trunc x64 (get_reg rdx cpu)))),
)
xor_self rsi w32 cpu = (
  _,
  refl,
  Executes-one _ cpu _
      (λ rest. ap (cleared rsi w32 cpu rest) (xor-zero w32 (trunc w32 (get_reg rsi cpu)))),
)
xor_self rsi x64 cpu = (
  _,
  refl,
  Executes-one _ cpu _
      (λ rest. ap (cleared rsi x64 cpu rest) (xor-zero x64 (trunc x64 (get_reg rsi cpu)))),
)

pub read_reg-zero : (s : GuestState) (g : GuestReg) → is_zero g.kind ≡ true → read_reg s g ≡ some 0
unfolding read_reg
read_reg-zero s g z = go g.kind refl
  where
    go : (k : RegKind) → g.kind ≡ k → read_reg s g ≡ some 0
    go RegKind.zero e = rw e refl
    go general e = cc (rw e at z)
    go stack_pointer e = cc (rw e at z)

write_reg-zero :
    (s : GuestState) (g : GuestReg) (v : ℕ) → is_zero g.kind ≡ true → write_reg s g v ≡ some s
unfolding write_reg
write_reg-zero s g v z = go g.kind refl
  where
    go : (k : RegKind) → g.kind ≡ k → write_reg s g v ≡ some s
    go RegKind.zero e = rw e refl
    go general e = cc (rw e at z)
    go stack_pointer e = cc (rw e at z)

pow_pos : (w : RegWidth) → 0 < 2 ^ bits w
pow_pos w32 = omega arith
pow_pos x64 = omega arith

trunc-narrow : (w w' : RegWidth) (v : ℕ) → bits w ≤ bits w' → trunc w v < 2 ^ bits w'
trunc-narrow w32 w32 v fits = omega arith
trunc-narrow w32 x64 v fits = omega arith
trunc-narrow x64 x64 v fits = omega arith
trunc-narrow x64 w32 v fits = absurd (omega (arith, fits))

pub read_reg-lt :
    (s : GuestState) (g : GuestReg) (w : RegWidth) (v : ℕ)
    → bits g.width ≤ bits w
    → read_reg s g ≡ some v
    → v < 2 ^ bits w
unfolding read_reg
read_reg-lt s g w v fits e = go g.kind refl
  where
    go : (k : RegKind) → g.kind ≡ k → v < 2 ^ bits w
    go general h =
        let (u, found, same) =
          map_some-eq-some (trunc g.width) (get_elem? s.gpr g.num) (rw h at e) in
        subst (λ (t : ℕ). t < 2 ^ bits w) same (trunc-narrow g.width w u fits)
    go stack_pointer h =
        let same : trunc g.width s.sp ≡ v = cc (rw h at e) in
        subst (λ (t : ℕ). t < 2 ^ bits w) same (trunc-narrow g.width w s.sp fits)
    go RegKind.zero h =
        let same : 0 ≡ v = cc (rw h at e) in subst (λ (t : ℕ). t < 2 ^ bits w) same (pow_pos w)

pub load_state-Loads :
    (r : X86Scratch) (g : GuestReg) (w : RegWidth) (v : ℕ) (cpu : Cpu)
    → RegIsValid g
    → read_reg cpu.machine.regs g ≡ some v
    → Loads (load_state r g) r w (trunc w v) (bits g.width ≤ bits w) cpu
unfolding load_state tick execute
load_state-Loads r g w v cpu valid e = elim (Bool-cases (is_zero g.kind)) [
  | inl z ↦
      let (code, emits, runs) = xor_self r g.width cpu in
      let zero_value : 0 ≡ v = cc (e, read_reg-zero cpu.machine.regs g z) in
      rw z (record {
        code = code;
        emits = rw emits;
        value = 0;
        flags = cleared_flags r g.width cpu;
        right = ap (trunc w) zero_value;
        narrow = λ fits. pow_pos w;
        executes = runs;
      })
  | inr z ↦ rw z (record {
    code = mov_load r (state_offset g) g.width;
    emits = refl;
    value = v;
    flags = cpu.flags;
    right = refl;
    narrow = λ fits. read_reg-lt cpu.machine.regs g w v fits e;
    executes = Executes-one (mov_load r (state_offset g) g.width) cpu (put_reg r v cpu) (λ rest.
        rw (
          tick,
          decode-mov_load r g.width (state_offset g) rest,
          read_state-offset cpu.machine.regs g valid z,
          e,
        ));
  })
]

pub store_state-Executes :
    (g : GuestReg) (r : X86Scratch) (cpu : Cpu) {s : GuestState}
    → RegIsValid g
    → write_reg cpu.machine.regs g (get_reg r cpu) ≡ some s
    → Executes (store_state g r) cpu (with_state cpu s)
unfolding store_state tick execute
store_state-Executes g r cpu {s} valid e = elim (Bool-cases (is_zero g.kind)) [
  | inl z ↦ rw z (
      subst (λ (t : GuestState). Executes [] cpu (with_state cpu t))
        (cc (e, write_reg-zero cpu.machine.regs g (get_reg r cpu) z)) (Executes-nil cpu))
  | inr z ↦ rw z (
      Executes-one (mov_store (state_offset g) r x64) cpu (with_state cpu s) (λ rest. rw (
        tick,
        decode-mov_store r x64 (state_offset g) rest,
        write_state-offset cpu.machine.regs g (get_reg r cpu) valid z,
        e,
      )))
]
