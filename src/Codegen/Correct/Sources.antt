-- ===== src/Codegen/Correct/Sources.antt =====
-- src/codegen/x86_64.rs, `load_operand`: every operand that can be a source.
use armx.Base.{
  ℕ, ◌*◌, ◌%◌, ◌^◌, ◌<◌, ◌≤◌, ◌≡◌, refl, sym, ap, ◌∙◌, subst, arith, true, [], ◌++◌, some, u64,
  map_some-eq-some, Bool-cases, inl, inr, ◌==◌,
}
use armx.Ir.Operand.{
  RegWidth, w32, x64, ShiftKind, lsl, lsr, asr, ror, Operand, reg, imm, shifted_imm, shifted_reg,
}
use armx.Codegen.{Emit, emitted, ◌>>◌, load_state, load_operand}
use armx.Codegen.Encoding.{X86Scratch, rax, rcx, rdx, rsi, mov_imm, shift_imm}
use armx.Codegen.Correct.Executes.{Executes, Executes-one, Executes-++, Executes-nil}
use armx.Codegen.Correct.Decoded.{decode-mov_imm, decode-shift_imm, immediate}
use armx.Codegen.Correct.Operands.{Loads, load_state-Loads}
use armx.Host.Cpu.{Cpu, get_reg, put_reg}
use armx.Host.Execution.{execute, tick}
use armx.Jit.Optimizer.Agree.{RegIsValid}
use native.Mathlib.Nat.{div-le_self, le_of_lt}
use armx.Base.Bits.{rotate_right-lt}
use armx.Jit.Optimizer.Arithmetic.{arithmetic_shift-lt}
use armx.Meaning.{bits, trunc, read_reg, operand_value, shift_value}

-- The ranges that Rust's types and the encodings give to the operands of an operation.
abbrev pub SourceIsValid : Operand → Type 0
SourceIsValid (reg r) = RegIsValid r
SourceIsValid (imm v) = v < 2 ^ 64
SourceIsValid (shifted_imm v by) = by < 64
SourceIsValid (shifted_reg r kind by) = RegIsValid r
SourceIsValid _ = Unit

-- A register no wider than the operation, where it is moved as it is.
abbrev pub SourceFits : Operand → RegWidth → Type 0
SourceFits (reg r) w = bits r.width ≤ bits w
SourceFits (shifted_reg r kind by) w = bits r.width ≤ bits w
SourceFits _ w = Unit

immediate-trunc : (w : RegWidth) (v : ℕ) → trunc w (immediate w v) ≡ trunc w v
immediate-trunc w32 v = omega arith
immediate-trunc x64 v = refl

immediate-lt : (w : RegWidth) (v : ℕ) → v < 2 ^ 64 → immediate w v < 2 ^ bits w
immediate-lt w32 v h = omega arith
immediate-lt x64 v h = h

mov_imm-Loads :
    (r : X86Scratch) (w : RegWidth) (v : ℕ) (cpu : Cpu)
    → v < 2 ^ 64
    → Loads (emitted (mov_imm r v w)) r w (trunc w v) Unit cpu
unfolding tick execute
mov_imm-Loads r w v cpu h = record {
  code = mov_imm r v w;
  emits = refl;
  value = immediate w v;
  flags = cpu.flags;
  right = immediate-trunc w v;
  narrow = λ fits. immediate-lt w v h;
  executes = Executes-one (mov_imm r v w) cpu _ (λ rest. rw (tick, decode-mov_imm r w v rest h));
}

shift_value-none :
    (kind : ShiftKind) (w : RegWidth) (v : ℕ) → shift_value kind (bits w) (trunc w v) 0 ≡ trunc w v
shift_value-none lsl w32 v = omega arith
shift_value-none lsl x64 v = omega arith
shift_value-none lsr w v = omega arith
shift_value-none asr w32 v = ground arith
shift_value-none asr x64 v = ground arith
shift_value-none ror w32 v = omega arith
shift_value-none ror x64 v = omega arith

trunc-bits : (w : RegWidth) (v : ℕ) → v < 2 ^ bits w → trunc w v ≡ v
trunc-bits w32 v h = omega arith
trunc-bits x64 v h = omega arith

trunc-lt_bits : (w : RegWidth) (v : ℕ) → trunc w v < 2 ^ bits w
trunc-lt_bits w32 v = omega arith
trunc-lt_bits x64 v = omega arith

amount-lt : (w : RegWidth) (n : ℕ) → n % bits w < bits w
amount-lt w32 n = omega arith
amount-lt x64 n = omega arith

pub shift_value-lt :
    (kind : ShiftKind) (w : RegWidth) (v n : ℕ)
    → v < 2 ^ bits w
    → shift_value kind (bits w) v (n % bits w) < 2 ^ bits w
shift_value-lt lsl w32 v n h = omega arith
shift_value-lt lsl x64 v n h = omega arith
shift_value-lt lsr w v n h = omega (arith, div-le_self v (2 ^ (n % bits w)), h)
shift_value-lt asr w v n h = arithmetic_shift-lt (bits w) v (n % bits w) h
shift_value-lt ror w v n h = rotate_right-lt (bits w) v (n % bits w) h (le_of_lt (amount-lt w n))

no_shift : (w : RegWidth) (n : ℕ) → (n == 0) ≡ true → n % bits w ≡ 0
no_shift w32 n h = ground arith
no_shift x64 n h = ground arith

put_reg-get_reg : (r : X86Scratch) (cpu : Cpu) → put_reg r (get_reg r cpu) cpu ≡ cpu
put_reg-get_reg rax cpu = refl
put_reg-get_reg rcx cpu = refl
put_reg-get_reg rdx cpu = refl
put_reg-get_reg rsi cpu = refl

pub get_reg-put_reg : (r : X86Scratch) (v : ℕ) (cpu : Cpu) → get_reg r (put_reg r v cpu) ≡ v
get_reg-put_reg rax v cpu = refl
get_reg-put_reg rcx v cpu = refl
get_reg-put_reg rdx v cpu = refl
get_reg-put_reg rsi v cpu = refl

put_reg-put_reg :
    (r : X86Scratch) (v u : ℕ) (cpu : Cpu) → put_reg r v (put_reg r u cpu) ≡ put_reg r v cpu
put_reg-put_reg rax v u cpu = refl
put_reg-put_reg rcx v u cpu = refl
put_reg-put_reg rdx v u cpu = refl
put_reg-put_reg rsi v u cpu = refl

shifted_lt :
    (kind : ShiftKind) (w : RegWidth) (n v u : ℕ)
    → trunc w u ≡ v
    → shift_value kind (bits w) v (n % bits w) < 2 ^ bits w
shifted_lt kind w n v u e =
    shift_value-lt kind w v n (subst (λ (t : ℕ). t < 2 ^ bits w) e (trunc-lt_bits w u))

shift_step-Executes :
    (r : X86Scratch) (kind : ShiftKind) (w : RegWidth) (n v : ℕ) (cpu : Cpu)
    → trunc w (get_reg r cpu) ≡ v
    → (value : ℕ) × (trunc w value ≡ shift_value kind (bits w) v (n % bits w))
      × (get_reg r cpu < 2 ^ bits w → value < 2 ^ bits w)
      × Executes (shift_imm r kind n w) cpu (put_reg r value cpu)
unfolding shift_imm tick execute
shift_step-Executes r kind w n v cpu e = elim (Bool-cases (n == 0)) [
  | inl z ↦
      rw (z, no_shift w n z)
        (
          get_reg r cpu,
          e
              ∙ subst (λ (t : ℕ). t ≡ shift_value kind (bits w) t 0) e
                  (sym (shift_value-none kind w (get_reg r cpu))),
          (λ small. small),
          subst (Executes [] cpu) (sym (put_reg-get_reg r cpu)) (Executes-nil cpu),
        )
  | inr z ↦ rw z (
    shift_value kind (bits w) v (n % bits w),
    trunc-bits w _ (shifted_lt kind w n v (get_reg r cpu) e),
    (λ small. shifted_lt kind w n v (get_reg r cpu) e),
    Executes-one _ cpu _ (λ rest. rw (tick, decode-shift_imm r kind w n rest, e)),
  )
]

shifted-Loads :
    (r : X86Scratch) (w : RegWidth) (kind : ShiftKind) (n v : ℕ) (e : Emit) (Fits : Type 0)
    (cpu : Cpu)
    → Loads e r w (trunc w v) Fits cpu
    → Loads
        (e >> emitted (shift_imm r kind n w))
        r
        w
        (shift_value kind (bits w) (trunc w v) (n % bits w))
        Fits
        cpu
shifted-Loads r w kind n v e Fits cpu loads =
    let loaded : Cpu = put_reg r loads.value (record cpu { flags = loads.flags }) in
    let start : trunc w (get_reg r loaded) ≡ trunc w v =
      ap (trunc w) (get_reg-put_reg r loads.value (record cpu { flags = loads.flags }))
      ∙ loads.right in
    let (value, right, narrow, runs) = shift_step-Executes r kind w n (trunc w v) loaded start in
    rw loads.emits (record {
      code = loads.code ++ shift_imm r kind n w;
      emits = refl;
      value = value;
      flags = loads.flags;
      right = right;
      narrow = λ fits. narrow (
          subst (λ (t : ℕ). t < 2 ^ bits w)
            (sym (get_reg-put_reg r loads.value (record cpu { flags = loads.flags })))
            (loads.narrow fits));
      executes =
          subst (Executes (loads.code ++ shift_imm r kind n w) cpu)
            (put_reg-put_reg r value loads.value (record cpu { flags = loads.flags }))
            (Executes-++ loads.executes runs);
    })

trunc-u64 : (w : RegWidth) (v : ℕ) → trunc w (u64 v) ≡ trunc w v
trunc-u64 w32 v = omega arith
trunc-u64 x64 v = omega arith

pub load_operand-Loads :
    (op : Operand) (r : X86Scratch) (w : RegWidth) (v : ℕ) (cpu : Cpu)
    → SourceIsValid op
    → operand_value cpu.machine.regs w op ≡ some v
    → Loads (load_operand op r w) r w v (SourceFits op w) cpu
unfolding load_operand operand_value
load_operand-Loads (reg g) r w v cpu valid e =
    let (u, read, same) = map_some-eq-some (trunc w) (read_reg cpu.machine.regs g) e in
    subst (λ (t : ℕ). Loads (load_state r g) r w t (bits g.width ≤ bits w) cpu) same
      (load_state-Loads r g w u cpu valid read)
load_operand-Loads (imm u) r w v cpu valid e =
    let same : trunc w u ≡ v = cc e in
    subst (λ (t : ℕ). Loads (emitted (mov_imm r u w)) r w t Unit cpu) same
      (mov_imm-Loads r w u cpu valid)
load_operand-Loads (shifted_imm u by) r w v cpu valid e =
    let small : by % 64 ≡ by = omega arith in
    let same : trunc w (u64 (u * 2 ^ (by % 64))) ≡ v =
      trunc-u64 w (u * 2 ^ (by % 64)) ∙ (ap (λ (k : ℕ). trunc w (u * 2 ^ k)) small ∙ cc e) in
    subst (λ (t : ℕ). Loads (emitted (mov_imm r (u64 (u * 2 ^ (by % 64))) w)) r w t Unit cpu) same
      (mov_imm-Loads r w (u64 (u * 2 ^ (by % 64))) cpu (omega arith))
load_operand-Loads (shifted_reg g kind by) r w v cpu valid e =
    let (u, read, same) = map_some-eq-some _ (read_reg cpu.machine.regs g) e in
    subst
      (λ (t : ℕ).
        Loads (load_state r g >> emitted (shift_imm r kind by w)) r w t (bits g.width ≤ bits w) cpu)
      same
      (shifted-Loads r w kind by u (load_state r g) (bits g.width ≤ bits w) cpu
        (load_state-Loads r g w u cpu valid read))
load_operand-Loads op r w v cpu valid e = cc e
