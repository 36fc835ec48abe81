-- ===== src/Codegen/Correct/Branches.antt =====
-- src/codegen/x86_64.rs, `emit_branch_cond` and the comparisons with zero.
use armx.Base.{
  ℕ, ◌/◌, ◌%◌, ◌^◌, ◌<◌, ◌≡◌, refl, sym, ap, ◌∙◌, subst, arith, Bool, true, false, not, List, [],
  ◌∷◌, ◌++◌, some, map_some-eq-some, ltb, ◌==◌, if◌then◌else◌, Bool-cases, inl, inr, get_elem?,
}
use armx.Base.Bits.{bit_and_self}
use armx.Ir.Operand.{RegWidth, w32, x64, GuestReg, reg, is_x64}
use armx.Runtime.State.{nzcv_offset}
use armx.Codegen.{
  emitted, set_pc_ret_len, exits, branch_on_table, emit_branch_cond, emit_compare_branch,
}
use armx.Codegen.Encoding.{rax, rcx, rex, mov_imm, mov_load}
use armx.Codegen.Conditions.{build_condition_tables}
use armx.Codegen.Conditions.Holds.{tested_word, table-lt}
use armx.Codegen.Correct.Decoded.{decode-mov_imm, decode-mov_load}
use armx.Codegen.Correct.Executes.{Executes, Executes-one, Executes-++}
use armx.Codegen.Correct.Operands.{load_state-Loads, read_reg-lt}
use armx.Codegen.Correct.Implements.{LeavesAt, Executes-Reaches, prefixed_leaving}
use armx.Jit.Optimizer.Agree.{RegIsValid}
use armx.Host.Cpu.{Cpu, Flags, AluOp, alu_result, alu_flags, put_reg, read_state}
use armx.Host.Decoding.{Insn, Condition, decode}
use armx.Host.Execution.{tick, execute, holds}
use armx.Meaning.{bits, trunc, bool_eq, flag, read_reg, operand_value, condition_met}
use armx.Codegen.Correct.Jumps.{at_pc, jump-Reaches}

-- The flags' word shifted to its upper four bits, and the table's bit at their number.
abbrev looked_up : Cpu → ℕ → Cpu
looked_up cpu table =
    let nibble : ℕ = cpu.machine.regs.nzcv % 2 ^ 32 % 2 ^ 32 / 2 ^ 28 in
    record cpu { a = nibble; c = table; flags = record cpu.flags { cf = flag table (nibble % 16) } }

look_up-Executes :
    (table : ℕ) (cpu : Cpu)
    → table < 2 ^ 16
    → Executes
        (mov_load rax nzcv_offset w32
          ++ ((0xC1 ∷ 0xE8 ∷ 0x1C ∷ [])
              ++ (mov_imm rcx table w32 ++ (0x66 ∷ 0x0F ∷ 0xA3 ∷ 0xC1 ∷ []))))
        cpu
        (looked_up cpu table)
unfolding tick execute decode read_state
look_up-Executes table cpu h =
    let nzcv : ℕ = cpu.machine.regs.nzcv in
    let cpu₁ : Cpu = record cpu { a = nzcv % 2 ^ 32 } in
    let cpu₂ : Cpu = record cpu { a = nzcv % 2 ^ 32 % 2 ^ 32 / 2 ^ 28 } in
    let cpu₃ : Cpu = record cpu₂ { c = table } in
    let small : table % 2 ^ 32 ≡ table = omega arith in
    Executes-++
      (Executes-one (mov_load rax nzcv_offset w32) cpu cpu₁
        (λ rest. rw (tick, decode-mov_load rax w32 nzcv_offset rest)))
      (Executes-++ (Executes-one (0xC1 ∷ 0xE8 ∷ 0x1C ∷ []) cpu₁ cpu₂ (λ rest. refl)) (
        Executes-++
          (Executes-one (mov_imm rcx table w32) cpu₂ cpu₃
            (λ rest. rw (tick, decode-mov_imm rcx w32 table rest (omega (arith, h)), small)))
          (Executes-one (0x66 ∷ 0x0F ∷ 0xA3 ∷ 0xC1 ∷ []) cpu₃ (looked_up cpu table)
            (λ rest. refl))))

not-branch :
    (b : Bool) (target next : ℕ) → (if not b then next else target) ≡ (if b then target else next)
not-branch true target next = refl
not-branch false target next = refl

branch_on_table-code :
    (table target next : ℕ)
    → branch_on_table (some table) target next
      ≡ emitted (
          (mov_load rax nzcv_offset w32
            ++ ((0xC1 ∷ 0xE8 ∷ 0x1C ∷ [])
                ++ (mov_imm rcx table w32 ++ (0x66 ∷ 0x0F ∷ 0xA3 ∷ 0xC1 ∷ []))))
          ++ ((0x73 ∷ set_pc_ret_len ∷ []) ++ exits target next))
unfolding mov_load mov_imm
branch_on_table-code table target next = refl

jump_no_carry :
    (rest : List ℕ)
    → decode ((0x73 ∷ set_pc_ret_len ∷ []) ++ rest)
      ≡ some (Insn.jump_if Condition.no_carry set_pc_ret_len, rest)
unfolding decode
jump_no_carry rest = refl

-- The bit of the table decides.
branch_on_table-LeavesAt :
    (table target next : ℕ) (met : Bool) (cpu : Cpu)
    → table < 2 ^ 16
    → target < 2 ^ 64
    → next < 2 ^ 64
    → flag table (cpu.machine.regs.nzcv % 2 ^ 32 / 2 ^ 28) ≡ met
    → LeavesAt
        (branch_on_table (some table) target next)
        (at_pc cpu.machine (if met then target else next))
        cpu
branch_on_table-LeavesAt table target next met cpu small ht hn e =
    let nzcv : ℕ = cpu.machine.regs.nzcv in
    let index : nzcv % 2 ^ 32 / 2 ^ 28 ≡ nzcv % 2 ^ 32 % 2 ^ 32 / 2 ^ 28 % 16 = omega arith in
    let carry : flag table (nzcv % 2 ^ 32 % 2 ^ 32 / 2 ^ 28 % 16) ≡ met =
      ap (flag table) (sym index) ∙ e in
    record {
      code = _;
      emits = branch_on_table-code table target next;
      after = _;
      reaches = Executes-Reaches (look_up-Executes table cpu small) (
          jump-Reaches (0x73 ∷ set_pc_ret_len ∷ []) Condition.no_carry target next
            (looked_up cpu table) jump_no_carry ht hn);
      machine =
          ap (at_pc cpu.machine)
            (ap (λ (b : Bool). if not b then next else target) carry ∙ not-branch met target next);
    }

pub emit_branch_cond-LeavesAt :
    (cond target next : ℕ) (cpu : Cpu)
    → cond < 15
    → target < 2 ^ 64
    → next < 2 ^ 64
    → LeavesAt
        (emit_branch_cond target cond next)
        (at_pc cpu.machine (if condition_met cond cpu.machine.regs.nzcv then target else next))
        cpu
unfolding emit_branch_cond
emit_branch_cond-LeavesAt cond target next cpu hc ht hn =
    let word = tested_word cond cpu.machine.regs.nzcv hc in
    let (table, et, bit) = map_some-eq-some _ (get_elem? build_condition_tables cond) word in
    let valid : ltb 15 cond ≡ false = ground arith in
    rw (valid, et)
      (branch_on_table-LeavesAt table target next (condition_met cond cpu.machine.regs.nzcv) cpu
        (table-lt cond table hc et) ht hn bit)

-- CBZ and CBNZ: the register is tested at its width.
abbrev compared : RegWidth → Cpu → Cpu
compared w cpu =
    let t = trunc w cpu.a in
    record cpu { flags = alu_flags AluOp.and w t t (alu_result AluOp.and w t t) }

compare-Executes :
    (w : RegWidth) (cpu : Cpu) → Executes (rex (is_x64 w) ++ 0x85 ∷ 0xC0 ∷ []) cpu (compared w cpu)
unfolding tick decode execute
compare-Executes w32 cpu = Executes-one _ cpu _ (λ rest. refl)
compare-Executes x64 cpu = Executes-one _ cpu _ (λ rest. refl)

and_self : (w : RegWidth) (t v : ℕ) → t ≡ v → v < 2 ^ bits w → alu_result AluOp.and w t t ≡ v
unfolding alu_result
and_self w32 t v e h = rw (e, bit_and_self v) (omega (arith, h))
and_self x64 t v e h = rw (e, bit_and_self v) (omega (arith, h))

compared-zero :
    (w : RegWidth) (v : ℕ) (cpu : Cpu)
    → trunc w cpu.a ≡ v
    → v < 2 ^ bits w
    → (compared w cpu).flags.zf ≡ (v == 0)
unfolding alu_flags
compared-zero w v cpu e h = ap (λ (n : ℕ). n == 0) (and_self w (trunc w cpu.a) v e h)

-- The condition of the jump over the first exit.
abbrev compare_jump : ℕ → Condition
compare_jump kind = if kind == 0 then Condition.not_equal else Condition.equal

jump_compared :
    (kind : ℕ) (rest : List ℕ)
    → decode (((if kind == 0 then 0x75 else 0x74) ∷ set_pc_ret_len ∷ []) ++ rest)
      ≡ some (Insn.jump_if (compare_jump kind) set_pc_ret_len, rest)
unfolding decode
jump_compared kind rest = elim (Bool-cases (kind == 0)) [ inl h ↦ rw h refl | inr h ↦ rw h refl ]

compare_jump-taken :
    (zero_kind z : Bool) (f : Flags) (target next : ℕ)
    → f.zf ≡ z
    → (if holds (if zero_kind then Condition.not_equal else Condition.equal) f
        then next
        else target)
      ≡ (if bool_eq z zero_kind then target else next)
compare_jump-taken true true f target next e = rw e refl
compare_jump-taken true false f target next e = rw e refl
compare_jump-taken false true f target next e = rw e refl
compare_jump-taken false false f target next e = rw e refl

compare_code :
    (w : RegWidth) (b : ℕ) (target next : ℕ)
    → rex (is_x64 w) ++ 0x85 ∷ 0xC0 ∷ b ∷ set_pc_ret_len ∷ exits target next
      ≡ (rex (is_x64 w) ++ 0x85 ∷ 0xC0 ∷ []) ++ ((b ∷ set_pc_ret_len ∷ []) ++ exits target next)
compare_code w32 b target next = refl
compare_code x64 b target next = refl

compare-LeavesAt :
    (w : RegWidth) (v kind target next : ℕ) (cpu : Cpu)
    → trunc w cpu.a ≡ v
    → v < 2 ^ bits w
    → target < 2 ^ 64
    → next < 2 ^ 64
    → LeavesAt
        (emitted (
          rex (is_x64 w)
          ++ 0x85 ∷ 0xC0 ∷ (if kind == 0 then 0x75 else 0x74) ∷ set_pc_ret_len ∷ exits target next))
        (at_pc cpu.machine (if bool_eq (v == 0) (kind == 0) then target else next))
        cpu
compare-LeavesAt w v kind target next cpu e h ht hn = record {
  code = _;
  emits = ap emitted (compare_code w (if kind == 0 then 0x75 else 0x74) target next);
  after = _;
  reaches = Executes-Reaches (compare-Executes w cpu) (
      jump-Reaches ((if kind == 0 then 0x75 else 0x74) ∷ set_pc_ret_len ∷ []) (compare_jump kind)
        target next (compared w cpu) (jump_compared kind) ht hn);
  machine = ap (at_pc cpu.machine) (
      compare_jump-taken (kind == 0) (v == 0) (compared w cpu).flags target next
        (compared-zero w v cpu e h));
}

trunc-small : (w : RegWidth) (v : ℕ) → v < 2 ^ bits w → (trunc w v ≡ v) × (trunc x64 v ≡ v)
trunc-small w32 v h = (omega arith, omega arith)
trunc-small x64 v h = (omega arith, omega arith)

pub emit_compare_branch-LeavesAt :
    (g : GuestReg) (kind target next v : ℕ) (cpu : Cpu)
    → RegIsValid g
    → target < 2 ^ 64
    → next < 2 ^ 64
    → operand_value cpu.machine.regs x64 (reg g) ≡ some v
    → LeavesAt
        (emit_compare_branch g kind target next)
        (at_pc cpu.machine (if bool_eq (v == 0) (kind == 0) then target else next))
        cpu
unfolding emit_compare_branch operand_value
emit_compare_branch-LeavesAt g kind target next v cpu valid ht hn e =
    let (u, eu, same) = map_some-eq-some (trunc x64) (read_reg cpu.machine.regs g) e in
    let small = read_reg-lt cpu.machine.regs g g.width u (omega arith) eu in
    let (kept, wide) = trunc-small g.width u small in
    let value : u ≡ v = sym wide ∙ same in
    let loads = load_state-Loads rax g g.width u cpu valid eu in
    subst
      (λ (t : ℕ).
        LeavesAt (emit_compare_branch g kind target next)
          (at_pc cpu.machine (if bool_eq (t == 0) (kind == 0) then target else next)) cpu)
      value
      (prefixed_leaving loads.emits loads.executes (
        compare-LeavesAt g.width u kind target next
          (put_reg rax loads.value (record cpu { flags = loads.flags })) (loads.right ∙ kept) small
          ht hn))
