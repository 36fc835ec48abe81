-- ===== src/Codegen/Correct/Addresses.antt =====
-- src/codegen/x86_64.rs, `emit_block`: the arms of loads and stores.
use armx.Base.{
  ℕ, ◌+◌, ◌/◌, ◌%◌, ◌^◌, ◌<◌, ◌≤◌, ◌≡◌, refl, sym, ap, ◌∙◌, subst, arith, true, List, [], ◌∷◌, ◌++◌,
  some, map_some-eq-some, >>=-eq-some,
}
use armx.Ir.Operand.{RegWidth, w32, x64, GuestReg, reg, mem, MemOperand}
use armx.Runtime.State.{GuestState}
use armx.Runtime.Memory.{host_base}
use armx.Codegen.{Emit, emitted, ◌>>◌, emit_guest_address, emit_load, emit_store, store_state}
use armx.Codegen.Encoding.{rax, rcx, rdx, rex, mov_imm, emit_mem_load, emit_mem_store}
use armx.Codegen.Correct.Decoded.{decode-mov_imm, decode-emit_mem_load, decode-emit_mem_store}
use armx.Codegen.Correct.Executes.{Executes, Executes-one, Executes-++}
use armx.Codegen.Correct.Operands.{load_state-Loads, store_state-Executes, with_state}
use armx.Codegen.Correct.Implements.{GoesTo, prefixed, Implements}
use armx.Jit.Optimizer.Agree.{RegIsValid}
use armx.Host.Cpu.{Cpu, AluOp, alu_result, put_reg, displaced, guest_address}
use armx.Host.Decoding.{decode}
use armx.Host.Execution.{tick, execute, alu_step}
use armx.Meaning.{
  Machine, Outcome, running, with_regs, bits, trunc, address_of, effective_address, read_reg,
  write_reg, load_bytes, store_bytes, step_load, step_store, operand_value,
}

-- RAX holds the host address of a guest address; RCX and the machine are kept.
pub record Addresses (e : Emit) (address : ℕ) (cpu : Cpu) : Type 0 where
  pub code : List ℕ
  pub emits : e ≡ emitted code
  pub after : Cpu
  pub executes : Executes code cpu after
  pub base : after.a ≡ (address + host_base) % 2 ^ 64
  pub kept : after.c ≡ cpu.c
  pub machine : after.machine ≡ cpu.machine

width_le : (w : RegWidth) → bits w ≤ 64
width_le w32 = omega arith
width_le x64 = omega arith

host_base-lt : host_base < 2 ^ 64
host_base-lt = omega arith

based : (cpu : Cpu) → Executes (mov_imm rdx host_base x64) cpu (put_reg rdx host_base cpu)
unfolding tick execute
based cpu =
    Executes-one (mov_imm rdx host_base x64) cpu _
      (λ rest. rw (tick, decode-mov_imm rdx x64 host_base rest host_base-lt))

added :
    (cpu : Cpu) → Executes (rex true ++ 0x01 ∷ 0xD0 ∷ []) cpu (alu_step AluOp.add x64 rax cpu.d cpu)
unfolding tick decode execute
added cpu = Executes-one _ cpu _ (λ rest. refl)

pub emit_guest_address-Addresses :
    (g : GuestReg) (v : ℕ) (cpu : Cpu)
    → RegIsValid g
    → read_reg cpu.machine.regs g ≡ some v
    → Addresses (emit_guest_address g) v cpu
unfolding emit_guest_address alu_result mov_imm
emit_guest_address-Addresses g v cpu valid e =
    let loads = load_state-Loads rax g x64 v cpu valid e in
    let loaded : Cpu = put_reg rax loads.value (record cpu { flags = loads.flags }) in
    rw loads.emits (record {
      code = loads.code ++ (mov_imm rdx host_base x64 ++ rex true ++ 0x01 ∷ 0xD0 ∷ []);
      emits = refl;
      after = _;
      executes =
          Executes-++ loads.executes
            (Executes-++ (based loaded) (added (put_reg rdx host_base loaded)));
      base = sum loads.value v loads.right;
      kept = refl;
      machine = refl;
    })
  where
    sum :
        (u v : ℕ)
        → u % 2 ^ 64 ≡ v % 2 ^ 64
        → (u % 2 ^ 64 + host_base % 2 ^ 64) % 2 ^ 64 ≡ (v + host_base) % 2 ^ 64
    sum u v same = omega arith

-- The address that the host reaches is that of the guest.
guest_address-displaced :
    (v offset : ℕ)
    → offset < 2 ^ 32
    → guest_address (displaced ((v + host_base) % 2 ^ 64) (offset % 2 ^ 32))
      ≡ effective_address v offset
guest_address-displaced v offset h = ground arith

mem_load-Executes :
    (m : MemOperand) (v : ℕ) (cpu : Cpu)
    → cpu.a ≡ (v + host_base) % 2 ^ 64
    → m.offset < 2 ^ 32
    → Executes (emit_mem_load m.width m.offset) cpu (
        put_reg rax
          (load_bytes (bits m.width / 8) cpu.machine.memory (effective_address v m.offset))
          cpu)
unfolding tick execute
mem_load-Executes m v cpu ea range = Executes-one (emit_mem_load m.width m.offset) cpu _ (λ rest.
    rw (
      tick,
      decode-emit_mem_load m.width m.offset rest,
      ea,
      guest_address-displaced v m.offset range,
    ))

mem_store-Executes :
    (m : MemOperand) (v u : ℕ) (cpu : Cpu)
    → cpu.a ≡ (v + host_base) % 2 ^ 64
    → cpu.c ≡ u
    → m.offset < 2 ^ 32
    → Executes (emit_mem_store m.width m.offset) cpu (record cpu {
      machine = record cpu.machine {
        memory = store_bytes (bits m.width / 8) cpu.machine.memory (effective_address v m.offset) u;
      };
    })
unfolding tick execute
mem_store-Executes m v u cpu ea ec range =
    Executes-one (emit_mem_store m.width m.offset) cpu _ (λ rest. rw (
      tick,
      decode-emit_mem_store m.width m.offset rest,
      ea,
      ec,
      guest_address-displaced v m.offset range,
    ))

load_after :
    {e : Emit} {v : ℕ} {s : GuestState} (d : GuestReg) (m : MemOperand) (cpu : Cpu)
    → RegIsValid d
    → m.offset < 2 ^ 32
    → Addresses e v cpu
    → write_reg cpu.machine.regs d
        (load_bytes (bits m.width / 8) cpu.machine.memory (effective_address v m.offset))
      ≡ some s
    → GoesTo
        (e >> emitted (emit_mem_load m.width m.offset) >> emitted (store_state d rax))
        (record cpu.machine { regs = s })
        cpu
load_after {e} {v} {s} d m cpu valid range addressed es =
    let cpu' : Cpu = addressed.after in
    let result : ℕ =
      load_bytes (bits m.width / 8) cpu'.machine.memory (effective_address v m.offset) in
    let written : write_reg cpu'.machine.regs d result ≡ some s =
      subst
        (λ (t : Machine).
          write_reg t.regs d (load_bytes (bits m.width / 8) t.memory (effective_address v m.offset))
          ≡ some s)
        (sym addressed.machine) es in
    rw addressed.emits (record {
      code = addressed.code ++ (emit_mem_load m.width m.offset ++ store_state d rax);
      emits = refl;
      after = with_state (put_reg rax result cpu') s;
      executes = Executes-++ addressed.executes (
          Executes-++ (mem_load-Executes m v cpu' addressed.base range)
            (store_state-Executes d rax (put_reg rax result cpu') valid written));
      machine = ap (λ (t : Machine). record t { regs = s }) addressed.machine;
    })

pub emit_load-Implements :
    (d : GuestReg) (m : MemOperand) (o : Outcome) (cpu : Cpu)
    → RegIsValid d
    → RegIsValid m.base
    → m.offset < 2 ^ 32
    → step_load (reg d) (mem m) cpu.machine ≡ some o
    → Implements (emit_load (reg d) (mem m)) o cpu
unfolding step_load address_of
emit_load-Implements d m o cpu valid vm range h =
    let (address, ea, h₁) = >>=-eq-some (address_of cpu.machine.regs m) _ h in
    let (v, ev, same) =
      map_some-eq-some (λ base. effective_address base m.offset) (read_reg cpu.machine.regs m.base)
        ea in
    let (s, es, eo) =
      map_some-eq-some (with_regs cpu.machine) (write_reg cpu.machine.regs d _) h₁ in
    let written =
      subst
        (λ (t : ℕ).
          write_reg cpu.machine.regs d (load_bytes (bits m.width / 8) cpu.machine.memory t)
          ≡ some s)
        (sym same) es in
    subst (λ (t : Outcome). Implements (emit_load (reg d) (mem m)) t cpu) eo
      (load_after d m cpu valid range (emit_guest_address-Addresses m.base v cpu vm ev) written)

store_after :
    {e : Emit} {v u : ℕ} (m : MemOperand) (cpu : Cpu)
    → m.offset < 2 ^ 32
    → cpu.c ≡ u
    → Addresses e v cpu
    → GoesTo
        (e >> emitted (emit_mem_store m.width m.offset))
        (record cpu.machine {
          memory =
              store_bytes (bits m.width / 8) cpu.machine.memory (effective_address v m.offset) u;
        })
        cpu
store_after {e} {v} {u} m cpu range ec addressed = rw addressed.emits (record {
  code = addressed.code ++ emit_mem_store m.width m.offset;
  emits = refl;
  after = _;
  executes =
      Executes-++ addressed.executes
        (mem_store-Executes m v u addressed.after addressed.base (addressed.kept ∙ ec) range);
  machine =
      ap
        (λ (t : Machine). record t {
          memory = store_bytes (bits m.width / 8) t.memory (effective_address v m.offset) u;
        })
        addressed.machine;
})

store_exact : (u v : ℕ) → u < 2 ^ 64 → u % 2 ^ 64 ≡ v % 2 ^ 64 → u ≡ v % 2 ^ 64
store_exact u v h e = omega arith

pub emit_store-Implements :
    (g : GuestReg) (m : MemOperand) (o : Outcome) (cpu : Cpu)
    → RegIsValid g
    → RegIsValid m.base
    → m.offset < 2 ^ 32
    → step_store (mem m) (reg g) cpu.machine ≡ some o
    → Implements (emit_store (mem m) (reg g)) o cpu
unfolding step_store address_of operand_value
emit_store-Implements g m o cpu valid vm range h =
    let (u, eu, h₁) = >>=-eq-some (operand_value cpu.machine.regs x64 (reg g)) _ h in
    let (address, ea, h₂) = >>=-eq-some (address_of cpu.machine.regs m) _ h₁ in
    let (v, ev, same) =
      map_some-eq-some (λ base. effective_address base m.offset) (read_reg cpu.machine.regs m.base)
        ea in
    let (t, et, eq) = map_some-eq-some (trunc x64) (read_reg cpu.machine.regs g) eu in
    let loads = load_state-Loads rcx g x64 t cpu valid et in
    let loaded : Cpu = put_reg rcx loads.value (record cpu { flags = loads.flags }) in
    let value : loads.value ≡ u =
      store_exact loads.value t (loads.narrow (width_le g.width)) loads.right ∙ eq in
    let after =
      store_after m loaded range value (emit_guest_address-Addresses m.base v loaded vm ev) in
    let outcome : running (record cpu.machine {
      memory = store_bytes (bits m.width / 8) cpu.machine.memory (effective_address v m.offset) u;
    })
        ≡ o =
      ap
        (λ (a : ℕ).
          running
            (record cpu.machine { memory = store_bytes (bits m.width / 8) cpu.machine.memory a u }))
        same
      ∙ cc h₂ in
    subst (λ (t : Outcome). Implements (emit_store (mem m) (reg g)) t cpu) outcome
      (prefixed loads.emits loads.executes after)
