-- ===== src/Codegen/Correct/Jumps.antt =====
-- src/codegen/x86_64.rs, `emit_set_pc_imm` and the two exits of the conditional branches.
use mathlib.Core.List.{append_assoc}
use armx.Base.{
  length, length-append, ◌≤◌, ℕ, suc, ◌^◌, ◌<◌, ◌≡◌, refl, subst, arith, true, false, List, [], ◌∷◌,
  ◌++◌, drop, some, if◌then◌else◌, Bool-cases, inl, inr,
}
use armx.Ir.Operand.{x64}
use armx.Runtime.State.{pc_offset}
use armx.Codegen.{emit_set_pc_imm, set_pc_ret_len, exits}
use armx.Codegen.Encoding.{rax, mov_imm, mov_store}
use armx.Codegen.Correct.Decoded.{decode-mov_imm, decode-mov_store}
use armx.Codegen.Correct.Executes.{Executes, Executes-one, Executes-++}
use armx.Codegen.Correct.Implements.{Reaches, Executes-Reaches, at_return}
use armx.Host.Cpu.{Cpu, put_reg, write_state}
use armx.Host.Decoding.{Insn, Condition, decode}
use armx.Host.Execution.{tick, ticks, execute, holds}
use armx.Meaning.{Machine}

-- The machine at another address.
abbrev pub at_pc : Machine → ℕ → Machine
at_pc m pc = record m { regs = record m.regs { pc = pc } }

abbrev pub jumped : Cpu → ℕ → Cpu
jumped cpu pc = record cpu { a = pc; machine = at_pc cpu.machine pc }

pub store_pc :
    (cpu : Cpu)
    → Executes (mov_store pc_offset rax x64) cpu (record cpu { machine = at_pc cpu.machine cpu.a })
unfolding tick execute write_state
store_pc cpu =
    Executes-one (mov_store pc_offset rax x64) cpu _
      (λ rest. rw (tick, decode-mov_store rax x64 pc_offset rest))

pub emit_set_pc_imm-Executes :
    (pc : ℕ) (cpu : Cpu) → pc < 2 ^ 64 → Executes (emit_set_pc_imm pc) cpu (jumped cpu pc)
unfolding emit_set_pc_imm tick execute
emit_set_pc_imm-Executes pc cpu h =
    Executes-++
      (Executes-one (mov_imm rax pc x64) cpu (put_reg rax pc cpu)
        (λ rest. rw (tick, decode-mov_imm rax x64 pc rest h)))
      (store_pc (put_reg rax pc cpu))

-- A write of the address, and the return.
pub leaves_to :
    (pc : ℕ) (cpu : Cpu) (tail : List ℕ)
    → pc < 2 ^ 64
    → Reaches (emit_set_pc_imm pc ++ 0xC3 ∷ tail) cpu (jumped cpu pc)
leaves_to pc cpu tail h =
    Executes-Reaches (emit_set_pc_imm-Executes pc cpu h) (at_return tail (jumped cpu pc))

exits-eq :
    (target next : ℕ)
    → emit_set_pc_imm target ++ 0xC3 ∷ (emit_set_pc_imm next ++ 0xC3 ∷ []) ≡ exits target next
unfolding emit_set_pc_imm mov_imm mov_store
exits-eq target next = refl

drop-exits :
    (target next : ℕ) (rest : List ℕ)
    → drop set_pc_ret_len (exits target next ++ rest) ≡ (emit_set_pc_imm next ++ 0xC3 ∷ []) ++ rest
unfolding emit_set_pc_imm mov_imm mov_store
drop-exits target next rest = refl

shorter_exit :
    (target next : ℕ) → length (emit_set_pc_imm next ++ 0xC3 ∷ []) ≤ length (exits target next)
unfolding emit_set_pc_imm mov_imm mov_store
shorter_exit target next = omega arith

decoded-length :
    (code : List ℕ) {read : Insn × List ℕ} → decode (code ++ []) ≡ some read → 1 ≤ length code
unfolding decode
decoded-length [] h = cc h
decoded-length (b ∷ code) h = omega arith

jump_over :
    (code : List ℕ) (cond : Condition) (target next : ℕ) (cpu cpu' : Cpu)
    → ((rest : List ℕ) → decode (code ++ rest) ≡ some (Insn.jump_if cond set_pc_ret_len, rest))
    → holds cond cpu.flags ≡ true
    → Reaches (emit_set_pc_imm next ++ 0xC3 ∷ []) cpu cpu'
    → Reaches (code ++ exits target next) cpu cpu'
unfolding tick execute ticks
jump_over code cond target next cpu cpu' decodes h leaves = record {
  count = suc leaves.count;
  bounded = omega (
    arith,
    leaves.bounded,
    shorter_exit target next,
    length-append code (exits target next),
    decoded-length code (decodes []),
  );
  tail = leaves.tail;
  runs = λ rest.
      rw
        (
          append_assoc code (exits target next) rest,
          tick,
          decodes (exits target next ++ rest),
          h,
          drop-exits target next rest,
        )
        (leaves.runs rest);
}

no_jump :
    (code : List ℕ) (cond : Condition) (cpu : Cpu)
    → ((rest : List ℕ) → decode (code ++ rest) ≡ some (Insn.jump_if cond set_pc_ret_len, rest))
    → holds cond cpu.flags ≡ false
    → Executes code cpu cpu
unfolding tick execute
no_jump code cond cpu decodes h = Executes-one code cpu cpu (λ rest. rw (tick, decodes rest, h))

-- The jump goes over the first exit where its condition holds.
pub jump-Reaches :
    (code : List ℕ) (cond : Condition) (target next : ℕ) (cpu : Cpu)
    → ((rest : List ℕ) → decode (code ++ rest) ≡ some (Insn.jump_if cond set_pc_ret_len, rest))
    → target < 2 ^ 64
    → next < 2 ^ 64
    → Reaches
        (code ++ exits target next)
        cpu
        (jumped cpu (if holds cond cpu.flags then next else target))
jump-Reaches code cond target next cpu decodes ht hn = elim (Bool-cases (holds cond cpu.flags)) [
  | inl h ↦
      rw h
        (jump_over code cond target next cpu (jumped cpu next) decodes h (leaves_to next cpu [] hn))
  | inr h ↦
      let falls : Reaches (exits target next) cpu (jumped cpu target) =
        subst (λ (c : List ℕ). Reaches c cpu (jumped cpu target)) (exits-eq target next)
          (leaves_to target cpu (emit_set_pc_imm next ++ 0xC3 ∷ []) ht) in
      rw h (Executes-Reaches (no_jump code cond cpu decodes h) falls)
]
