-- ===== src/Codegen/Correct/Executes.antt =====
-- Runs of pieces of emitted code, whatever follows them.
use mathlib.Core.List.{append_assoc}
use armx.Base.{
  length, length-append, ◌≤◌, ℕ, zero, suc, ◌+◌, ◌%◌, ◌^◌, ◌<◌, ◌≡◌, refl, ap, ◌∙◌, arith, List, [],
  ◌∷◌, ◌++◌, some, ◌>>=◌, Option-cases, inl, inr,
}
use armx.Base.Bytes.{from_le_bytes, from_le_bytes-to_le_bytes}
use armx.Codegen.Encoding.{emit32, emit64}
use armx.Host.Cpu.{Cpu}
use armx.Host.Decoding.{decode}
use armx.Host.Execution.{tick, ticks}

pub ticks-add :
    (m n : ℕ) (code : List ℕ) (cpu : Cpu)
    → ticks (m + n) code cpu ≡ (ticks m code cpu >>= λ next. ticks n next.0 next.1)
unfolding ticks
ticks-add zero n code cpu = ap (λ (k : ℕ). ticks k code cpu) (omega arith)
ticks-add (suc m) n code cpu =
    let split : suc m + n ≡ suc (m + n) = omega arith in
    ap (λ (k : ℕ). ticks k code cpu) split ∙ elim (Option-cases (tick code cpu)) [
      | inl stuck ↦ rw (ticks, stuck)
      | inr ((rest, cpu'), goes) ↦ rw (ticks, goes) (ticks-add m n rest cpu')
    ]

-- The code takes the one state to the other in some number of instructions.
pub record Executes (code : List ℕ) (cpu cpu' : Cpu) : Type 0 where
  pub count : ℕ
  pub bounded : count ≤ length code
  pub runs : (rest : List ℕ) → ticks count (code ++ rest) cpu ≡ some (rest, cpu')

pub Executes-nil : (cpu : Cpu) → Executes [] cpu cpu
unfolding ticks
Executes-nil cpu = record { count = 0; bounded = omega arith; runs = λ rest. refl }

-- Only code that is not empty has a first instruction.
tick-length :
    (code : List ℕ) (cpu : Cpu) {next : List ℕ × Cpu}
    → tick (code ++ []) cpu ≡ some next
    → 1 ≤ length code
unfolding tick decode
tick-length [] cpu h = cc h
tick-length (b ∷ code) cpu h = omega arith

pub Executes-one :
    (code : List ℕ) (cpu cpu' : Cpu)
    → ((rest : List ℕ) → tick (code ++ rest) cpu ≡ some (rest, cpu'))
    → Executes code cpu cpu'
unfolding ticks
Executes-one code cpu cpu' h = record {
  count = 1;
  bounded = tick-length code cpu (h []);
  runs = λ rest. rw (ticks, h rest);
}

pub Executes-++ :
    {xs ys : List ℕ} {c c' c'' : Cpu}
    → Executes xs c c'
    → Executes ys c' c''
    → Executes (xs ++ ys) c c''
Executes-++ {xs} {ys} {c} {c'} {c''} first second = record {
  count = first.count + second.count;
  bounded = omega (arith, length-append xs ys, first.bounded, second.bounded);
  runs = λ rest.
      rw (append_assoc xs ys rest, ticks-add first.count second.count, first.runs (ys ++ rest))
        (second.runs rest);
}

-- What the decoder reads of the bytes of a number.
pub four_bytes : (v : ℕ) → from_le_bytes (emit32 v) ≡ v % 2 ^ 32
four_bytes v = from_le_bytes-to_le_bytes 4 (v % 2 ^ 32) (omega arith)

pub eight_bytes : (v : ℕ) → v < 2 ^ 64 → from_le_bytes (emit64 v) ≡ v
eight_bytes v h = from_le_bytes-to_le_bytes 8 v h
