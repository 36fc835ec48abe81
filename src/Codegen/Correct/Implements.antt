-- ===== src/Codegen/Correct/Implements.antt =====
-- src/codegen/x86_64.rs, `emit_block`: what it is for the code of an instruction or of a block to
-- implement it.
use mathlib.Core.List.{append_assoc}
use armx.Base.{length, length-append, ◌<◌, arith, ℕ, ◌+◌, ◌≡◌, refl, List, ◌∷◌, ◌++◌, some}
use armx.Codegen.{Emit, emitted, returned, ◌>>◌}
use armx.Codegen.Correct.Executes.{Executes, Executes-++, ticks-add}
use armx.Host.Cpu.{Cpu}
use armx.Host.Execution.{ticks}
use armx.Meaning.{Machine, Outcome, running, exited}

-- The code goes on, to its end.
pub record GoesTo (e : Emit) (m : Machine) (cpu : Cpu) : Type 0 where
  pub code : List ℕ
  pub emits : e ≡ emitted code
  pub after : Cpu
  pub executes : Executes code cpu after
  pub machine : after.machine ≡ m

-- The code comes to a return.
pub record Reaches (code : List ℕ) (cpu cpu' : Cpu) : Type 0 where
  pub count : ℕ
  pub bounded : count < length code
  pub tail : List ℕ
  pub runs : (rest : List ℕ) → ticks count (code ++ rest) cpu ≡ some (0xC3 ∷ (tail ++ rest), cpu')

pub record LeavesAt (e : Emit) (m : Machine) (cpu : Cpu) : Type 0 where
  pub code : List ℕ
  pub emits : e ≡ emitted code
  pub after : Cpu
  pub reaches : Reaches code cpu after
  pub machine : after.machine ≡ m

-- The same of code that is returned.
pub record ReturnsAt (e : Emit) (m : Machine) (cpu : Cpu) : Type 0 where
  pub code : List ℕ
  pub emits : e ≡ returned code
  pub after : Cpu
  pub reaches : Reaches code cpu after
  pub machine : after.machine ≡ m

abbrev pub Implements : Emit → Outcome → Cpu → Type 0
Implements e (running m) cpu = GoesTo e m cpu
Implements e (exited m) cpu = ReturnsAt e m cpu

pub Executes-Reaches :
    {xs ys : List ℕ} {c c' c'' : Cpu}
    → Executes xs c c'
    → Reaches ys c' c''
    → Reaches (xs ++ ys) c c''
Executes-Reaches {xs} {ys} {c} {c'} {c''} first second = record {
  count = first.count + second.count;
  bounded = omega (arith, length-append xs ys, first.bounded, second.bounded);
  tail = second.tail;
  runs = λ rest.
      rw (append_assoc xs ys rest, ticks-add first.count second.count, first.runs (ys ++ rest))
        (second.runs rest);
}

-- What follows a return is not run.
pub Reaches-++ :
    {xs : List ℕ} {c c' : Cpu} → Reaches xs c c' → (ys : List ℕ) → Reaches (xs ++ ys) c c'
Reaches-++ {xs} {c} {c'} first ys = record {
  count = first.count;
  bounded = omega (arith, length-append xs ys, first.bounded);
  tail = first.tail ++ ys;
  runs = λ rest.
      rw (append_assoc xs ys rest, append_assoc first.tail ys rest) (first.runs (ys ++ rest));
}

pub at_return : (tail : List ℕ) (cpu : Cpu) → Reaches (0xC3 ∷ tail) cpu cpu
unfolding ticks
at_return tail cpu = record { count = 0; bounded = omega arith; tail = tail; runs = λ rest. refl }

-- Code before code that goes on, and before code that leaves.
pub prefixed :
    {e₁ e₂ : Emit} {code : List ℕ} {m : Machine} {c c' : Cpu}
    → e₁ ≡ emitted code
    → Executes code c c'
    → GoesTo e₂ m c'
    → GoesTo (e₁ >> e₂) m c
prefixed {code = code} emits runs goes =
    rw (emits, goes.emits)
      (record {
        code = code ++ goes.code;
        emits = refl;
        after = goes.after;
        executes = Executes-++ runs goes.executes;
        machine = goes.machine;
      })

pub prefixed_leaving :
    {e₁ e₂ : Emit} {code : List ℕ} {m : Machine} {c c' : Cpu}
    → e₁ ≡ emitted code
    → Executes code c c'
    → LeavesAt e₂ m c'
    → LeavesAt (e₁ >> e₂) m c
prefixed_leaving {code = code} emits runs leaves =
    rw (emits, leaves.emits)
      (record {
        code = code ++ leaves.code;
        emits = refl;
        after = leaves.after;
        reaches = Executes-Reaches runs leaves.reaches;
        machine = leaves.machine;
      })
