-- ===== src/Runtime/Dispatch/Runs.antt =====
-- src/runtime/dispatch.rs, `run`, as a step relation.
use armx.Base.{
  ℕ, zero, suc, ◌+◌, ◌^◌, ◌%◌, ◌≤◌, ◌<◌, ◌≡◌, ◌↔◌, refl, sym, ap, ◌∙◌, subst, true, false, some,
  ◌==◌, Bool-cases, Option-cases, inl, inr, arith,
}
use armx.Meaning.{Machine}
use armx.Runtime.Dispatch.{
  CompiledBlock, Dispatcher, Result, ok, get, is_some, has_block, count, run,
}
use armx.Runtime.Dispatch.Table.{get-insert_self, get-insert_ne}

-- `k` blocks are executed, from the one at the machine's `pc` on, and the last leaves for an address
-- without a block.
pub data Runs {Code : Type 0} (entry : Code → Machine → Machine)
    : ℕ → Dispatcher Code → Machine → Dispatcher Code → Machine → Type 0 where
  last :
      {d : Dispatcher Code} {m : Machine} (block : CompiledBlock Code)
      → get d.blocks m.regs.pc ≡ some block
      → has_block (count entry d m.regs.pc block) (entry block.code m).regs.pc ≡ false
      → Runs entry 1 d m (count entry d m.regs.pc block) (entry block.code m)
  next :
      {k : ℕ} {d d' : Dispatcher Code} {m m' : Machine} (block : CompiledBlock Code)
      → get d.blocks m.regs.pc ≡ some block
      → has_block (count entry d m.regs.pc block) (entry block.code m).regs.pc ≡ true
      → Runs entry k (count entry d m.regs.pc block) (entry block.code m) d' m'
      → Runs entry (suc k) d m d' m'

module _ {Code : Type 0} (entry : Code → Machine → Machine) where
  run_complete :
      (max_blocks : ℕ) {k : ℕ} {d d' : Dispatcher Code} {m m' : Machine}
      → Runs entry k d m d' m'
      → k ≤ max_blocks
      → run entry max_blocks d m ≡ (d', m', ok m'.regs.pc)
  unfolding run
  run_complete (suc n) (last block found leaves) h = rw (run, found, leaves)
  run_complete (suc n) (next block found stays rest) h =
      rw (run, found, stays) (run_complete n rest (omega arith))
  run_complete zero (last block found leaves) h = absurd (omega arith)
  run_complete zero (next block found stays rest) h = absurd (omega arith)

  run_sound :
      (max_blocks : ℕ) (d : Dispatcher Code) (m : Machine) {d' : Dispatcher Code} {m' : Machine}
      {pc : ℕ}
      → run entry max_blocks d m ≡ (d', m', ok pc)
      → (k : ℕ) × (k ≤ max_blocks) × Runs entry k d m d' m' × (pc ≡ m'.regs.pc)
  unfolding run
  run_sound zero d m e = cc
  run_sound (suc n) d m {d'} {m'} {pc} e = elim (Option-cases (get d.blocks m.regs.pc)) [
    | inl missing ↦ cc (rw (run, missing) at e)
    | inr (block, found) ↦
        elim (Bool-cases (has_block (count entry d m.regs.pc block) (entry block.code m).regs.pc)) [
          | inl stays ↦
              let (k, le, rest, end) =
                run_sound n (count entry d m.regs.pc block) (entry block.code m)
                  (rw (run, found, stays) at e) in
              (suc k, omega arith, next block found stays rest, end)
          | inr leaves ↦
              let same : ◌≡◌ {A = Dispatcher Code × Machine × Result ℕ}
                  (
                    count entry d m.regs.pc block,
                    entry block.code m,
                    ok (entry block.code m).regs.pc,
                  )
                  (d', m', ok pc) =
                rw (run, found, leaves) at e in
              let chain : Runs entry 1 d m d' m' =
                subst (λ (x : Dispatcher Code). Runs entry 1 d m x m') (ap (λ r. r.0) same)
                  (subst (λ (x : Machine). Runs entry 1 d m (count entry d m.regs.pc block) x)
                    (ap (λ r. r.1) same) (last block found leaves)) in
              (1, omega arith, chain, cc same)
        ]
  ]

  -- The dispatcher's `run` within a bound returns an address exactly where a chain of at most that
  -- many translated blocks leads from the machine's address to this one, which has no block.
  pub run-Runs :
      (max_blocks : ℕ) (d : Dispatcher Code) (m : Machine) (d' : Dispatcher Code) (m' : Machine)
      (pc : ℕ)
      → (run entry max_blocks d m ≡ (d', m', ok pc))
        ↔ ((k : ℕ) × (k ≤ max_blocks) × Runs entry k d m d' m' × (pc ≡ m'.regs.pc))
  run-Runs max_blocks d m d' m' pc =
      (run_sound max_blocks d m, λ (k, le, chain, end). run_complete max_blocks chain le ∙ cc end)

  -- A counter of executions does not add or remove blocks.
  has_block-count :
      (d : Dispatcher Code) (pc a : ℕ) (block : CompiledBlock Code)
      → get d.blocks pc ≡ some block
      → has_block (count entry d pc block) a ≡ has_block d a
  unfolding has_block
  has_block-count d pc a block found = elim (Bool-cases (pc == a)) [
    | inl e ↦
        let same : pc ≡ a = ground (arith, e) in
        ap is_some (
          ap (λ (x : ℕ). get (count entry d pc block).blocks x) (sym same)
          ∙ get-insert_self d.blocks pc _)
        ∙ sym (ap is_some (ap (λ (x : ℕ). get d.blocks x) (sym same) ∙ found))
    | inr e ↦ ap is_some (get-insert_ne d.blocks pc a _ (ground (arith, e)))
  ]

  -- A chain of `k` executions raises the counter of executed blocks by `k`, on 64 bits, leaves any
  -- address translated or not as it was, and ends at an address outside of it.
  pub Runs-counters :
      {k : ℕ} {d d' : Dispatcher Code} {m m' : Machine}
      → Runs entry k d m d' m'
      → d.blocks_executed < 2 ^ 64
      → (a : ℕ)
      → (d'.blocks_executed ≡ (d.blocks_executed + k) % 2 ^ 64)
        × (has_block d' m'.regs.pc ≡ false)
        × (has_block d' a ≡ has_block d a)
  Runs-counters {d = d} {m = m} (last block found leaves) h a =
      (refl, leaves, has_block-count d m.regs.pc a block found)
  Runs-counters {d = d} {m = m} (next block found stays rest) h a =
      let (executed, ends, table) = Runs-counters rest (omega arith) a in
      (omega (arith, executed), ends, table ∙ has_block-count d m.regs.pc a block found)
