-- ===== src/Runtime/Dispatch/Hosted.antt =====
-- src/runtime/dispatch.rs, `run`, on the host of `Host`, against the meaning of the guest's blocks.
use armx.Base.{
  ℕ, suc, ◌≤◌, ◌≡◌, ◌≢◌, refl, sym, subst, arith, true, false, List, Option, some, none, length,
  Bool-cases, inl, inr, ◌==◌, saturating_add32,
}
use armx.Ir.Block.{Block}
use armx.Codegen.{emit_block, code_of}
use armx.Codegen.Correct.Blocks.{BlockFits}
use armx.Codegen.Correct.Run.{emit_block-run_code}
use armx.Runtime.Dispatch.{CompiledBlock, Dispatcher, ok, get, is_some, has_block, count, run}
use armx.Runtime.Dispatch.Table.{get-insert_self, get-insert_ne}
use armx.Runtime.Dispatch.Runs.{Runs, last, next, run-Runs}
use armx.Host.Cpu.{Cpu}
use armx.Host.Execution.{run_code}
use armx.Meaning.{Machine, run_block}

-- A call of the code: the host from the registers that the caller left, to the return.
abbrev pub hosted : (Machine → Cpu) → List ℕ → Machine → Machine
hosted start code m = elim (run_code (length code) code (start m)) [
  | none ↦ m
  | some after ↦ after.machine
]

pub record IsCodeOf (code : List ℕ) (block : Block) : Type 0 where
  pub fits : BlockFits block
  pub emits : code_of (emit_block block) ≡ some code

-- The guest's blocks by address, and `k` of them one after another, until an address has none.
pub data GuestRuns (blocks : ℕ → Option Block) : ℕ → Machine → Machine → Type 0 where
  last_block :
      {m m' : Machine} (block : Block)
      → blocks m.regs.pc ≡ some block
      → run_block block m ≡ some m'
      → blocks m'.regs.pc ≡ none
      → GuestRuns blocks 1 m m'
  next_block :
      {k : ℕ} {m m' m'' : Machine} (block block' : Block)
      → blocks m.regs.pc ≡ some block
      → run_block block m ≡ some m'
      → blocks m'.regs.pc ≡ some block'
      → GuestRuns blocks k m' m''
      → GuestRuns blocks (suc k) m m''

abbrev Matches : Option (CompiledBlock (List ℕ)) → Option Block → Type 0
Matches (some compiled) (some block) = IsCodeOf compiled.code block
Matches none none = Unit
Matches _ _ = ⊥

-- The dispatcher has the code of each block, and of no other.
abbrev pub Translates : Dispatcher (List ℕ) → (ℕ → Option Block) → Type 0
Translates d blocks = (pc : ℕ) → Matches (get d.blocks pc) (blocks pc)

translated_entry :
    (o : Option (CompiledBlock (List ℕ))) {b : Option Block} (block : Block)
    → Matches o b
    → b ≡ some block
    → (compiled : CompiledBlock (List ℕ)) × (o ≡ some compiled) × IsCodeOf compiled.code block
translated_entry (some compiled) block match e =
    (compiled, refl, subst (Matches (some compiled)) e match)
translated_entry none block match e = absurd (subst (Matches none) e match)

has_block-translated :
    (o : Option (CompiledBlock (List ℕ))) (b : Option Block)
    → Matches o b
    → is_some o ≡ (elim b [ none ↦ false | some block ↦ true ])
has_block-translated (some compiled) (some block) match = refl
has_block-translated none none match = refl
has_block-translated (some compiled) none match = absurd match
has_block-translated none (some block) match = absurd match

recounted :
    (compiled : CompiledBlock (List ℕ)) (b : Option Block)
    → Matches (some compiled) b
    → Matches (some (record compiled { hit_count = saturating_add32 compiled.hit_count 1 })) b
recounted compiled (some block) match = match
recounted compiled none match = match

module _ (start : Machine → Cpu) (started : (m : Machine) → (start m).machine ≡ m) where
  hosted-run_block :
      (code : List ℕ) (block : Block) (m m' : Machine)
      → IsCodeOf code block
      → run_block block m ≡ some m'
      → hosted start code m ≡ m'
  hosted-run_block code block m m' is_code h =
      let (code', after, emits, runs, machine) =
        emit_block-run_code block m' (start m) is_code.fits
          (subst (λ (t : Machine). run_block block t ≡ some m') (sym (started m)) h) in
      let same : code' ≡ code = cc (emits, is_code.emits) in
      let ran : run_code (length code) code (start m) ≡ some after =
        subst (λ (c : List ℕ). run_code (length c) c (start m) ≡ some after) same runs in
      rw (hosted, ran) machine

  count-Translates :
      (d : Dispatcher (List ℕ)) (blocks : ℕ → Option Block) (pc : ℕ)
      (compiled : CompiledBlock (List ℕ))
      → get d.blocks pc ≡ some compiled
      → Translates d blocks
      → Translates (count (hosted start) d pc compiled) blocks
  count-Translates d blocks pc compiled found translates a = elim (Bool-cases (pc == a)) [
    | inl e ↦
        let same : pc ≡ a = ground (arith, e) in
        let entry =
          subst (λ (o : Option (CompiledBlock (List ℕ))). Matches o (blocks pc)) found
            (translates pc) in
        rw (← same, get-insert_self d.blocks pc _) (recounted compiled (blocks pc) entry)
    | inr e ↦
        let differs : pc ≢ a = ground (arith, e) in
        rw (get-insert_ne d.blocks pc a _ differs) (translates a)
  ]

  has_block-hosted :
      (d : Dispatcher (List ℕ)) (blocks : ℕ → Option Block) (pc : ℕ) {b : Option Block}
      → Translates d blocks
      → blocks pc ≡ b
      → has_block d pc ≡ (elim b [ none ↦ false | some block ↦ true ])
  unfolding has_block
  has_block-hosted d blocks pc translates e =
      has_block-translated (get d.blocks pc) _ (subst (Matches (get d.blocks pc)) e (translates pc))

  guest-Runs :
      (blocks : ℕ → Option Block) {k : ℕ} {m m' : Machine} (d : Dispatcher (List ℕ))
      → Translates d blocks
      → GuestRuns blocks k m m'
      → (d' : Dispatcher (List ℕ)) × Runs (hosted start) k d m d' m'
  guest-Runs blocks {m = m} {m' = m'} d translates (last_block block at_pc runs leaves) =
      let (compiled, found, is_code) =
        translated_entry (get d.blocks m.regs.pc) block (translates m.regs.pc) at_pc in
      let same = hosted-run_block compiled.code block m m' is_code runs in
      let d' : Dispatcher (List ℕ) = count (hosted start) d m.regs.pc compiled in
      let table : Translates d' blocks =
        count-Translates d blocks m.regs.pc compiled found translates in
      let ends : has_block d' m'.regs.pc ≡ false =
        has_block-hosted d' blocks m'.regs.pc table leaves in
      (
        d',
        subst (λ (t : Machine). Runs (hosted start) 1 d m d' t) same
            (last compiled found
              (subst (λ (t : Machine). has_block d' t.regs.pc ≡ false) (sym same) ends)),
      )
  guest-Runs blocks {m = m} d translates
        (next_block {k = k} {m' = m₁} {m'' = m'} block block' at_pc runs stays rest) =
      let (compiled, found, is_code) =
        translated_entry (get d.blocks m.regs.pc) block (translates m.regs.pc) at_pc in
      let same = hosted-run_block compiled.code block m m₁ is_code runs in
      let d₁ : Dispatcher (List ℕ) = count (hosted start) d m.regs.pc compiled in
      let table : Translates d₁ blocks =
        count-Translates d blocks m.regs.pc compiled found translates in
      let on : has_block d₁ m₁.regs.pc ≡ true = has_block-hosted d₁ blocks m₁.regs.pc table stays in
      let (d', chain) = guest-Runs blocks d₁ table rest in
      (
        d',
        next compiled found (subst (λ (t : Machine). has_block d₁ t.regs.pc ≡ true) (sym same) on)
            (subst (λ (t : Machine). Runs (hosted start) k d₁ t d' m') (sym same) chain),
      )

  -- The dispatcher executes the guest: where it has the code of each of the guest's blocks, and these
  -- run, one after another and at most `max_blocks` of them, from one machine to another at an address
  -- without a block, `run` on the host gives that machine and its address.
  pub run-GuestRuns :
      (max_blocks k : ℕ) (m m' : Machine) (d : Dispatcher (List ℕ)) (blocks : ℕ → Option Block)
      → Translates d blocks
      → GuestRuns blocks k m m'
      → k ≤ max_blocks
      → (d' : Dispatcher (List ℕ)) × (run (hosted start) max_blocks d m ≡ (d', m', ok m'.regs.pc))
  run-GuestRuns max_blocks k m m' d blocks translates guest le =
      let (d', chain) = guest-Runs blocks d translates guest in
      (d', (run-Runs (hosted start) max_blocks d m d' m' m'.regs.pc).1 (k, le, chain, refl))
