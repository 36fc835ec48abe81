-- ===== src/Runtime/Dispatch/Table.antt =====
-- src/runtime/dispatch.rs, `compile_block`, and the table of translated blocks.
use armx.Base.{
  ℕ, ◌≡◌, ◌≢◌, refl, ap, subst, List, [], ◌∷◌, Option, some, none, ◌==◌, if◌then◌else◌, Bool-cases,
  ◌⊎◌, inl, inr, ◌>>=◌, arith, length, false, true,
}
use armx.Arch.{A64Inst, InstDecoder}
use armx.Ir.Block.{Block, at}
use armx.Lift.Blocks.{lift_block_at}
use armx.Lift.Blocks.Basic.{basic_block, lift_block_at-consumed}
use armx.Jit.{prepare_block}
use armx.Codegen.{CodegenError, Emit, emitted, returned, failed, panicked, emit_block, code_of}
use armx.Runtime.Dispatch.{
  CompiledBlock, Dispatcher, Result, ok, err, unsupported_instruction, codegen_failed,
  executable_mapping_failed, get, insert, any_unsupported, compile_block, install, generated,
}

module _ {Code : Type 0} where
  pub get-insert_self :
      (entries : List (ℕ × CompiledBlock Code)) (pc : ℕ) (block : CompiledBlock Code)
      → get (insert entries pc block) pc ≡ some block
  get-insert_self [] pc block = ground arith
  get-insert_self (entry ∷ entries) pc block = elim (Bool-cases (entry.0 == pc)) [
    | inl e ↦ rw e (ground arith)
    | inr e ↦ rw (e, e) (get-insert_self entries pc block)
  ]

  pub get-insert_ne :
      (entries : List (ℕ × CompiledBlock Code)) (pc other : ℕ) (block : CompiledBlock Code)
      → pc ≢ other
      → get (insert entries pc block) other ≡ get entries other
  get-insert_ne [] pc other block ne = ground arith
  get-insert_ne (entry ∷ entries) pc other block ne = elim (Bool-cases (entry.0 == pc)) [
    | inl e ↦ rw e (ground arith)
    | inr e ↦ rw e (
        ap (λ r. if entry.0 == other then some entry.1 else r)
          (get-insert_ne entries pc other block ne))
  ]

  get-insert_other :
      (entries : List (ℕ × CompiledBlock Code)) (pc other : ℕ) (block : CompiledBlock Code)
      → (pc ≡ other) ⊎ (get (insert entries pc block) other ≡ get entries other)
  get-insert_other entries pc other block = elim (Bool-cases (pc == other)) [
    | inl e ↦ inl (ground (arith, e))
    | inr e ↦ inr (get-insert_ne entries pc other block (ground (arith, e)))
  ]

-- What a call leaves behind. On success the words have no unsupported instruction, and the code of
-- the prepared block, mapped, is at its address with no hits, while the other addresses and the count
-- of executions are as before. On an error, which says what failed, the dispatcher is as it was.
pub data Compiled {Code : Type 0} (decoder : InstDecoder) (make_executable : List ℕ → Option Code)
    (d : Dispatcher Code) (guest_pc : ℕ) (words : List A64Inst)
    : Dispatcher Code → Result ℕ → Type 0 where
  compiled :
      (block : Block) (bytes : List ℕ) (code : Code) {d' : Dispatcher Code}
      → any_unsupported (lift_block_at decoder words guest_pc (at guest_pc)).0.insts ≡ false
      → prepare_block (lift_block_at decoder words guest_pc (at guest_pc)).0 ≡ some block
      → code_of (emit_block block) ≡ some bytes
      → make_executable bytes ≡ some code
      → get d'.blocks guest_pc ≡ some (record { code = code; hit_count = 0 })
      → ((other : ℕ) → (guest_pc ≡ other) ⊎ (get d'.blocks other ≡ get d.blocks other))
      → d'.blocks_executed ≡ d.blocks_executed
      → Compiled decoder make_executable d guest_pc words d'
          (ok (length (basic_block decoder words)))
  not_supported :
      any_unsupported (lift_block_at decoder words guest_pc (at guest_pc)).0.insts ≡ true
      → Compiled decoder make_executable d guest_pc words d (err (unsupported_instruction guest_pc))
  not_emitted :
      (block : Block) (e : CodegenError)
      → any_unsupported (lift_block_at decoder words guest_pc (at guest_pc)).0.insts ≡ false
      → prepare_block (lift_block_at decoder words guest_pc (at guest_pc)).0 ≡ some block
      → emit_block block ≡ failed e
      → Compiled decoder make_executable d guest_pc words d (err (codegen_failed guest_pc e))
  not_mapped :
      (block : Block) (bytes : List ℕ)
      → any_unsupported (lift_block_at decoder words guest_pc (at guest_pc)).0.insts ≡ false
      → prepare_block (lift_block_at decoder words guest_pc (at guest_pc)).0 ≡ some block
      → code_of (emit_block block) ≡ some bytes
      → make_executable bytes ≡ none
      → Compiled decoder make_executable d guest_pc words d
          (err (executable_mapping_failed guest_pc))

module _ {Code : Type 0} (decoder : InstDecoder) (make_executable : List ℕ → Option Code)
    (d : Dispatcher Code) (guest_pc : ℕ) (words : List A64Inst) where
  -- Where a call does not panic.
  abbrev CompiledAs : Option (Dispatcher Code × Result ℕ) → Type 0
  CompiledAs (some out) = Compiled decoder make_executable d guest_pc words out.0 out.1
  CompiledAs none = Unit

  abbrev Supported : Type 0
  Supported = any_unsupported (lift_block_at decoder words guest_pc (at guest_pc)).0.insts ≡ false

  abbrev Prepared : Block → Type 0
  Prepared block = prepare_block (lift_block_at decoder words guest_pc (at guest_pc)).0 ≡ some block

  install-Compiled :
      (block : Block) (bytes : List ℕ) (code : Option Code)
      → Supported
      → Prepared block
      → code_of (emit_block block) ≡ some bytes
      → make_executable bytes ≡ code
      → CompiledAs (
          some
            (install decoder make_executable d guest_pc (length (basic_block decoder words)) code))
  install-Compiled block bytes (some code) supported prepared emits made =
      compiled block bytes code supported prepared emits made (get-insert_self d.blocks guest_pc _)
        (λ other. get-insert_other d.blocks guest_pc other _) refl
  install-Compiled block bytes none supported prepared emits made =
      not_mapped block bytes supported prepared emits made

  generated-Compiled :
      (block : Block) (e : Emit)
      → Supported
      → Prepared block
      → emit_block block ≡ e
      → CompiledAs
          (generated decoder make_executable d guest_pc (length (basic_block decoder words)) e)
  generated-Compiled block (emitted bytes) supported prepared emits =
      install-Compiled block bytes (make_executable bytes) supported prepared (ap code_of emits)
        refl
  generated-Compiled block (returned bytes) supported prepared emits =
      install-Compiled block bytes (make_executable bytes) supported prepared (ap code_of emits)
        refl
  generated-Compiled block (failed e) supported prepared emits =
      not_emitted block e supported prepared emits
  generated-Compiled block panicked supported prepared emits = tt

  compile_block-CompiledAs : CompiledAs (compile_block decoder make_executable d guest_pc words)
  unfolding compile_block
  compile_block-CompiledAs =
      elim (Bool-cases
        (any_unsupported (lift_block_at decoder words guest_pc (at guest_pc)).0.insts)) [
          | inl u ↦ rw u (not_supported u)
          | inr u ↦
              rw (u, lift_block_at-consumed decoder words guest_pc)
                (prepared u (prepare_block (lift_block_at decoder words guest_pc (at guest_pc)).0)
                  refl)
        ]
    where
      prepared :
          Supported
          → (block : Option Block)
          → prepare_block (lift_block_at decoder words guest_pc (at guest_pc)).0 ≡ block
          → CompiledAs (
              block >>= λ b.
              generated decoder make_executable d guest_pc
                (length (basic_block decoder words))
                (emit_block b))
      prepared u (some b) e = generated-Compiled b (emit_block b) u e refl
      prepared u none e = tt

  -- A call of `compile_block` that does not panic either fails, with the error that says whether an
  -- instruction is not supported, the prepared block has no code, or its code cannot be mapped, and
  -- leaves the dispatcher as it was; or it returns the number of words of the basic block at its
  -- address, and the table then has there the mapped code of the prepared block, with no hits, beside
  -- the code of the other addresses as before.
  pub compile_block-Compiled :
      (d' : Dispatcher Code) (r : Result ℕ)
      → compile_block decoder make_executable d guest_pc words ≡ some (d', r)
      → Compiled decoder make_executable d guest_pc words d' r
  compile_block-Compiled d' r e = subst CompiledAs e compile_block-CompiledAs
