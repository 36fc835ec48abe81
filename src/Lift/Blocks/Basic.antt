-- ===== src/Lift/Blocks/Basic.antt =====
-- src/lift/block.rs, `lift_block_at`, against basic blocks.
use mathlib.Core.List.{append_assoc, append-nil}
use armx.Base.{
  ℕ, ◌+◌, ◌*◌, ◌^◌, ◌<◌, ◌≡◌, refl, sym, ◌∙◌, arith, true, false, List, [], ◌∷◌, ◌++◌, u64, length,
  if◌then◌else◌, Bool-cases, inl, inr,
}
use armx.Arch.{A64Inst, InstDecoder}
use armx.Ir.Inst.{IrInst}
use armx.Ir.Block.{Block, at, push, byte_len}
use armx.Lift.{lifted_at, lift_one_at}
use armx.Lift.Blocks.{terminal, lift_words, lift_block_at}

-- The words up to the first that ends a block.
abbrev pub basic_block : InstDecoder → List A64Inst → List A64Inst
basic_block decoder [] = []
basic_block decoder (word ∷ words) =
    let rest = basic_block decoder words in word ∷ (if terminal decoder word then [] else rest)

-- One instruction for each word, from the address `pc + 4 i` on.
abbrev pub lifted_from : InstDecoder → ℕ → ℕ → List A64Inst → List IrInst
lifted_from decoder pc i [] = []
lifted_from decoder pc i (word ∷ words) =
    lifted_at decoder word (u64 (pc + i * 4)) ∷ lifted_from decoder pc (i + 1) words

pub record LiftsBasicBlock (decoder : InstDecoder) (pc i : ℕ) (words : List A64Inst) (block : Block)
    (out : Block × ℕ) : Type 0 where
  pub insts : out.0.insts ≡ block.insts ++ lifted_from decoder pc i (basic_block decoder words)
  pub consumed : out.1 ≡ i + length (basic_block decoder words)
  pub bytes :
      byte_len block + 4 * length (basic_block decoder words) < 2 ^ 64
      → byte_len out.0 ≡ byte_len block + 4 * length (basic_block decoder words)
  pub address : out.0.guest_pc ≡ block.guest_pc
  pub hits : out.0.hit_count ≡ block.hit_count

push-bytes :
    (block : Block) (inst : IrInst)
    → byte_len block + 4 < 2 ^ 64
    → byte_len (push block inst) ≡ byte_len block + 4
unfolding push
push-bytes block inst h = ground arith

module _ (decoder : InstDecoder) (pc i : ℕ) (word : A64Inst) (words : List A64Inst)
    (block : Block) where
  abbrev block' : Block
  block' = lift_one_at decoder word (u64 (pc + i * 4)) block

  last_word :
      terminal decoder word ≡ true
      → LiftsBasicBlock decoder pc i (word ∷ words) block (block', i + 1)
  unfolding lift_one_at push
  last_word t = record {
    insts = rw t refl;
    consumed = rw t refl;
    bytes = rw t (λ h. push-bytes block (lifted_at decoder word (u64 (pc + i * 4))) h);
    address = refl;
    hits = refl;
  }

  next_word :
      {out : Block × ℕ}
      → terminal decoder word ≡ false
      → LiftsBasicBlock decoder pc (i + 1) words block' out
      → LiftsBasicBlock decoder pc i (word ∷ words) block out
  unfolding lift_one_at push
  next_word {out} t r = record {
    insts = rw t (r.insts ∙ append_assoc block.insts _ _);
    consumed = rw t (omega (arith, r.consumed));
    bytes = rw t (λ h.
        let pushed = push-bytes block (lifted_at decoder word (u64 (pc + i * 4))) (omega arith) in
        omega (arith, pushed, r.bytes (omega (arith, pushed))));
    address = r.address;
    hits = r.hits;
  }

lift_words-LiftsBasicBlock :
    (decoder : InstDecoder) (pc i : ℕ) (words : List A64Inst) (block : Block)
    → LiftsBasicBlock decoder pc i words block (lift_words decoder pc i words block)
unfolding lift_words
lift_words-LiftsBasicBlock decoder pc i [] block = record {
  insts = sym (append-nil block.insts);
  consumed = omega arith;
  bytes = λ h. omega arith;
  address = refl;
  hits = refl;
}
lift_words-LiftsBasicBlock decoder pc i (word ∷ words) block =
    elim (Bool-cases (terminal decoder word)) [
      | inl t ↦ rw t (last_word decoder pc i word words block t)
      | inr t ↦ rw t (
          next_word decoder pc i word words block t
            (lift_words-LiftsBasicBlock decoder pc (i + 1) words _))
    ]

pub lift_block_at-consumed :
    (decoder : InstDecoder) (words : List A64Inst) (pc : ℕ)
    → (lift_block_at decoder words pc (at pc)).1 ≡ length (basic_block decoder words)
unfolding lift_block_at
lift_block_at-consumed decoder words pc =
    let r = lift_words-LiftsBasicBlock decoder pc 0 words (at pc) in omega (arith, r.consumed)

pub lift_block_at-insts :
    (decoder : InstDecoder) (words : List A64Inst) (pc : ℕ)
    → (lift_block_at decoder words pc (at pc)).0.insts
      ≡ lifted_from decoder pc 0 (basic_block decoder words)
unfolding lift_block_at
lift_block_at-insts decoder words pc = (lift_words-LiftsBasicBlock decoder pc 0 words (at pc)).insts

-- `lift_block_at` into an empty block makes the basic block at its address: one instruction for
-- each word up to the first that ends a block, each lifted at its own address; it consumes those
-- words, and the byte span is four for each.
pub lift_block_at-basic_block :
    (decoder : InstDecoder) (words : List A64Inst) (pc : ℕ)
    → 4 * length (basic_block decoder words) < 2 ^ 64
    → let used = basic_block decoder words in
      lift_block_at decoder words pc (at pc) ≡ (
        record {
          guest_pc = pc;
          insts = lifted_from decoder pc 0 used;
          hit_count = 0;
          guest_byte_len = 4 * length used;
        },
        length used,
      )
unfolding lift_block_at
lift_block_at-basic_block decoder words pc h =
    let r = lift_words-LiftsBasicBlock decoder pc 0 words (at pc) in
    let bytes : byte_len (lift_words decoder pc 0 words (at pc)).0
        ≡ 4 * length (basic_block decoder words) =
      omega (arith, r.bytes (omega (arith, h))) in
    let consumed : (lift_words decoder pc 0 words (at pc)).1 ≡ length (basic_block decoder words) =
      omega (arith, r.consumed) in
    cc (r.insts, consumed, bytes, r.address, r.hits)
