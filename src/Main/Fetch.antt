-- ===== src/Main/Fetch.antt =====
-- src/main.rs, the fetch of the words of a block.
use armx.Base.{
  ℕ, zero, suc, ◌+◌, ◌*◌, ◌^◌, ◌<◌, ◌≡◌, refl, sym, ap, ◌∙◌, subst, arith, true, false, List, [],
  ◌∷◌, some, u64, ltb, leb, replicate, if◌then◌else◌, Bool-cases, inl, inr,
}
use armx.Base.Bytes.{Bytes, read, from_le_bytes}
use armx.Runtime.Memory.{GuestMemory, host_address, in_bounds, read_u32}
use armx.Main.{ok, fetch_words}

-- The word at a guest address, zero where it does not end inside the memory.
abbrev pub word_at : GuestMemory → Bytes → ℕ → ℕ
word_at g memory address =
    if leb (address + 4) g.size then from_le_bytes (read 4 (host_address g address) memory) else 0

abbrev pub words_at : ℕ → GuestMemory → Bytes → ℕ → List ℕ
words_at zero g memory address = []
words_at (suc n) g memory address = word_at g memory address ∷ words_at n g memory (address + 4)

words_at-outside :
    (n : ℕ) (g : GuestMemory) (memory : Bytes) (address : ℕ)
    → g.size < address + 4
    → words_at n g memory address ≡ replicate n 0
words_at-outside zero g memory address h = refl
words_at-outside (suc n) g memory address h =
    let outside : leb (address + 4) g.size ≡ false = ground arith in
    rw outside (ap (λ ws. 0 ∷ ws) (words_at-outside n g memory (address + 4) (omega arith)))

read_u32-inside :
    (g : GuestMemory) (memory : Bytes) (address : ℕ)
    → address + 4 < 2 ^ 64
    → leb (address + 4) g.size ≡ true
    → read_u32 g address memory ≡ some (from_le_bytes (read 4 (host_address g address) memory))
unfolding read_u32 in_bounds
read_u32-inside g memory address h inside =
    let valid : ltb (address + 4) (2 ^ 64) ≡ true = ground arith in
    rw (read_u32, in_bounds, valid, inside) refl

fetch_words-from :
    (left index pc : ℕ) (g : GuestMemory) (memory : Bytes)
    → pc + (index + left) * 4 < 2 ^ 64
    → fetch_words left index pc g memory ≡ ok (words_at left g memory (pc + index * 4))
unfolding fetch_words
fetch_words-from zero index pc g memory h = refl
fetch_words-from (suc left) index pc g memory h =
    let address : ℕ = pc + index * 4 in
    let valid : ltb (pc + index * 4) (2 ^ 64) ≡ true = ground arith in
    let word : u64 (pc + index * 4 + 4) ≡ pc + index * 4 + 4 = omega arith in
    let next : pc + (index + 1) * 4 ≡ pc + index * 4 + 4 = omega arith in
    let rest =
      subst (λ (a : ℕ). fetch_words left (index + 1) pc g memory ≡ ok (words_at left g memory a))
        next (fetch_words-from left (index + 1) pc g memory (omega (arith, h))) in
    elim (Bool-cases (leb (pc + index * 4 + 4) g.size)) [
      | inl inside ↦
          let not_past : ltb g.size (pc + index * 4 + 4) ≡ false = ground (arith, inside) in
          rw
            (
              fetch_words,
              valid,
              word,
              not_past,
              read_u32-inside g memory (pc + index * 4) (omega (arith, h)) inside,
              rest,
              inside,
            )
            refl
      | inr outside ↦
          let past : ltb g.size (pc + index * 4 + 4) ≡ true = ground (arith, outside) in
          rw (fetch_words, valid, word, past, outside)
            (ap (λ ws. ok (0 ∷ ws))
              (sym (words_at-outside left g memory (pc + index * 4 + 4) (ground (arith, outside)))))
    ]

-- The fetch gives the words from the address on, as many as asked for, with zeros for those that do not
-- end inside the memory; it does not panic and has no error where the addresses do not wrap.
pub fetch_words-words_at :
    (n pc : ℕ) (g : GuestMemory) (memory : Bytes)
    → pc + n * 4 < 2 ^ 64
    → fetch_words n 0 pc g memory ≡ ok (words_at n g memory pc)
fetch_words-words_at n pc g memory h =
    let same : pc + 0 * 4 ≡ pc = omega arith in
    fetch_words-from n 0 pc g memory (omega (arith, h))
    ∙ ap (λ (a : ℕ). ok (words_at n g memory a)) same
