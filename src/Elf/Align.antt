-- ===== src/Elf/Align.antt =====
-- src/elf.rs, `align_up`.
use armx.Base.{
  ℕ, ◌+◌, ◌*◌, ◌-◌, ◌/◌, ◌%◌, ◌^◌, ◌≤◌, ◌<◌, ◌≡◌, ◌⊎◌, inl, inr, arith, bit_and, some, none,
  Bool-cases, ltb,
}
use armx.Base.Bits.{bit_and_field}
use armx.Elf.{align_up, page_size}

rounded : (v : ℕ) → v < 2 ^ 64 → bit_and v (2 ^ 64 - page_size) ≡ v / 2 ^ 12 * 2 ^ 12
rounded v h = omega (arith, bit_and_field 52 12 v)

-- `align_up` to pages gives the least multiple of the page size that is not below the value, where
-- the value rounds up within 64 bits, and nothing otherwise.
pub align_up_lem :
    (v : ℕ)
    → ((2 ^ 64 ≤ v + 4095) × (align_up v page_size ≡ none))
      ⊎ ((r : ℕ) × (align_up v page_size ≡ some r) × (r % 4096 ≡ 0) × (v ≤ r) × (r < v + 4096))
unfolding align_up
align_up_lem v = elim (Bool-cases (ltb (v + 4095) (2 ^ 64))) [
  | inr over ↦ inl (ground arith, ground arith)
  | inl fits ↦
      let value = rounded (v + 4095) (ground arith) in
      inr ((v + 4095) / 2 ^ 12 * 2 ^ 12, rw (fits, value), omega arith, omega arith, omega arith)
]
