-- ===== src/Runtime/Memory/Access.antt =====
-- src/runtime/memory.rs: mapping, writes and reads, and where they are refused.
use armx.Base.{
  ℕ, ◌+◌, ◌^◌, ◌≤◌, ◌<◌, ◌≡◌, ◌≢◌, refl, ap, ◌∙◌, subst, arith, Bool, true, false, ◌⊎◌, inl, inr,
  ◌↔◌, List, [], ◌∷◌, Option, some, none, length, ltb, ◌==◌, Bool-cases, Option-cases, check,
}
use armx.Base.Bytes.{
  Bytes, copy, read, to_le_bytes, from_le_bytes, read-copy, copy-outside, from_le_bytes-to_le_bytes,
  length-to_le_bytes,
}
use armx.Runtime.Memory.{
  GuestMemory, ok, err, address_overflow, outside_mapped_memory, size_is_zero, last_os_error,
  fixed_address_not_honored, map, host_base, Unmap, drop, host_address, write_bytes, in_bounds,
  write_u32, write_u64, read_u32, read_u64,
}

-- The test of the accesses is exactly that they lie in the mapping.
pub in_bounds_iff :
    (g : GuestMemory) (a n : ℕ) → g.size < 2 ^ 64 → (in_bounds g a n ≡ true) ↔ (a + n ≤ g.size)
unfolding in_bounds
in_bounds_iff g a n h = (λ e. ground arith, λ le. ground arith)

-- A write of bytes is refused exactly if it does not lie in the mapping, with the error that says
-- whether its end overflows; otherwise the bytes are there to read.
pub write_bytes_lem :
    (g : GuestMemory) (a : ℕ) (bytes : List ℕ) (memory : Bytes)
    → ((2 ^ 64 ≤ a + length bytes) × (write_bytes g a bytes memory ≡ err address_overflow))
      ⊎ ((a + length bytes < 2 ^ 64)
          × (g.size < a + length bytes)
          × (write_bytes g a bytes memory ≡ err outside_mapped_memory))
      ⊎ ((a + length bytes < 2 ^ 64)
          × (a + length bytes ≤ g.size)
          × ((memory' : Bytes) × (write_bytes g a bytes memory ≡ ok memory')
              × (read (length bytes) (host_address g a) memory' ≡ bytes)))
unfolding write_bytes
write_bytes_lem g a bytes memory = elim (Bool-cases (ltb (a + length bytes) (2 ^ 64))) [
  | inr over ↦ inl (ground arith, ground arith)
  | inl fits ↦ elim (Bool-cases (ltb g.size (a + length bytes))) [
    | inl out ↦ inr (inl (ground arith, ground arith, ground arith))
    | inr inside ↦ inr (
        inr (
          ground arith,
          ground arith,
          (
            copy bytes (host_address g a) memory,
            ground arith,
            read-copy bytes (host_address g a) memory,
          ),
        ))
  ]
]

-- A successful write of bytes changes no byte outside its range.
pub write_bytes-outside :
    (g : GuestMemory) (a : ℕ) (bytes : List ℕ) (memory : Bytes) (b : ℕ) {memory' : Bytes}
    → write_bytes g a bytes memory ≡ ok memory'
    → (b < host_address g a) ⊎ (host_address g a + length bytes ≤ b)
    → memory' b ≡ memory b
unfolding write_bytes
write_bytes-outside g a bytes memory b {memory'} e outside =
    let same : copy bytes (host_address g a) memory ≡ memory' = ground arith in
    subst (λ (t : Bytes). t b ≡ memory b) same
      (copy-outside bytes (host_address g a) memory b outside)

check-eq-some {ℓ} :
    {A : Type ℓ} (b : Bool) (o : Option A) {a : A} → check b o ≡ some a → (b ≡ true) × (o ≡ some a)
check-eq-some true o e = (refl, e)
check-eq-some false o e = cc

read_back :
    (n v address : ℕ) (memory : Bytes)
    → v < 256 ^ n
    → from_le_bytes (read n address (copy (to_le_bytes n v) address memory)) ≡ v
read_back n v address memory h =
    let same : read n address (copy (to_le_bytes n v) address memory) ≡ to_le_bytes n v =
      subst (λ (k : ℕ). read k address (copy (to_le_bytes n v) address memory) ≡ to_le_bytes n v)
        (length-to_le_bytes n v) (read-copy (to_le_bytes n v) address memory) in
    ap from_le_bytes same ∙ from_le_bytes-to_le_bytes n v h

module _ (g : GuestMemory) (a v : ℕ) (memory : Bytes) where
  -- A 32-bit word inside the mapping is written without a panic, and is read back as it was written.
  pub read_u32-write_u32 :
      a + 4 ≤ g.size
      → g.size < 2 ^ 64
      → v < 2 ^ 32
      → (memory' : Bytes) × (write_u32 g a v memory ≡ some memory')
        × (read_u32 g a memory' ≡ some v)
  unfolding write_u32 read_u32
  read_u32-write_u32 inside small fits =
      let bounds = (in_bounds_iff g a 4 small).1 inside in
      (
        copy (to_le_bytes 4 v) (host_address g a) memory,
        rw bounds,
        rw (bounds, read_back 4 v (host_address g a) memory fits),
      )

  -- A 64-bit word inside the mapping is written without a panic, and is read back as it was written.
  pub read_u64-write_u64 :
      a + 8 ≤ g.size
      → g.size < 2 ^ 64
      → v < 2 ^ 64
      → (memory' : Bytes) × (write_u64 g a v memory ≡ some memory')
        × (read_u64 g a memory' ≡ some v)
  unfolding write_u64 read_u64
  read_u64-write_u64 inside small fits =
      let bounds = (in_bounds_iff g a 8 small).1 inside in
      (
        copy (to_le_bytes 8 v) (host_address g a) memory,
        rw bounds,
        rw (bounds, read_back 8 v (host_address g a) memory fits),
      )

-- A read of a 32-bit word panics exactly where it leaves the mapping.
pub read_u32-none_iff :
    (g : GuestMemory) (a : ℕ) (memory : Bytes)
    → g.size < 2 ^ 64
    → (read_u32 g a memory ≡ none) ↔ (g.size < a + 4)
unfolding read_u32 in_bounds
read_u32-none_iff g a memory h = (λ e. ground arith, λ lt. ground arith)

-- A successful `map` has its mapping at the fixed base, with the size asked for.
pub map-at_base :
    (mmap : ℕ → ℕ → Option ℕ) (size : ℕ) {g : GuestMemory} {calls : List Unmap}
    → map mmap size ≡ (ok g, calls)
    → (0 < size)
      × (mmap host_base size ≡ some host_base)
      × (g.base ≡ host_base)
      × (g.size ≡ size)
      × (calls ≡ [])
unfolding map
map-at_base mmap size e = ground arith

-- The four ends of a call of `map` with a size, by what the kernel answers.
abbrev pub MapsOrReleases : (ℕ → ℕ → Option ℕ) → ℕ → Type 0
MapsOrReleases mmap size =
    ((size ≡ 0) × (map mmap size ≡ (err size_is_zero, [])))
    ⊎ ((0 < size) × (mmap host_base size ≡ none) × (map mmap size ≡ (err last_os_error, [])))
    ⊎ ((0 < size)
        × ((ptr : ℕ) × (mmap host_base size ≡ some ptr)
            × (ptr ≢ host_base)
            × (map mmap size
                ≡ (err fixed_address_not_honored, record { address = ptr; bytes = size } ∷ []))))
    ⊎ ((0 < size)
        × (mmap host_base size ≡ some host_base)
        × ((g : GuestMemory) × (map mmap size ≡ (ok g, []))
            × (drop g ≡ record { address = host_base; bytes = size })
            × ((a n : ℕ) → (in_bounds g a n ≡ true) ↔ (a + n ≤ size))
            × ((a : ℕ) → host_address g a ≡ host_base + a)))

-- For a size of 64 bits, `map` fails without a call of `munmap` for the size 0 and where the kernel
-- fails; it unmaps a mapping at another address than the fixed base at once, with its size, and
-- fails; and it succeeds, without a call of `munmap`, where the kernel maps at the base: then the
-- accesses that pass the test of bounds are those inside the size, they are made from the base on,
-- and dropping the memory unmaps the base with the size.
pub map-drop : (mmap : ℕ → ℕ → Option ℕ) (size : ℕ) → size < 2 ^ 64 → MapsOrReleases mmap size
unfolding map
map-drop mmap size small = elim (Bool-cases (size == 0)) [
  | inl z ↦ inl (ground (arith, z), rw z refl)
  | inr z ↦
      let positive : 0 < size = ground (arith, z) in
      elim (Option-cases (mmap host_base size)) [
        | inl failed ↦ inr (inl (positive, failed, rw (z, failed) refl))
        | inr (ptr, mapped) ↦ elim (Bool-cases (ptr == host_base)) [
          | inl at ↦
              let same : ptr ≡ host_base = ground (arith, at) in
              inr (
                inr (
                  inr (
                    positive,
                    mapped ∙ ap some same,
                    (
                      record { base = host_base; size = size },
                      rw (z, mapped, at) refl,
                      refl,
                      (λ a n. in_bounds_iff (record { base = host_base; size = size }) a n small),
                      (λ a. refl),
                    ),
                  )))
          | inr away ↦
              let other : ptr ≢ host_base = ground (arith, away) in
              inr (inr (inl (positive, (ptr, mapped, other, rw (z, mapped, away) refl))))
        ]
      ]
]
