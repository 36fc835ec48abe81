-- ===== src/Runtime/Memory.antt =====
-- src/runtime/memory.rs: the guest's address space, a mapping at a fixed host address. The host's
-- memory is a function from host addresses to bytes. `mmap` is the kernel's: a parameter that gives
-- the address of the new mapping, or `none` for MAP_FAILED.
pub mod Access
use armx.Base.{
  ℕ, ◌+◌, Bool, true, false, List, [], ◌∷◌, Option, some, none, ltb, leb, ◌==◌, if◌then◌else◌,
  length, checked_add64, check,
}
use armx.Base.Bytes.{Bytes, copy, read, to_le_bytes, from_le_bytes}

abbrev pub host_base : ℕ
host_base = 0x0000_4000_0000_0000

pub record GuestMemory : Type 0 where
  pub base : ℕ
  pub size : ℕ

-- The `io::Error`s: the three that the code makes, and `last_os_error`.
pub data IoError : Type 0 where
  size_is_zero fixed_address_not_honored address_overflow outside_mapped_memory last_os_error :
      IoError

pub data IoResult {ℓ} (A : Type ℓ) : Type ℓ where
  ok : A → IoResult A
  err : IoError → IoResult A

-- What `map` and `drop` ask the kernel to unmap: an address and a size.
pub record Unmap : Type 0 where
  pub address : ℕ
  pub bytes : ℕ

-- The result, and the `munmap` calls made on the way.
unfoldable pub map : (ℕ → ℕ → Option ℕ) → ℕ → IoResult GuestMemory × List Unmap
map mmap size = if size == 0 then (err size_is_zero, []) else elim (mmap host_base size) [
  | none ↦ (err last_os_error, [])
  | some ptr ↦
      if ptr == host_base
      then (ok (record { base = host_base; size = size }), [])
      else (err fixed_address_not_honored, record { address = ptr; bytes = size } ∷ [])
]

abbrev pub drop : GuestMemory → Unmap
drop g = record { address = g.base; bytes = g.size }

abbrev pub host_address : GuestMemory → ℕ → ℕ
host_address g guest_address = g.base + guest_address

unfoldable pub write_bytes : GuestMemory → ℕ → List ℕ → Bytes → IoResult Bytes
write_bytes g guest_address bytes memory = elim (checked_add64 guest_address (length bytes)) [
  | none ↦ err address_overflow
  | some end ↦
      if ltb g.size end
      then err outside_mapped_memory
      else ok (copy bytes (host_address g guest_address) memory)
]

-- `guest_address.checked_add(n).is_some_and(|end| end <= self.size)`.
unfoldable pub in_bounds : GuestMemory → ℕ → ℕ → Bool
in_bounds g guest_address n = elim (checked_add64 guest_address n) [
  | none ↦ false
  | some end ↦ leb end g.size
]

-- The four accesses; `none` is the panic of their `assert!`.
unfoldable pub write_u32 : GuestMemory → ℕ → ℕ → Bytes → Option Bytes
write_u32 g guest_address value memory =
    check (in_bounds g guest_address 4)
      (some (copy (to_le_bytes 4 value) (host_address g guest_address) memory))

unfoldable pub write_u64 : GuestMemory → ℕ → ℕ → Bytes → Option Bytes
write_u64 g guest_address value memory =
    check (in_bounds g guest_address 8)
      (some (copy (to_le_bytes 8 value) (host_address g guest_address) memory))

unfoldable pub read_u32 : GuestMemory → ℕ → Bytes → Option ℕ
read_u32 g guest_address memory =
    check (in_bounds g guest_address 4)
      (some (from_le_bytes (read 4 (host_address g guest_address) memory)))

unfoldable pub read_u64 : GuestMemory → ℕ → Bytes → Option ℕ
read_u64 g guest_address memory =
    check (in_bounds g guest_address 8)
      (some (from_le_bytes (read 8 (host_address g guest_address) memory)))
