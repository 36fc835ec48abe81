-- ===== src/Base/Bytes.antt =====
-- Little-endian byte strings, as Rust's `to_le_bytes` and unaligned reads have them, and a memory
-- as a function from addresses to bytes.
use native.Mathlib.Nat.{pow-suc}
use Prim.Native.Nat.{ℕ, zero, suc, ◌+◌, ◌*◌, ◌/◌, ◌%◌, ◌^◌, ◌≤◌, ◌<◌}
use mathlib.Core.Path.{◌≡◌, refl, ap, ap₂, ◌∙◌}
use mathlib.Core.List.{List, [], ◌∷◌}
use mathlib.Core.Logic.{◌⊎◌, inl}
use native.Mathlib.Omega.{arith}
use armx.Base.Tests.{◌==◌, if◌then◌else◌}
use armx.Base.Arrays.{length}

-- The `n` lowest bytes of `v`.
abbrev pub to_le_bytes : ℕ → ℕ → List ℕ
to_le_bytes zero v = []
to_le_bytes (suc n) v = v % 256 ∷ to_le_bytes n (v / 256)

abbrev pub from_le_bytes : List ℕ → ℕ
from_le_bytes [] = 0
from_le_bytes (b ∷ bytes) = b + 256 * from_le_bytes bytes

abbrev pub Bytes : Type 0
Bytes = ℕ → ℕ

-- `ptr::copy_nonoverlapping` into the memory.
unfoldable pub copy : List ℕ → ℕ → Bytes → Bytes
copy [] address memory = memory
copy (b ∷ bytes) address memory =
    copy bytes (address + 1) (λ a. if a == address then b else memory a)

unfoldable pub read : ℕ → ℕ → Bytes → List ℕ
read zero address memory = []
read (suc n) address memory = memory address ∷ read n (address + 1) memory

pub length-to_le_bytes : (n v : ℕ) → length (to_le_bytes n v) ≡ n
length-to_le_bytes zero v = refl
length-to_le_bytes (suc n) v = ap suc (length-to_le_bytes n (v / 256))

pub from_le_bytes-to_le_bytes : (n v : ℕ) → v < 256 ^ n → from_le_bytes (to_le_bytes n v) ≡ v
from_le_bytes-to_le_bytes zero v h = omega arith
from_le_bytes-to_le_bytes (suc n) v h =
    omega
      (arith, pow-suc 256 n, from_le_bytes-to_le_bytes n (v / 256) (omega (arith, pow-suc 256 n)))

-- A copy leaves every other byte alone.
pub copy-outside :
    (bytes : List ℕ) (address : ℕ) (memory : Bytes) (a : ℕ)
    → (a < address) ⊎ (address + length bytes ≤ a)
    → copy bytes address memory a ≡ memory a
unfolding copy
copy-outside [] address memory a h = refl
copy-outside (b ∷ bytes) address memory a h =
    copy-outside bytes (address + 1) _ a (ground arith) ∙ ground arith

-- What is copied is read back.
pub read-copy :
    (bytes : List ℕ) (address : ℕ) (memory : Bytes)
    → read (length bytes) address (copy bytes address memory) ≡ bytes
unfolding copy read
read-copy [] address memory = refl
read-copy (b ∷ bytes) address memory =
    let next : Bytes = λ a. if a == address then b else memory a in
    ap₂ ◌∷◌ (copy-outside bytes (address + 1) next address (inl (omega arith)) ∙ ground arith)
      (read-copy bytes (address + 1) next)

-- A read away from the copy sees the old bytes.
pub read-copy_disjoint :
    (n a : ℕ) (bytes : List ℕ) (address : ℕ) (memory : Bytes)
    → (a + n ≤ address) ⊎ (address + length bytes ≤ a)
    → read n a (copy bytes address memory) ≡ read n a memory
unfolding read
read-copy_disjoint zero a bytes address memory h = refl
read-copy_disjoint (suc n) a bytes address memory h =
    ap₂ ◌∷◌ (copy-outside bytes address memory a (ground arith))
      (read-copy_disjoint n (a + 1) bytes address memory (ground arith))
