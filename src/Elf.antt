-- ===== src/Elf.antt =====
-- src/elf.rs: from the bytes of an ELF file to a guest memory with its segments. The object crate's
-- parser is a parameter: `none` is its error, and `contents` is `none` where the crate gives an error for
-- a segment's contents. `usize` is 64 bits.
pub mod Align
pub mod Fits
use armx.Base.{
  ℕ, ◌+◌, ◌*◌, ◌-◌, ◌^◌, max, Bool, true, false, List, [], ◌∷◌, ◌++◌, Option, some, none, bit_and,
  ltb, ◌==◌, if◌then◌else◌, ◌>>=◌, map_some, length, checked_add64,
}
use armx.Base.Bytes.{Bytes}
use armx.Runtime.Memory.{map, GuestMemory, IoError, last_os_error, IoResult, Unmap, write_bytes}

abbrev pub page_size : ℕ
page_size = 4096

abbrev pub default_stack_size : ℕ
default_stack_size = 8 * 1024 * 1024

abbrev pub address_space_slack : ℕ
address_space_slack = 16 * 1024 * 1024

-- A segment of the parsed file.
pub record ObjectSegment : Type 0 where
  pub address : ℕ
  pub size : ℕ
  pub contents : Option (List ℕ)

pub record ObjectFile : Type 0 where
  pub is_aarch64 : Bool
  pub entry : ℕ
  pub segments : List ObjectSegment

pub record LoadSegment : Type 0 where
  pub address : ℕ
  pub size : ℕ

pub record LoadedElf : Type 0 where
  pub entry : ℕ
  pub memory : GuestMemory
  pub segments : List LoadSegment

pub data ElfLoadError : Type 0 where
  io : IoError → ElfLoadError
  parse unsupported_architecture : ElfLoadError
  invalid_segment : ℕ → ℕ → ElfLoadError

pub data LoadResult (A : Type 0) : Type 0 where
  ok : A → LoadResult A
  err : ElfLoadError → LoadResult A

-- `(value + alignment - 1) & !(alignment - 1)`.
unfoldable pub align_up : ℕ → ℕ → Option ℕ
align_up value alignment =
    map_some (λ v. bit_and v (2 ^ 64 - alignment)) (checked_add64 value (alignment - 1))

-- The first loop: the end of the last segment, and the segments that are not empty.
unfoldable pub scan : List ObjectSegment → ℕ → List LoadSegment → LoadResult (ℕ × List LoadSegment)
scan [] max_end segments = ok (max_end, segments)
scan (s ∷ rest) max_end segments =
    let skipped = scan rest max_end segments in
    if s.size == 0 then skipped else elim (checked_add64 s.address s.size) [
      | none ↦ err (invalid_segment s.address s.size)
      | some end ↦
          scan rest (max max_end end)
            (segments ++ record { address = s.address; size = s.size } ∷ [])
    ]

-- The size of the guest memory.
unfoldable pub memory_size : ℕ → Option ℕ
memory_size max_end = do
  image_end ← align_up max_end page_size
  n ← checked_add64 image_end default_stack_size
  checked_add64 n address_space_slack

-- The second loop.
unfoldable pub write_segments : GuestMemory → List ObjectSegment → Bytes → LoadResult Bytes
write_segments g [] memory = ok memory
write_segments g (s ∷ rest) memory = elim s.contents [
  | none ↦ err parse
  | some contents ↦
      if ltb s.size (length contents)
      then err (invalid_segment s.address s.size)
      else elim (write_bytes g s.address contents memory) [
        | IoResult.err e ↦ err (io e)
        | IoResult.ok memory' ↦ write_segments g rest memory'
      ]
]

abbrev pub loaded :
    ObjectFile → List LoadSegment → GuestMemory → LoadResult Bytes → LoadResult (LoadedElf × Bytes)
loaded file segments g (ok memory) =
    ok (record { entry = file.entry; memory = g; segments = segments }, memory)
loaded file segments g (err e) = err e

abbrev pub mapped :
    ObjectFile → List LoadSegment → Bytes → IoResult GuestMemory → LoadResult (LoadedElf × Bytes)
mapped file segments memory (IoResult.ok g) =
    loaded file segments g (write_segments g file.segments memory)
mapped file segments memory (IoResult.err e) = err (io e)

abbrev pub sized :
    (ℕ → ℕ → Option ℕ)
    → ObjectFile
    → Bytes
    → ℕ
    → List LoadSegment
    → Option ℕ
    → LoadResult (LoadedElf × Bytes)
sized mmap file memory max_end segments none = err (invalid_segment 0 max_end)
sized mmap file memory max_end segments (some size) = mapped file segments memory (map mmap size).0

abbrev pub scanned :
    (ℕ → ℕ → Option ℕ)
    → ObjectFile
    → Bytes
    → LoadResult (ℕ × List LoadSegment)
    → LoadResult (LoadedElf × Bytes)
scanned mmap file memory (ok (max_end, [])) = err (invalid_segment 0 0)
scanned mmap file memory (ok (max_end, s ∷ segments)) =
    sized mmap file memory max_end (s ∷ segments) (memory_size max_end)
scanned mmap file memory (err e) = err e

abbrev pub load_file :
    (ℕ → ℕ → Option ℕ) → Bytes → Option ObjectFile → LoadResult (LoadedElf × Bytes)
load_file mmap memory none = err parse
load_file mmap memory (some file) =
    if file.is_aarch64
    then scanned mmap file memory (scan file.segments 0 [])
    else err unsupported_architecture

-- `memory` is the host's, with the new mapping; what a failure unmaps is left out.
unfoldable pub load_bytes :
    (List ℕ → Option ObjectFile)
    → (ℕ → ℕ → Option ℕ)
    → List ℕ
    → Bytes
    → LoadResult (LoadedElf × Bytes)
load_bytes object_parse mmap bytes memory = load_file mmap memory (object_parse bytes)

abbrev load_read :
    (List ℕ → Option ObjectFile)
    → (ℕ → ℕ → Option ℕ)
    → Bytes
    → Option (List ℕ)
    → LoadResult (LoadedElf × Bytes)
load_read object_parse mmap memory (some bytes) = load_bytes object_parse mmap bytes memory
load_read object_parse mmap memory none = err (io last_os_error)

-- `read_file` is `fs::read`: `none` for its error.
unfoldable pub load :
    {FilePath : Type 0}
    → (FilePath → Option (List ℕ))
    → (List ℕ → Option ObjectFile)
    → (ℕ → ℕ → Option ℕ)
    → FilePath
    → Bytes
    → LoadResult (LoadedElf × Bytes)
load read_file object_parse mmap path memory = load_read object_parse mmap memory (read_file path)
